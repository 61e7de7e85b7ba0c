-- ===== src/Breaker.antt =====
-- The circuit breaker (src/utils/circuit_breaker.py). Each method runs under the object's lock, so
-- it is one function from the object's state to its new state. `time.time()` is an argument, a
-- number of clock ticks, and so is the configured timeout; the logging calls are left out.
pub mod Invariant
pub mod Traces
use equalify_reflow.Prelude.{
  ℕ, ◌+◌, ◌-◌, Bool, true, false, Option, none, some, leb, ltb, if◌then◌else◌,
}

pub data CircuitState : Type 0 where
  closed open_ half_open : CircuitState

pub record CircuitBreakerConfig : Type 0 where
  pub failure_threshold : ℕ
  pub success_threshold : ℕ
  pub timeout : ℕ
  pub half_open_max_calls : ℕ

-- The two messages of `CircuitBreakerOpenError`.
pub data CircuitBreakerOpenError : Type 0 where
  is_open_error half_open_limit : CircuitBreakerOpenError

pub record CircuitBreaker : Type 0 where
  pub config : CircuitBreakerConfig
  pub state : CircuitState
  pub failure_count : ℕ
  pub success_count : ℕ
  pub last_failure_time : Option ℕ
  pub half_open_calls : ℕ

-- The default configuration, in ticks of one second.
abbrev pub default_config : CircuitBreakerConfig
default_config = record {
  failure_threshold = 5;
  success_threshold = 2;
  timeout = 60;
  half_open_max_calls = 1;
}

abbrev or_given : Option ℕ → ℕ → ℕ
or_given none d = d
or_given (some n) d = n

abbrev config_or_default : Option CircuitBreakerConfig → CircuitBreakerConfig
config_or_default none = default_config
config_or_default (some c) = c

-- `__init__`: the overrides replace the fields of the configuration given.
unfoldable pub new : Option CircuitBreakerConfig → Option ℕ → Option ℕ → Option ℕ → CircuitBreaker
new config failure_threshold success_threshold timeout =
    let c = config_or_default config in
    record {
      config = record c {
        failure_threshold = or_given failure_threshold c.failure_threshold;
        success_threshold = or_given success_threshold c.success_threshold;
        timeout = or_given timeout c.timeout;
      };
      state = closed;
      failure_count = 0;
      success_count = 0;
      last_failure_time = none;
      half_open_calls = 0;
    }

unfoldable pub transition_to_open : CircuitBreaker → CircuitBreaker
transition_to_open b = record b { state = open_; success_count = 0; half_open_calls = 0 }

unfoldable pub transition_to_half_open : CircuitBreaker → CircuitBreaker
transition_to_half_open b = record b {
  state = half_open;
  success_count = 0;
  failure_count = 0;
  half_open_calls = 0;
}

unfoldable pub transition_to_closed : CircuitBreaker → CircuitBreaker
transition_to_closed b = record b {
  state = closed;
  failure_count = 0;
  success_count = 0;
  last_failure_time = none;
  half_open_calls = 0;
}

-- `time.time() - last >= timeout`, also for a clock that was set back.
abbrev timed_out : CircuitState → Option ℕ → ℕ → ℕ → Bool
timed_out open_ (some last) timeout now = leb (last + timeout) now
timed_out _ _ _ _ = false

unfoldable pub update_state : ℕ → CircuitBreaker → CircuitBreaker
unfolding transition_to_half_open
update_state now b =
    if timed_out b.state b.last_failure_time b.config.timeout now
    then transition_to_half_open b
    else b

-- The property `state`.
unfoldable pub get_state : ℕ → CircuitBreaker → CircuitBreaker × CircuitState
unfolding update_state
get_state now b = let b' = update_state now b in (b', b'.state)

abbrev state_is_open : CircuitState → Bool
state_is_open open_ = true
state_is_open _ = false

-- The property `is_open`.
unfoldable pub is_open : ℕ → CircuitBreaker → CircuitBreaker × Bool
unfolding get_state
is_open now b = let (b', s) = get_state now b in (b', state_is_open s)

admit : CircuitState → CircuitBreaker → CircuitBreaker × Option CircuitBreakerOpenError
admit open_ b = (b, some is_open_error)
admit half_open b =
    if leb b.config.half_open_max_calls b.half_open_calls
    then (b, some half_open_limit)
    else (record b { half_open_calls = b.half_open_calls + 1 }, none)
admit closed b = (b, none)

unfoldable pub check_state : ℕ → CircuitBreaker → CircuitBreaker × Option CircuitBreakerOpenError
unfolding update_state admit
check_state now b = let b' = update_state now b in admit b'.state b'

-- `max(0, calls - 1)` is the truncated difference.
success_in : CircuitState → CircuitBreaker → CircuitBreaker
unfolding transition_to_closed
success_in half_open b =
    let b' = record b {
      success_count = b.success_count + 1;
      half_open_calls = b.half_open_calls - 1;
    } in
    if leb b'.config.success_threshold b'.success_count then transition_to_closed b' else b'
success_in closed b = if ltb 0 b.failure_count then record b { failure_count = 0 } else b
success_in open_ b = b

unfoldable pub record_success : CircuitBreaker → CircuitBreaker
unfolding success_in
record_success b = success_in b.state b

failure_in : CircuitState → CircuitBreaker → CircuitBreaker
unfolding transition_to_open
failure_in half_open b = transition_to_open (record b { half_open_calls = b.half_open_calls - 1 })
failure_in closed b =
    if leb b.config.failure_threshold b.failure_count then transition_to_open b else b
failure_in open_ b = b

unfoldable pub record_failure : ℕ → CircuitBreaker → CircuitBreaker
unfolding failure_in
record_failure now b =
    failure_in b.state
      (record b { failure_count = b.failure_count + 1; last_failure_time = some now })

unfoldable pub reset : CircuitBreaker → CircuitBreaker
unfolding transition_to_closed
reset b = transition_to_closed b

-- The counters that `get_stats` reports; the name and the configuration are constants.
pub record Stats : Type 0 where
  pub state : CircuitState
  pub failure_count : ℕ
  pub success_count : ℕ
  pub last_failure_time : Option ℕ
  pub half_open_calls : ℕ
  pub config : CircuitBreakerConfig

unfoldable pub get_stats : ℕ → CircuitBreaker → CircuitBreaker × Stats
unfolding update_state
get_stats now b =
    let b' = update_state now b in
    (
      b',
      record {
        state = b'.state;
        failure_count = b'.failure_count;
        success_count = b'.success_count;
        last_failure_time = b'.last_failure_time;
        half_open_calls = b'.half_open_calls;
        config = b'.config;
      },
    )
