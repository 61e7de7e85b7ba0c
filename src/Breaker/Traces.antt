-- ===== src/Breaker/Traces.antt =====
-- Runs of method calls on one circuit breaker (src/utils/circuit_breaker.py).
use equalify_reflow.Prelude.{
  ℕ, ◌+◌, ◌≤◌, ◌<◌, ◌≡◌, Bool, true, false, Option, none, some, List, [], ◌∷◌, arith, refl, ltb,
  length, if◌then◌else◌, Bool-cases, inl, inr,
}
use equalify_reflow.Breaker.{
  closed, open_, half_open, CircuitBreakerConfig, CircuitBreaker, is_open_error, half_open_limit,
  new, update_state, check_state, record_success, record_failure, reset, is_open, get_stats,
  get_state,
}
use equalify_reflow.Breaker.Invariant.{
  Inv, update_state-Inv, check_state-Inv, record_success-Inv, record_failure-Inv, reset-Inv,
  new-Inv,
}

-- A call of one of the methods, with the time at which it is made.
pub data Call : Type 0 where
  state_ is_open_ check get_stats_ : ℕ → Call
  success : Call
  failure : ℕ → Call
  reset_ : Call

unfoldable pub call : Call → CircuitBreaker → CircuitBreaker
call (state_ now) b = (get_state now b).0
call (is_open_ now) b = (is_open now b).0
call (check now) b = (check_state now b).0
call (get_stats_ now) b = (get_stats now b).0
call success b = record_success b
call (failure now) b = record_failure now b
call reset_ b = reset b

unfoldable pub calls : List Call → CircuitBreaker → CircuitBreaker
calls [] b = b
calls (c ∷ cs) b = calls cs (call c b)

call-Inv : (c : Call) (b : CircuitBreaker) → Inv b → Inv (call c b)
unfolding call get_state is_open get_stats
call-Inv (state_ now) b h = update_state-Inv now b h
call-Inv (is_open_ now) b h = update_state-Inv now b h
call-Inv (check now) b h = check_state-Inv now b h
call-Inv (get_stats_ now) b h = update_state-Inv now b h
call-Inv success b h = record_success-Inv b h
call-Inv (failure now) b h = record_failure-Inv now b h
call-Inv reset_ b h = reset-Inv b

calls-Inv : (cs : List Call) (b : CircuitBreaker) → Inv b → Inv (calls cs b)
unfolding calls
calls-Inv [] b h = h
calls-Inv (c ∷ cs) b h = calls-Inv cs (call c b) (call-Inv c b h)

-- After any calls, at any times, on a new breaker of any configuration, the state, the counters
-- and the time of the last failure are consistent: the invariant `Inv` holds.
pub calls-new-Inv :
    (cs : List Call) (c : Option CircuitBreakerConfig) (f s t : Option ℕ)
    → Inv (calls cs (new c f s t))
calls-new-Inv cs c f s t = calls-Inv cs (new c f s t) (new-Inv c f s t)

-- An open breaker rejects every call until the timeout since the last failure has passed, and is
-- left as it is; from then on it admits the call, as the first of the half-open state with all
-- counters reset (if one may be made in that state).
check_state-open :
    (b : CircuitBreaker) (last now : ℕ)
    → b.state ≡ open_
    → b.last_failure_time ≡ some last
    → 0 < b.config.half_open_max_calls
    → check_state now b ≡ (
        if ltb now (last + b.config.timeout) then (b, some is_open_error) else (
          record b { state = half_open; success_count = 0; failure_count = 0; half_open_calls = 1 },
          none,
        ))
unfolding check_state
check_state-open b last now o l m = ground arith

pub failures : (times : List ℕ) → CircuitBreaker → CircuitBreaker
failures [] b = b
failures (t ∷ ts) b = failures ts (record_failure t b)

failures_opened :
    (ts : List ℕ) (b : CircuitBreaker) → b.state ≡ open_ → (failures ts b).state ≡ open_
unfolding failures record_failure
failures_opened [] b o = o
failures_opened (t ∷ ts) b o = failures_opened ts (record_failure t b) (ground arith)

-- From the closed state, with fewer recorded failures than the threshold, the breaker opens with
-- the failure that reaches the threshold and not before: it is closed exactly while the number of
-- consecutive failures is below the threshold, and open otherwise.
failures-state :
    (ts : List ℕ) (b : CircuitBreaker)
    → b.state ≡ closed
    → b.failure_count < b.config.failure_threshold
    → (failures ts b).state
      ≡ (if ltb (b.failure_count + length ts) b.config.failure_threshold then closed else open_)
unfolding failures record_failure
failures-state [] b c h = ground arith
failures-state (t ∷ ts) b c h =
    elim (Bool-cases (ltb (b.failure_count + 1) b.config.failure_threshold)) [
      | inl below ↦
          ground (arith, failures-state ts (record_failure t b) (ground arith) (ground arith))
      | inr reached ↦ ground (arith, failures_opened ts (record_failure t b) (ground arith))
    ]

-- The calls that neither report an outcome nor reset the breaker.
abbrev pub is_observation : Call → Bool
is_observation success = false
is_observation (failure now) = false
is_observation reset_ = false
is_observation _ = true

abbrev pub Observations : List Call → Type 0
Observations [] = Unit {0}
Observations (c ∷ cs) = (is_observation c ≡ true) × Observations cs

call_exhausted :
    (c : Call) (b : CircuitBreaker)
    → is_observation c ≡ true
    → b.state ≡ half_open
    → b.config.half_open_max_calls ≤ b.half_open_calls
    → call c b ≡ b
unfolding call get_state is_open get_stats check_state update_state
call_exhausted c b o h m = ground arith

-- Once the half-open state has admitted as many calls as it allows, and none of them reports an
-- outcome, nothing but a report or a reset lets a call through again: whatever is asked, and
-- however much time passes, the breaker stays as it is and rejects every call.
calls_exhausted :
    (cs : List Call) (b : CircuitBreaker) (now : ℕ)
    → Observations cs
    → b.state ≡ half_open
    → b.config.half_open_max_calls ≤ b.half_open_calls
    → (calls cs b ≡ b) × (check_state now (calls cs b) ≡ (b, some half_open_limit))
unfolding calls
calls_exhausted [] b now o h m = (refl, unfold check_state update_state in ground arith)
calls_exhausted (c ∷ cs) b now o h m =
    rw (call_exhausted c b o.0 h m) (calls_exhausted cs b now o.1 h m)

-- A caller that asks for admission and then reports a success, at each of the times.
pub probes : (times : List ℕ) → CircuitBreaker → CircuitBreaker
probes [] b = b
probes (t ∷ ts) b = probes ts (record_success (check_state t b).0)

probes_closed : (ts : List ℕ) (b : CircuitBreaker) → b.state ≡ closed → (probes ts b).state ≡ closed
unfolding probes record_success check_state
probes_closed [] b c = c
probes_closed (t ∷ ts) b c = probes_closed ts (record_success (check_state t b).0) (ground arith)

-- In the half-open state with a free slot, probes that succeed one after another close the breaker
-- with the one that reaches the success threshold and not before.
probes-state :
    (ts : List ℕ) (b : CircuitBreaker)
    → b.state ≡ half_open
    → b.half_open_calls < b.config.half_open_max_calls
    → b.success_count < b.config.success_threshold
    → (probes ts b).state
      ≡ (if ltb (b.success_count + length ts) b.config.success_threshold then half_open else closed)
unfolding probes record_success check_state
probes-state [] b c f h = ground arith
probes-state (t ∷ ts) b c f h =
    elim (Bool-cases (ltb (b.success_count + 1) b.config.success_threshold)) [
      | inl below ↦ ground (
        arith,
        probes-state ts (record_success (check_state t b).0) (ground arith) (ground arith)
            (ground arith),
      )
      | inr reached ↦
          ground (arith, probes_closed ts (record_success (check_state t b).0) (ground arith))
    ]
