-- ===== src/Docling.antt =====
-- The client of the conversion server (src/services/docling_serve_client.py): one breaker for all
-- conversions, and the retries. The outcome of each attempt is an argument, as are the readings of
-- the clock by the breaker; the semaphore, which only delays a call, and the request are left out.
pub mod Decides
use equalify_reflow.Prelude.{
  ℕ, zero, suc, ◌+◌, ◌-◌, ◌^◌, Bool, true, false, ◌||◌, Option, none, some, List, [], ◌∷◌, ◌++◌,
  min, leb, ◌==◌, if◌then◌else◌,
}
use equalify_reflow.Breaker.{
  CircuitBreaker, CircuitBreakerOpenError, check_state, record_success, record_failure, new,
}

-- The errors that the handlers tell apart: no connection, a timeout, and a status of the server.
pub data Failure : Type 0 where
  unreachable timed_out : Failure
  http_status : ℕ → Failure
  other_failure : Failure

pub data Answer (A : Type 0) : Type 0 where
  converted : A → Answer A
  failed : Failure → Answer A

-- What is done before the next attempt: waiting until the server is healthy, or so many seconds.
pub data Wait : Type 0 where
  until_healthy : Wait
  seconds : ℕ → Wait

pub data Outcome (A : Type 0) : Type 0 where
  response : A → Outcome A
  raised : Failure → Outcome A
  circuit_open : Outcome A

pub record Conversion (A : Type 0) : Type 0 where
  pub circuit : CircuitBreaker
  pub outcome : Outcome A
  pub calls : ℕ
  pub waits : List Wait
  pub cold_starts : ℕ

-- _CIRCUIT_BREAKER
abbrev pub docling_breaker : CircuitBreaker
docling_breaker = new none (some 10) none (some 360)

-- Whether the server may be starting.
unfoldable pub is_cold : Failure → Bool
is_cold unreachable = true
is_cold timed_out = false
is_cold (http_status code) = code == 503
is_cold other_failure = false

-- A failure that the breaker is told of, and after which the request is tried again.
unfoldable pub is_counted : Failure → Bool
is_counted unreachable = true
is_counted timed_out = true
is_counted (http_status code) = if code == 504 then false else leb 500 code
is_counted other_failure = false

unfoldable pub wait_after : (attempt : ℕ) → Failure → Wait
wait_after attempt e = if is_cold e then until_healthy else seconds (min (2 ^ (attempt - 1)) 8)

abbrev pub one_if : Bool → ℕ
one_if true = 1
one_if false = 0

abbrev pub and_not : Bool → Bool → Bool
and_not a true = false
and_not a false = a

-- What an attempt that is tried again adds to the conversion.
unfoldable pub waited :
    {A : Type 0} → (attempt : ℕ) → Failure → (callback : Bool) → Conversion A → Conversion A
waited attempt e callback c = record c {
  calls = suc c.calls;
  waits = wait_after attempt e ∷ c.waits;
  cold_starts = (if is_cold e then one_if callback else 0) + c.cold_starts;
}

-- A conversion that ends with this attempt.
abbrev pub final : {A : Type 0} → CircuitBreaker → Outcome A → Conversion A
final b outcome = record { circuit = b; outcome = outcome; calls = 1; waits = []; cold_starts = 0 }

module _ {A : Type 0} (do_convert : ℕ → Answer A) (now : ℕ → ℕ) where
  -- The attempts from `attempt` on, with so many retries left; `callback` tells whether the callback
  -- for a cold start is there and has not been called.
  unfoldable pub convert_from :
      (retries_left attempt : ℕ) (callback : Bool) (b : CircuitBreaker) → Answer A → Conversion A
  convert_from left attempt callback b (converted a) = final (record_success b) (response a)
  convert_from zero attempt callback b (failed e) =
      final (if is_counted e then record_failure (now attempt) b else b) (raised e)
  convert_from (suc left) attempt callback b (failed e) =
      let rest =
        convert_from left (suc attempt) (and_not callback (is_cold e))
          (record_failure (now attempt) b) (do_convert (suc attempt)) in
      if is_counted e then waited attempt e callback rest else final b (raised e)

  unfoldable pub convert_with_retry :
      (max_retries : ℕ) (callback : Bool) → CircuitBreaker → Conversion A
  convert_with_retry max_retries callback b = convert_from max_retries 1 callback b (do_convert 1)

  unfoldable pub convert_if :
      (max_retries : ℕ) (callback : Bool)
      → CircuitBreaker × Option CircuitBreakerOpenError
      → Conversion A
  convert_if max_retries callback (b, none) = convert_with_retry max_retries callback b
  convert_if max_retries callback (b, some e) = record {
    circuit = b;
    outcome = circuit_open;
    calls = 0;
    waits = [];
    cold_starts = 0;
  }

  -- `checked` is the reading of the clock at the check of the breaker.
  unfoldable pub convert :
      (max_retries : ℕ) (callback : Bool) (checked : ℕ) → CircuitBreaker → Conversion A
  convert max_retries callback checked b = convert_if max_retries callback (check_state checked b)
