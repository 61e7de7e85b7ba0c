-- ===== src/Breaker/Invariant.antt =====
-- What holds of a circuit breaker (src/utils/circuit_breaker.py) between two method calls.
use equalify_reflow.Prelude.{ℕ, ◌≤◌, ◌<◌, ◌≡◌, ◌≢◌, ◌⊎◌, Option, none, arith}
use equalify_reflow.Breaker.{
  closed, open_, half_open, CircuitBreakerConfig, CircuitBreaker, new, update_state, check_state,
  record_success, record_failure, reset,
}

-- The consistency of the state, the counters and the time of the last failure.
pub record Inv (b : CircuitBreaker) : Type 0 where
  pub closed_clean : b.state ≡ closed → (b.success_count ≡ 0) × (b.half_open_calls ≡ 0)
  pub closed_below :
      b.state ≡ closed → (b.failure_count ≡ 0) ⊎ (b.failure_count < b.config.failure_threshold)
  pub open_clean : b.state ≡ open_ → (b.success_count ≡ 0) × (b.half_open_calls ≡ 0)
  pub open_stamped : b.state ≡ open_ → b.last_failure_time ≢ none
  pub half_open_capped : b.state ≡ half_open → b.half_open_calls ≤ b.config.half_open_max_calls
  pub half_open_pending :
      b.state ≡ half_open → (b.success_count ≡ 0) ⊎ (b.success_count < b.config.success_threshold)
  pub half_open_clean : b.state ≡ half_open → b.failure_count ≡ 0

pub update_state-Inv : (now : ℕ) (b : CircuitBreaker) → Inv b → Inv (update_state now b)
unfolding update_state
update_state-Inv now b h = ground arith

pub check_state-Inv : (now : ℕ) (b : CircuitBreaker) → Inv b → Inv (check_state now b).0
unfolding check_state
check_state-Inv now b h = ground arith

pub record_success-Inv : (b : CircuitBreaker) → Inv b → Inv (record_success b)
unfolding record_success
record_success-Inv b h = ground arith

pub record_failure-Inv : (now : ℕ) (b : CircuitBreaker) → Inv b → Inv (record_failure now b)
unfolding record_failure
record_failure-Inv now b h = ground arith

pub reset-Inv : (b : CircuitBreaker) → Inv (reset b)
unfolding reset
reset-Inv b = ground arith

pub new-Inv : (c : Option CircuitBreakerConfig) (f s t : Option ℕ) → Inv (new c f s t)
unfolding new
new-Inv c f s t = ground arith
