-- ===== src/Examples/Breakers.antt =====
-- The circuit breaker at concrete inputs.
use equalify_reflow.Prelude.{none, some, [], ◌∷◌}
use equalify_reflow.Breaker.{CircuitBreaker, new, closed, open_, half_open}
use equalify_reflow.Breaker.Invariant.{Inv}
use equalify_reflow.Breaker.Traces.{check, failure, success, calls, calls-new-Inv}

abbrev pub fresh : CircuitBreaker
fresh = record {
  config = record {
    failure_threshold = 2;
    success_threshold = 2;
    timeout = 60;
    half_open_max_calls = 1;
  };
  state = closed;
  failure_count = 0;
  success_count = 0;
  last_failure_time = none;
  half_open_calls = 0;
}

abbrev pub tripped : CircuitBreaker
tripped = record fresh { state = open_; failure_count = 2; last_failure_time = some 100 }

abbrev pub probing : CircuitBreaker
probing = record fresh { state = half_open; last_failure_time = some 100 }

abbrev pub full : CircuitBreaker
full = record probing { half_open_calls = 1 }

calls-new-Inv_example :
    Inv (calls (failure 1 ∷ failure 2 ∷ check 70 ∷ success ∷ []) (new none (some 2) none none))
calls-new-Inv_example =
    calls-new-Inv (failure 1 ∷ failure 2 ∷ check 70 ∷ success ∷ []) none (some 2) none none
