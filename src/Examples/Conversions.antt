-- ===== src/Examples/Conversions.antt =====
-- Conversions at concrete inputs.
use equalify_reflow.Prelude.{ℕ, ◌≡◌, refl, true, some, [], ◌∷◌, ◌==◌, if◌then◌else◌}
use equalify_reflow.Breaker.{open_, check_state, record_success, record_failure}
use equalify_reflow.Docling.{
  Answer, converted, failed, Failure, response, seconds, until_healthy, convert, convert_if,
  convert_with_retry, convert_from, is_counted, is_cold, wait_after, waited,
}
use equalify_reflow.Docling.Decides.{Decided, convert-Decided}
use equalify_reflow.Examples.Breakers.{fresh, probing}

-- The server starts, then is slow, then answers.
abbrev answers : ℕ → Answer ℕ
answers n =
    if n == 1
    then failed (Failure.http_status 503)
    else if n == 2
    then failed Failure.timed_out
    else converted 7

third_attempt : convert answers (λ n. n) 2 true 0 (record fresh { failure_count = 1 }) ≡ record {
  circuit = record fresh { state = open_; failure_count = 3; last_failure_time = some 2 };
  outcome = response 7;
  calls = 3;
  waits = until_healthy ∷ seconds 2 ∷ [];
  cold_starts = 1;
}
unfolding convert convert_if convert_with_retry convert_from is_counted is_cold wait_after waited
    check_state record_success record_failure
third_attempt = refl

-- A document that is too large for the server keeps the slot of the half-open breaker.
slot_kept :
    (convert {A = ℕ} (λ n. failed (Failure.http_status 504)) (λ n. n) 2 true 0 probing).circuit
    ≡ record probing { half_open_calls = 1 }
unfolding convert convert_if convert_with_retry convert_from is_counted is_cold check_state
slot_kept = refl

convert-Decided_example :
    Decided answers 2 1 true
      (convert answers (λ n. n) 2 true 0 (record fresh { failure_count = 1 }))
unfolding check_state
convert-Decided_example =
    convert-Decided answers (λ n. n) 2 true 0 (record fresh { failure_count = 1 }) refl
