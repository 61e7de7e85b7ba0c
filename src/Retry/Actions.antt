-- ===== src/Retry/Actions.antt =====
-- The retry loop around an action over Redis (src/utils/retry_helpers.py). The sleeps between two
-- attempts leave nothing behind, and are left out.
use equalify_reflow.Prelude.{ℕ, zero, suc, ◌+◌, not, ◌||◌, ◌==◌, if◌then◌else◌}
use equalify_reflow.Errors.{runtime_error, Result, ok, err}
use equalify_reflow.Redis.{Redis}
use equalify_reflow.Redis.Exec.{World, Exec}
use equalify_reflow.Retry.{is_retryable_error}

module _ {r : Redis} {A : Type 0} where
  -- The end of an attempt: its value, its error, or the rest of the loop.
  unfoldable pub next_attempt :
      (max_attempts attempt : ℕ) (rest : Exec r A) → Result A × World r → Result A × World r
  next_attempt max_attempts attempt rest (ok a, w) = (ok a, w)
  next_attempt max_attempts attempt rest (err e, w) =
      if not (is_retryable_error e) || attempt == max_attempts then (err e, w) else rest w

  unfoldable pub attempts_of : (max_attempts : ℕ) (func : Exec r A) (left attempt : ℕ) → Exec r A
  attempts_of max_attempts func zero attempt w = (err runtime_error, w)
  attempts_of max_attempts func (suc left) attempt w =
      next_attempt max_attempts attempt (attempts_of max_attempts func left (attempt + 1)) (func w)

  unfoldable pub retrying : (max_attempts : ℕ) (func : Exec r A) → Exec r A
  retrying max_attempts func = attempts_of max_attempts func max_attempts 1
