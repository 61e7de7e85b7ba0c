-- ===== src/Approval/Token.antt =====
-- Validation of approval tokens (src/services/approval_service.py).
pub mod Expiry
use equalify_reflow.Prelude.{String, Option, none, some, ℕ, ltb, str_eq, if◌then◌else◌}
use equalify_reflow.Redis.{Redis, Hash}
use equalify_reflow.Redis.Exec.{Exec, pure, catch, ◌>>=◌}
use equalify_reflow.Job.Service.{get_job_by_approval_token}
use equalify_reflow.Approval.{Services, Stamp, naive, aware}

-- The clock is read after the job was fetched.
unfoldable pub before_expiry : Option Stamp → (now : ℕ) → Hash → Option Hash
before_expiry none now job = none
before_expiry (some (naive t)) now job = none
before_expiry (some (aware t)) now job = if ltb now t then some job else none

unfoldable pub unexpired : Services → Option String → (now : ℕ) → Hash → Option Hash
unexpired s none now job = none
unexpired s (some text) now job =
    if str_eq text "" then none else before_expiry (s.fromisoformat text) now job

unfoldable pub valid_job : Services → Option Hash → (now : ℕ) → Option Hash
valid_job s none now = none
valid_job s (some job) now = unexpired s (job "approval_expires_at") now job

unfoldable pub validate_approval_token :
    {r : Redis} → Services → (token : String) → Exec r (Option Hash)
validate_approval_token s token =
    catch
      (do job ← get_job_by_approval_token token; (λ w. pure (valid_job s job (w.now w.calls)) w))
      λ e. pure none
