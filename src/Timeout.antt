-- ===== src/Timeout.antt =====
-- Approvals that were not given in time (src/services/timeout_service.py).
pub mod Safety
pub mod Worker
pub mod Punctual
pub mod Expiry
use equalify_reflow.Prelude.{
  ℕ, zero, suc, ◌+◌, String, Bool, true, false, not, Option, none, some, List, [], ◌∷◌, ltb, str_eq,
  if◌then◌else◌,
}
use equalify_reflow.Errors.{ok}
use equalify_reflow.Redis.{Redis, Hash}
use equalify_reflow.Redis.Keys.{job_key}
use equalify_reflow.Redis.Exec.{
  World, Exec, pure, raise, call, catch, continue, handle, ◌>>=◌, ◌>>◌,
}
use equalify_reflow.Job.{get_job, status_failed, status_awaiting_approval}
use equalify_reflow.Job.Fields.{scalar}
use equalify_reflow.Job.Service.{emit_job_audit_log}
use equalify_reflow.Metrics.{increment_metric}
use equalify_reflow.Cleanup.{cleanup_job_files}
use equalify_reflow.Queue.{get_expired_timeouts, remove_from_timeout_tracking}
use equalify_reflow.Approval.{Services, update}

-- `job_data.get("status") == status`
abbrev pub status_is : Option String → String → Bool
status_is none t = false
status_is (some u) t = str_eq u t

module _ {r : Redis} (s : Services) where
  -- A missing key and an empty one are both false.
  unfoldable pub cleanup_if_given : Option String → Exec r Bool
  cleanup_if_given none = pure false
  cleanup_if_given (some s3_key) =
      if str_eq s3_key "" then pure false else cleanup_job_files s.delete_object s3_key

  unfoldable pub expire_awaiting : (job_id : String) → Hash → Exec r Bool
  expire_awaiting job_id job_data = do
    emit_job_audit_log job_id
    update s job_id status_failed
        (("error_message", scalar "Approval deadline exceeded - no response received") ∷ [])
    cleanup_if_given (job_data "s3_key")
    remove_from_timeout_tracking job_id "approval"
    pure true

  unfoldable pub expire_found : (job_id : String) → Option Hash → Exec r Bool
  expire_found job_id none = do remove_from_timeout_tracking job_id "approval"; pure false
  expire_found job_id (some job_data) =
      if not (status_is (job_data "status") status_awaiting_approval)
      then (do remove_from_timeout_tracking job_id "approval"; pure false)
      else expire_awaiting job_id job_data

  unfoldable pub process_expired_job : (job_id : String) → Exec r Bool
  process_expired_job job_id =
      catch (do job_data ← get_job job_id; expire_found job_id job_data) λ e. pure false

  -- One round of the loop: a job that raises is passed over.
  unfoldable pub process_each : List (String × ℕ) → (processed_count : ℕ) → Exec r ℕ
  process_each [] processed_count = pure processed_count
  process_each ((job_id, expiration) ∷ rest) processed_count = do
    success ← catch (process_expired_job job_id) λ e. pure false
    process_each rest (if success then processed_count + 1 else processed_count)

  unfoldable pub count_processed : ℕ → Exec r ℕ
  count_processed processed_count =
      if ltb 0 processed_count
      then (do increment_metric "approval_timeouts_processed" processed_count; pure processed_count)
      else pure processed_count

  unfoldable pub process_expired_approvals : Exec r ℕ
  process_expired_approvals =
      catch
        (do
          expired_timeouts ← get_expired_timeouts "approval"
          processed_count ← process_each expired_timeouts 0
          count_processed processed_count)
        λ e. do increment_metric "approval_timeout_errors" 1; raise e
