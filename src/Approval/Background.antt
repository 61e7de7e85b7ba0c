-- ===== src/Approval/Background.antt =====
-- The background part of an instant approval or denial (src/services/approval_service.py).
use equalify_reflow.Prelude.{
  String, Bool, true, false, not, Option, none, some, [], ◌∷◌, if◌then◌else◌,
}
use equalify_reflow.Redis.{Redis, Hash}
use equalify_reflow.Redis.Exec.{World, Exec, pure, catch, finally_, ◌>>=◌, ◌>>◌}
use equalify_reflow.Job.{
  get_job, status_processing, status_processing_queued, status_awaiting_approval, status_denied,
}
use equalify_reflow.Job.Fields.{structure}
use equalify_reflow.Cleanup.{cleanup_job_files}
use equalify_reflow.Approval.{
  Services, DecisionMetadata, update, untrack, acquire, release, trigger, status_in,
}

module _ {r : Redis} (s : Services) where
  unfoldable pub decision_metadata :
      (decision justification reviewed_by : String) → World r → DecisionMetadata
  decision_metadata decision justification reviewed_by w = record {
    decision = decision;
    justification = justification;
    reviewed_by = reviewed_by;
    reviewed_at = s.isoformat (w.now w.calls);
  }

  -- The job as it is found under the lock.
  unfoldable pub approve_found :
      (job_id justification reviewed_by : String) → Option Hash → Exec r (Unit {0})
  approve_found job_id justification reviewed_by none = pure tt
  approve_found job_id justification reviewed_by (some job) =
      if not (status_in (job "status") status_processing_queued status_awaiting_approval)
      then pure tt
      else do
        (λ w.
            update s job_id status_processing
              ((
                "approval_decision",
                structure (s.dumps (decision_metadata "approved" justification reviewed_by w)),
              )
                ∷ [])
              w)
        trigger s job_id job

  unfoldable pub locked_approval : (job_id justification reviewed_by : String) → Exec r (Unit {0})
  locked_approval job_id justification reviewed_by = do
    job ← get_job job_id
    approve_found job_id justification reviewed_by job

  unfoldable pub approve_if_acquired :
      (job_id justification reviewed_by : String) → Bool → Exec r (Unit {0})
  approve_if_acquired job_id justification reviewed_by false = pure tt
  approve_if_acquired job_id justification reviewed_by true =
      finally_ (locked_approval job_id justification reviewed_by) (release job_id)

  unfoldable pub process_approval_background :
      (job_id justification reviewed_by : String) → Exec r (Unit {0})
  process_approval_background job_id justification reviewed_by =
      catch
        (do
          untrack job_id
          acquired ← acquire job_id
          approve_if_acquired job_id justification reviewed_by acquired)
        λ e. pure tt

  unfoldable pub process_denial_background :
      (job_id s3_key justification reviewed_by : String) → Exec r (Unit {0})
  process_denial_background job_id s3_key justification reviewed_by =
      catch
        (do
          untrack job_id
          cleanup_job_files s.delete_object s3_key
          (λ w.
              update s job_id status_denied
                ((
                  "denial_decision",
                  structure (s.dumps (decision_metadata "denied" justification reviewed_by w)),
                )
                  ∷ [])
                w))
        λ e. pure tt
