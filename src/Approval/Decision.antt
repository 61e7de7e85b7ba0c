-- ===== src/Approval/Decision.antt =====
-- Decisions on a document: the direct path, the instant answers and the endpoint
-- (src/services/approval_service.py, src/api/approval.py).
use equalify_reflow.Prelude.{
  String, Bool, true, false, not, Option, none, some, [], ◌∷◌, str_eq, if◌then◌else◌,
}
use equalify_reflow.Errors.{Exception, http_exception, value_error, other_error}
use equalify_reflow.Redis.{Redis, Hash}
use equalify_reflow.Redis.Exec.{Exec, pure, raise, catch, finally_, ◌>>=◌, ◌>>◌}
use equalify_reflow.Job.{
  get_job, status_processing, status_processing_queued, status_awaiting_approval, status_denied,
  status_pii_scanning,
}
use equalify_reflow.Job.Fields.{structure, scalar}
use equalify_reflow.Cleanup.{cleanup_job_files}
use equalify_reflow.Approval.{
  Services, DecisionMetadata, update, untrack, acquire, release, trigger, status_in, text_or,
}
use equalify_reflow.Approval.Token.{validate_approval_token}
use equalify_reflow.Approval.Background.{
  decision_metadata, process_approval_background, process_denial_background,
}

unfoldable pub has_status : Option String → String → Bool
has_status none t = false
has_status (some u) t = str_eq u t

module _ {r : Redis} (s : Services) where
  unfoldable pub approve_current :
      (job_id : String) → DecisionMetadata → Option Hash → Exec r (Unit {0})
  unfolding has_status
  approve_current job_id metadata none = raise value_error
  approve_current job_id metadata (some job) =
      if has_status (job "status") status_processing
      then pure tt
      else (if not (status_in (job "status") status_awaiting_approval status_pii_scanning)
          then raise value_error
          else do
            update s job_id status_processing
                (("approval_decision", structure (s.dumps metadata)) ∷ [])
            trigger s job_id job)

  unfoldable pub approve_locked : (job_id : String) → DecisionMetadata → Bool → Exec r (Unit {0})
  approve_locked job_id metadata false = pure tt
  approve_locked job_id metadata true =
      finally_ (do job ← get_job job_id; approve_current job_id metadata job) (release job_id)

  unfoldable pub process_approval : (job_id : String) → DecisionMetadata → Exec r (Unit {0})
  process_approval job_id metadata = do
    acquired ← acquire job_id
    approve_locked job_id metadata acquired

  unfoldable pub process_denial : (job_id s3_key : String) → DecisionMetadata → Exec r (Unit {0})
  process_denial job_id s3_key metadata = do
    cleanup_job_files s.delete_object s3_key
    update s job_id status_denied (("denial_decision", structure (s.dumps metadata)) ∷ [])

  -- A missing S3 key and an empty one are both false.
  unfoldable pub decide_found :
      (job_id decision justification reviewed_by : String) → Option Hash → Exec r (Unit {0})
  decide_found job_id decision justification reviewed_by none = raise value_error
  decide_found job_id decision justification reviewed_by (some job) =
      if str_eq (text_or (job "s3_key") "") "" then raise value_error else do
        untrack job_id
        (λ w.
            (let metadata = decision_metadata s decision justification reviewed_by w in
                if str_eq decision "approved"
                then process_approval job_id metadata
                else process_denial job_id (text_or (job "s3_key") "") metadata)
              w)

  unfoldable pub process_approval_decision :
      (job_id decision justification reviewed_by : String) → Exec r (Unit {0})
  process_approval_decision job_id decision justification reviewed_by = do
    job ← get_job job_id
    decide_found job_id decision justification reviewed_by job

  unfoldable pub quick_approve : (job_id : String) → Exec r (Unit {0})
  quick_approve job_id w =
      update s job_id status_processing_queued
        (("approved_at", scalar (s.isoformat (w.now w.calls))) ∷ []) w

  unfoldable pub quick_deny : (job_id : String) → Exec r (Unit {0})
  quick_deny job_id w =
      update s job_id status_denied (("denied_at", scalar (s.isoformat (w.now w.calls))) ∷ []) w

-- What the endpoint adds to the tasks that run after its response.
pub data BackgroundTask : Type 0 where
  approval_task : (job_id justification reviewed_by : String) → BackgroundTask
  denial_task : (job_id s3_key justification reviewed_by : String) → BackgroundTask

module _ {r : Redis} (s : Services) where
  unfoldable pub run_background_task : BackgroundTask → Exec r (Unit {0})
  run_background_task (approval_task j x by) = process_approval_background s j x by
  run_background_task (denial_task j k x by) = process_denial_background s j k x by

  -- The identifier is read by `job["job_id"]`, which raises if it is missing.
  unfoldable pub answer :
      (decision justification reviewed_by : String) → Hash → Option String → Exec r BackgroundTask
  answer decision justification reviewed_by job none = raise other_error
  answer decision justification reviewed_by job (some job_id) =
      if str_eq decision "approved"
      then (do quick_approve s job_id; pure (approval_task job_id justification reviewed_by))
      else do
        quick_deny s job_id
        pure (denial_task job_id (text_or (job "s3_key") "") justification reviewed_by)

  unfoldable pub answer_valid :
      (decision justification reviewed_by : String) → Option Hash → Exec r BackgroundTask
  answer_valid decision justification reviewed_by none = raise (http_exception 404)
  answer_valid decision justification reviewed_by (some job) =
      answer decision justification reviewed_by job (job "job_id")

  -- An HTTP error goes on as it is, a value error is 400 and any other 500.
  unfoldable pub as_http : Exception → Exec r BackgroundTask
  as_http (http_exception status) = raise (http_exception status)
  as_http value_error = raise (http_exception 400)
  as_http _ = raise (http_exception 500)

  -- The endpoint, up to its response. `justification` is the text given or the empty one.
  unfoldable pub submit_decision :
      (token decision justification reviewed_by : String) → Exec r BackgroundTask
  submit_decision token decision justification reviewed_by =
      catch
        (do
          job ← validate_approval_token s token
          answer_valid decision justification reviewed_by job)
        as_http

  -- The request with the task that follows it.
  unfoldable pub serve_decision :
      (token decision justification reviewed_by : String) → Exec r (Unit {0})
  serve_decision token decision justification reviewed_by = do
    task ← submit_decision token decision justification reviewed_by
    run_background_task task
