-- ===== src/Pii.antt =====
-- The scan of a document for personal data (src/services/pii_service.py). The download, the text of a
-- document and its analysis are arguments, as are the text of a new token and of a queued payload.
pub mod Worker
pub mod Starts
pub mod Held
pub mod Cleared
pub mod Faults
use equalify_reflow.Prelude.{
  ℕ, ◌+◌, ◌*◌, String, Bool, not, Option, none, some, List, [], ◌∷◌, if◌then◌else◌,
}
use equalify_reflow.Errors.{Exception, value_error, Result, ok, err}
use equalify_reflow.Redis.{Redis, Hash}
use equalify_reflow.Redis.Keys.{Key, queue_name}
use equalify_reflow.Redis.Exec.{World, Exec, pure, raise, catch, ◌>>=◌, ◌>>◌}
use equalify_reflow.Retry.{Policy, Run, retry_with_backoff}
use equalify_reflow.Retry.Actions.{retrying}
use equalify_reflow.Job.{
  get_job, status_failed, status_processing, status_awaiting_approval, status_pii_scanning,
}
use equalify_reflow.Job.Fields.{scalar, structure}
use equalify_reflow.Job.Service.{store_approval_token_mapping}
use equalify_reflow.Queue.{enqueue, add_to_timeout_tracking}
use equalify_reflow.Approval.{Services, update, create_task, text_or}

pub record PiiQueuePayload : Type 0 where
  pub job_id : String
  pub s3_key : String

-- The findings are their JSON text, `none` for no findings. Which attempt of the extraction has
-- which outcome is given. `tokens n` is the token made before the call number `n`.
pub record Scanner : Type 1 where
  pub Pdf : Type 0
  pub download : (s3_key : String) → Result Pdf
  pub extract : Pdf → ℕ → Result String
  pub analyze_text : String → Option String
  pub tokens : ℕ → String
  pub approval_payload : PiiQueuePayload → (findings token : String) (expires_at : ℕ) → String
  pub describe : Exception → String
  pub hour : ℕ

abbrev pub approval_timeout_hours : ℕ
approval_timeout_hours = 4

abbrev pub max_retry_attempts : ℕ
max_retry_attempts = 1

-- One more attempt than retries; the delays are the defaults of the loop, in seconds.
abbrev pub extraction_policy : Policy
extraction_policy = record {
  max_attempts = max_retry_attempts + 1;
  base_delay = 1;
  max_delay = 30;
  backoff_factor = 2;
}

unfoldable pub approval_queue : Key
approval_queue = queue_name "approval"

unfoldable pub pii_queue : Key
pii_queue = queue_name "pii"

unfoldable pub analyzed : Scanner → Result String → Result (Option String)
analyzed p (ok text) = ok (p.analyze_text text)
analyzed p (err e) = err e

unfoldable pub extracted : (p : Scanner) → Result p.Pdf → Result (Option String)
extracted p (ok pdf) = analyzed p (retry_with_backoff (p.extract pdf) extraction_policy).outcome
extracted p (err e) = err e

-- Download, extraction and analysis.
unfoldable pub scan : Scanner → PiiQueuePayload → Result (Option String)
scan p job = extracted p (p.download job.s3_key)

module _ {r : Redis} (s : Services) (p : Scanner) (job : PiiQueuePayload) where
  unfoldable pub queue_for_approval : (findings : String) → Exec r (Unit {0})
  queue_for_approval findings w =
      let token = p.tokens w.calls in
      let expires_at = w.now w.calls + approval_timeout_hours * p.hour in
      (do
        enqueue approval_queue (p.approval_payload job findings token expires_at)
        update s job.job_id status_awaiting_approval (
            ("pii_findings", structure findings)
            ∷ ("approval_token", scalar token)
            ∷ ("approval_expires_at", scalar (s.isoformat expires_at))
            ∷ [])
        add_to_timeout_tracking job.job_id expires_at "approval"
        store_approval_token_mapping token job.job_id approval_timeout_hours)
        w

  -- The number of rounds is read before the URL service is looked at.
  unfoldable pub start_processing : Hash → Exec r (Unit {0})
  start_processing job_data =
      if not (s.is_int (text_or (job_data "max_rounds") "1"))
      then raise value_error
      else (if not s.storage_configured
          then update s job.job_id status_failed
              (("error", scalar "S3URLService not configured") ∷ [])
          else create_task job.job_id)

  unfoldable pub process_found : Option Hash → Exec r (Unit {0})
  process_found none =
      update s job.job_id status_failed
        (("error", scalar "Job metadata not found after PII scan") ∷ [])
  process_found (some job_data) = start_processing job_data

  unfoldable pub queue_for_processing : Exec r (Unit {0})
  queue_for_processing = do
    update s job.job_id status_processing []
    job_data ← get_job job.job_id
    process_found job_data

  unfoldable pub route : Option String → Exec r (Unit {0})
  route (some findings) = retrying 3 (queue_for_approval findings)
  route none = retrying 3 queue_for_processing

  unfoldable pub route_scanned : Result (Option String) → Exec r (Unit {0})
  route_scanned (ok findings) = route findings
  route_scanned (err e) = raise e

  -- Both handlers do the same with another message.
  unfoldable pub fail_job : Exception → Exec r (Unit {0})
  fail_job e =
      retrying 3 (update s job.job_id status_failed (("error", scalar (p.describe e)) ∷ []))

  unfoldable pub process_pii_job : Exec r (Unit {0})
  process_pii_job =
      catch (do retrying 3 (update s job.job_id status_pii_scanning []); route_scanned (scan p job))
        fail_job
