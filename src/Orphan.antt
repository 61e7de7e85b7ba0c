-- ===== src/Orphan.antt =====
-- Orphaned jobs (src/services/orphan_service.py): old jobs are removed, stuck jobs are failed. A
-- sweep gets its candidates from the index, or from a scan over the keys of the jobs if the index
-- has none. What the server answers to a scan that begins with the call number `n` is an argument:
-- the pages of job identifiers.
pub mod Sweep
pub mod Sparing
pub mod Safety
use equalify_reflow.Prelude.{
  ℕ, zero, suc, ◌+◌, ◌-◌, String, Bool, true, false, not, Option, none, some, List, [], ◌∷◌, ◌++◌,
  ◌||◌, ◌&&◌, ltb, str_eq, if◌then◌else◌,
}
use equalify_reflow.Errors.{Exception, Result, ok, err}
use equalify_reflow.Redis.{Redis, Hash}
use equalify_reflow.Redis.Exec.{
  World, Exec, pure, raise, call, catch, continue, handle, ◌>>=◌, ◌>>◌,
}
use equalify_reflow.Job.{
  get_job, status_completed, status_failed, status_denied, status_processing, status_pii_scanning,
}
use equalify_reflow.Job.Fields.{scalar}
use equalify_reflow.Job.Service.{emit_job_audit_log, cleanup_old_job, list_jobs_updated_before}
use equalify_reflow.Approval.{Services, Stamp, naive, aware, update, status_in}
use equalify_reflow.S3Cleanup.{S3Client, Deletion, cleanup_temp_files_for_job}
use equalify_reflow.Timeout.{status_is}

-- The services, the settings in ticks, the S3 client, and the answers to the scans.
pub record OrphanService : Type 0 where
  pub services : Services
  pub job_retention : ℕ
  pub max_processing : ℕ
  pub s3_client : S3Client
  pub scanned : ℕ → List (List String)

-- A stored time without a time zone is taken as UTC.
abbrev pub tick : Stamp → ℕ
tick (naive t) = t
tick (aware t) = t

abbrev pub parsed_before : Option Stamp → (cutoff : ℕ) → Bool
parsed_before none cutoff = false
parsed_before (some t) cutoff = ltb (tick t) cutoff

-- A missing time, an empty one and one that cannot be parsed are not before the cutoff.
unfoldable pub created_before : Services → Option String → (cutoff : ℕ) → Bool
created_before s none cutoff = false
created_before s (some text) cutoff =
    if str_eq text "" then false else parsed_before (s.fromisoformat text) cutoff

-- What `_should_cleanup_job` makes of the job that it fetched: one that is not there is removed.
unfoldable pub should_cleanup : Services → (cutoff : ℕ) → Option Hash → Bool
should_cleanup s cutoff none = true
should_cleanup s cutoff (some job) =
    (status_in (job "status") status_completed status_failed
      || status_is (job "status") status_denied)
    && created_before s (job "created_at") cutoff

-- What `_is_job_stuck` makes of it.
unfoldable pub is_stuck : Services → (cutoff : ℕ) → Option Hash → Bool
is_stuck s cutoff none = false
is_stuck s cutoff (some job) =
    status_in (job "status") status_processing status_pii_scanning
    && created_before s (job "created_at") cutoff

module _ {r : Redis} where
  unfoldable pub scan_pages : List (List String) → (job_ids : List String) → Exec r (List String)
  scan_pages [] job_ids = pure job_ids
  scan_pages (page ∷ pages) job_ids = do call λ w. (tt {0}, w); scan_pages pages (job_ids ++ page)

  -- An error answers the empty list.
  unfoldable pub list_all_jobs : (ℕ → List (List String)) → Exec r (List String)
  list_all_jobs scanned = catch (λ w. scan_pages (scanned w.calls) [] w) λ e. pure []

  unfoldable pub deleted_files : Deletion → Exec r ℕ
  deleted_files d w = (d.outcome, record w { deleted = d.deleted ++ w.deleted })

  unfoldable pub cleanup_files : S3Client → (job_id : String) → Exec r ℕ
  cleanup_files s3 job_id = deleted_files (cleanup_temp_files_for_job s3 job_id)

module _ {r : Redis} (o : OrphanService) where
  unfoldable pub should_cleanup_job : (cutoff : ℕ) (job_id : String) → Exec r Bool
  should_cleanup_job cutoff job_id =
      catch (do job ← get_job job_id; pure (should_cleanup o.services cutoff job)) λ e. pure false

  unfoldable pub is_job_stuck : (cutoff : ℕ) (job_id : String) → Exec r Bool
  is_job_stuck cutoff job_id =
      catch (do job ← get_job job_id; pure (is_stuck o.services cutoff job)) λ e. pure false

  unfoldable pub cleanup_job : (job_id : String) → Exec r Bool
  cleanup_job job_id =
      catch
        (do
          emit_job_audit_log job_id
          cleanup_files o.s3_client job_id
          cleanup_old_job job_id
          pure true)
        λ e. pure false

  unfoldable pub fail_stuck_job : (job_id : String) → Exec r Bool
  fail_stuck_job job_id =
      catch
        (do
          emit_job_audit_log job_id
          update o.services job_id status_failed (
              ("error_message", scalar "Job exceeded maximum processing time and was terminated")
              ∷ [])
          cleanup_files o.s3_client job_id
          pure true)
        λ e. pure false
