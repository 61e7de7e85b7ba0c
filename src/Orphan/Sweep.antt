-- ===== src/Orphan/Sweep.antt =====
-- The two sweeps over the candidate jobs (src/services/orphan_service.py). Their loops are the same
-- text with another test and another action.
use equalify_reflow.Prelude.{
  ℕ, ◌+◌, ◌-◌, String, Bool, true, false, List, [], ◌∷◌, ltb, if◌then◌else◌,
}
use equalify_reflow.Errors.{Exception}
use equalify_reflow.Redis.{Redis}
use equalify_reflow.Redis.Exec.{World, Exec, pure, raise, catch, ◌>>=◌, ◌>>◌}
use equalify_reflow.Job.Service.{list_jobs_updated_before}
use equalify_reflow.Metrics.{increment_metric}
use equalify_reflow.Orphan.{
  OrphanService, list_all_jobs, should_cleanup_job, is_job_stuck, cleanup_job, fail_stuck_job,
}

-- How many jobs were dealt with, and how many errors there were.
pub record Counts : Type 0 where
  pub jobs : ℕ
  pub errors : ℕ

unfoldable pub counted : Counts → Bool → Counts
counted c true = record c { jobs = c.jobs + 1 }
counted c false = record c { errors = c.errors + 1 }

module _ {r : Redis} (test act : String → Exec r Bool) where
  unfoldable pub act_if : (job_id : String) → Counts → Bool → Exec r Counts
  act_if job_id c false = pure c
  act_if job_id c true = do success ← act job_id; pure (counted c success)

  unfoldable pub check_job : (job_id : String) → Counts → Exec r Counts
  check_job job_id c =
      catch (do hit ← test job_id; act_if job_id c hit)
        λ e. pure (record c { errors = c.errors + 1 })

  unfoldable pub check_jobs : List String → Counts → Exec r Counts
  check_jobs [] c = pure c
  check_jobs (job_id ∷ job_ids) c = do c' ← check_job job_id c; check_jobs job_ids c'

module _ {r : Redis} where
  unfoldable pub add_metric : (metric_name : String) → ℕ → Exec r (Unit {0})
  add_metric metric_name n = if ltb 0 n then increment_metric metric_name n else pure tt

  unfoldable pub report : (metric_name : String) → Counts → Exec r Counts
  report metric_name c = do
    add_metric metric_name c.jobs
    add_metric "orphan_cleanup_errors" c.errors
    pure c

  unfoldable pub or_scan : (ℕ → List (List String)) → List String → Exec r (List String)
  or_scan scanned [] = list_all_jobs scanned
  or_scan scanned (job_id ∷ job_ids) = pure (job_id ∷ job_ids)

  -- No candidates: no metrics.
  unfoldable pub sweep_jobs :
      (metric_name : String) (test act : String → Exec r Bool) → List String → Exec r Counts
  sweep_jobs metric_name test act [] = pure (record { jobs = 0; errors = 0 })
  sweep_jobs metric_name test act (job_id ∷ job_ids) = do
    c ← check_jobs test act (job_id ∷ job_ids) (record { jobs = 0; errors = 0 })
    report metric_name c

  unfoldable pub failed_sweep : Exception → Exec r Counts
  failed_sweep e = do increment_metric "orphan_cleanup_errors" 1; raise e

  unfoldable pub sweep :
      (scanned : ℕ → List (List String)) (metric_name : String) (test act : String → Exec r Bool)
      (cutoff : ℕ)
      → Exec r Counts
  sweep scanned metric_name test act cutoff =
      catch
        (do
          indexed ← list_jobs_updated_before cutoff
          candidate_jobs ← or_scan scanned indexed
          sweep_jobs metric_name test act candidate_jobs)
        failed_sweep

module _ {r : Redis} (o : OrphanService) where
  -- The cutoff of a sweep that starts in a world; the clock is past the first such period.
  abbrev pub retention_cutoff : World r → ℕ
  retention_cutoff w = w.now w.calls - o.job_retention

  abbrev pub processing_cutoff : World r → ℕ
  processing_cutoff w = w.now w.calls - o.max_processing

  unfoldable pub cleanup_old_completed_jobs : Exec r Counts
  cleanup_old_completed_jobs w =
      sweep o.scanned "old_jobs_cleaned" (should_cleanup_job o (retention_cutoff w)) (cleanup_job o)
        (retention_cutoff w) w

  unfoldable pub cleanup_stuck_processing_jobs : Exec r Counts
  cleanup_stuck_processing_jobs w =
      sweep o.scanned "stuck_jobs_failed" (is_job_stuck o (processing_cutoff w)) (fail_stuck_job o)
        (processing_cutoff w) w
