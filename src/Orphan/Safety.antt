-- ===== src/Orphan/Safety.antt =====
-- Which jobs the two sweeps leave alone (src/services/orphan_service.py).
use equalify_reflow.Prelude.{
  ℕ, String, Bool, true, false, Option, none, some, [], ◌∷◌, ◌≡◌, ◌⊎◌, ◌||◌, refl, ap, ◌∙◌, str_eq,
  arith, Bool-cases, inl, inr,
}
use equalify_reflow.Errors.{ok}
use equalify_reflow.Redis.{Redis, Hash}
use equalify_reflow.Redis.Keys.{job_key}
use equalify_reflow.Redis.Exec.{World, call, continue, pure, ◌>>◌}
use equalify_reflow.Redis.Frames.{continue-rel, handle-rel}
use equalify_reflow.Job.{get_job, lua_delete_job, status_failed}
use equalify_reflow.Job.Fields.{scalar}
use equalify_reflow.Job.Service.{cleanup_old_job, emit_job_audit_log}
use equalify_reflow.Job.Same.{
  SameJob, SameJob-trans, SameJob-refl, get_job-SameJob, audit-SameJob, update-SameJob, Calm,
}
use equalify_reflow.Approval.{Services, update}
use equalify_reflow.Orphan.{
  OrphanService, created_before, should_cleanup, is_stuck, cleanup_files, deleted_files,
  should_cleanup_job, is_job_stuck, cleanup_job, fail_stuck_job,
}
use equalify_reflow.Orphan.Sweep.{
  retention_cutoff, processing_cutoff, cleanup_old_completed_jobs, cleanup_stuck_processing_jobs,
}
use equalify_reflow.Orphan.Sparing.{sweep-SameJob}

-- The statuses that end a job, and those of a job at work.
abbrev pub is_terminal : Option String → Bool
is_terminal none = false
is_terminal (some t) = str_eq t "completed" || (str_eq t "failed" || str_eq t "denied")

abbrev pub is_working : Option String → Bool
is_working none = false
is_working (some t) = str_eq t "processing" || str_eq t "pii_scanning"

-- A job in another status, or one that was not created before the cutoff.
abbrev pub IsKept : (statuses : Option String → Bool) → Services → (cutoff : ℕ) → Hash → Type 0
IsKept statuses s cutoff h =
    (statuses (h "status") ≡ false) ⊎ (created_before s (h "created_at") cutoff ≡ false)

should_cleanup-IsKept :
    (s : Services) (cutoff : ℕ) (h : Hash)
    → IsKept is_terminal s cutoff h
    → should_cleanup s cutoff (some h) ≡ false
unfolding should_cleanup
should_cleanup-IsKept s cutoff h k = ground arith

is_stuck-IsKept :
    (s : Services) (cutoff : ℕ) (h : Hash)
    → IsKept is_working s cutoff h
    → is_stuck s cutoff (some h) ≡ false
unfolding is_stuck
is_stuck-IsKept s cutoff h k = ground arith

module _ {r : Redis} (o : OrphanService) (j : String) where
  files-SameJob : (i : String) (w : World r) → SameJob j w (cleanup_files o.s3_client i w).1
  unfolding cleanup_files deleted_files
  files-SameJob i w = record { same = refl }

  cleanup_old_job-SameJob :
      (i : String) (w : World r) → str_eq i j ≡ false → SameJob j w (cleanup_old_job i w).1
  unfolding cleanup_old_job lua_delete_job job_key call
  cleanup_old_job-SameJob i w other = elim (Bool-cases (w.faults w.calls)) [
    | inl down ↦ rw down (record { same = refl })
    | inr up ↦
        rw up (record { same = r.hgetall-del (job_key i) (job_key j) w.hashes ∙ rw other refl })
  ]

  cleanup_job-SameJob :
      (i : String) (w : World r) → str_eq i j ≡ false → SameJob j w (cleanup_job o i w).1
  unfolding cleanup_job
  cleanup_job-SameJob i w other =
      handle-rel (SameJob j) (SameJob-trans j) _ w
        ((emit_job_audit_log i >> (cleanup_files o.s3_client i >> (cleanup_old_job i >> pure true)))
          w)
        (continue-rel (SameJob j) (SameJob-trans j) _ w (emit_job_audit_log i w)
          (audit-SameJob j i w)
          λ u v.
            continue-rel (SameJob j) (SameJob-trans j) _ v (cleanup_files o.s3_client i v)
              (files-SameJob i v)
              λ n x.
                continue-rel (SameJob j) (SameJob-trans j) _ x (cleanup_old_job i x)
                  (cleanup_old_job-SameJob i x other) λ b y. SameJob-refl j y)
        λ e v. SameJob-refl j v

  fail_stuck_job-SameJob :
      (i : String) (w : World r) → str_eq i j ≡ false → SameJob j w (fail_stuck_job o i w).1
  unfolding fail_stuck_job
  fail_stuck_job-SameJob i w other =
      let fields =
        (("error_message", scalar "Job exceeded maximum processing time and was terminated")
          ∷ []) in
      handle-rel (SameJob j) (SameJob-trans j) _ w
        ((emit_job_audit_log i
            >> (update o.services i status_failed fields
                >> (cleanup_files o.s3_client i >> pure true)))
          w)
        (continue-rel (SameJob j) (SameJob-trans j) _ w (emit_job_audit_log i w)
          (audit-SameJob j i w)
          λ u v.
            continue-rel (SameJob j) (SameJob-trans j) _ v
              (update o.services i status_failed fields v)
              (update-SameJob j o.services i status_failed fields v other)
              λ u' x.
                continue-rel (SameJob j) (SameJob-trans j) _ x (cleanup_files o.s3_client i x)
                  (files-SameJob i x) λ n y. SameJob-refl j y)
        λ e v. SameJob-refl j v

  should_cleanup_job-SameJob :
      (cutoff : ℕ) (i : String) (w : World r) → SameJob j w (should_cleanup_job o cutoff i w).1
  unfolding should_cleanup_job
  should_cleanup_job-SameJob cutoff i w =
      handle-rel (SameJob j) (SameJob-trans j) _ w
        (continue (λ job. pure (should_cleanup o.services cutoff job)) (get_job i w))
        (continue-rel (SameJob j) (SameJob-trans j) _ w (get_job i w) (get_job-SameJob j i w)
          λ job v. SameJob-refl j v)
        λ e v. SameJob-refl j v

  should_cleanup_job-Calm :
      (cutoff : ℕ) (w : World r)
      → Calm j (should_cleanup o.services cutoff) w
      → (should_cleanup_job o cutoff j w).0 ≡ ok false
  unfolding should_cleanup_job get_job call
  should_cleanup_job-Calm cutoff w calm = elim (Bool-cases (w.faults w.calls)) [
    | inl down ↦ rw down refl
    | inr up ↦ rw up (ap ok calm)
  ]

  is_job_stuck-SameJob :
      (cutoff : ℕ) (i : String) (w : World r) → SameJob j w (is_job_stuck o cutoff i w).1
  unfolding is_job_stuck
  is_job_stuck-SameJob cutoff i w =
      handle-rel (SameJob j) (SameJob-trans j) _ w
        (continue (λ job. pure (is_stuck o.services cutoff job)) (get_job i w))
        (continue-rel (SameJob j) (SameJob-trans j) _ w (get_job i w) (get_job-SameJob j i w)
          λ job v. SameJob-refl j v)
        λ e v. SameJob-refl j v

  is_job_stuck-Calm :
      (cutoff : ℕ) (w : World r)
      → Calm j (is_stuck o.services cutoff) w
      → (is_job_stuck o cutoff j w).0 ≡ ok false
  unfolding is_job_stuck get_job call
  is_job_stuck-Calm cutoff w calm = elim (Bool-cases (w.faults w.calls)) [
    | inl down ↦ rw down refl
    | inr up ↦ rw up (ap ok calm)
  ]

  -- The removal of old jobs, whatever calls of Redis fail in it and whatever the index and the scan
  -- list, keeps every job that is not completed, failed or denied, and every job that was not
  -- created before the retention period.
  pub cleanup_old_completed_jobs-SameJob :
      (h : Hash) (w : World r)
      → r.hgetall (job_key j) w.hashes ≡ some h
      → IsKept is_terminal o.services (retention_cutoff o w) h
      → SameJob j w (cleanup_old_completed_jobs o w).1
  unfolding cleanup_old_completed_jobs
  cleanup_old_completed_jobs-SameJob h w found kept =
      let cutoff = retention_cutoff o w in
      sweep-SameJob j (should_cleanup o.services cutoff) (should_cleanup_job o cutoff)
        (cleanup_job o) (should_cleanup_job-SameJob cutoff) (should_cleanup_job-Calm cutoff)
        cleanup_job-SameJob o.scanned "old_jobs_cleaned" cutoff w
        (rw found (should_cleanup-IsKept o.services cutoff h kept))

  -- The failing of stuck jobs, whatever calls of Redis fail in it and whatever the index and the
  -- scan list, keeps every job that is not being processed or scanned, and every job that was not
  -- created before the longest processing time.
  pub cleanup_stuck_processing_jobs-SameJob :
      (h : Hash) (w : World r)
      → r.hgetall (job_key j) w.hashes ≡ some h
      → IsKept is_working o.services (processing_cutoff o w) h
      → SameJob j w (cleanup_stuck_processing_jobs o w).1
  unfolding cleanup_stuck_processing_jobs
  cleanup_stuck_processing_jobs-SameJob h w found kept =
      let cutoff = processing_cutoff o w in
      sweep-SameJob j (is_stuck o.services cutoff) (is_job_stuck o cutoff) (fail_stuck_job o)
        (is_job_stuck-SameJob cutoff) (is_job_stuck-Calm cutoff) fail_stuck_job-SameJob o.scanned
        "stuck_jobs_failed" cutoff w (rw found (is_stuck-IsKept o.services cutoff h kept))
