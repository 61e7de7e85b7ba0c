-- ===== src/Examples/Orphans.antt =====
-- The sweeps and the deletion of temporary files at concrete inputs.
use equalify_reflow.Prelude.{◌≡◌, refl, inl, [], ◌∷◌, some}
use equalify_reflow.Errors.{ok}
use equalify_reflow.Redis.Keys.{job_key}
use equalify_reflow.Redis.Concrete.{concrete}
use equalify_reflow.Job.Same.{SameJob}
use equalify_reflow.S3Cleanup.{S3Client}
use equalify_reflow.Orphan.{OrphanService}
use equalify_reflow.Orphan.Sweep.{cleanup_old_completed_jobs, cleanup_stuck_processing_jobs}
use equalify_reflow.Orphan.Safety.{
  cleanup_old_completed_jobs-SameJob, cleanup_stuck_processing_jobs-SameJob,
}
use equalify_reflow.Examples.Worlds.{services, waiting_world, waiting_job}

-- Two pages of keys; every deletion succeeds.
abbrev pub s3_client : S3Client
s3_client = record {
  list_objects = λ prefix. ok (("temp/j1.pdf" ∷ []) ∷ ("temp/j1/a.png" ∷ []) ∷ []);
  delete_objects = λ keys. ok keys;
}

-- The scan finds the waiting job.
abbrev pub orphans : OrphanService
orphans = record {
  services = services;
  job_retention = 30;
  max_processing = 2;
  s3_client = s3_client;
  scanned = λ n. ("j1" ∷ []) ∷ [];
}

waiting_found : concrete.hgetall (job_key "j1") waiting_world.hashes ≡ some waiting_job
unfolding job_key
waiting_found = refl

cleanup_old_completed_jobs-SameJob_example :
    SameJob "j1" waiting_world (cleanup_old_completed_jobs orphans waiting_world).1
cleanup_old_completed_jobs-SameJob_example =
    cleanup_old_completed_jobs-SameJob orphans "j1" waiting_job waiting_world waiting_found
      (inl refl)

cleanup_stuck_processing_jobs-SameJob_example :
    SameJob "j1" waiting_world (cleanup_stuck_processing_jobs orphans waiting_world).1
cleanup_stuck_processing_jobs-SameJob_example =
    cleanup_stuck_processing_jobs-SameJob orphans "j1" waiting_job waiting_world waiting_found
      (inl refl)
