-- ===== src/Cleanup.antt =====
-- Deleting a job's temporary file from S3 (src/services/cleanup_service.py). The S3 client is not
-- the program's: it is an argument that gives the outcome of deleting a key.
use equalify_reflow.Prelude.{String, Bool, true, false, ◌∷◌, ◌||◌, str_eq}
use equalify_reflow.Errors.{Exception, client_error, Result, ok, err}
use equalify_reflow.Redis.{Redis}
use equalify_reflow.Redis.Exec.{Exec}

abbrev pub DeleteObject : Type 0
DeleteObject = String → Result (Unit {0})

-- A missing file counts as deleted; any other error is swallowed.
already_gone : Exception → Bool
already_gone (client_error code status) = str_eq code "NoSuchKey" || str_eq code "404"
already_gone _ = false

module _ {r : Redis} where
  unfoldable pub after_delete : (s3_key : String) → Result (Unit {0}) → Exec r Bool
  unfolding already_gone
  after_delete s3_key (ok u) w = (ok true, record w { deleted = s3_key ∷ w.deleted })
  after_delete s3_key (err e) w = (ok (already_gone e), w)

  unfoldable pub cleanup_job_files : (delete_object : DeleteObject) (s3_key : String) → Exec r Bool
  cleanup_job_files delete_object s3_key = after_delete s3_key (delete_object s3_key)
