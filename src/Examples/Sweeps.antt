-- ===== src/Examples/Sweeps.antt =====
-- A sweep over old files at concrete inputs.
use equalify_reflow.Prelude.{refl, some, none, List, [], ◌∷◌, str_eq, select, if◌then◌else◌}
use equalify_reflow.Errors.{ok, redis_error}
use equalify_reflow.S3Cleanup.Expired.{
  S3Object, Client, is_old, cleanup_expired_temp_files, cleanup_expired_debug_artifacts,
}
use equalify_reflow.S3Cleanup.Swept.{Swept, concat, cleanup_expired-Swept}

abbrev pages : List (List S3Object)
pages =
    (record { key = "a"; size = 5; last_modified = 10 } ∷ [])
    ∷ (record { key = "b"; size = 7; last_modified = 90 } ∷ [])
    ∷ []

-- The first file cannot be deleted.
abbrev client : Client
client = record {
  list_objects = λ prefix. ok pages;
  delete_object = λ key. if str_eq key "a" then some redis_error else none;
}

cleanup_expired-Swept_example :
    Swept client
      (select (is_old 10 100 3) (concat pages))
      (cleanup_expired_temp_files client 3 10 100 none)
    × Swept client
        (select (is_old 10 100 3) (concat pages))
        (cleanup_expired_debug_artifacts client 3 10 100 none)
cleanup_expired-Swept_example = cleanup_expired-Swept client 3 10 100 none pages pages refl refl
