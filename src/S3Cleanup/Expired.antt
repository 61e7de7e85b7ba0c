-- ===== src/S3Cleanup/Expired.antt =====
-- The sweeps over the old temporary files and debug artifacts (src/services/s3_cleanup_service.py). A
-- time without a zone is an instant already, as UTC; the age of a file is only reported.
use equalify_reflow.Prelude.{
  ℕ, suc, ◌+◌, ◌*◌, String, Bool, true, false, Option, none, some, List, [], ◌∷◌, ◌++◌, select, ltb,
  str_eq,
}
use equalify_reflow.Errors.{Exception, client_error, http_exception, Result, ok, err}

pub record S3Object : Type 0 where
  pub key : String
  pub size : ℕ
  pub last_modified : ℕ

-- The pages of a listing, and what a deletion raises.
pub record Client : Type 0 where
  pub list_objects : (prefix : String) → Result (List (List S3Object))
  pub delete_object : String → Option Exception

pub record Stats : Type 0 where
  pub files_deleted : ℕ
  pub bytes_freed : ℕ
  pub errors : ℕ

-- The statistics, and the keys whose deletion was asked for.
pub record Sweep : Type 0 where
  pub stats : Stats
  pub requested : List String

abbrev pub no_stats : Stats
no_stats = record { files_deleted = 0; bytes_freed = 0; errors = 0 }

-- Last modified before the cutoff, `hour` being the ticks of an hour.
unfoldable pub is_old : (hour now older_than_hours : ℕ) → S3Object → Bool
is_old hour now hours o = ltb (o.last_modified + hours * hour) now

unfoldable pub old_files : (hour now older_than_hours : ℕ) → List (List S3Object) → List S3Object
old_files hour now hours [] = []
old_files hour now hours (page ∷ pages) =
    select (is_old hour now hours) page ++ old_files hour now hours pages

unfoldable pub or_raise :
    (hour now older_than_hours : ℕ) → Result (List (List S3Object)) → Result (List S3Object)
or_raise hour now hours (ok pages) = ok (old_files hour now hours pages)
or_raise hour now hours (err e) = err (http_exception 500)

unfoldable pub or_nothing :
    (hour now older_than_hours : ℕ) → Result (List (List S3Object)) → Result (List S3Object)
or_nothing hour now hours (ok pages) = ok (old_files hour now hours pages)
or_nothing hour now hours (err e) = ok []

unfoldable pub list_temp_files : Client → (hour now older_than_hours : ℕ) → Result (List S3Object)
list_temp_files s3 hour now hours = or_raise hour now hours (s3.list_objects "temp/")

unfoldable pub list_debug_artifacts :
    Client → (hour now older_than_hours : ℕ) → Result (List S3Object)
list_debug_artifacts s3 hour now hours = or_nothing hour now hours (s3.list_objects "debug/")

-- A missing file counts as deleted.
unfoldable pub is_deleted : Option Exception → Bool
is_deleted none = true
is_deleted (some (client_error code status)) = str_eq code "NoSuchKey"
is_deleted (some _) = false

unfoldable pub delete_from_s3 : Client → String → Bool
delete_from_s3 s3 key = is_deleted (s3.delete_object key)

-- Any error is passed over, also that of a missing file.
unfoldable pub delete_temp_file : Client → String → Bool
delete_temp_file s3 key = elim (s3.delete_object key) [ none ↦ true | some e ↦ false ]

unfoldable pub count_deletion : (success : Bool) (size : ℕ) → Stats → Stats
count_deletion true size s = record s {
  files_deleted = suc s.files_deleted;
  bytes_freed = s.bytes_freed + size;
}
count_deletion false size s = record s { errors = suc s.errors }

unfoldable pub delete_each : Client → List S3Object → Sweep → Sweep
delete_each s3 [] s = s
delete_each s3 (o ∷ os) s = delete_each s3 os (record {
  stats = count_deletion (delete_from_s3 s3 o.key) o.size s.stats;
  requested = s.requested ++ o.key ∷ [];
})

unfoldable pub sweep_listed : Client → Result (List S3Object) → Sweep
sweep_listed s3 (ok files) = delete_each s3 files (record { stats = no_stats; requested = [] })
sweep_listed s3 (err e) = record { stats = record no_stats { errors = 1 }; requested = [] }

abbrev pub hours_or : Option ℕ → ℕ → ℕ
hours_or none retention = retention
hours_or (some hours) retention = hours

unfoldable pub cleanup_expired_temp_files :
    Client → (temp_file_retention_hours hour now : ℕ) (older_than_hours : Option ℕ) → Sweep
cleanup_expired_temp_files s3 retention hour now hours =
    sweep_listed s3 (list_temp_files s3 hour now (hours_or hours retention))

unfoldable pub cleanup_expired_debug_artifacts :
    Client → (debug_artifact_retention_hours hour now : ℕ) (older_than_hours : Option ℕ) → Sweep
cleanup_expired_debug_artifacts s3 retention hour now hours =
    sweep_listed s3 (list_debug_artifacts s3 hour now (hours_or hours retention))
