-- ===== src/S3Cleanup.antt =====
-- Deleting all the temporary files of a job from S3 (src/services/s3_cleanup_service.py). The S3
-- client is not the program's: the pages of a listing, and the keys that a deletion answers as
-- deleted, are arguments.
pub mod Batches
pub mod Expired
pub mod Swept
use Prim.Native.String.{◌++◌ as joined}
use equalify_reflow.Prelude.{ℕ, zero, suc, ◌+◌, String, List, [], ◌∷◌, ◌++◌, length, take, drop}
use equalify_reflow.Errors.{Exception, http_exception, Result, ok, err}

pub record S3Client : Type 0 where
  -- the keys of each page with the prefix; a page without contents has none
  pub list_objects : (prefix : String) → Result (List (List String))
  pub delete_objects : List String → Result (List String)

abbrev pub batch_size : ℕ
batch_size = 1000

-- The slices `[i : i + batch_size]` for `i` in the range; `fuel` bounds their number.
unfoldable pub batches : (size fuel : ℕ) → List String → List (List String)
batches size zero keys = []
batches size (suc fuel) [] = []
batches size (suc fuel) (k ∷ keys) = take size (k ∷ keys) ∷ batches size fuel (drop size (k ∷ keys))

-- The two loops that collect the keys.
unfoldable pub collected : List (List String) → List String
collected [] = []
collected (page ∷ pages) = page ++ collected pages

-- What the deletion returns, and the keys that it deleted.
pub record Deletion : Type 0 where
  pub outcome : Result ℕ
  pub deleted : List String

module _ (s3 : S3Client) where
  -- A request that raises ends the loop.
  unfoldable pub delete_batches : List (List String) → (deleted_count : ℕ) → List String → Deletion
  delete_batches [] deleted_count gone = record { outcome = ok deleted_count; deleted = gone }
  delete_batches (batch ∷ rest) deleted_count gone = elim (s3.delete_objects batch) [
    | ok keys ↦ delete_batches rest (deleted_count + length keys) (gone ++ keys)
    | err e ↦ record { outcome = err (http_exception 500); deleted = gone }
  ]

  unfoldable pub delete_listed : Result (List (List String)) → Deletion
  delete_listed (ok pages) =
      let keys = collected pages in delete_batches (batches batch_size (length keys) keys) 0 []
  delete_listed (err e) = record { outcome = err (http_exception 500); deleted = [] }

  unfoldable pub cleanup_temp_files_for_job : (job_id : String) → Deletion
  cleanup_temp_files_for_job job_id = delete_listed (s3.list_objects (joined "temp/" job_id))
