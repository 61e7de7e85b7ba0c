-- ===== src/Storage/Document.antt =====
-- Storing an uploaded document (src/services/storage_service.py): the breaker is asked first, and
-- the file is validated before anything is sent.
use Prim.Native.String.{◌++◌}
use equalify_reflow.Prelude.{ℕ, String, Option, none, some, not, str_eq, ltb, if◌then◌else◌}
use equalify_reflow.Errors.{Exception, http_exception, err}
use equalify_reflow.Breaker.{CircuitBreaker}
use equalify_reflow.Storage.{upload_fileobj, Client, StorageService, Times, Reply, guarded, upload}

-- The declared type, and the size that seeking to the end finds (`none`: seeking raised).
pub record UploadFile : Type 0 where
  pub content_type : String
  pub size : Option ℕ

abbrev pub min_file_size : ℕ
min_file_size = 100

size_problem : (max_upload_size : ℕ) → Option ℕ → Option Exception
size_problem max_upload_size none = some (http_exception 400)
size_problem max_upload_size (some file_size) =
    if ltb file_size min_file_size
    then some (http_exception 400)
    else (if ltb max_upload_size file_size then some (http_exception 413) else none)

-- The checks between the breaker's and the upload.
unfoldable pub validation : (max_upload_size : ℕ) → UploadFile → Option Exception
unfolding size_problem
validation max_upload_size file =
    if not (str_eq file.content_type "application/pdf")
    then some (http_exception 400)
    else size_problem max_upload_size file.size

refuse : Option Exception → CircuitBreaker → Reply String → Reply String
refuse none b rest = rest
refuse (some e) b rest = record { circuit = b; outcome = err e; calls = 0 }

-- `job_id` is the new UUID. The reply has the S3 key; the caller gets the pair of both.
unfoldable pub store_document :
    StorageService
    → Times
    → Client (Unit {0})
    → (max_upload_size : ℕ) (job_id : String) (file : UploadFile) → Reply String
unfolding refuse
store_document s t s3 max_upload_size job_id file = guarded t s.upload_circuit (λ b.
    let key = "temp/" ++ job_id ++ ".pdf" in
    refuse (validation max_upload_size file) b
      (upload t (s3 (upload_fileobj s.temp_bucket key)) key b))
