-- ===== src/Storage/Uploads.antt =====
-- The uploads to S3 that go through the upload breaker (src/services/storage_service.py). A body
-- that cannot be made raises before the attempts, or in each of them, as the code has it.
use Prim.Native.String.{◌++◌}
use equalify_reflow.Prelude.{ℕ, and_then, String, Option, none, some, List, str_eq, if◌then◌else◌}
use equalify_reflow.Storage.{
  Body, encoded, put_object, Client, StorageService, Times, Reply, guarded, upload, send, made,
}

-- `content_type_map.get(format, 'text/plain')`
unfoldable pub result_content_type : String → String
result_content_type format = if str_eq format "md" then "text/markdown" else "text/plain"

-- A missing suffix and an empty one are both false.
unfoldable pub result_key : String → Option String → String → String
result_key job_id none format = job_id ++ "." ++ format
result_key job_id (some suffix) format =
    if str_eq suffix "" then job_id ++ "." ++ format else job_id ++ "-" ++ suffix ++ "." ++ format

module _ (s : StorageService) (t : Times) (encode : String → Option (List ℕ))
    (s3 : Client (Unit {0})) where
  unfoldable pub upload_result :
      (job_id : String) (content : Body) (format : String) (suffix : Option String) → Reply String
  upload_result job_id content format suffix = guarded t s.upload_circuit (
      let key = result_key job_id suffix format in
      made t (encoded encode content) λ body.
        upload t
          (s3 (
            put_object s.results_bucket key body (result_content_type format)
              (some "public, max-age=31536000")))
          key)

  unfoldable pub upload_image : (job_id image_name : String) (image_data : List ℕ) → Reply String
  upload_image job_id image_name image_data = guarded t s.upload_circuit (
      let key = job_id ++ "/images/" ++ image_name in
      upload t
        (s3 (
          put_object s.results_bucket key image_data "image/png" (some "public, max-age=31536000")))
        key)

  -- `page_num` is the number's text.
  unfoldable pub upload_page_image : (job_id page_num : String) (image_data : List ℕ) → Reply String
  upload_page_image job_id page_num image_data = guarded t s.upload_circuit (
      let key = job_id ++ "/pages/page-" ++ page_num ++ ".png" in
      upload t
        (s3 (put_object s.temp_bucket key image_data "image/png" (some "public, max-age=604800")))
        key)

  -- `result` is the result's JSON text, `none` where `model_dump_json` raises its `ValueError`.
  unfoldable pub save_processing_result : (job_id : String) (result : Option String) → Reply String
  save_processing_result job_id result = guarded t s.upload_circuit (
      let key = "jobs/" ++ job_id ++ "/processing_result.json" in
      made t result λ body.
        upload t
          (send s3 (
            and_then (encode body)
              λ b. some (put_object s.results_bucket key b "application/json" none)))
          key)

  unfoldable pub upload_final_markdown : (job_id markdown : String) → Reply String
  upload_final_markdown job_id markdown = guarded t s.upload_circuit (
      let key = "jobs/" ++ job_id ++ "/final.md" in
      upload t
        (send s3 (
          and_then (encode markdown) λ b.
            some (
              put_object s.results_bucket key b "text/markdown" (some "public, max-age=31536000"))))
        key)

  unfoldable pub upload_file :
      (key : String) (content : List ℕ) (content_type : String) → Reply String
  upload_file key content content_type =
      guarded t s.upload_circuit
        (upload t (s3 (put_object s.results_bucket key content content_type none)) key)
