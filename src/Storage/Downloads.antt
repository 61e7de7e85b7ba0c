-- ===== src/Storage/Downloads.antt =====
-- The downloads from S3 that go through the download breaker (src/services/storage_service.py).
-- The client's answer to `get_object` is the outcome of reading the response's body.
use Prim.Native.String.{◌++◌}
use equalify_reflow.Prelude.{ℕ, String, Option, none, some, str_eq, if◌then◌else◌}
use equalify_reflow.Errors.{Exception, client_error, http_exception, Result, ok, err}
use equalify_reflow.Breaker.{CircuitBreaker, record_success, record_failure}
use equalify_reflow.Retry.{retry_with_backoff_for_sync_func}
use equalify_reflow.Storage.{
  Request, get_object, Client, StorageService, Times, Reply, guarded, s3_policy, upload_failed,
}

-- A download's client error is 404 if the object is not there, and 500 otherwise.
unfoldable pub download_failed : {A : Type 0} → Times → Exception → ℕ → CircuitBreaker → Reply A
unfolding upload_failed
download_failed t (client_error code status) n b = record {
  circuit = record_failure t.failed b;
  outcome = err (http_exception (if str_eq code "NoSuchKey" then 404 else 500));
  calls = n;
}
download_failed t e n b = upload_failed t e n b

-- The body is read inside the same `try`, after the success was recorded.
unfoldable pub read_body : {A : Type 0} → Times → ℕ → CircuitBreaker → Result A → Reply A
read_body t n b (ok a) = record { circuit = b; outcome = ok a; calls = n }
read_body t n b (err e) = download_failed t e n b

unfoldable pub downloaded : {A : Type 0} → Times → CircuitBreaker → ℕ → Result (Result A) → Reply A
downloaded t b n (ok stream) = read_body t n (record_success b) stream
downloaded t b n (err e) = download_failed t e n b

unfoldable pub download :
    {A : Type 0} → Times → Client (Result A) → Request → CircuitBreaker → Reply A
download t s3 request b =
    let r = retry_with_backoff_for_sync_func (s3 request) s3_policy in
    downloaded t b r.calls r.outcome

-- Loading a result answers `None` for an object that is not there, and reports nothing then.
unfoldable pub load_failed :
    {A : Type 0} → Times → Exception → ℕ → CircuitBreaker → Reply (Option A)
unfolding upload_failed
load_failed t (client_error code status) n b =
    if str_eq code "NoSuchKey"
    then record { circuit = b; outcome = ok none; calls = n }
    else upload_failed t (client_error code status) n b
load_failed t e n b = upload_failed t e n b

unfoldable pub parsed : {A P : Type 0} → (A → Result P) → Result A → Result P
parsed parse (ok a) = parse a
parsed parse (err e) = err e

unfoldable pub loaded : {P : Type 0} → Times → ℕ → CircuitBreaker → Result P → Reply (Option P)
loaded t n b (ok p) = record { circuit = b; outcome = ok (some p); calls = n }
loaded t n b (err e) = load_failed t e n b

module _ {A : Type 0} (s : StorageService) (t : Times) (s3 : Client (Result A)) where
  unfoldable pub download_temp_file : (s3_key : String) → Reply A
  download_temp_file s3_key =
      guarded t s.download_circuit (download t s3 (get_object s.temp_bucket s3_key))

  unfoldable pub download_file : (s3_key : String) → Reply A
  download_file s3_key =
      guarded t s.download_circuit (download t s3 (get_object s.results_bucket s3_key))

  unfoldable pub load_finished :
      {P : Type 0} → (A → Result P) → CircuitBreaker → ℕ → Result (Result A) → Reply (Option P)
  load_finished parse b n (ok stream) = loaded t n (record_success b) (parsed parse stream)
  load_finished parse b n (err e) = load_failed t e n b

  unfoldable pub load : {P : Type 0} → (A → Result P) → Request → CircuitBreaker → Reply (Option P)
  load parse request b =
      let r = retry_with_backoff_for_sync_func (s3 request) s3_policy in
      load_finished parse b r.calls r.outcome

  -- `parse` is the decoding, `json.loads` and the model's validation, none of them the program's.
  unfoldable pub load_processing_result :
      {P : Type 0} → (parse : A → Result P) (job_id : String) → Reply (Option P)
  load_processing_result parse job_id =
      guarded t s.download_circuit
        (load parse (get_object s.results_bucket ("jobs/" ++ job_id ++ "/processing_result.json")))
