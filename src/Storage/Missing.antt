-- ===== src/Storage/Missing.antt =====
-- Loading a result that is not there (src/services/storage_service.py).
use Prim.Native.String.{◌++◌}
use equalify_reflow.Prelude.{ℕ, ◌≡◌, String, Option, none, refl, ◌∙◌, inl, false, []}
use equalify_reflow.Errors.{client_error, circuit_open, Result, ok, err}
use equalify_reflow.Breaker.{CircuitBreaker}
use equalify_reflow.Retry.{retry_with_backoff_for_sync_func, is_retryable_error}
use equalify_reflow.Retry.Laws.{attempts_final}
use equalify_reflow.Storage.{Request, get_object, Client, StorageService, Times, Reply, s3_policy}
use equalify_reflow.Storage.Downloads.{
  load, load_finished, load_failed, load_processing_result, download_file, download_temp_file,
}
use equalify_reflow.Storage.Leak.{LastSlot, with_slot_taken, guarded-LastSlot, guarded_no_slot}

missing_permanent :
    (status : Option ℕ) → is_retryable_error (client_error "NoSuchKey" status) ≡ false
unfolding is_retryable_error
missing_permanent status = refl

-- The request for an object that is not there is made once.
request_missing :
    {B : Type 0} (f : ℕ → Result B) (status : Option ℕ)
    → f 1 ≡ err (client_error "NoSuchKey" status)
    → retry_with_backoff_for_sync_func f s3_policy
      ≡ record { outcome = err (client_error "NoSuchKey" status); calls = 1; delays = [] }
unfolding retry_with_backoff_for_sync_func
request_missing f status e =
    attempts_final f s3_policy 2 1 (client_error "NoSuchKey" status) e
      (inl (missing_permanent status))

-- What a rejected operation replies.
abbrev pub rejection : {B : Type 0} → CircuitBreaker → Reply B
rejection b = record { circuit = b; outcome = err circuit_open; calls = 0 }

module _ {A P : Type 0} (s : StorageService) (t : Times) (s3 : Client (Result A))
    (parse : A → Result P) (job_id : String) (status : Option ℕ) where
  abbrev pub result_request : Request
  result_request = get_object s.results_bucket ("jobs/" ++ job_id ++ "/processing_result.json")

  load_missing :
      (b : CircuitBreaker)
      → s3 result_request 1 ≡ err (client_error "NoSuchKey" status)
      → load s t s3 parse result_request b ≡ record { circuit = b; outcome = ok none; calls = 1 }
  unfolding load load_finished load_failed
  load_missing b missing = rw (request_missing (s3 result_request) status missing) refl

  -- Loading the result of a job that has none yet, while the download breaker is half-open with one
  -- slot left, answers nothing found after one request and keeps the slot: every download after
  -- it, whatever is asked for and whenever, is rejected with no request and changes nothing.
  load_processing_result-leak :
      LastSlot s.download_circuit
      → s3 result_request 1 ≡ err (client_error "NoSuchKey" status)
      → let stuck = record s { download_circuit = with_slot_taken s.download_circuit } in
        (load_processing_result s t s3 parse job_id
          ≡ record { circuit = with_slot_taken s.download_circuit; outcome = ok none; calls = 1 })
        × ((t' : Times) (s3' : Client (Result A)) (s3_key : String)
            → (download_file stuck t' s3' s3_key ≡ rejection stuck.download_circuit)
              × (download_temp_file stuck t' s3' s3_key ≡ rejection stuck.download_circuit)
              × (load_processing_result stuck t' s3' parse s3_key
                  ≡ rejection stuck.download_circuit))
  unfolding load_processing_result download_file download_temp_file
  load_processing_result-leak last missing = (
    guarded-LastSlot t s.download_circuit _ last
        ∙ load_missing (with_slot_taken s.download_circuit) missing,
    λ t' s3' s3_key. (
      guarded_no_slot t' s.download_circuit _ last,
      guarded_no_slot t' s.download_circuit _ last,
      guarded_no_slot t' s.download_circuit _ last,
    ),
  )
