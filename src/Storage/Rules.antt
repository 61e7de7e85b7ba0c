-- ===== src/Storage/Rules.antt =====
-- What every storage operation does with its breaker (src/services/storage_service.py).
use equalify_reflow.Prelude.{
  ℕ, ◌≤◌, ◌≡◌, ◌≢◌, ◌⊎◌, inl, inr, String, Option, none, List, arith, refl, sym, ◌∙◌, ap,
}
use equalify_reflow.Errors.{Exception, circuit_open, http_exception, Result, ok, err}
use equalify_reflow.Breaker.{CircuitBreaker, check_state, is_open, record_success, record_failure}
use equalify_reflow.Breaker.Invariant.{Inv, check_state-Inv, record_success-Inv, record_failure-Inv}
use equalify_reflow.Retry.{Run, retry_with_backoff_for_sync_func}
use equalify_reflow.Retry.Laws.{Result-cases, retry_with_backoff_for_sync_func-Decides}
use equalify_reflow.Storage.{
  Body, Request, Client, StorageService, Times, Reply, guarded, s3_policy, upload, upload_failed,
  upload_finished,
}
use equalify_reflow.Storage.Uploads.{
  upload_result, upload_image, upload_page_image, save_processing_result, upload_final_markdown,
  upload_file,
}

-- What `check_state` and `is_open` leave: the breaker that an admitted operation works with.
module _ {A : Type 0} (t : Times) (b : CircuitBreaker) (rest : CircuitBreaker → Reply A) where
  -- An operation is either rejected, with no request made, or its rest runs on the breaker that the
  -- check leaves.
  pub guarded-cases :
      ((guarded t b rest
          ≡ record { circuit = (check_state t.checked b).0; outcome = err circuit_open; calls = 0 })
        × ((check_state t.checked b).1 ≢ none))
      ⊎ ((guarded t b rest ≡ rest (check_state t.checked b).0)
          × ((check_state t.checked b).1 ≡ none))
  unfolding guarded check_state is_open
  guarded-cases = ground arith

-- The client is not the source of the breaker's own exception.
abbrev pub RaisesNoBreaker : {A : Type 0} → Client A → Type 0
RaisesNoBreaker s3 = (q : Request) (n : ℕ) → s3 q n ≢ err circuit_open

-- The outcome of the attempts: the last of at most three decided, and a success and a failure are
-- each reported to the breaker once.
abbrev pub Uploaded :
    Times → (attempt : ℕ → Result (Unit {0})) → String → CircuitBreaker → Reply String → Type 0
Uploaded t attempt key b r =
    (r.calls ≤ 3)
    × (((r.outcome ≡ ok key) × (r.circuit ≡ record_success b) × (attempt r.calls ≡ ok tt))
        ⊎ ((r.outcome ≡ err (http_exception 500))
            × (r.circuit ≡ record_failure t.failed b)
            × ((e : Exception) × (attempt r.calls ≡ err e))))

module _ (t : Times) (attempt : ℕ → Result (Unit {0})) (key : String) (b : CircuitBreaker) where
  upload_failed_lem :
      (e : Exception) (n : ℕ)
      → e ≢ circuit_open
      → upload_failed {A = String} t e n b ≡ record {
        circuit = record_failure t.failed b;
        outcome = err (http_exception 500);
        calls = n;
      }
  unfolding upload_failed
  upload_failed_lem circuit_open n h = absurd (h refl)
  upload_failed_lem _ n h = refl

  abbrev run : Run (Unit {0})
  run = retry_with_backoff_for_sync_func attempt s3_policy

  upload_ok :
      (u : Unit {0})
      → run.outcome ≡ ok u
      → upload t attempt key b
        ≡ record { circuit = record_success b; outcome = ok key; calls = run.calls }
  unfolding upload
  upload_ok u o = rw (o, upload_finished)

  upload_err :
      (x : Exception) → run.outcome ≡ err x → upload t attempt key b ≡ upload_failed t x run.calls b
  unfolding upload
  upload_err x o = rw (o, upload_finished)

  pub upload-Uploaded :
      ((n : ℕ) → attempt n ≢ err circuit_open) → Uploaded t attempt key b (upload t attempt key b)
  upload-Uploaded quiet =
      let (d, o) = retry_with_backoff_for_sync_func-Decides attempt s3_policy (omega arith) in
      elim (Result-cases run.outcome) [
        | inl (u, e) ↦ rw (upload_ok u e) (d.upper, inl (refl, refl, sym o ∙ e))
        | inr (x, e) ↦ rw (upload_err x e) (
            rw (upload_failed_lem x run.calls (λ c. quiet run.calls (sym o ∙ e ∙ ap err c)))
              (d.upper, inr (refl, refl, (x, sym o ∙ e))))
      ]

-- The uploads, with their arguments.
pub data Upload : Type 0 where
  result_ : (job_id : String) (content : Body) (format : String) (suffix : Option String) → Upload
  image : (job_id image_name : String) (image_data : List ℕ) → Upload
  page_image : (job_id page_num : String) (image_data : List ℕ) → Upload
  processing_result : (job_id : String) (result : Option String) → Upload
  final_markdown : (job_id markdown : String) → Upload
  file : (key : String) (content : List ℕ) (content_type : String) → Upload

module _ (s : StorageService) (t : Times) (encode : String → Option (List ℕ))
    (s3 : Client (Unit {0})) where
  unfoldable pub run_upload : Upload → Reply String
  run_upload (result_ j c f x) = upload_result s t encode s3 j c f x
  run_upload (image j n d) = upload_image s t encode s3 j n d
  run_upload (page_image j n d) = upload_page_image s t encode s3 j n d
  run_upload (processing_result j r) = save_processing_result s t encode s3 j r
  run_upload (final_markdown j m) = upload_final_markdown s t encode s3 j m
  run_upload (file k c x) = upload_file s t encode s3 k c x

  -- Every upload is behind the breaker's checks.
  pub run_upload-guarded :
      (u : Upload)
      → (rest : CircuitBreaker → Reply String) × (run_upload u ≡ guarded t s.upload_circuit rest)
  unfolding run_upload upload_result upload_image upload_page_image save_processing_result
      upload_final_markdown upload_file
  run_upload-guarded (result_ j c f x) = (_, refl)
  run_upload-guarded (image j n d) = (_, refl)
  run_upload-guarded (page_image j n d) = (_, refl)
  run_upload-guarded (processing_result j r) = (_, refl)
  run_upload-guarded (final_markdown j m) = (_, refl)
  run_upload-guarded (file k c x) = (_, refl)

-- A breaker that admitted a call and was told its outcome has no more calls in the half-open state
-- than before, and is consistent.
abbrev pub Balanced : CircuitBreaker → CircuitBreaker → Type 0
Balanced b b' = Inv b' × (b'.half_open_calls ≤ b.half_open_calls)

pub check_rejects :
    (now : ℕ) (b : CircuitBreaker)
    → Inv b
    → (check_state now b).1 ≢ none
    → Balanced b (check_state now b).0
unfolding check_state
check_rejects now b h r = (check_state-Inv now b h, ground arith)

pub success_balances :
    (now : ℕ) (b : CircuitBreaker)
    → Inv b
    → (check_state now b).1 ≡ none
    → Balanced b (record_success (check_state now b).0)
success_balances now b h r = (
  record_success-Inv _ (check_state-Inv now b h),
  unfold check_state record_success in ground arith,
)

pub failure_balances :
    (now later : ℕ) (b : CircuitBreaker)
    → Inv b
    → (check_state now b).1 ≡ none
    → Balanced b (record_failure later (check_state now b).0)
failure_balances now later b h r = (
  record_failure-Inv later _ (check_state-Inv now b h),
  unfold check_state record_failure in ground arith,
)
