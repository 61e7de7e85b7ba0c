-- ===== src/Storage/Reads.antt =====
-- The downloads give back the half-open slot that they take (src/services/storage_service.py).
use equalify_reflow.Prelude.{
  ℕ, ◌≤◌, ◌≡◌, ◌≢◌, ◌⊎◌, inl, inr, String, none, arith, refl, sym, ◌∙◌, ap, if◌then◌else◌, str_eq,
}
use equalify_reflow.Errors.{Exception, client_error, circuit_open, http_exception, Result, ok, err}
use equalify_reflow.Breaker.{CircuitBreaker, check_state, record_success, record_failure}
use equalify_reflow.Breaker.Invariant.{Inv, check_state-Inv, record_success-Inv, record_failure-Inv}
use equalify_reflow.Retry.{retry_with_backoff_for_sync_func}
use equalify_reflow.Retry.Laws.{retry_with_backoff_for_sync_func-Decides}
use equalify_reflow.Storage.{
  Request, get_object, Client, StorageService, Times, Reply, guarded, upload_failed, s3_policy,
}
use equalify_reflow.Storage.Downloads.{
  download, downloaded, download_failed, read_body, download_file, download_temp_file,
}
use equalify_reflow.Storage.Rules.{
  guarded-cases, Balanced, check_rejects, success_balances, failure_balances,
}

-- Neither a request nor the reading of a body raises the breaker's own exception.
abbrev pub NeverOpen : {A : Type 0} → Client (Result A) → Type 0
NeverOpen s3 =
    (q : Request) (n : ℕ) → (s3 q n ≢ err circuit_open) × (s3 q n ≢ ok (err circuit_open))

-- A failed download is reported and answered with an HTTP error.
abbrev pub http_status : Exception → ℕ
http_status (client_error code status) = if str_eq code "NoSuchKey" then 404 else 500
http_status _ = 500

module _ {A : Type 0} (t : Times) (b : CircuitBreaker) where
  download_failed_lem :
      (e : Exception) (n : ℕ)
      → e ≢ circuit_open
      → download_failed {A = A} t e n b ≡ record {
        circuit = record_failure t.failed b;
        outcome = err (http_exception (http_status e));
        calls = n;
      }
  unfolding download_failed upload_failed
  download_failed_lem circuit_open n h = absurd (h refl)
  download_failed_lem _ n h = refl

-- What a caller of a download sees: a rejection with no request made, a body that the last request
-- answered, or an HTTP error for a request or a body that failed; at most three requests.
pub record Fetched {A : Type 0} (s3 : Client (Result A)) (q : Request) (r : Reply A) : Type 0 where
  pub few : r.calls ≤ 3
  pub answer :
      ((r.outcome ≡ err circuit_open) × (r.calls ≡ 0))
      ⊎ ((a : A) × (r.outcome ≡ ok a) × (s3 q r.calls ≡ ok (ok a)))
      ⊎ ((e : Exception) × (r.outcome ≡ err (http_exception (http_status e)))
          × ((s3 q r.calls ≡ err e) ⊎ (s3 q r.calls ≡ ok (err e))))

module _ {A : Type 0} (t : Times) (s3 : Client (Result A)) (q : Request) (b : CircuitBreaker)
    (h : Inv b) (admitted : (check_state t.checked b).1 ≡ none) (quiet : NeverOpen s3) where
  abbrev checked : CircuitBreaker
  checked = (check_state t.checked b).0

  -- A success that is followed by a failure.
  twice_balances : Balanced b (record_failure t.failed (record_success checked))
  twice_balances = (
    record_failure-Inv t.failed _ (record_success-Inv _ (check_state-Inv t.checked b h)),
    unfold check_state record_success record_failure in ground arith,
  )

  downloaded-Fetched :
      (n : ℕ) (x : Result (Result A))
      → n ≤ 3
      → s3 q n ≡ x
      → Balanced b (downloaded t checked n x).circuit × Fetched s3 q (downloaded t checked n x)
  unfolding downloaded read_body
  downloaded-Fetched n (ok (ok a)) few e = (
    success_balances t.checked b h admitted,
    record { few = few; answer = inr (inl (a, refl, e)) },
  )
  downloaded-Fetched n (ok (err x)) few e =
      rw
        (download_failed_lem t (record_success checked) x n
          (λ c. (quiet q n).1 (e ∙ ap (λ y. ok (err y)) c)))
        (twice_balances, record { few = few; answer = inr (inr (x, refl, inr e)) })
  downloaded-Fetched n (err x) few e =
      rw (download_failed_lem t checked x n (λ c. (quiet q n).0 (e ∙ ap err c))) (
        failure_balances t.checked t.failed b h admitted,
        record { few = few; answer = inr (inr (x, refl, inl e)) },
      )

  download-Fetched :
      Balanced b (download t s3 q checked).circuit × Fetched s3 q (download t s3 q checked)
  unfolding download
  download-Fetched =
      let (d, o) = retry_with_backoff_for_sync_func-Decides (s3 q) s3_policy (omega arith) in
      let r = retry_with_backoff_for_sync_func (s3 q) s3_policy in
      downloaded-Fetched r.calls r.outcome d.upper (sym o)

module _ {A : Type 0} (t : Times) (s3 : Client (Result A)) (q : Request) (b : CircuitBreaker) where
  guarded-Fetched :
      NeverOpen s3
      → Inv b
      → Balanced b (guarded t b (download t s3 q)).circuit
        × Fetched s3 q (guarded t b (download t s3 q))
  guarded-Fetched quiet h = elim (guarded-cases t b (download t s3 q)) [
    | inl (e, r) ↦
        rw e
          (check_rejects t.checked b h r, record { few = omega arith; answer = inl (refl, refl) })
    | inr (e, a) ↦ rw e (download-Fetched t s3 q b h a quiet)
  ]

-- With a client that does not itself raise the breaker's exception, both downloads leave a
-- consistent breaker consistent and with no more half-open slots taken than before. They make at
-- most three requests, return a body only if the last request answered it, and an HTTP error (404
-- for a missing object) only if the last request or the reading of its body failed.
pub downloads-Fetched :
    {A : Type 0} (s : StorageService) (t : Times) (s3 : Client (Result A)) (s3_key : String)
    → NeverOpen s3
    → Inv s.download_circuit
    → (Balanced s.download_circuit (download_temp_file s t s3 s3_key).circuit
        × Fetched s3 (get_object s.temp_bucket s3_key) (download_temp_file s t s3 s3_key))
      × (Balanced s.download_circuit (download_file s t s3 s3_key).circuit
          × Fetched s3 (get_object s.results_bucket s3_key) (download_file s t s3 s3_key))
unfolding download_temp_file download_file
downloads-Fetched s t s3 s3_key quiet h = (
  guarded-Fetched t s3 (get_object s.temp_bucket s3_key) s.download_circuit quiet h,
  guarded-Fetched t s3 (get_object s.results_bucket s3_key) s.download_circuit quiet h,
)
