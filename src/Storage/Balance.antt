-- ===== src/Storage/Balance.antt =====
-- The uploads give back the half-open slot that they take (src/services/storage_service.py).
use Prim.Native.String.{◌++◌}
use equalify_reflow.Prelude.{
  ℕ, ◌≤◌, ◌≡◌, ◌⊎◌, inl, inr, String, Option, none, some, List, arith, refl, and_then,
}
use equalify_reflow.Errors.{Exception, circuit_open, http_exception, ok, err}
use equalify_reflow.Breaker.{CircuitBreaker, check_state, record_success, record_failure}
use equalify_reflow.Breaker.Invariant.{Inv}
use equalify_reflow.Storage.{
  encoded, Request, put_object, Client, StorageService, Times, Reply, guarded, upload, send, made,
  upload_failed,
}
use equalify_reflow.Storage.Uploads.{
  result_content_type, result_key, upload_result, upload_image, upload_page_image,
  save_processing_result, upload_final_markdown, upload_file,
}
use equalify_reflow.Storage.Rules.{
  guarded-cases, RaisesNoBreaker, upload-Uploaded, Upload, result_, image, page_image,
  processing_result, final_markdown, file, run_upload, Balanced, check_rejects, success_balances,
  failure_balances,
}

-- The key of an upload.
abbrev pub key_of : Upload → String
key_of (result_ j c f x) = result_key j x f
key_of (image j n d) = j ++ "/images/" ++ n
key_of (page_image j n d) = j ++ "/pages/page-" ++ n ++ ".png"
key_of (processing_result j r) = "jobs/" ++ j ++ "/processing_result.json"
key_of (final_markdown j m) = "jobs/" ++ j ++ "/final.md"
key_of (file k c x) = k

-- The request of an upload; `none` if its body cannot be made.
abbrev pub request_of :
    StorageService → (encode : String → Option (List ℕ)) → Upload → Option Request
request_of s encode (result_ j c f x) = and_then (encoded encode c) λ b. some (
    put_object s.results_bucket (result_key j x f) b (result_content_type f)
      (some "public, max-age=31536000"))
request_of s encode (image j n d) = some (
    put_object s.results_bucket (key_of (image j n d)) d "image/png"
      (some "public, max-age=31536000"))
request_of s encode (page_image j n d) = some (
    put_object s.temp_bucket (key_of (page_image j n d)) d "image/png"
      (some "public, max-age=604800"))
request_of s encode (processing_result j r) = and_then r λ body. and_then (encode body) λ b.
    some (put_object s.results_bucket (key_of (processing_result j r)) b "application/json" none)
request_of s encode (final_markdown j m) = and_then (encode m) λ b. some (
    put_object s.results_bucket (key_of (final_markdown j m)) b "text/markdown"
      (some "public, max-age=31536000"))
request_of s encode (file k c x) = some (put_object s.results_bucket k c x none)

-- What a caller of an upload sees: a rejection with no attempt made; the upload's key, and its own
-- request succeeded; or an HTTP error 500, and its own request failed or could not be made. There
-- are at most three attempts.
pub record Answered (s3 : Client (Unit {0})) (request : Option Request) (key : String)
    (r : Reply String) : Type 0 where
  pub few : r.calls ≤ 3
  pub answer :
      ((r.outcome ≡ err circuit_open) × (r.calls ≡ 0))
      ⊎ ((q : Request) × (request ≡ some q) × (r.outcome ≡ ok key) × (s3 q r.calls ≡ ok tt))
      ⊎ ((q : Request) × (e : Exception) × (request ≡ some q)
          × (r.outcome ≡ err (http_exception 500))
          × (s3 q r.calls ≡ err e))
      ⊎ ((request ≡ none) × (r.outcome ≡ err (http_exception 500)))

-- An admitted upload: what the caller sees, and that the breaker is told the outcome.
abbrev Finished :
    Times → Client (Unit {0}) → Option Request → String → CircuitBreaker → Reply String → Type 0
Finished t s3 request key b r =
    Answered s3 request key r
    × ((r.circuit ≡ record_success b) ⊎ (r.circuit ≡ record_failure t.failed b))

module _ (t : Times) (s3 : Client (Unit {0})) (quiet : RaisesNoBreaker s3) (key : String)
    (b : CircuitBreaker) where
  upload-Finished : (q : Request) → Finished t s3 (some q) key b (upload t (s3 q) key b)
  upload-Finished q =
      let (few, decided) = upload-Uploaded t (s3 q) key b (quiet q) in
      elim decided [
        | inl (o, c, e) ↦ (record { few = few; answer = inr (inl (q, refl, o, e)) }, inl c)
        | inr (o, c, (x, e)) ↦
            (record { few = few; answer = inr (inr (inl (q, x, refl, o, e))) }, inr c)
      ]

  send-Finished :
      (request : Option Request) → Finished t s3 request key b (upload t (send s3 request) key b)
  unfolding send
  send-Finished (some q) = upload-Finished q
  send-Finished none =
      let (few, decided) = upload-Uploaded t (send s3 none) key b (λ n. ground arith) in
      elim decided [
        | inl (o, c, e) ↦ absurd (ground arith)
        | inr (o, c, x) ↦ (record { few = few; answer = inr (inr (inr (refl, o))) }, inr c)
      ]

  made-Finished :
      {A : Type 0} (o : Option A) (request : A → Option Request)
      (rest : A → CircuitBreaker → Reply String)
      → ((a : A) → Finished t s3 (request a) key b (rest a b))
      → Finished t s3 (and_then o request) key b (made t o rest b)
  unfolding made upload_failed
  made-Finished none request rest done =
      (record { few = omega arith; answer = inr (inr (inr (refl, refl))) }, inr refl)
  made-Finished (some a) request rest done = done a

  guarded-Finished :
      (request : Option Request) (rest : CircuitBreaker → Reply String)
      → Inv b
      → ((b' : CircuitBreaker) → Finished t s3 request key b' (rest b'))
      → Balanced b (guarded t b rest).circuit × Answered s3 request key (guarded t b rest)
  guarded-Finished request rest h done = elim (guarded-cases t b rest) [
    | inl (e, r) ↦
        rw e
          (check_rejects t.checked b h r, record { few = omega arith; answer = inl (refl, refl) })
    | inr (e, a) ↦
        let (answered, told) = done (check_state t.checked b).0 in
        elim told [
          | inl c ↦ rw e (rw c (success_balances t.checked b h a), answered)
          | inr c ↦ rw e (rw c (failure_balances t.checked t.failed b h a), answered)
        ]
  ]

-- With a client that does not itself raise the breaker's exception, each of the six uploads
-- (all but the storing of a new document) leaves a consistent breaker consistent and with no more
-- half-open slots taken than before. It makes at most three attempts. It returns its own key only if
-- its own request succeeded, an HTTP error 500 only if that request failed or its body could not be
-- made from the text, and the breaker's exception only if no attempt was made.
pub run_upload-Balanced :
    (s : StorageService) (t : Times) (encode : String → Option (List ℕ)) (s3 : Client (Unit {0}))
    (u : Upload)
    → RaisesNoBreaker s3
    → Inv s.upload_circuit
    → Balanced s.upload_circuit (run_upload s t encode s3 u).circuit
      × Answered s3 (request_of s encode u) (key_of u) (run_upload s t encode s3 u)
unfolding run_upload upload_result upload_image upload_page_image save_processing_result
    upload_final_markdown upload_file
run_upload-Balanced s t encode s3 (result_ j c f x) quiet h =
    guarded-Finished t s3 quiet _ s.upload_circuit _ _ h
      λ b. made-Finished t s3 quiet _ b _ _ _ λ body. upload-Finished t s3 quiet _ b _
run_upload-Balanced s t encode s3 (image j n d) quiet h =
    guarded-Finished t s3 quiet _ s.upload_circuit _ _ h λ b. upload-Finished t s3 quiet _ b _
run_upload-Balanced s t encode s3 (page_image j n d) quiet h =
    guarded-Finished t s3 quiet _ s.upload_circuit _ _ h λ b. upload-Finished t s3 quiet _ b _
run_upload-Balanced s t encode s3 (processing_result j r) quiet h =
    guarded-Finished t s3 quiet _ s.upload_circuit _ _ h
      λ b. made-Finished t s3 quiet _ b _ _ _ λ body. send-Finished t s3 quiet _ b _
run_upload-Balanced s t encode s3 (final_markdown j m) quiet h =
    guarded-Finished t s3 quiet _ s.upload_circuit _ _ h λ b. send-Finished t s3 quiet _ b _
run_upload-Balanced s t encode s3 (file k c x) quiet h =
    guarded-Finished t s3 quiet _ s.upload_circuit _ _ h λ b. upload-Finished t s3 quiet _ b _
