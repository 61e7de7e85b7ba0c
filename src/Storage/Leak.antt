-- ===== src/Storage/Leak.antt =====
-- Half-open slots that are never given back (src/services/storage_service.py).
use equalify_reflow.Prelude.{
  ℕ, ◌+◌, ◌≡◌, ◌≢◌, inl, inr, String, Option, none, some, List, arith, refl, ◌∙◌, ap,
}
use equalify_reflow.Errors.{Exception, circuit_open, err}
use equalify_reflow.Breaker.{CircuitBreaker, half_open, check_state, update_state}
use equalify_reflow.Storage.{Client, StorageService, Times, Reply, guarded}
use equalify_reflow.Storage.Rules.{guarded-cases, Upload, run_upload, run_upload-guarded}
use equalify_reflow.Storage.Document.{UploadFile, validation, store_document}

-- One free slot is left in the half-open state.
pub record LastSlot (b : CircuitBreaker) : Type 0 where
  pub state : b.state ≡ half_open
  pub free : b.config.half_open_max_calls ≡ b.half_open_calls + 1

abbrev pub with_slot_taken : CircuitBreaker → CircuitBreaker
with_slot_taken b = record b { half_open_calls = b.half_open_calls + 1 }

check-LastSlot :
    (now : ℕ) (b : CircuitBreaker) → LastSlot b → check_state now b ≡ (with_slot_taken b, none)
unfolding check_state update_state
check-LastSlot now b h = ground arith

check_no_slot :
    (now : ℕ) (b : CircuitBreaker)
    → LastSlot b
    → ((check_state now (with_slot_taken b)).0 ≡ with_slot_taken b)
      × ((check_state now (with_slot_taken b)).1 ≢ none)
unfolding check_state update_state
check_no_slot now b h = (ground arith, ground arith)

module _ {A : Type 0} (t : Times) (b : CircuitBreaker) (rest : CircuitBreaker → Reply A) where
  pub guarded-LastSlot : LastSlot b → guarded t b rest ≡ rest (with_slot_taken b)
  guarded-LastSlot h = elim (guarded-cases t b rest) [
    | inl (e, r) ↦ absurd (r (rw (check-LastSlot t.checked b h) refl))
    | inr (e, a) ↦ e ∙ ap (λ c. rest c.0) (check-LastSlot t.checked b h)
  ]

  pub guarded_no_slot :
      LastSlot b
      → guarded t (with_slot_taken b) rest
        ≡ record { circuit = with_slot_taken b; outcome = err circuit_open; calls = 0 }
  guarded_no_slot h =
      let (same, rejected) = check_no_slot t.checked b h in
      elim (guarded-cases t (with_slot_taken b) rest) [
        | inl (e, r) ↦ rw e (rw same refl)
        | inr (e, a) ↦ absurd (rejected a)
      ]

module _ (s : StorageService) (t : Times) (s3 : Client (Unit {0})) (max_upload_size : ℕ)
    (job_id : String) (file : UploadFile) (e : Exception)
    (invalid : validation max_upload_size file ≡ some e) (last : LastSlot s.upload_circuit) where
  -- Storing a document that fails the validation, while the breaker is half-open with one slot
  -- left, makes no request, returns the validation's error and keeps the slot: every upload after
  -- it, whatever it sends and whenever it is made, is rejected with no request and changes nothing.
  pub store_document-leak :
      (store_document s t s3 max_upload_size job_id file
        ≡ record { circuit = with_slot_taken s.upload_circuit; outcome = err e; calls = 0 })
      × ((t' : Times) (encode : String → Option (List ℕ)) (s3' : Client (Unit {0})) (u : Upload)
          → run_upload
              (record s { upload_circuit = with_slot_taken s.upload_circuit })
              t'
              encode
              s3'
              u
            ≡ record {
              circuit = with_slot_taken s.upload_circuit;
              outcome = err circuit_open;
              calls = 0;
            })
  unfolding store_document
  store_document-leak = (
    guarded-LastSlot t s.upload_circuit _ last ∙ rw invalid refl,
    λ t' encode s3' u.
        let (rest, eq) =
          run_upload-guarded (record s { upload_circuit = with_slot_taken s.upload_circuit }) t'
            encode s3' u in
        eq ∙ guarded_no_slot t' s.upload_circuit rest last,
  )
