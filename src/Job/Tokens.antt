-- ===== src/Job/Tokens.antt =====
-- Approval tokens and stream tokens (src/services/job_service.py).
use equalify_reflow.Prelude.{
  ℕ, String, List, [], ◌∷◌, map, ap, ap₂, false, Bool-cases, inl, inr, Option, none, some, ◌≡◌,
  refl, ltb, str_eq, ◌∙◌, if◌then◌else◌,
}
use equalify_reflow.Redis.{Redis}
use equalify_reflow.Redis.Keys.{key_eq_refl, stream_token_key}
use equalify_reflow.Redis.Exec.{IsUp, World, call}
use equalify_reflow.Errors.{Result, ok}
use equalify_reflow.Job.Service.{create_stream_token, validate_and_consume_stream_token, nonempty}

-- What is left of the strings after so many seconds.
abbrev pub later : {r : Redis} → ℕ → World r → World r
later {r} seconds w = record w { strings = r.elapse seconds w.strings }

-- A token that leads to a job tells it, and one that is over tells nothing.
kept_job :
    (job_id : String) (seconds : ℕ)
    → str_eq job_id "" ≡ false
    → nonempty (if ltb seconds 300 then some job_id else none)
      ≡ (if ltb seconds 300 then some job_id else none)
kept_job job_id seconds e = elim (Bool-cases (ltb seconds 300)) [
  | inl soon ↦ rw soon (rw e refl)
  | inr late ↦ rw late refl
]

module _ {r : Redis} where
  validate_lem :
      (token : String) (o : Option String) (w : World r)
      → IsUp w
      → r.get (stream_token_key token) w.strings ≡ o
      → let (result, w') = validate_and_consume_stream_token token w in
        (result ≡ ok (nonempty o)) × (r.get (stream_token_key token) w'.strings ≡ none) × IsUp w'
  unfolding validate_and_consume_stream_token call
  validate_lem token o w up e =
      rw (up w.calls)
        (rw e refl, r.get-del _ _ _ ∙ rw (key_eq_refl (stream_token_key token)) refl, up)

  create_lem :
      (token job_id : String) (seconds : ℕ) (w : World r)
      → IsUp w
      → let w' = (create_stream_token token job_id w).1 in
        (r.get (stream_token_key token) (r.elapse seconds w'.strings)
          ≡ (if ltb seconds 300 then some job_id else none))
        × IsUp w'
  unfolding create_stream_token call
  create_lem token job_id seconds w up =
      rw (up w.calls)
        (r.get-elapse-set _ _ _ _ _ _ ∙ rw (key_eq_refl (stream_token_key token)) refl, up)

  -- What callers that present the same token one after another are told, each so many seconds after
  -- the one before.
  pub presented : List ℕ → (token : String) → World r → List (Result (Option String))
  presented [] token w = []
  presented (n ∷ ns) token w =
      let (result, w') = validate_and_consume_stream_token token (later n w) in
      result ∷ presented ns token w'

  presented_consumed :
      (ns : List ℕ) (token : String) (w : World r)
      → IsUp w
      → r.get (stream_token_key token) w.strings ≡ none
      → presented ns token w ≡ map (λ _. ok none) ns
  unfolding presented
  presented_consumed [] token w up e = refl
  presented_consumed (n ∷ ns) token w up e =
      let (now, gone, up') =
        validate_lem token none (later n w) up (r.get-elapse-none _ n w.strings e) in
      ap₂ (λ x xs. x ∷ xs) now
        (presented_consumed ns token (validate_and_consume_stream_token token (later n w)).1 up'
          gone)

  -- While Redis answers, a stream token made for a job is good for one caller and for less than 300
  -- seconds: of any callers that present it one after another, the first is told the job's identifier
  -- if it comes within that time and nothing if it comes later, and all the others are told nothing.
  pub stream_token_once :
      (seconds : ℕ) (ns : List ℕ) (token job_id : String) (w : World r)
      → IsUp w
      → str_eq job_id "" ≡ false
      → presented (seconds ∷ ns) token (create_stream_token token job_id w).1
        ≡ ok (if ltb seconds 300 then some job_id else none) ∷ map (λ _. ok none) ns
  unfolding presented
  stream_token_once seconds ns token job_id w up e =
      let (kept, up1) = create_lem token job_id seconds w up in
      let w1 : World r = later seconds (create_stream_token token job_id w).1 in
      let (now, gone, up2) = validate_lem token _ w1 up1 kept in
      ap₂ (λ x xs. x ∷ xs) (now ∙ ap ok (kept_job job_id seconds e))
        (presented_consumed ns token (validate_and_consume_stream_token token w1).1 up2 gone)
