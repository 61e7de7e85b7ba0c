-- ===== src/Approval/Token/Expiry.antt =====
-- Which tokens are accepted (src/services/approval_service.py, src/services/job_service.py).
use equalify_reflow.Prelude.{
  ℕ, suc, ◌<◌, String, Option, none, some, ◌≡◌, ◌⊎◌, inl, inr, refl, ◌∙◌, ap, sym, arith, ltb,
  str_eq, Bool-cases, Option-cases,
}
use equalify_reflow.Errors.{Result, ok, err}
use equalify_reflow.Redis.{Redis, Hash}
use equalify_reflow.Redis.Keys.{job_key, approval_token_key}
use equalify_reflow.Redis.Exec.{World, call, pure, continue, handle}
use equalify_reflow.Job.{get_job}
use equalify_reflow.Job.Service.{job_of_mapping, get_job_by_approval_token}
use equalify_reflow.Approval.{Services, Stamp, naive, aware}
use equalify_reflow.Approval.Token.{before_expiry, unexpired, valid_job, validate_approval_token}

-- The job has an expiry time with a time zone, and it is later than `now`.
abbrev pub Unexpired : Services → ℕ → Hash → Type 0
Unexpired s now h =
    (text : String) × (t : ℕ) × (h "approval_expires_at" ≡ some text)
    × (s.fromisoformat text ≡ some (aware t))
    × (now < t)

-- The job is the one that the token's mapping names.
abbrev pub Mapped : {r : Redis} → (token : String) → World r → Hash → Type 0
Mapped {r} token w h =
    (job_id : String) × (r.get (approval_token_key token) w.strings ≡ some job_id)
    × (r.hgetall (job_key job_id) w.hashes ≡ some h)

before_expiry_cases :
    (o : Option Stamp) (now : ℕ) (h : Hash)
    → (before_expiry o now h ≡ none)
      ⊎ ((t : ℕ) × (o ≡ some (aware t)) × (now < t) × (before_expiry o now h ≡ some h))
unfolding before_expiry
before_expiry_cases none now h = inl refl
before_expiry_cases (some (naive t)) now h = inl refl
before_expiry_cases (some (aware t)) now h = elim (Bool-cases (ltb now t)) [
  | inl early ↦ inr (t, refl, ground arith, rw early refl)
  | inr late ↦ inl (rw late refl)
]

unexpired_cases :
    (s : Services) (o : Option String) (now : ℕ) (h : Hash)
    → (unexpired s o now h ≡ none)
      ⊎ ((text : String) × (t : ℕ) × (o ≡ some text)
          × (s.fromisoformat text ≡ some (aware t))
          × (now < t)
          × (unexpired s o now h ≡ some h))
unfolding unexpired
unexpired_cases s none now h = inl refl
unexpired_cases s (some text) now h = elim (Bool-cases (str_eq text "")) [
  | inl empty ↦ inl (rw empty refl)
  | inr given ↦ elim (before_expiry_cases (s.fromisoformat text) now h) [
    | inl e ↦ inl (rw given e)
    | inr (t, parsed, early, e) ↦ inr (text, t, refl, parsed, early, rw given e)
  ]
]

abbrev job_in : Result (Option Hash) → Option Hash
job_in (ok o) = o
job_in (err e) = none

-- An answer without a job, or with one that has a property.
abbrev pub NoneOr : (Hash → Type 0) → Result (Option Hash) → Type 0
NoneOr P x = (x ≡ ok none) ⊎ ((h : Hash) × (x ≡ ok (some h)) × P h)

valid_job_cases :
    (s : Services) (o : Option Hash) (now : ℕ)
    → (valid_job s o now ≡ none)
      ⊎ ((h : Hash) × (o ≡ some h) × (valid_job s o now ≡ some h) × Unexpired s now h)
unfolding valid_job
valid_job_cases s none now = inl refl
valid_job_cases s (some h) now = elim (unexpired_cases s (h "approval_expires_at") now h) [
  | inl e ↦ inl e
  | inr (text, t, field, parsed, early, e) ↦ inr (h, refl, e, (text, t, field, parsed, early))
]

module _ {r : Redis} (token : String) (w : World r) where
  mapped_cases :
      (o : Option String)
      → r.get (approval_token_key token) w.strings ≡ o
      → NoneOr
          (Mapped token w)
          (handle (λ e. pure none) (job_of_mapping o (record w { calls = suc w.calls }))).0
  unfolding job_of_mapping get_job call
  mapped_cases none e = inl refl
  mapped_cases (some job_id) e = elim (Bool-cases (str_eq job_id "")) [
    | inl empty ↦ rw empty (inl refl)
    | inr given ↦ elim (Bool-cases (w.faults (suc w.calls))) [
      | inl down ↦ rw (given, down) (inl refl)
      | inr up ↦
          rw (given, up)
            (elim (Option-cases (r.hgetall (job_key job_id) w.hashes)) [
              | inl gone ↦ inl (ap ok gone)
              | inr (h, found) ↦ inr (h, ap ok found, (job_id, e, found))
            ])
    ]
  ]

  found_cases : NoneOr (Mapped token w) (get_job_by_approval_token token w).0
  unfolding get_job_by_approval_token call
  found_cases = elim (Bool-cases (w.faults w.calls)) [
    | inl down ↦ rw down (inl refl)
    | inr up ↦ rw up (mapped_cases (r.get (approval_token_key token) w.strings) refl)
  ]

module _ {r : Redis} (s : Services) (token : String) (w : World r) where
  -- The time at which the validation reads the clock: after the calls that fetched the job.
  abbrev pub read_at : ℕ
  read_at = let (result, w') = get_job_by_approval_token token w in w'.now w'.calls

  checked :
      (x : Result (Option Hash) × World r)
      → NoneOr (Mapped token w) x.0
      → NoneOr
          (λ h. Mapped token w h × Unexpired s (x.1.now x.1.calls) h)
          (handle
            (λ e. pure none)
            (continue (λ job v. pure (valid_job s job (v.now v.calls)) v) x)).0
  checked (ok o, v) (inl e) = elim (valid_job_cases s o (v.now v.calls)) [
    | inl refused ↦ inl (ap ok refused)
    | inr (h, same, accepted, u) ↦ (let gone = ap job_in e in absurd (ground arith))
  ]
  checked (ok o, v) (inr (h, e, (job_id, mapped, found))) =
      elim (valid_job_cases s o (v.now v.calls)) [
        | inl refused ↦ inl (ap ok refused)
        | inr (h', same, accepted, u) ↦
            inr (h', ap ok accepted, ((job_id, mapped, found ∙ (sym (ap job_in e) ∙ same)), u))
      ]
  checked (err x, v) k = inl refl

  -- Whatever calls of Redis fail, validating a token does not raise, and accepts only a job that
  -- the token's mapping names, and whose expiry time has a time zone and is later than the clock.
  pub validate_approval_token-Unexpired :
      NoneOr (λ h. Mapped token w h × Unexpired s read_at h) (validate_approval_token s token w).0
  unfolding validate_approval_token
  validate_approval_token-Unexpired =
      checked (get_job_by_approval_token token w) (found_cases token w)
