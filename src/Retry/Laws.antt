-- ===== src/Retry/Laws.antt =====
-- Which attempt decides the outcome of the retry loop (src/utils/retry_helpers.py).
use equalify_reflow.Prelude.{
  ℕ, zero, suc, ◌+◌, ◌≤◌, ◌<◌, ◌≡◌, ◌≢◌, ◌⊎◌, [], ◌∷◌, true, false, arith, refl, sym, Bool-cases,
  inl, inr, subst, ℕ_discrete,
}
use equalify_reflow.Errors.{Exception, Result, ok, err}
use equalify_reflow.Retry.{
  Policy, Run, is_retryable_error, after_failure, attempts, retry_with_backoff,
  retry_with_backoff_for_sync_func, backoff_delay,
}

module _ {ℓ} {A : Type ℓ} where
  -- Attempt `k` failed with an error that is worth another attempt.
  abbrev pub FailedRetryably : (ℕ → Result A) → ℕ → Type ℓ
  FailedRetryably func k = (e : Exception) × (func k ≡ err e) × (is_retryable_error e ≡ true)

  -- The attempt after which the loop stops: the first that succeeds, that fails for good, or that
  -- is the last one allowed.
  pub record Decides (func : ℕ → Result A) (max_attempts from k : ℕ) : Type ℓ where
    pub lower : from ≤ k
    pub upper : k ≤ max_attempts
    pub before : (j : ℕ) → from ≤ j → j < k → FailedRetryably func j
    pub stops :
        ((a : A) × (func k ≡ ok a))
        ⊎ ((e : Exception) × (func k ≡ err e)
            × ((is_retryable_error e ≡ false) ⊎ (k ≡ max_attempts)))

  after_failure_final :
      (p : Policy) (attempt : ℕ) (x : Exception) (rest : Run A)
      → (is_retryable_error x ≡ false) ⊎ (attempt ≡ p.max_attempts)
      → after_failure p attempt x rest ≡ record { outcome = err x; calls = attempt; delays = [] }
  unfolding after_failure
  after_failure_final p attempt x rest last = ground arith

  after_failure_again :
      (p : Policy) (attempt : ℕ) (x : Exception) (rest : Run A)
      → is_retryable_error x ≡ true
      → attempt ≢ p.max_attempts
      → after_failure p attempt x rest
        ≡ record rest { delays = backoff_delay p attempt ∷ rest.delays }
  unfolding after_failure
  after_failure_again p attempt x rest r more = ground arith

  module _ (func : ℕ → Result A) (p : Policy) (left attempt : ℕ) where
    pub attempts_ok :
        (a : A)
        → func attempt ≡ ok a
        → attempts func p (suc left) attempt
          ≡ record { outcome = ok a; calls = attempt; delays = [] }
    unfolding attempts
    attempts_ok a e = rw (e, attempts)

    pub attempts_final :
        (x : Exception)
        → func attempt ≡ err x
        → (is_retryable_error x ≡ false) ⊎ (attempt ≡ p.max_attempts)
        → attempts func p (suc left) attempt
          ≡ record { outcome = err x; calls = attempt; delays = [] }
    unfolding attempts
    attempts_final x e last = rw (e, attempts) (after_failure_final p attempt x _ last)

    pub attempts_again :
        (x : Exception)
        → func attempt ≡ err x
        → is_retryable_error x ≡ true
        → attempt ≢ p.max_attempts
        → attempts func p (suc left) attempt ≡ (
            let rest = attempts func p left (attempt + 1) in
            record rest { delays = backoff_delay p attempt ∷ rest.delays })
    unfolding attempts
    attempts_again x e r more = rw (e, attempts) (after_failure_again p attempt x _ r more)

  -- An earlier attempt that failed retryably does not change which attempt decides.
  Decides-earlier :
      (func : ℕ → Result A) (m from k : ℕ)
      → FailedRetryably func from
      → Decides func m (from + 1) k
      → Decides func m from k
  Decides-earlier func m from k failed d = record {
    lower = omega (arith, d.lower);
    upper = d.upper;
    before = λ j lo hi. elim (ℕ_discrete from j) [
      | yes same ↦ subst (FailedRetryably func) same failed
      | no other ↦ d.before j (omega arith) hi
    ];
    stops = d.stops;
  }

  Decides-now :
      (func : ℕ → Result A) (m k : ℕ)
      → k ≤ m
      → ((a : A) × (func k ≡ ok a))
        ⊎ ((e : Exception) × (func k ≡ err e) × ((is_retryable_error e ≡ false) ⊎ (k ≡ m)))
      → Decides func m k k
  Decides-now func m k h s = record {
    lower = omega arith;
    upper = h;
    before = λ j lo hi. absurd (omega arith);
    stops = s;
  }

  -- What a run shows: it stopped at the attempt that decides, with that attempt's outcome.
  abbrev pub Stopped : (ℕ → Result A) → ℕ → ℕ → Run A → Type ℓ
  Stopped func m from r = Decides func m from r.calls × (r.outcome ≡ func r.calls)

  pub Result-cases : (r : Result A) → ((a : A) × (r ≡ ok a)) ⊎ ((e : Exception) × (r ≡ err e))
  Result-cases (ok a) = inl (a, refl)
  Result-cases (err e) = inr (e, refl)

  -- The failing attempt, by whether it is the last and whether its error is retryable.
  attempts_failed :
      (func : ℕ → Result A) (p : Policy) (left attempt : ℕ) (x : Exception)
      → suc left + attempt ≡ p.max_attempts + 1
      → func attempt ≡ err x
      → (0 < left → Stopped func p.max_attempts (attempt + 1) (attempts func p left (attempt + 1)))
      → Stopped func p.max_attempts attempt (attempts func p (suc left) attempt)
  attempts_failed func p left attempt x range e rest = elim (Bool-cases (is_retryable_error x)) [
    | inr permanent ↦
        rw (attempts_final func p left attempt x e (inl permanent))
          (Decides-now func _ attempt (omega arith) (inr (x, e, inl permanent)), sym e)
    | inl transient ↦ elim (ℕ_discrete attempt p.max_attempts) [
      | yes last ↦
          rw (attempts_final func p left attempt x e (inr last))
            (Decides-now func _ attempt (omega arith) (inr (x, e, inr last)), sym e)
      | no more ↦ rw (attempts_again func p left attempt x e transient more) (
          let (d, o) = rest (omega arith) in
          (Decides-earlier func _ attempt _ (x, e, transient) d, o))
    ]
  ]

  attempts-Stopped :
      (func : ℕ → Result A) (p : Policy) (left attempt : ℕ)
      → left + attempt ≡ p.max_attempts + 1
      → 0 < left
      → Stopped func p.max_attempts attempt (attempts func p left attempt)
  attempts-Stopped func p zero attempt range some_left = absurd (omega arith)
  attempts-Stopped func p (suc left) attempt range some_left = elim (Result-cases (func attempt)) [
    | inl (a, e) ↦
        rw (attempts_ok func p left attempt a e)
          (Decides-now func _ attempt (omega arith) (inl (a, e)), sym e)
    | inr (x, e) ↦
        attempts_failed func p left attempt x range e
          (attempts-Stopped func p left (attempt + 1) (omega arith))
  ]

  -- With at least one attempt allowed, the loop stops at some attempt between the first and the
  -- last: each attempt before it failed with a retryable error, it succeeded or failed for good or
  -- is the last one, and its outcome is what the caller gets.
  pub retry_with_backoff-Decides :
      (func : ℕ → Result A) (p : Policy)
      → 0 < p.max_attempts
      → Stopped func p.max_attempts 1 (retry_with_backoff func p)
  unfolding retry_with_backoff
  retry_with_backoff-Decides func p some_left =
      attempts-Stopped func p p.max_attempts 1 (omega arith) some_left

  -- The variant for blocking functions stops at the same attempt, with the same outcome.
  pub retry_with_backoff_for_sync_func-Decides :
      (func : ℕ → Result A) (p : Policy)
      → 0 < p.max_attempts
      → Stopped func p.max_attempts 1 (retry_with_backoff_for_sync_func func p)
  unfolding retry_with_backoff_for_sync_func
  retry_with_backoff_for_sync_func-Decides func p some_left =
      attempts-Stopped func p p.max_attempts 1 (omega arith) some_left
