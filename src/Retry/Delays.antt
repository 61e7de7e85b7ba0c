-- ===== src/Retry/Delays.antt =====
-- The delays between attempts (src/utils/retry_helpers.py).
use equalify_reflow.Prelude.{
  ℕ, zero, suc, ◌+◌, ◌-◌, ◌≤◌, ◌<◌, ◌≡◌, List, [], ◌∷◌, arith, refl, ap, inl, inr, Bool-cases,
  ℕ_discrete,
}
use equalify_reflow.Errors.{Result}
use equalify_reflow.Retry.{
  Policy, Run, is_retryable_error, backoff_delay, attempts, retry_with_backoff,
}
use equalify_reflow.Retry.Laws.{Result-cases, attempts_ok, attempts_final, attempts_again}

-- The delays after the attempts `from`, `from + 1` and so on, `count` of them.
abbrev pub backoff_schedule : Policy → (from count : ℕ) → List ℕ
backoff_schedule p from zero = []
backoff_schedule p from (suc count) = backoff_delay p from ∷ backoff_schedule p (from + 1) count

-- Each delay of the schedule is at most the policy's cap.
abbrev pub AllBelow : ℕ → List ℕ → Type 0
AllBelow m [] = Unit {0}
AllBelow m (d ∷ ds) = (d ≤ m) × AllBelow m ds

backoff_schedule-AllBelow :
    (p : Policy) (from count : ℕ) → AllBelow p.max_delay (backoff_schedule p from count)
backoff_schedule-AllBelow p from zero = tt
backoff_schedule-AllBelow p from (suc count) =
    (unfold backoff_delay in omega arith, backoff_schedule-AllBelow p (from + 1) count)

module _ {ℓ} {A : Type ℓ} (func : ℕ → Result A) (p : Policy) where
  -- The run stopped `n` attempts after `from`, and slept once before each of these.
  abbrev Slept : ℕ → Run A → Type 0
  Slept from r = (n : ℕ) × (r.calls ≡ from + n) × (r.delays ≡ backoff_schedule p from n)

  Slept-again :
      (from : ℕ) (r : Run A)
      → Slept (from + 1) r
      → Slept from (record r { delays = backoff_delay p from ∷ r.delays })
  Slept-again from r (n, c, d) = (suc n, omega arith, ap (λ ds. backoff_delay p from ∷ ds) d)

  attempts-Slept :
      (left attempt : ℕ)
      → left + attempt ≡ p.max_attempts + 1
      → 0 < left
      → Slept attempt (attempts func p left attempt)
  attempts-Slept zero attempt range some_left = absurd (omega arith)
  attempts-Slept (suc left) attempt range some_left = elim (Result-cases (func attempt)) [
    | inl (a, e) ↦ rw (attempts_ok func p left attempt a e) (0, omega arith, refl)
    | inr (x, e) ↦ elim (Bool-cases (is_retryable_error x)) [
      | inr permanent ↦
          rw (attempts_final func p left attempt x e (inl permanent)) (0, omega arith, refl)
      | inl transient ↦ elim (ℕ_discrete attempt p.max_attempts) [
        | yes last ↦ rw (attempts_final func p left attempt x e (inr last)) (0, omega arith, refl)
        | no more ↦ rw (attempts_again func p left attempt x e transient more) (
            Slept-again attempt (attempts func p left (attempt + 1))
              (attempts-Slept left (attempt + 1) (omega arith) (omega arith)))
      ]
    ]
  ]

  -- The loop sleeps exactly once between two attempts, by the schedule of exponential backoff,
  -- and never longer than the cap.
  retry_with_backoff-delays :
      0 < p.max_attempts
      → ((retry_with_backoff func p).delays
          ≡ backoff_schedule p 1 ((retry_with_backoff func p).calls - 1))
        × AllBelow p.max_delay (retry_with_backoff func p).delays
  unfolding retry_with_backoff
  retry_with_backoff-delays some_left =
      let (n, c, d) = attempts-Slept p.max_attempts 1 (omega arith) some_left in
      let fewer : (attempts func p p.max_attempts 1).calls - 1 ≡ n = omega arith in
      (rw fewer d, rw d (backoff_schedule-AllBelow p 1 n))
