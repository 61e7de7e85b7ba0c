-- ===== src/Docling/Decides.antt =====
-- How a conversion ends (src/services/docling_serve_client.py).
use equalify_reflow.Prelude.{
  ℕ, zero, suc, ◌+◌, ◌≤◌, ◌<◌, ◌≡◌, ◌⊎◌, inl, inr, refl, sym, ap, ◌∙◌, Bool, true, false,
  Bool-cases, Option, none, some, length, if◌then◌else◌, arith, subst,
}
use equalify_reflow.Breaker.{
  CircuitBreaker, CircuitBreakerOpenError, check_state, record_success, record_failure,
}
use equalify_reflow.Docling.{
  Failure, Answer, converted, failed, Outcome, response, raised, Conversion, is_cold, is_counted,
  waited, and_not, one_if, final, convert_from, convert_with_retry, convert_if, convert,
}

-- How an answer ends the conversion.
abbrev pub outcome_of : {A : Type 0} → Answer A → Outcome A
outcome_of (converted a) = response a
outcome_of (failed e) = raised e

-- An answer after which the request is tried again.
abbrev pub IsRetried : {A : Type 0} → Answer A → Type 0
IsRetried (converted a) = ⊥
IsRetried (failed e) = is_counted e ≡ true

-- From the attempt `first` on, with so many retries left, the conversion made `calls` attempts: each
-- but the last was to be tried again; the last one decides, and is not to be tried again unless no
-- retry is left. Between two attempts there was one wait, and the callback was called at most once,
-- and not at all if there was none.
pub record Decided {A : Type 0} (do_convert : ℕ → Answer A) (left first : ℕ) (callback : Bool)
    (c : Conversion A) : Type 0 where
  pub some_call : 1 ≤ c.calls
  pub few_calls : c.calls ≤ suc left
  pub before : (k : ℕ) → suc k < c.calls → IsRetried (do_convert (first + k))
  pub last : (k : ℕ) → suc k ≡ c.calls → c.outcome ≡ outcome_of (do_convert (first + k))
  pub stop : (k : ℕ) → suc k ≡ c.calls → c.calls < suc left → IsRetried (do_convert (first + k)) → ⊥
  pub one_wait : suc (length c.waits) ≡ c.calls
  pub one_callback : c.cold_starts ≤ one_if callback

false-ne-true : false ≡ true → ⊥
false-ne-true h = cc

not_counted : (e : Failure) → is_counted e ≡ false → is_counted e ≡ true → ⊥
not_counted e f t = false-ne-true (sym f ∙ t)

at_first :
    {A : Type 0} (f : ℕ → Answer A) (P : Answer A → Type 0) (first k : ℕ)
    → k ≡ 0
    → P (f first)
    → P (f (first + k))
at_first f P first k z h = let same : first + k ≡ first = omega (arith, z) in rw same h

at_next :
    {A : Type 0} (f : ℕ → Answer A) (P : Answer A → Type 0) (first k : ℕ)
    → P (f (suc first + k))
    → P (f (first + suc k))
at_next f P first k h = let same : first + suc k ≡ suc first + k = omega arith in rw same h

module _ {A : Type 0} (do_convert : ℕ → Answer A) where
  last_attempt :
      (left first : ℕ) (callback : Bool) (b : CircuitBreaker)
      → (left ≡ 0) ⊎ (IsRetried (do_convert first) → ⊥)
      → Decided do_convert left first callback (final b (outcome_of (do_convert first)))
  last_attempt left first callback b end = record {
    some_call = omega arith;
    few_calls = omega arith;
    before = λ k h. absurd (omega (arith, h));
    last = λ k h.
        at_first do_convert (λ a. outcome_of (do_convert first) ≡ outcome_of a) first k
          (omega (arith, h)) refl;
    stop = λ k h l r. stopped k h l r end;
    one_wait = omega arith;
    one_callback = omega arith;
  }
    where
      stopped :
          (k : ℕ)
          → suc k ≡ 1
          → 1 < suc left
          → IsRetried (do_convert (first + k))
          → (left ≡ 0) ⊎ (IsRetried (do_convert first) → ⊥)
          → ⊥
      stopped k h l r (inl z) = omega (arith, z, l)
      stopped k h l r (inr no_retry) =
          no_retry (let same : first + k ≡ first = omega (arith, h) in rw same at r)

  -- One more attempt before the others.
  retried :
      (left first : ℕ) (callback : Bool) (e : Failure) (c : Conversion A)
      → do_convert first ≡ failed e
      → is_counted e ≡ true
      → Decided do_convert left (suc first) (and_not callback (is_cold e)) c
      → Decided do_convert (suc left) first callback (waited first e callback c)
  unfolding waited
  retried left first callback e c here counted d = record {
    some_call = omega arith;
    few_calls = let h = d.few_calls in omega arith;
    before = λ k h. earlier k h;
    last = λ k h. at_end k h;
    stop = λ k h l r. no_more k h l r;
    one_wait = let h = d.one_wait in omega arith;
    one_callback = once (is_cold e) callback d.one_callback;
  }
    where
      earlier : (k : ℕ) → suc k < suc c.calls → IsRetried (do_convert (first + k))
      earlier zero h = at_first do_convert IsRetried first 0 refl (rw here counted)
      earlier (suc k) h = at_next do_convert IsRetried first k (d.before k (omega (arith, h)))

      at_end : (k : ℕ) → suc k ≡ suc c.calls → c.outcome ≡ outcome_of (do_convert (first + k))
      at_end zero h = absurd (let s = d.some_call in omega (arith, h, s))
      at_end (suc k) h =
          at_next do_convert (λ a. c.outcome ≡ outcome_of a) first k (d.last k (omega (arith, h)))

      no_more :
          (k : ℕ)
          → suc k ≡ suc c.calls
          → suc c.calls < suc (suc left)
          → IsRetried (do_convert (first + k))
          → ⊥
      no_more zero h l r = let s = d.some_call in omega (arith, h, s)
      no_more (suc k) h l r =
          d.stop k (omega (arith, h)) (omega (arith, l))
            (let same : first + suc k ≡ suc first + k = omega arith in rw same at r)

      once :
          (cold cb : Bool)
          → c.cold_starts ≤ one_if (and_not cb cold)
          → (if cold then one_if cb else 0) + c.cold_starts ≤ one_if cb
      once true true h = omega (arith, h)
      once true false h = omega (arith, h)
      once false true h = omega (arith, h)
      once false false h = omega (arith, h)

module _ {A : Type 0} (do_convert : ℕ → Answer A) (now : ℕ → ℕ) where
  convert_from-Decided :
      (left first : ℕ) (callback : Bool) (b : CircuitBreaker) (a : Answer A)
      → do_convert first ≡ a
      → Decided do_convert left first callback (convert_from do_convert now left first callback b a)
  unfolding convert_from
  convert_from-Decided left first callback b (converted x) here =
      subst (λ o. Decided do_convert left first callback (final (record_success b) o))
        (ap outcome_of here)
        (last_attempt do_convert left first callback (record_success b)
          (inr (λ r. subst IsRetried here r)))
  convert_from-Decided zero first callback b (failed e) here =
      subst
        (λ o.
          Decided do_convert zero first callback
            (final (if is_counted e then record_failure (now first) b else b) o))
        (ap outcome_of here) (last_attempt do_convert zero first callback _ (inl refl))
  convert_from-Decided (suc left) first callback b (failed e) here =
      elim (Bool-cases (is_counted e)) [
        | inl counted ↦ rw counted (
            retried do_convert left first callback e _ here counted (
              convert_from-Decided left (suc first) (and_not callback (is_cold e))
                (record_failure (now first) b) (do_convert (suc first)) refl))
        | inr kept ↦ rw kept (
            subst (λ o. Decided do_convert (suc left) first callback (final b o))
              (ap outcome_of here)
              (last_attempt do_convert (suc left) first callback b
                (inr (λ r. not_counted e kept (subst IsRetried here r)))))
      ]

  convert_if-Decided :
      (max_retries : ℕ) (callback : Bool) (s : CircuitBreaker × Option CircuitBreakerOpenError)
      → s.1 ≡ none
      → Decided do_convert max_retries 1 callback (convert_if do_convert now max_retries callback s)
  unfolding convert_if convert_with_retry
  convert_if-Decided max_retries callback (b, none) free =
      convert_from-Decided max_retries 1 callback b (do_convert 1) refl
  convert_if-Decided max_retries callback (b, some e) free = absurd (cc)

  -- A conversion that the breaker admits makes between one attempt and one more than the retries:
  -- each but the last failed in a way that is tried again, and the last one decides the outcome,
  -- which is a response, or an error that is not tried again, unless the retries are used up; the
  -- error of the last attempt is then raised itself. There is one wait between two attempts, and
  -- the callback for a cold start is called at most once.
  pub convert-Decided :
      (max_retries : ℕ) (callback : Bool) (checked : ℕ) (b : CircuitBreaker)
      → (check_state checked b).1 ≡ none
      → Decided do_convert max_retries 1 callback
          (convert do_convert now max_retries callback checked b)
  unfolding convert
  convert-Decided max_retries callback checked b free =
      convert_if-Decided max_retries callback (check_state checked b) free
