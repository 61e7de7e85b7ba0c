-- ===== src/Edits/Occurrences.antt =====
-- What an edit by search and replace changes (src/utils/diff_utils.py).
use equalify_reflow.Prelude.{
  ℕ, zero, suc, ◌+◌, ◌-◌, ◌≤◌, ◌<◌, ◌≡◌, ◌≢◌, inl, inr, refl, sym, ap, ◌∙◌, true, false, Option,
  none, some, [], ◌∷◌, ◌++◌, length, drop, arith, Bool-cases, Text, text_eq, subst, starts_with,
  count_from, count, replace_first, starts_with-append, starts_with-split,
}
use equalify_reflow.Edits.{Refusal, refuse_count, validate_search_replace, applied, apply_diff}

-- `a` and `b` are the text before and after one place where `s` stands in `t`.
abbrev pub Around : (s t a b : Text) → Type 0
Around s t a b = t ≡ a ++ s ++ b

false-ne-true : false ≢ true
false-ne-true h = cc

cons_tail : {c d : ℕ} {s t : Text} → c ∷ s ≡ d ∷ t → s ≡ t
cons_tail h = cc

suc-ne-zero : {n : ℕ} → suc n ≢ 0
suc-ne-zero h = omega (arith, h)

suc_cancel : {n m : ℕ} → suc n ≡ suc m → n ≡ m
suc_cancel h = omega (arith, h)

-- Where a text does not start with `s`, the place is not at the start.
miss_lem :
    (c : ℕ) (s : Text) (d : ℕ) (t a b : Text)
    → starts_with (c ∷ s) (d ∷ t) ≡ false
    → ((a' b' : Text) → Around (c ∷ s) t a' b' → length a' < 0)
    → Around (c ∷ s) (d ∷ t) a b
    → length a < 0
miss_lem c s d t [] b miss rest e =
    absurd (false-ne-true (sym miss ∙ ap (starts_with (c ∷ s)) e ∙ starts_with-append (c ∷ s) b))
miss_lem c s d t (x ∷ a) b miss rest e = absurd (let h = rest a b (cons_tail e) in omega arith)

-- A place beyond the skipped code points is counted.
count_from-zero :
    (c : ℕ) (s : Text) (k : ℕ) (t : Text)
    → count_from (c ∷ s) k t ≡ 0
    → (a b : Text) → Around (c ∷ s) t a b
    → length a < k
unfolding count_from
count_from-zero c s k [] h [] b e = absurd (cc)
count_from-zero c s k [] h (x ∷ a) b e = absurd (cc)
count_from-zero c s (suc k) (d ∷ t) h [] b e = omega arith
count_from-zero c s (suc k) (d ∷ t) h (x ∷ a) b e =
    omega (arith, count_from-zero c s k t h a b (cons_tail e))
count_from-zero c s zero (d ∷ t) h a b e = elim (Bool-cases (starts_with (c ∷ s) (d ∷ t))) [
  | inl hit ↦ absurd (suc-ne-zero (rw hit at h))
  | inr miss ↦ miss_lem c s d t a b miss (count_from-zero c s 0 t (rw miss at h)) e
]

-- A text that is counted once stands there, is what is replaced, and every other place where it
-- stands overlaps with this one.
pub record Once (s new t out : Text) : Type 0 where
  pub before : Text
  pub behind : Text
  pub here : Around s t before behind
  pub replaced : out ≡ before ++ new ++ behind
  pub overlaps :
      (a b : Text)
      → Around s t a b
      → (length before ≤ length a) × (length a < length before + length s)

-- The first code point does not start a place.
Once-cons :
    (c : ℕ) (s new : Text) (d : ℕ) (t out : Text)
    → starts_with (c ∷ s) (d ∷ t) ≡ false
    → Once (c ∷ s) new t out
    → Once (c ∷ s) new (d ∷ t) (d ∷ out)
Once-cons c s new d t out miss o = record {
  before = d ∷ o.before;
  behind = o.behind;
  here = ap (λ u. d ∷ u) o.here;
  replaced = ap (λ u. d ∷ u) o.replaced;
  overlaps = λ a b e. shifted a b e;
}
  where
    shifted :
        (a b : Text)
        → Around (c ∷ s) (d ∷ t) a b
        → (length (d ∷ o.before) ≤ length a) × (length a < length (d ∷ o.before) + length (c ∷ s))
    shifted [] b e =
        absurd
          (false-ne-true (sym miss ∙ ap (starts_with (c ∷ s)) e ∙ starts_with-append (c ∷ s) b))
    shifted (x ∷ a) b e = let h = o.overlaps a b (cons_tail e) in omega arith

-- The text starts with the place.
Once-here :
    (c : ℕ) (s new : Text) (d : ℕ) (t : Text)
    → starts_with (c ∷ s) (d ∷ t) ≡ true
    → count_from (c ∷ s) (length s) t ≡ 0
    → Once (c ∷ s) new (d ∷ t) (new ++ drop (length (c ∷ s)) (d ∷ t))
Once-here c s new d t hit none_left = record {
  before = [];
  behind = drop (length (c ∷ s)) (d ∷ t);
  here = starts_with-split (c ∷ s) (d ∷ t) hit;
  replaced = refl;
  overlaps = λ a b e. shifted a b e;
}
  where
    shifted :
        (a b : Text)
        → Around (c ∷ s) (d ∷ t) a b
        → (length {A = ℕ} [] ≤ length a) × (length a < length {A = ℕ} [] + length (c ∷ s))
    shifted [] b e = omega arith
    shifted (x ∷ a) b e =
        let h = count_from-zero c s (length s) t none_left a b (cons_tail e) in omega arith

count_from-Once :
    (c : ℕ) (s new t : Text)
    → count_from (c ∷ s) 0 t ≡ 1
    → Once (c ∷ s) new t (replace_first (c ∷ s) new t)
unfolding count_from replace_first
count_from-Once c s new [] h = absurd (omega (arith, h))
count_from-Once c s new (d ∷ t) h = elim (Bool-cases (starts_with (c ∷ s) (d ∷ t))) [
  | inl hit ↦
      let skipped : suc (length s) - 1 ≡ length s = omega arith in
      rw hit (Once-here c s new d t hit (suc_cancel (rw skipped at (rw hit at h))))
  | inr miss ↦ rw miss (Once-cons c s new d t _ miss (count_from-Once c s new t (rw miss at h)))
]

pub count-Once :
    (c : ℕ) (s new t : Text)
    → count (c ∷ s) t ≡ 1
    → Once (c ∷ s) new t (replace_first (c ∷ s) new t)
unfolding count
count-Once c s new t h = count_from-Once c s new t h

refuse_count-none : (n : ℕ) → refuse_count n ≡ none → n ≡ 1
unfolding refuse_count
refuse_count-none zero h = absurd (cc)
refuse_count-none (suc zero) h = refl
refuse_count-none (suc (suc n)) h = absurd (cc)

applied-some :
    (v : Option Refusal) (markdown search replace : Text) {out : Text}
    → applied v markdown search replace ≡ some out
    → (v ≡ none) × (replace_first search replace markdown ≡ out)
unfolding applied
applied-some none markdown search replace h = (refl, cc)
applied-some (some refusal) markdown search replace h = absurd (cc)

-- An edit that is applied replaces one place where the search text stands, the first one, and
-- leaves the rest of the text as it is; any other place where the search text stands overlaps with
-- this one.
pub apply_diff-Once :
    (markdown search replace : Text) {out : Text}
    → apply_diff markdown search replace ≡ some out
    → Once search replace markdown out
unfolding apply_diff validate_search_replace
apply_diff-Once markdown [] replace h =
    absurd (let v = applied-some (some Refusal.empty_search) markdown [] replace h in cc)
apply_diff-Once markdown (c ∷ s) replace h = elim (Bool-cases (text_eq (c ∷ s) replace)) [
  | inl same ↦ absurd (
      let v = applied-some (some Refusal.identical_texts) markdown (c ∷ s) replace (rw same at h) in
      cc)
  | inr differ ↦
      let v =
        applied-some (refuse_count (count (c ∷ s) markdown)) markdown (c ∷ s) replace
          (rw differ at h) in
      subst (Once (c ∷ s) replace markdown) v.1
        (count-Once c s replace markdown (refuse_count-none (count (c ∷ s) markdown) v.0))
]
