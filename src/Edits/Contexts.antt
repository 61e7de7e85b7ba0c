-- ===== src/Edits/Contexts.antt =====
-- The search for a context that makes a text unique (src/utils/diff_utils.py).
use equalify_reflow.Prelude.{
  ℕ, zero, suc, ◌+◌, ◌-◌, ◌≤◌, ◌≡◌, ◌≢◌, inl, inr, refl, sym, subst, ap, ◌∙◌, some, [], ◌∷◌, ◌++◌,
  length, take, drop, arith, ◌==◌, ==_iff, Bool-cases, min, Text, text_eq, text_eq_iff, starts_with,
  count_from, count, replace_first, starts_with-split, length-append, length-drop,
}
use mathlib.Core.List.{append-nil}
use equalify_reflow.Edits.{
  refuse_count, validate_search_replace, applied, apply_diff, find, slice, candidate, expand,
  unique_context, find_unique_context, widths,
}
use equalify_reflow.Edits.Occurrences.{Around}

-- Where a text that occurs is found.
record Found (s t : Text) : Type 0 where
  before : Text
  behind : Text
  here : Around s t before behind
  at_index : find s t ≡ length before

find-Found : (c : ℕ) (s t : Text) → count_from (c ∷ s) 0 t ≢ 0 → Found (c ∷ s) t
unfolding find count_from
find-Found c s [] h = absurd (h refl)
find-Found c s (d ∷ t) h = elim (Bool-cases (starts_with (c ∷ s) (d ∷ t))) [
  | inl hit ↦ record {
    before = [];
    behind = drop (length (c ∷ s)) (d ∷ t);
    here = starts_with-split (c ∷ s) (d ∷ t) hit;
    at_index = rw hit refl;
  }
  | inr miss ↦
      let f = find-Found c s t (rw miss at h) in
      record {
        before = d ∷ f.before;
        behind = f.behind;
        here = ap (λ u. d ∷ u) f.here;
        at_index = rw miss (ap suc f.at_index);
      }
]

drop-append : (n : ℕ) (a t : Text) → n ≤ length a → drop n (a ++ t) ≡ drop n a ++ t
drop-append zero a t h = refl
drop-append (suc n) [] t h = absurd (omega arith)
drop-append (suc n) (x ∷ a) t h = drop-append n a t (omega arith)

take-append : (n : ℕ) (a t : Text) → length a ≤ n → take n (a ++ t) ≡ a ++ take (n - length a) t
take-append n [] t h = let same : n - 0 ≡ n = omega arith in rw same refl
take-append zero (x ∷ a) t h = absurd (omega arith)
take-append (suc n) (x ∷ a) t h =
    let same : suc n - suc (length a) ≡ n - length a = omega arith in
    rw same (ap (λ u. x ∷ u) (take-append n a t (omega arith)))

-- A slice around a place contains the text that stands there.
slice-Around :
    (start end : ℕ) (a s b : Text)
    → start ≤ length a
    → length a + length s ≤ end
    → (a' : Text) × (b' : Text) × Around s (slice start end (a ++ s ++ b)) a' b'
unfolding slice
slice-Around start end a s b h k =
    let dropped : drop start ((a ++ s) ++ b) ≡ (drop start a ++ s) ++ b =
      drop-append start (a ++ s) b (omega (arith, length-append a s))
      ∙ ap (λ u. u ++ b) (drop-append start a s h) in
    (
      drop start a,
      take (end - start - length (drop start a ++ s)) b,
      ap (take (end - start)) dropped
          ∙ take-append (end - start) (drop start a ++ s) b
              (omega (arith, length-append (drop start a) s, length-drop start a)),
    )

candidate-Around :
    (c : ℕ) (s t : Text) (ctx : ℕ)
    → count_from (c ∷ s) 0 t ≢ 0
    → (a b : Text) × Around (c ∷ s) (candidate t (c ∷ s) (find (c ∷ s) t) ctx) a b
unfolding candidate
candidate-Around c s t ctx h =
    let f = find-Found c s t h in
    let size : length ((f.before ++ c ∷ s) ++ f.behind)
        ≡ length f.before + length (c ∷ s) + length f.behind =
      omega (arith, length-append (f.before ++ c ∷ s) f.behind, length-append f.before (c ∷ s)) in
    let whole : length t ≡ length f.before + length (c ∷ s) + length f.behind =
      ap length f.here ∙ size in
    let cut =
      slice-Around (find (c ∷ s) t - ctx) (min (length t) (find (c ∷ s) t + length (c ∷ s) + ctx))
        f.before (c ∷ s) f.behind (omega (arith, f.at_index)) (omega (arith, f.at_index, whole)) in
    (cut.0, cut.1, ap (slice _ _) f.here ∙ cut.2)

some_cancel : {s t : Text} → some s ≡ some t → s ≡ t
some_cancel h = cc

suc-ne-zero : {n : ℕ} → suc n ≢ 0
suc-ne-zero h = omega (arith, h)

-- What a context is good for: the text stands in it, and it is counted once.
abbrev Unique : (markdown target found : Text) → Type 0
Unique markdown target found = (a b : Text) × Around target found a b × (count found markdown ≡ 1)

expand-Unique :
    (markdown : Text) (c : ℕ) (s : Text) (ctx rounds : ℕ) {found : Text}
    → count_from (c ∷ s) 0 markdown ≢ 0
    → expand markdown (c ∷ s) (find (c ∷ s) markdown) ctx rounds ≡ some found
    → Unique markdown (c ∷ s) found
unfolding expand
expand-Unique markdown c s ctx zero some_place h = absurd (cc)
expand-Unique markdown c s ctx (suc rounds) {found} some_place h =
    let here = candidate markdown (c ∷ s) (find (c ∷ s) markdown) ctx in
    elim (Bool-cases (count here markdown == 1)) [
      | inl one ↦
          let same : here ≡ found = some_cancel (rw one at h) in
          let place = candidate-Around c s markdown ctx some_place in
          subst (Unique markdown (c ∷ s)) same
            (place.0, place.1, place.2, (==_iff (count here markdown) 1).0 one)
      | inr more ↦ expand-Unique markdown c s (ctx + 10) rounds some_place (rw more at h)
    ]

unique_context-Unique :
    (n : ℕ) (markdown : Text) (c : ℕ) (s : Text) (min_context max_context : ℕ) {found : Text}
    → count (c ∷ s) markdown ≡ n
    → unique_context n markdown (c ∷ s) min_context max_context ≡ some found
    → Unique markdown (c ∷ s) found
unfolding unique_context count
unique_context-Unique zero markdown c s lo hi e h = absurd (cc)
unique_context-Unique (suc zero) markdown c s lo hi e h =
    subst (Unique markdown (c ∷ s)) (some_cancel h) ([], [], sym (append-nil (c ∷ s)), e)
unique_context-Unique (suc (suc n)) markdown c s lo hi e h =
    expand-Unique markdown c s lo (widths lo hi) (λ z. suc-ne-zero (sym e ∙ z)) h

applies-cons :
    (markdown : Text) (d : ℕ) (f replace : Text)
    → count (d ∷ f) markdown ≡ 1
    → d ∷ f ≢ replace
    → apply_diff markdown (d ∷ f) replace ≡ some (replace_first (d ∷ f) replace markdown)
unfolding apply_diff validate_search_replace applied refuse_count
applies-cons markdown d f replace one differ = elim (Bool-cases (text_eq (d ∷ f) replace)) [
  | inl same ↦ absurd (differ ((text_eq_iff (d ∷ f) replace).0 same))
  | inr other ↦ rw (other, one) refl
]

nil-ne-place : (c : ℕ) (s a b : Text) → ◌≢◌ {A = Text} [] ((a ++ c ∷ s) ++ b)
nil-ne-place c s [] b = λ e. cc
nil-ne-place c s (x ∷ a) b = λ e. cc

applies :
    (markdown : Text) (c : ℕ) (s a b found replace : Text)
    → Around (c ∷ s) found a b
    → count found markdown ≡ 1
    → found ≢ replace
    → apply_diff markdown found replace ≡ some (replace_first found replace markdown)
applies markdown c s a b [] replace place one differ = absurd (nil-ne-place c s a b place)
applies markdown c s a b (d ∷ f) replace place one differ =
    applies-cons markdown d f replace one differ

-- For a text that is not empty: a context that is found contains the text, and an edit of the context
-- by any other text is applied.
pub find_unique_context-applies :
    (markdown : Text) (c : ℕ) (s : Text) (min_context max_context : ℕ) {found : Text}
    (replace : Text)
    → find_unique_context markdown (c ∷ s) min_context max_context ≡ some found
    → found ≢ replace
    → ((a b : Text) × Around (c ∷ s) found a b)
      × (apply_diff markdown found replace ≡ some (replace_first found replace markdown))
unfolding find_unique_context
find_unique_context-applies markdown c s lo hi {found} replace h differ =
    let u = unique_context-Unique (count (c ∷ s) markdown) markdown c s lo hi refl h in
    ((u.0, u.1, u.2), applies markdown c s u.0 u.1 found replace u.2 u.3 differ)
