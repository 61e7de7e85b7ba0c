-- ===== src/RateLimit/Windows.antt =====
-- Counting the requests of a window: by the list of their times, and by the entries of the set.
use equalify_reflow.Prelude.{
  ℕ, suc, ◌+◌, ◌-◌, ◌≤◌, ◌<◌, String, Bool, false, List, [], ◌∷◌, ◌++◌, ◌≡◌, refl, inl, inr, ◌&&◌,
  leb, ltb, arith, length, select, if◌then◌else◌, subst, Bool-cases,
}
use equalify_reflow.Redis.{Listed}
use equalify_reflow.Redis.Ranges.{outside}

-- How many of the times pass a test.
abbrev pub times : (ℕ → Bool) → List ℕ → ℕ
times p [] = 0
times p (x ∷ xs) = let rest = times p xs in if p x then suc rest else rest

abbrev pub scores : (ℕ → Bool) → List (String × ℕ) → ℕ
scores p [] = 0
scores p ((m, x) ∷ l) = let rest = scores p l in if p x then suc rest else rest

-- A time that is less than a width before `now`, or after it.
abbrev pub recent : (width now : ℕ) → ℕ → Bool
recent width now x = ltb now (x + width)

-- A time of the window of a width that ends at `now`.
abbrev pub within : (width now : ℕ) → ℕ → Bool
within width now x = recent width now x && leb x now

-- What a pruning leaves is recent, all of it, and it leaves every recent entry.
pub length-pruned :
    (width now : ℕ) (l : List (String × ℕ))
    → width ≤ now
    → length (select (outside 0 (now - width)) l) ≡ scores (recent width now) l
length-pruned width now [] h = refl
length-pruned width now ((m, x) ∷ l) h = let rest = length-pruned width now l h in ground arith

pub scores-pruned :
    (width now later : ℕ) (l : List (String × ℕ))
    → width ≤ now
    → now ≤ later
    → scores (recent width later) (select (outside 0 (now - width)) l)
      ≡ scores (recent width later) l
scores-pruned width now later [] h k = refl
scores-pruned width now later ((m, x) ∷ l) h k =
    let rest = scores-pruned width now later l h k in ground arith

-- Before the first width has passed every time is recent.
pub length-young :
    (width now : ℕ) (l : List (String × ℕ)) → now < width → length l ≡ scores (recent width now) l
length-young width now [] h = refl
length-young width now ((m, x) ∷ l) h = let rest = length-young width now l h in ground arith

pub times-within :
    (width now later : ℕ) (l : List ℕ)
    → now ≤ later
    → times (within width later) l ≤ times (recent width now) l
times-within width now later [] h = omega arith
times-within width now later (x ∷ l) h = let rest = times-within width now later l h in ground arith

pub scores-insert :
    (p : ℕ → Bool) (front back : List (String × ℕ)) (m : String) (x : ℕ)
    → scores p (front ++ (m, x) ∷ back) ≡ (if p x then 1 else 0) + scores p (front ++ back)
scores-insert p [] back m x = elim (Bool-cases (p x)) [
  | inl e ↦ rw (e) (omega arith)
  | inr e ↦ rw (e) (omega arith)
]
scores-insert p ((n, y) ∷ front) back m x = elim (Bool-cases (p y)) [
  | inl e ↦ rw (e) (omega (arith, scores-insert p front back m x))
  | inr e ↦ rw (e) (scores-insert p front back m x)
]

pub scores-length : (p : ℕ → Bool) (l : List (String × ℕ)) → scores p l ≤ length l
scores-length p [] = omega arith
scores-length p ((m, x) ∷ l) = elim (Bool-cases (p x)) [
  | inl e ↦ rw (e) (omega (arith, scores-length p l))
  | inr e ↦ rw (e) (omega (arith, scores-length p l))
]

-- An entry that is not counted is one less.
pub scores-Listed :
    (p : ℕ → Bool) (m : String) (x : ℕ) (l : List (String × ℕ))
    → Listed m x l
    → p x ≡ false
    → scores p l < length l
scores-Listed p m x [] h e = absurd h
scores-Listed p m x ((n, y) ∷ l) (inl (same, here)) e =
    let out : p y ≡ false = subst (λ z. p z ≡ false) here e in
    rw (out) (omega (arith, scores-length p l))
scores-Listed p m x ((n, y) ∷ l) (inr later) e = elim (Bool-cases (p y)) [
  | inl k ↦ rw (k) (omega (arith, scores-Listed p m x l later e))
  | inr k ↦ rw (k) (omega (arith, scores-Listed p m x l later e))
]
