-- ===== src/Session/Entries.antt =====
-- Dictionaries with text keys, in the order of insertion.
use equalify_reflow.Prelude.{
  String, arith, Bool, subst, Option, none, some, List, [], ◌∷◌, ◌≡◌, refl, ap, inl, inr, str_eq,
  eq_iff, eq_refl, ◌∙◌, if◌then◌else◌, select, Bool-cases,
}

abbrev pub Dict : Type 0 → Type 0
Dict A = List (String × A)

module _ {A : Type 0} where
  unfoldable pub lookup : String → Dict A → Option A
  lookup k [] = none
  lookup k ((j, v) ∷ l) = let rest = lookup k l in if str_eq j k then some v else rest

  -- d[k] = v
  unfoldable pub put : String → A → Dict A → Dict A
  put k v [] = (k, v) ∷ []
  put k v ((j, u) ∷ l) = let rest = put k v l in if str_eq j k then (j, v) ∷ l else (j, u) ∷ rest

  -- d.pop(k, None), without its answer
  unfoldable pub pop : String → Dict A → Dict A
  pop k [] = []
  pop k ((j, v) ∷ l) = let rest = pop k l in if str_eq j k then rest else (j, v) ∷ rest

  -- No key stands twice.
  unfoldable pub Unique : Dict A → Type 0
  Unique [] = Unit {0}
  Unique ((k, v) ∷ l) = (lookup k l ≡ none) × Unique l

  pub lookup-put :
      (k j : String) (v : A) (l : Dict A)
      → lookup j (put k v l) ≡ (if str_eq k j then some v else lookup j l)
  unfolding lookup put
  lookup-put k j v [] = refl
  lookup-put k j v ((i, u) ∷ l) = elim (Bool-cases (str_eq i k)) [
    | inl e ↦ rw (e, (eq_iff i k).0 e) (ground arith)
    | inr e ↦ rw (e, lookup-put k j v l) (ground (arith, eq_iff i j, eq_iff k j, e, eq_refl k))
  ]

  pub lookup-pop :
      (k j : String) (l : Dict A) → lookup j (pop k l) ≡ (if str_eq k j then none else lookup j l)
  unfolding lookup pop
  lookup-pop k j [] = ground arith
  lookup-pop k j ((i, u) ∷ l) = elim (Bool-cases (str_eq i k)) [
    | inl e ↦ rw (e, (eq_iff i k).0 e, lookup-pop k j l) (ground arith)
    | inr e ↦ rw (e, lookup-pop k j l) (ground (arith, eq_iff i j, eq_iff k j, e, eq_refl k))
  ]

  pub Unique-put : (k : String) (v : A) (l : Dict A) → Unique l → Unique (put k v l)
  unfolding lookup put Unique
  Unique-put k v [] h = (refl, tt)
  Unique-put k v ((i, u) ∷ l) (fresh, h) = elim (Bool-cases (str_eq i k)) [
    | inl e ↦ rw (e) (fresh, h)
    | inr e ↦ rw (e) (
      lookup-put k i v l ∙ rw (fresh) (ground (arith, eq_iff k i, e, eq_refl k)),
      Unique-put k v l h,
    )
  ]

  pub Unique-pop : (k : String) (l : Dict A) → Unique l → Unique (pop k l)
  unfolding lookup pop Unique
  Unique-pop k [] h = tt
  Unique-pop k ((i, u) ∷ l) (fresh, h) = elim (Bool-cases (str_eq i k)) [
    | inl e ↦ rw (e) (Unique-pop k l h)
    | inr e ↦ rw (e) (lookup-pop k i l ∙ rw (fresh) (ground arith), Unique-pop k l h)
  ]

  pub pop-absent : (k : String) (l : Dict A) → lookup k l ≡ none → pop k l ≡ l
  unfolding lookup pop
  pop-absent k [] h = refl
  pop-absent k ((i, u) ∷ l) h = elim (Bool-cases (str_eq i k)) [
    | inl e ↦ ground (arith, e, h)
    | inr e ↦ rw (e) (ap (λ m. (i, u) ∷ m) (pop-absent k l (ground (arith, e, h))))
  ]

  -- What is found, if it is to be kept.
  abbrev pub kept : (A → Bool) → Option A → Option A
  kept p none = none
  kept p (some v) = if p v then some v else none

  pub lookup-select :
      (p : A → Bool) (k : String) (l : Dict A)
      → Unique l
      → lookup k (select (λ e. p e.1) l) ≡ kept p (lookup k l)
  unfolding lookup Unique
  lookup-select p k [] h = refl
  lookup-select p k ((i, u) ∷ l) (fresh, h) = elim (Bool-cases (str_eq i k)) [
    | inl e ↦ elim (Bool-cases (p u)) [
      | inl q ↦ rw (e, q, e) refl
      | inr q ↦
          let same : lookup k l ≡ none = subst (λ j. lookup j l ≡ none) ((eq_iff i k).0 e) fresh in
          rw (e, q) (lookup-select p k l h ∙ rw (same) refl)
    ]
    | inr e ↦ elim (Bool-cases (p u)) [
      | inl q ↦ rw (e, q, e) (lookup-select p k l h)
      | inr q ↦ rw (e, q) (lookup-select p k l h)
    ]
  ]

  pub Unique-select : (p : A → Bool) (l : Dict A) → Unique l → Unique (select (λ e. p e.1) l)
  unfolding lookup Unique
  Unique-select p [] h = tt
  Unique-select p ((i, u) ∷ l) (fresh, h) = elim (Bool-cases (p u)) [
    | inl e ↦ rw (e) (lookup-select p i l h ∙ rw (fresh) refl, Unique-select p l h)
    | inr e ↦ rw (e) (Unique-select p l h)
  ]
