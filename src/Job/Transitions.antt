-- ===== src/Job/Transitions.antt =====
-- The state machine of a job's status (src/shared/models/job.py).
use equalify_reflow.Prelude.{
  ℕ, suc, ◌≤◌, ◌<◌, String, Bool, true, false, List, [], ◌∷◌, ◌≡◌, subst, arith, inl, inr, str_eq,
  eq_iff, if◌then◌else◌, Bool-cases,
}
use equalify_reflow.Retry.{contains_text}

-- VALID_TRANSITIONS, where a missing status has no successor.
unfoldable pub valid_transitions : String → List String
valid_transitions status =
    if str_eq status "pii_scanning"
    then "awaiting_approval" ∷ "processing" ∷ "failed" ∷ []
    else (if str_eq status "awaiting_approval"
        then "processing" ∷ "denied" ∷ "failed" ∷ []
        else (if str_eq status "processing" then "completed" ∷ "failed" ∷ [] else []))

unfoldable pub can_transition_to : (status new_status : String) → Bool
can_transition_to status new_status = contains_text (valid_transitions status) new_status

-- The statuses that can be reached, with the number of steps.
pub data Reaches : String → String → ℕ → Type 0 where
  stay : {s : String} → Reaches s s 0
  step :
      {s t u : String} {n : ℕ} → can_transition_to s t ≡ true → Reaches t u n → Reaches s u (suc n)

-- How many steps a status may still make.
abbrev rank : String → ℕ
rank s =
    if str_eq s "pii_scanning"
    then 3
    else (if str_eq s "awaiting_approval" then 2 else (if str_eq s "processing" then 1 else 0))

abbrev AllBelow : ℕ → List String → Type 0
AllBelow n [] = Unit {0}
AllBelow n (y ∷ ys) = (rank y < n) × AllBelow n ys

rank_below :
    (n : ℕ) (ys : List String) (t : String) → AllBelow n ys → contains_text ys t ≡ true → rank t < n
unfolding contains_text
rank_below n [] t h e = absurd (no_member e)
  where
    no_member : false ≡ true → ⊥
    no_member k = cc
rank_below n (y ∷ ys) t (h, hs) e = elim (Bool-cases (str_eq y t)) [
  | inl same ↦ subst (λ u. rank u < n) ((eq_iff y t).0 same) h
  | inr other ↦ rank_below n ys t hs (rw (other) at e)
]

can_transition_to-rank : (s t : String) → can_transition_to s t ≡ true → rank t < rank s
unfolding can_transition_to valid_transitions
can_transition_to-rank s t h = elim (Bool-cases (str_eq s "pii_scanning")) [
  | inl a ↦ rw (a) (rank_below 3 _ t (omega arith, (omega arith, (omega arith, tt))) (rw (a) at h))
  | inr a ↦ elim (Bool-cases (str_eq s "awaiting_approval")) [
    | inl b ↦
        rw (a, b)
          (rank_below 2 _ t (omega arith, (omega arith, (omega arith, tt))) (rw (a, b) at h))
    | inr b ↦ elim (Bool-cases (str_eq s "processing")) [
      | inl c ↦ rw (a, b, c) (rank_below 1 _ t (omega arith, (omega arith, tt)) (rw (a, b, c) at h))
      | inr c ↦ rw (a, b, c) (rank_below 0 _ t tt (rw (a, b, c) at h))
    ]
  ]
]

Reaches-rank : (s t : String) (n : ℕ) → Reaches s t n → n ≤ rank s
Reaches-rank s t n Reaches.stay = omega arith
Reaches-rank s t n (Reaches.step {t = u} {n = m} h r) =
    omega (arith, can_transition_to-rank s u h, Reaches-rank u t m r)

rank_at_most : (s : String) → rank s ≤ 3
rank_at_most s = elim (Bool-cases (str_eq s "pii_scanning")) [
  | inl a ↦ rw (a) (omega arith)
  | inr a ↦ elim (Bool-cases (str_eq s "awaiting_approval")) [
    | inl b ↦ rw (a, b) (omega arith)
    | inr b ↦ elim (Bool-cases (str_eq s "processing")) [
      | inl c ↦ rw (a, b, c) (omega arith)
      | inr c ↦ rw (a, b, c) (omega arith)
    ]
  ]
]

-- The state machine ends: whatever status a job has, at most three transitions that the machine
-- allows can follow one another.
Reaches-bounded : (s t : String) (n : ℕ) → Reaches s t n → n ≤ 3
Reaches-bounded s t n r = omega (arith, Reaches-rank s t n r, rank_at_most s)
