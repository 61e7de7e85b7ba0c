-- ===== src/Redis/ConcreteRanges.antt =====
-- The commands by score over the concrete sorted sets: their laws can hold together.
use equalify_reflow.Prelude.{
  ℕ, String, Bool, Option, none, some, List, [], ◌∷◌, ◌≡◌, refl, inl, inr, arith, length, select,
  leb, leb→le, subst, if◌then◌else◌, Bool-cases, ap,
}
use equalify_reflow.Redis.{Listed}
use equalify_reflow.Redis.Keys.{Key, key_eq, key_eq_refl, key_eq_sound}
use equalify_reflow.Redis.Ranges.{Ranges, Oldest, outside}
use equalify_reflow.Redis.Concrete.{concrete, set_at, score, without}

abbrev pub lesser : String × ℕ → Option (String × ℕ) → Option (String × ℕ)
lesser e none = some e
lesser (m, x) (some (n, y)) = if leb x y then some (m, x) else some (n, y)

unfoldable pub least : List (String × ℕ) → Option (String × ℕ)
least [] = none
least (e ∷ l) = lesser e (least l)

lesser-Oldest :
    (e : String × ℕ) (o : Option (String × ℕ)) (l : List (String × ℕ))
    → Oldest o l
    → Oldest (lesser e o) (e ∷ l)
lesser-Oldest (m, x) none l h = (
  inl (refl, refl),
  λ n y k. elim k [
    | inl (e, f) ↦ omega (arith, f)
    | inr later ↦ absurd (subst (Listed n y) h later)
  ],
)
lesser-Oldest (m, x) (some (n, y)) l (here, most) = elim (Bool-cases (leb x y)) [
  | inl le ↦ rw (le) (
    inl (refl, refl),
    λ i z k. elim k [
      | inl (e, f) ↦ omega (arith, f)
      | inr later ↦ omega (arith, leb→le x y le, most i z later)
    ],
  )
  | inr gt ↦ rw (gt) (
    inr here,
    λ i z k. elim k [ inl (e, f) ↦ ground (arith, f, gt) | inr later ↦ most i z later ],
  )
]

pub least-Oldest : (l : List (String × ℕ)) → Oldest (least l) l
unfolding least
least-Oldest [] = refl
least-Oldest (e ∷ l) = lesser-Oldest e (least l) l (least-Oldest l)

score-select :
    (p : String × ℕ → Bool) (m : String) (l : List (String × ℕ))
    → score m l ≡ none
    → score m (select p l) ≡ none
unfolding score
score-select p m [] h = refl
score-select p m ((n, x) ∷ l) h = elim (Bool-cases (p (n, x))) [
  | inl e ↦ rw (e) (
      let later : score m l ≡ none = ground (arith, h) in
      ground (arith, score-select p m l later, h))
  | inr e ↦ rw (e) (score-select p m l (ground (arith, h)))
]

without_absent : (m : String) (l : List (String × ℕ)) → score m l ≡ none → without m l ≡ l
unfolding score without
without_absent m [] h = refl
without_absent m ((n, x) ∷ l) h =
    let later : score m l ≡ none = ground (arith, h) in ground (arith, without_absent m l later, h)

pub removal_law :
    (k j : Key) (lo hi : ℕ) (s : Key → List (String × ℕ))
    → set_at k (select (outside lo hi) (s k)) s j
      ≡ (if key_eq k j then select (outside lo hi) (s j) else s j)
removal_law k j lo hi s = elim (Bool-cases (key_eq k j)) [
  | inl e ↦ rw (e) (rw (key_eq_sound k j e) refl)
  | inr e ↦ rw (e) refl
]

pub removal_absent :
    (k : Key) (lo hi : ℕ) (m : String) (s : Key → List (String × ℕ))
    → score m (s k) ≡ none
    → score m (set_at k (select (outside lo hi) (s k)) s k) ≡ none
removal_absent k lo hi m s h = rw (key_eq_refl k) (score-select (outside lo hi) m (s k) h)

pub zadd_new :
    (k : Key) (m : String) (x : ℕ) (s : Key → List (String × ℕ))
    → score m (s k) ≡ none
    → set_at k ((m, x) ∷ without m (s k)) s k ≡ (m, x) ∷ s k
zadd_new k m x s h = rw (key_eq_refl k) (ap (λ l. (m, x) ∷ l) (without_absent m (s k) h))

abbrev pub ranges : Ranges concrete
ranges = record {
  entries = λ k s. s k;
  zremrangebyscore = λ k lo hi s. set_at k (select (outside lo hi) (s k)) s;
  zcard = λ k s. length (s k);
  zrange_first = λ k s. least (s k);
  expire_zset = λ k n s. s;
  del_zset = λ k s. set_at k [] s;
  zcard_lem = λ k s. refl;
  zrange_first-Oldest = λ k s. least-Oldest (s k);
  entries-zremrangebyscore = removal_law;
  zscore-zremrangebyscore = removal_absent;
  zscore-expire = λ k n m s. refl;
  entries-expire = λ k j n s. refl;
  entries-del = λ k j s. refl;
  entries-zadd = λ k m x s h. ([], s k, refl, zadd_new k m x s h);
}
