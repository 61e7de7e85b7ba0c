-- ===== src/Redis/Concrete.antt =====
-- A Redis that satisfies the laws, with the data as functions and lists: the laws can hold together.
use equalify_reflow.Prelude.{
  ℕ, ◌-◌, ◌≤◌, String, Bool, true, false, Option, none, some, List, [], ◌∷◌, ◌++◌, ◌≡◌, ◌↔◌, inl,
  inr, refl, ◌&&◌, leb, ltb, arith, str_eq, eq_iff, if◌then◌else◌, Bool-cases, ◌==◌,
}
use equalify_reflow.Redis.{Redis, Hash, put, or_empty, Listed}
use equalify_reflow.Redis.Keys.{Key, key_eq, key_eq_refl, key_eq_sound}

-- A map from keys with one entry given anew.
abbrev pub set_at {ℓ} : {A : Type ℓ} → Key → A → (Key → A) → Key → A
set_at k a m = λ j. if key_eq k j then a else m j

pub record Stored : Type 0 where
  pub hash : Key → Option Hash
  pub ttl_ : Key → Option ℕ

-- The score of a member is its first entry.
unfoldable pub score : String → List (String × ℕ) → Option ℕ
score m [] = none
score m ((n, x) ∷ l) = if str_eq m n then some x else score m l

unfoldable pub same_score : Option ℕ → ℕ → Bool
same_score none x = false
same_score (some y) x = y == x

unfoldable pub without : String → List (String × ℕ) → List (String × ℕ)
without m [] = []
without m ((n, x) ∷ l) = let rest = without m l in if str_eq m n then rest else (n, x) ∷ rest

score-without :
    (m n : String) (l : List (String × ℕ))
    → score n (without m l) ≡ (if str_eq m n then none else score n l)
unfolding score without
score-without m n [] = ground arith
score-without m n ((i, x) ∷ l) =
    ground (arith, score-without m n l, eq_iff m i, eq_iff n i, eq_iff m n)

-- The entries that are scores, in a range.
unfoldable pub in_range : List (String × ℕ) → (lo hi : ℕ) → String → ℕ → Bool
unfolding same_score
in_range all lo hi m x = same_score (score m all) x && (leb lo x && leb x hi)

unfoldable pub range : List (String × ℕ) → (lo hi : ℕ) → List (String × ℕ) → List (String × ℕ)
range all lo hi [] = []
range all lo hi ((m, x) ∷ l) =
    let rest = range all lo hi l in if in_range all lo hi m x then (m, x) ∷ rest else rest

in_range_sound :
    (all : List (String × ℕ)) (lo hi : ℕ) (m : String) (x : ℕ)
    → in_range all lo hi m x ≡ true
    → (score m all ≡ some x) × (lo ≤ x) × (x ≤ hi)
unfolding in_range
in_range_sound all lo hi m x h = ground arith

in_range_complete :
    (all : List (String × ℕ)) (lo hi : ℕ) (m : String) (x : ℕ)
    → score m all ≡ some x
    → lo ≤ x
    → x ≤ hi
    → in_range all lo hi m x ≡ true
unfolding in_range
in_range_complete all lo hi m x e l u = ground arith

range_sound :
    (all : List (String × ℕ)) (lo hi : ℕ) (m : String) (x : ℕ) (l : List (String × ℕ))
    → Listed m x (range all lo hi l)
    → in_range all lo hi m x ≡ true
unfolding range
range_sound all lo hi m x [] h = absurd h
range_sound all lo hi m x ((n, y) ∷ l) h = elim (Bool-cases (in_range all lo hi n y)) [
  | inl i ↦ elim (rw (i) at h) [ inl e ↦ cc | inr later ↦ range_sound all lo hi m x l later ]
  | inr o ↦ range_sound all lo hi m x l (rw (o) at h)
]

score-Listed : (m : String) (x : ℕ) (l : List (String × ℕ)) → score m l ≡ some x → Listed m x l
unfolding score
score-Listed m x [] h = cc
score-Listed m x ((n, y) ∷ l) h = elim (Bool-cases (str_eq m n)) [
  | inl e ↦ inl ((eq_iff m n).0 e, ground arith)
  | inr e ↦ inr (score-Listed m x l (ground arith))
]

range_complete :
    (all : List (String × ℕ)) (lo hi : ℕ) (m : String) (x : ℕ) (l : List (String × ℕ))
    → in_range all lo hi m x ≡ true
    → Listed m x l
    → Listed m x (range all lo hi l)
unfolding range
range_complete all lo hi m x [] i h = absurd h
range_complete all lo hi m x ((n, y) ∷ l) i (inl e) =
    let here : in_range all lo hi n y ≡ true = cc in rw here (inl e)
range_complete all lo hi m x ((n, y) ∷ l) i (inr later) =
    elim (Bool-cases (in_range all lo hi n y)) [
      | inl e ↦ rw e (inr (range_complete all lo hi m x l i later))
      | inr e ↦ rw e (range_complete all lo hi m x l i later)
    ]

-- A list without its last item, and that item.
unfoldable pub split_last : List String → Option (List String × String)
split_last [] = none
split_last (x ∷ xs) = elim (split_last xs) [ none ↦ some ([], x) | some (f, y) ↦ some (x ∷ f, y) ]

split_last-append : (f : List String) (v : String) → split_last (f ++ v ∷ []) ≡ some (f, v)
unfolding split_last
split_last-append [] v = refl
split_last-append (x ∷ f) v = rw (split_last-append f v)

unfoldable pub pop_from :
    (Key → List String)
    → Key
    → Option (List String × String)
    → Option (String × (Key → List String))
pop_from s k none = none
pop_from s k (some (f, v)) = some (v, set_at k f s)

abbrev pub Zsets_ : Type 0
Zsets_ = Key → List (String × ℕ)

pub ttl_law : (k : Key) (n : ℕ) (s : Stored) → set_at k (some n) s.ttl_ k ≡ some n
ttl_law k n s = rw (key_eq_refl k) refl

pub zadd_law :
    (k j : Key) (m n : String) (x : ℕ) (s : Zsets_)
    → score n (set_at k ((m, x) ∷ without m (s k)) s j)
      ≡ (if key_eq k j && str_eq m n then some x else score n (s j))
unfolding score
zadd_law k j m n x s = elim (Bool-cases (key_eq k j)) [
  | inl e ↦
      rw e (
        rw (← key_eq_sound k j e) (ground (arith, score-without m n (s k), eq_iff m n, eq_iff n m)))
  | inr e ↦ rw e refl
]

pub zrem_law :
    (k j : Key) (m n : String) (s : Zsets_)
    → score n (set_at k (without m (s k)) s j)
      ≡ (if key_eq k j && str_eq m n then none else score n (s j))
zrem_law k j m n s = elim (Bool-cases (key_eq k j)) [
  | inl e ↦ rw e (rw (← key_eq_sound k j e) (score-without m n (s k)))
  | inr e ↦ rw e refl
]

pub range_law :
    (k : Key) (lo hi : ℕ) (m : String) (x : ℕ) (s : Zsets_)
    → Listed m x (range (s k) lo hi (s k)) ↔ ((score m (s k) ≡ some x) × (lo ≤ x) × (x ≤ hi))
range_law k lo hi m x s = (
  λ h. in_range_sound (s k) lo hi m x (range_sound (s k) lo hi m x (s k) h),
  λ (e, l, u).
      range_complete (s k) lo hi m x (s k) (in_range_complete (s k) lo hi m x e l u)
        (score-Listed m x (s k) e),
)

-- A text and the seconds that are left of its time.
abbrev pub Timed : Type 0
Timed = Option (String × ℕ)

abbrev pub text_of : Timed → Option String
text_of none = none
text_of (some (v, left)) = some v

abbrev pub after_seconds : ℕ → Timed → Timed
after_seconds n none = none
after_seconds n (some (v, left)) = if ltb n left then some (v, left - n) else none

pub get_law :
    (k j : Key) (o : Timed) (s : Key → Timed)
    → text_of (set_at k o s j) ≡ (if key_eq k j then text_of o else text_of (s j))
get_law k j o s = elim (Bool-cases (key_eq k j)) [ inl e ↦ rw e refl | inr e ↦ rw e refl ]

pub elapse_law :
    (k j : Key) (v : String) (ex n : ℕ) (s : Key → Timed)
    → text_of (after_seconds n (set_at k (some (v, ex)) s j)) ≡ (
        if key_eq k j then (if ltb n ex then some v else none) else text_of (after_seconds n (s j)))
elapse_law k j v ex n s = elim (Bool-cases (key_eq k j)) [
  | inl e ↦ elim (Bool-cases (ltb n ex)) [ inl l ↦ rw (e, l) refl | inr l ↦ rw (e, l) refl ]
  | inr e ↦ rw e refl
]

pub elapse_none_law : (n : ℕ) (o : Timed) → text_of o ≡ none → text_of (after_seconds n o) ≡ none
elapse_none_law n none h = refl
elapse_none_law n (some (v, left)) h = absurd (cc)

pub lpush_law :
    (k j : Key) (v : String) (s : Key → List String)
    → set_at k (v ∷ s k) s j ≡ (if key_eq k j then v ∷ s j else s j)
lpush_law k j v s = elim (Bool-cases (key_eq k j)) [
  | inl e ↦ rw e (rw (key_eq_sound k j e) refl)
  | inr e ↦ rw e refl
]

pub rpop_law :
    (k : Key) (s : Key → List String) (front : List String) (v : String)
    → s k ≡ front ++ v ∷ []
    → (t : Key → List String) × (pop_from s k (split_last (s k)) ≡ some (v, t))
      × ((j : Key) → t j ≡ (if key_eq k j then front else s j))
unfolding pop_from
rpop_law k s front v e = (set_at k front s, rw e (rw (split_last-append front v) refl), λ j. refl)

pub rpop_empty_law :
    (k : Key) (s : Key → List String) → s k ≡ [] → pop_from s k (split_last (s k)) ≡ none
unfolding pop_from split_last
rpop_empty_law k s e = rw e refl

abbrev pub concrete : Redis
concrete = record {
  Hashes = Stored;
  Strings = Key → Timed;
  Zsets = Key → List (String × ℕ);
  Lists = Key → List String;
  hgetall = λ k s. s.hash k;
  ttl = λ k s. s.ttl_ k;
  hset = λ k f v s. record s { hash = set_at k (some (put f v (or_empty (s.hash k)))) s.hash };
  expire = λ k n s. record s { ttl_ = set_at k (some n) s.ttl_ };
  del_hash = λ k s. record { hash = set_at k none s.hash; ttl_ = set_at k none s.ttl_ };
  hgetall-hset = λ k j f v s. refl;
  hgetall-expire = λ k j n s. refl;
  hgetall-del = λ k j s. refl;
  ttl-expire = λ k n s e. ttl_law k n s;
  get = λ k s. text_of (s k);
  set = λ k v ex s. set_at k (some (v, ex)) s;
  del = λ k s. set_at k none s;
  get-set = λ k j v ex s. get_law k j (some (v, ex)) s;
  get-del = λ k j s. get_law k j none s;
  elapse = λ n s. λ j. after_seconds n (s j);
  get-elapse-set = elapse_law;
  get-elapse-none = λ k n s h. elapse_none_law n (s k) h;
  zscore = λ k m s. score m (s k);
  zadd = λ k m x s. set_at k ((m, x) ∷ without m (s k)) s;
  zrem = λ k m s. set_at k (without m (s k)) s;
  zrangebyscore = λ k lo hi s. range (s k) lo hi (s k);
  zscore-zadd = zadd_law;
  zscore-zrem = zrem_law;
  zrangebyscore_iff = range_law;
  items = λ k s. s k;
  lpush = λ k v s. set_at k (v ∷ s k) s;
  rpop = λ k s. pop_from s k (split_last (s k));
  items-lpush = lpush_law;
  rpop-last = rpop_law;
  rpop-empty = rpop_empty_law;
}
