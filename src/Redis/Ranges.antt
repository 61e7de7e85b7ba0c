-- ===== src/Redis/Ranges.antt =====
-- The commands on sorted sets that count and remove by score, with their documented laws: an
-- extension of the commands that most services use.
use equalify_reflow.Prelude.{
  ℕ, String, Bool, Option, none, some, List, [], ◌∷◌, ◌++◌, ◌≡◌, ◌≤◌, not, ◌&&◌, leb, length,
  select, if◌then◌else◌,
}
use equalify_reflow.Redis.{Redis, Listed}
use equalify_reflow.Redis.Keys.{Key, key_eq}

-- The member with the least score, among members in any order.
abbrev pub Oldest : Option (String × ℕ) → List (String × ℕ) → Type 0
Oldest none l = l ≡ []
Oldest (some (m, x)) l = Listed m x l × ((n : String) (y : ℕ) → Listed n y l → x ≤ y)

-- Outside a range of scores.
abbrev pub outside : (lo hi : ℕ) → String × ℕ → Bool
outside lo hi e = not (leb lo e.1 && leb e.1 hi)

pub record Ranges (r : Redis) : Type 0 where
  -- the members with their scores, in any order
  pub entries : Key → r.Zsets → List (String × ℕ)
  -- ZREMRANGEBYSCORE, ZCARD, ZRANGE key 0 0 WITHSCORES, EXPIRE and DEL
  pub zremrangebyscore : Key → (lo hi : ℕ) → r.Zsets → r.Zsets
  pub zcard : Key → r.Zsets → ℕ
  pub zrange_first : Key → r.Zsets → Option (String × ℕ)
  pub expire_zset : Key → ℕ → r.Zsets → r.Zsets
  pub del_zset : Key → r.Zsets → r.Zsets
  pub zcard_lem : (k : Key) (s : r.Zsets) → zcard k s ≡ length (entries k s)
  pub zrange_first-Oldest : (k : Key) (s : r.Zsets) → Oldest (zrange_first k s) (entries k s)
  pub entries-zremrangebyscore :
      (k j : Key) (lo hi : ℕ) (s : r.Zsets)
      → entries j (zremrangebyscore k lo hi s)
        ≡ (if key_eq k j then select (outside lo hi) (entries j s) else entries j s)
  pub zscore-zremrangebyscore :
      (k : Key) (lo hi : ℕ) (m : String) (s : r.Zsets)
      → r.zscore k m s ≡ none
      → r.zscore k m (zremrangebyscore k lo hi s) ≡ none
  pub zscore-expire :
      (k : Key) (n : ℕ) (m : String) (s : r.Zsets)
      → r.zscore k m (expire_zset k n s) ≡ r.zscore k m s
  pub entries-expire :
      (k j : Key) (n : ℕ) (s : r.Zsets) → entries j (expire_zset k n s) ≡ entries j s
  pub entries-del :
      (k j : Key) (s : r.Zsets)
      → entries j (del_zset k s) ≡ (if key_eq k j then [] else entries j s)
  -- ZADD of a new member puts it somewhere between the others.
  pub entries-zadd :
      (k : Key) (m : String) (x : ℕ) (s : r.Zsets)
      → r.zscore k m s ≡ none
      → (front : List (String × ℕ)) × (back : List (String × ℕ)) × (entries k s ≡ front ++ back)
        × (entries k (r.zadd k m x s) ≡ front ++ (m, x) ∷ back)
