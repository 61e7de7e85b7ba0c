-- ===== src/Redis.antt =====
-- Redis, as the services use it. The server and its client are not the program's: the data that it
-- keeps and the commands are a record of operations with the documented laws of the commands, which
-- the services take as a parameter. Each key of the program holds one type of value, so the four
-- types are kept apart. Clock readings and scores are whole ticks. Keys with an EX expire between
-- actions: `elapse` is what the time that passes there does to the strings.
pub mod Keys
pub mod Exec
pub mod Frames
pub mod Ranges
pub mod Concrete
pub mod ConcreteRanges
use equalify_reflow.Prelude.{
  ℕ, zero, suc, ◌+◌, ◌-◌, String, Bool, true, false, Option, none, some, List, [], ◌∷◌, ◌++◌, ◌≡◌,
  ◌≤◌, ◌<◌, ◌⊎◌, ◌↔◌, ◌&&◌, length, ltb, str_eq, if◌then◌else◌,
}
use equalify_reflow.Redis.Keys.{Key, key_eq}

-- A hash, as the dictionary that HGETALL answers.
abbrev pub Hash : Type 0
Hash = String → Option String

abbrev pub put : String → String → Hash → Hash
put f v h = λ g. if str_eq f g then some v else h g

abbrev pub empty_hash : Hash
empty_hash = λ g. none

abbrev pub or_empty : Option Hash → Hash
or_empty none = empty_hash
or_empty (some h) = h

abbrev pub or_value : Option String → String → String
or_value none v = v
or_value (some u) v = u

abbrev pub is_none {ℓ} : {A : Type ℓ} → Option A → Bool
is_none none = true
is_none (some a) = false

-- The entry of a member in a list of members with their scores.
abbrev pub Listed : String → ℕ → List (String × ℕ) → Type 0
Listed m x [] = ⊥
Listed m x ((n, y) ∷ l) = ((m ≡ n) × (x ≡ y)) ⊎ Listed m x l

pub record Redis : Type 1 where
  pub Hashes : Type 0
  pub Strings : Type 0
  pub Zsets : Type 0
  pub Lists : Type 0
  -- HGETALL (`none` for the empty answer of a missing key), TTL, HSET, EXPIRE, DEL
  pub hgetall : Key → Hashes → Option Hash
  pub ttl : Key → Hashes → Option ℕ
  pub hset : Key → String → String → Hashes → Hashes
  pub expire : Key → ℕ → Hashes → Hashes
  pub del_hash : Key → Hashes → Hashes
  pub hgetall-hset :
      (k j : Key) (f v : String) (s : Hashes)
      → hgetall j (hset k f v s)
        ≡ (if key_eq k j then some (put f v (or_empty (hgetall k s))) else hgetall j s)
  pub hgetall-expire : (k j : Key) (n : ℕ) (s : Hashes) → hgetall j (expire k n s) ≡ hgetall j s
  pub hgetall-del :
      (k j : Key) (s : Hashes)
      → hgetall j (del_hash k s) ≡ (if key_eq k j then none else hgetall j s)
  pub ttl-expire :
      (k : Key) (n : ℕ) (s : Hashes) → is_none (hgetall k s) ≡ false → ttl k (expire k n s) ≡ some n
  -- GET, SET with EX, SET with NX and EX, DEL
  pub get : Key → Strings → Option String
  pub set : Key → String → (ex : ℕ) → Strings → Strings
  pub del : Key → Strings → Strings
  pub get-set :
      (k j : Key) (v : String) (ex : ℕ) (s : Strings)
      → get j (set k v ex s) ≡ (if key_eq k j then some v else get j s)
  pub get-del : (k j : Key) (s : Strings) → get j (del k s) ≡ (if key_eq k j then none else get j s)
  -- what so many seconds leave of the strings: a key is gone once its EX is over
  pub elapse : (seconds : ℕ) → Strings → Strings
  pub get-elapse-set :
      (k j : Key) (v : String) (ex n : ℕ) (s : Strings)
      → get j (elapse n (set k v ex s))
        ≡ (if key_eq k j then (if ltb n ex then some v else none) else get j (elapse n s))
  pub get-elapse-none : (k : Key) (n : ℕ) (s : Strings) → get k s ≡ none → get k (elapse n s) ≡ none
  -- ZADD, ZREM, ZSCORE, ZRANGEBYSCORE
  pub zscore : Key → String → Zsets → Option ℕ
  pub zadd : Key → String → ℕ → Zsets → Zsets
  pub zrem : Key → String → Zsets → Zsets
  pub zrangebyscore : Key → (lo hi : ℕ) → Zsets → List (String × ℕ)
  pub zscore-zadd :
      (k j : Key) (m n : String) (x : ℕ) (s : Zsets)
      → zscore j n (zadd k m x s) ≡ (if key_eq k j && str_eq m n then some x else zscore j n s)
  pub zscore-zrem :
      (k j : Key) (m n : String) (s : Zsets)
      → zscore j n (zrem k m s) ≡ (if key_eq k j && str_eq m n then none else zscore j n s)
  pub zrangebyscore_iff :
      (k : Key) (lo hi : ℕ) (m : String) (x : ℕ) (s : Zsets)
      → Listed m x (zrangebyscore k lo hi s) ↔ ((zscore k m s ≡ some x) × (lo ≤ x) × (x ≤ hi))
  -- the items of a list from the head; LPUSH, RPOP
  pub items : Key → Lists → List String
  pub lpush : Key → String → Lists → Lists
  pub rpop : Key → Lists → Option (String × Lists)
  pub items-lpush :
      (k j : Key) (v : String) (s : Lists)
      → items j (lpush k v s) ≡ (if key_eq k j then v ∷ items j s else items j s)
  pub rpop-last :
      (k : Key) (s : Lists) (front : List String) (v : String)
      → items k s ≡ front ++ v ∷ []
      → (t : Lists) × (rpop k s ≡ some (v, t))
        × ((j : Key) → items j t ≡ (if key_eq k j then front else items j s))
  pub rpop-empty : (k : Key) (s : Lists) → items k s ≡ [] → rpop k s ≡ none
