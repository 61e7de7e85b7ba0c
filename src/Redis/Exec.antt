-- ===== src/Redis/Exec.antt =====
-- Code that calls Redis: an action takes the world and gives back its result, or what it raised,
-- and the world. Which calls fail is up to the environment: `faults n` tells whether the call
-- number `n` raises, and a call that raises has not changed the data.
use equalify_reflow.Prelude.{ℕ, suc, String, Bool, List, if◌then◌else◌}
use mathlib.Core.Path.{◌≡◌}
use mathlib.Core.Bool.{false}
use equalify_reflow.Errors.{Exception, redis_error, Result, ok, err}
use equalify_reflow.Redis.{Redis}

-- Besides the data: what the clock reads before the call with each number, the number of calls made, the S3 keys that were deleted, the jobs whose
-- processing was started as a background task, and the metric counters that were incremented and by
-- how much, the latest first.
pub record World (r : Redis) : Type 0 where
  pub hashes : r.Hashes
  pub strings : r.Strings
  pub zsets : r.Zsets
  pub lists : r.Lists
  pub faults : ℕ → Bool
  pub now : ℕ → ℕ
  pub calls : ℕ
  pub deleted : List String
  pub started : List String
  pub metrics : List (String × ℕ)

abbrev pub Exec : Redis → Type 0 → Type 0
Exec r A = World r → Result A × World r

-- Redis answers every call.
abbrev pub IsUp : {r : Redis} → World r → Type 0
IsUp w = (n : ℕ) → w.faults n ≡ false

module _ {r : Redis} {A : Type 0} where
  abbrev pub pure : A → Exec r A
  pure a w = (ok a, w)

  abbrev pub raise : Exception → Exec r A
  raise e w = (err e, w)

  -- One call of Redis.
  unfoldable pub call : (World r → A × World r) → Exec r A
  call op w =
      let w' = record w { calls = suc w.calls } in
      if w.faults w.calls then (err redis_error, w') else (let (a, w'') = op w' in (ok a, w''))

  abbrev pub handle : (Exception → Exec r A) → Result A × World r → Result A × World r
  handle h (ok a, w) = (ok a, w)
  handle h (err e, w) = h e w

  -- try: m; except Exception as e: h(e)
  abbrev pub catch : Exec r A → (Exception → Exec r A) → Exec r A
  catch m h w = handle h (m w)

  abbrev pub after : Result A → Result (Unit {0}) × World r → Result A × World r
  after a (ok u, w) = (a, w)
  after a (err e, w) = (err e, w)

  -- try: m; finally: f. What `f` raises takes the place of the result.
  abbrev pub finally_ : Exec r A → Exec r (Unit {0}) → Exec r A
  finally_ m f w = let (a, w') = m w in after a (f w')

module _ {r : Redis} {A B : Type 0} where
  abbrev pub continue : (A → Exec r B) → Result A × World r → Result B × World r
  continue f (ok a, w) = f a w
  continue f (err e, w) = (err e, w)

  infixl 5 ◌>>=◌ ◌>>◌
  abbrev pub ◌>>=◌ : Exec r A → (A → Exec r B) → Exec r B
  ◌>>=◌ m f w = continue f (m w)

  abbrev pub ◌>>◌ : Exec r A → Exec r B → Exec r B
  ◌>>◌ m n w = continue (λ _. n) (m w)
