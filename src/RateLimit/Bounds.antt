-- ===== src/RateLimit/Bounds.antt =====
-- Checks of one rate limit, one after another: no window has more accepted requests than the limit.
use equalify_reflow.Prelude.{
  ℕ, ◌+◌, ◌*◌, ◌≤◌, ◌<◌, String, true, false, none, List, [], ◌∷◌, ◌≡◌, refl, sym, ◌∙◌, subst, inl,
  inr, ltb, ltb→lt, arith, str_eq, Bool-cases,
}
use equalify_reflow.Errors.{Result, ok, err}
use equalify_reflow.Redis.{Redis}
use equalify_reflow.Redis.Keys.{Key}
use equalify_reflow.Redis.Exec.{World, IsUp}
use equalify_reflow.Redis.Ranges.{Ranges}
use equalify_reflow.RateLimit.{Verdict, check_rate_limit}
use equalify_reflow.RateLimit.Windows.{times, recent, within, times-within}
use equalify_reflow.RateLimit.Steps.{admitted_at, counted, Step, check_rate_limit-Step}

-- The clock does not go back from one call to a later one.
abbrev pub Steady : {r : Redis} → World r → Type 0
Steady w = (i j : ℕ) → i ≤ j → w.now i ≤ w.now j

abbrev pub NoneIs : String → List String → Type 0
NoneIs m [] = Unit {0}
NoneIs m (n ∷ ns) = (str_eq m n ≡ false) × NoneIs m ns

module _ {r : Redis} (sets : Ranges r) (second : ℕ) (key : Key) (limit window : ℕ) where
  -- The members are new, and no two of them are the same.
  abbrev pub Fresh : List String → World r → Type 0
  Fresh [] w = Unit {0}
  Fresh (m ∷ ms) w = (r.zscore key m w.zsets ≡ none) × NoneIs m ms × Fresh ms w

  -- The times of the requests that are accepted, of one check for each new member.
  unfoldable pub admissions : List String → World r → List ℕ
  admissions [] w = []
  admissions (m ∷ ms) w =
      let (verdict, w') = check_rate_limit sets second key limit window m w in
      admitted_at (w.now w.calls) verdict (admissions ms w')

  Fresh-Step :
      (m : String) (ms : List String) (w w' : World r) (verdict : Result Verdict)
      → Step sets second key limit window m w w' verdict
      → NoneIs m ms
      → Fresh ms w
      → Fresh ms w'
  Fresh-Step m [] w w' v step other fresh = tt
  Fresh-Step m (n ∷ ns) w w' v step (o, os) (f, d, fs) =
      (step.others n f o, d, Fresh-Step m ns w w' v step os fs)

  -- The times of the requests accepted before, against the entries of the set.
  record Accepted (before : List ℕ) (w : World r) : Type 0 where
    up : IsUp w
    steady : Steady w
    same :
        (later : ℕ)
        → w.now w.calls ≤ later
        → counted sets second key limit window later w.zsets
          ≡ times (recent (window * second) later) before
    bounded : (end : ℕ) → times (within (window * second) end) before ≤ limit

  -- One more at the end of the window that the check has counted.
  bounded-more :
      (before : List ℕ) (now end : ℕ)
      → times (recent (window * second) now) before < limit
      → times (within (window * second) end) before ≤ limit
      → times (within (window * second) end) (now ∷ before) ≤ limit
  bounded-more before now end free h = elim (Bool-cases (within (window * second) end now)) [
    | inl e ↦
        let soon : now ≤ end = ground arith in
        rw (e) (omega (arith, times-within (window * second) now end before soon, free))
    | inr e ↦ rw (e) h
  ]

  Accepted-Step :
      (before : List ℕ) (m : String) (w w' : World r) (verdict : Result Verdict)
      → Accepted before w
      → Step sets second key limit window m w w' verdict
      → Accepted (admitted_at (w.now w.calls) verdict before) w'
  Accepted-Step before m w w' v a step =
      let now = w.now w.calls in
      let on : now ≤ w'.now w'.calls =
        subst (λ c. now ≤ c w'.calls) (sym step.clock)
          (a.steady w.calls w'.calls step.later_calls) in
      let here = a.same now (omega arith) in
      rw (step.answer before) (record {
        up = step.up;
        steady = subst (λ c. (i j : ℕ) → i ≤ j → c i ≤ c j) (sym step.clock) a.steady;
        same = λ later h.
            elim (Bool-cases (ltb (counted sets second key limit window now w.zsets) limit)) [
              | inl e ↦
                  let k : now ≤ later = omega (arith, on, h) in
                  rw (e) (step.counts later k ∙ rw (e, a.same later k) (ground arith))
              | inr e ↦
                  let k : now ≤ later = omega (arith, on, h) in
                  rw (e) (step.counts later k ∙ rw (e, a.same later k) (omega arith))
            ];
        bounded = λ end.
            elim (Bool-cases (ltb (counted sets second key limit window now w.zsets) limit)) [
              | inl e ↦
                  rw (e) (
                    bounded-more before now end (omega (arith, here, ltb→lt _ _ e)) (a.bounded end))
              | inr e ↦ rw (e) (a.bounded end)
            ];
      })

  within-moved :
      (end now : ℕ) (v : Result Verdict) (before rest : List ℕ)
      → times (within (window * second) end) (admitted_at now v before)
          + times (within (window * second) end) rest
        ≡ times (within (window * second) end) before
          + times (within (window * second) end) (admitted_at now v rest)
  within-moved end now (ok (true, retry)) before rest =
      elim (Bool-cases (within (window * second) end now)) [
        | inl e ↦ rw (e) (omega arith)
        | inr e ↦ rw (e) refl
      ]
  within-moved end now (ok (false, retry)) before rest = refl
  within-moved end now (err e) before rest = refl

  admissions-Accepted :
      (before : List ℕ) (ms : List String) (w : World r) (end : ℕ)
      → Accepted before w
      → Fresh ms w
      → times (within (window * second) end) before
          + times (within (window * second) end) (admissions ms w)
        ≤ limit
  unfolding admissions
  admissions-Accepted before [] w end a fresh = omega (arith, a.bounded end)
  admissions-Accepted before (m ∷ ms) w end a (new, other, fresh) =
      let step = check_rate_limit-Step sets second key limit window m w a.up new in
      let (v, w') = check_rate_limit sets second key limit window m w in
      let moved = within-moved end (w.now w.calls) v before (admissions ms w') in
      let rest =
        admissions-Accepted (admitted_at (w.now w.calls) v before) ms w' end
          (Accepted-Step before m w w' v a step) (Fresh-Step m ms w w' v step other fresh) in
      omega (arith, moved, rest)

  -- While Redis answers, the clock does not go back, and the set is empty at first: however many
  -- requests are checked one after another, each with a new member, no window has more accepted
  -- requests than the limit, wherever the window ends.
  pub admissions-bounded :
      (ms : List String) (w : World r) (end : ℕ)
      → IsUp w
      → Steady w
      → sets.entries key w.zsets ≡ []
      → Fresh ms w
      → times (within (window * second) end) (admissions ms w) ≤ limit
  admissions-bounded ms w end up steady empty fresh =
      let all =
        admissions-Accepted [] ms w end
          (record {
            up = up;
            steady = steady;
            same = λ later h. rw (empty) refl;
            bounded = λ e. omega arith;
          })
          fresh in
      omega (arith, all)
