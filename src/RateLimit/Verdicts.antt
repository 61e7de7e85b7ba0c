-- ===== src/RateLimit/Verdicts.antt =====
-- What a caller is told: with faults of Redis, and after waiting as long as it was told to.
use equalify_reflow.Prelude.{
  ℕ, suc, ◌+◌, ◌*◌, ◌-◌, ◌/◌, ◌≤◌, ◌<◌, max, String, true, false, Option, none, some, ◌≡◌, refl,
  sym, ◌∙◌, ap, subst, ◌⊎◌, inl, inr, ltb, lt→ltb, arith, length, Bool-cases,
}
use native.Mathlib.Nat.{div-lt_iff_lt-mul}
use equalify_reflow.Errors.{Result, ok}
use equalify_reflow.Redis.{Redis}
use equalify_reflow.Redis.Keys.{Key, ratelimit_submit_ip_key, ratelimit_submit_global_key}
use equalify_reflow.Redis.Exec.{World, IsUp, call}
use equalify_reflow.Redis.Ranges.{Ranges, Oldest}
use equalify_reflow.RateLimit.{
  Verdict, prune, prune_and_count, admit_request, reject_request, check_window, check_rate_limit,
  retry_after, check_submit_rate_limit, check_global, submit_per_ip_limit, submit_per_ip_window,
  global_submit_limit, global_submit_window,
}
use equalify_reflow.RateLimit.Windows.{recent, scores-Listed}
use equalify_reflow.RateLimit.Steps.{
  counted, zcard-prune, check_rate_limit-admits, check_rate_limit-rejects,
}

abbrev rejected_for : ℕ → Result Verdict
rejected_for seconds = ok (false, some seconds)

told_wait : {m n : ℕ} → rejected_for m ≡ rejected_for n → m ≡ n
told_wait h = cc

let_in : {n : ℕ} → ok (true, none) ≡ rejected_for n → ⊥
let_in h = cc

not_below : {m n : ℕ} → ltb m n ≡ false → n ≤ m
not_below h = ground arith

module _ {r : Redis} (sets : Ranges r) (second : ℕ) where
  -- The window of a key has as many accepted requests as the limit, when the clock is read.
  abbrev pub Exhausted : (key : Key) (limit window : ℕ) → World r → Type 0
  Exhausted key limit window w =
      limit ≤ counted sets second key limit window (w.now w.calls) w.zsets

  retry_after_positive :
      (window now : ℕ) (o : Option (String × ℕ))
      → 0 < window
      → 1 ≤ retry_after sets second window now o
  unfolding retry_after
  retry_after_positive window now none h = h
  retry_after_positive window now (some (m, x)) h = omega arith

  -- A check answers, and a rejection has a reason.
  abbrev pub Answers : (key : Key) (limit window : ℕ) → World r → Result Verdict → Type 0
  Answers key limit window w v =
      (v ≡ ok (true, none))
      ⊎ ((seconds : ℕ) × (v ≡ ok (false, some seconds))
          × (1 ≤ seconds)
          × Exhausted key limit window w)

  pub check_rate_limit-Answers :
      (key : Key) (limit window : ℕ) (member : String) (w : World r)
      → 0 < window
      → Answers key limit window w (check_rate_limit sets second key limit window member w).0
  unfolding check_rate_limit check_window prune_and_count call admit_request reject_request
  check_rate_limit-Answers key limit window member w h =
      let now = w.now w.calls in
      elim (Bool-cases (w.faults w.calls)) [
        | inl e ↦ rw (e) (inl refl)
        | inr e ↦ elim (Bool-cases (ltb (counted sets second key limit window now w.zsets) limit)) [
          | inl f ↦ elim (Bool-cases (w.faults (suc w.calls))) [
            | inl g ↦ rw (e, zcard-prune sets second key limit window now w.zsets, f, g) (inl refl)
            | inr g ↦ elim (Bool-cases (w.faults (suc (suc w.calls)))) [
              | inl i ↦
                  rw (e, zcard-prune sets second key limit window now w.zsets, f, g, i) (inl refl)
              | inr i ↦
                  rw (e, zcard-prune sets second key limit window now w.zsets, f, g, i) (inl refl)
            ]
          ]
          | inr f ↦ elim (Bool-cases (w.faults (suc w.calls))) [
            | inl g ↦ rw (e, zcard-prune sets second key limit window now w.zsets, f, g) (inl refl)
            | inr g ↦
                rw (e, zcard-prune sets second key limit window now w.zsets, f, g)
                  (inr (_, refl, retry_after_positive window now _ h, ground arith))
          ]
        ]
      ]

  -- Whatever calls of Redis fail, the check of a submission answers, and it rejects, with at least a
  -- second to wait, only if the window of the client, or that of all clients, has as many accepted
  -- requests as its limit when the clock is read.
  pub check_submit_rate_limit-Answers :
      (client_ip ip_member global_member : String) (w : World r)
      → ((check_submit_rate_limit sets second client_ip ip_member global_member w).0
          ≡ ok (true, none))
        ⊎ ((seconds : ℕ) × ((check_submit_rate_limit sets second client_ip ip_member global_member
                w).0
              ≡ ok (false, some seconds))
            × (1 ≤ seconds)
            × (Exhausted
                  (ratelimit_submit_ip_key client_ip)
                  submit_per_ip_limit
                  submit_per_ip_window
                  w
                ⊎ Exhausted ratelimit_submit_global_key global_submit_limit global_submit_window
                    (check_rate_limit sets second
                      (ratelimit_submit_ip_key client_ip)
                      submit_per_ip_limit
                      submit_per_ip_window
                      ip_member
                      w).1))
  unfolding check_submit_rate_limit check_global
  check_submit_rate_limit-Answers client_ip ip_member global_member w =
      let w1 =
        (check_rate_limit sets second (ratelimit_submit_ip_key client_ip) submit_per_ip_limit
          submit_per_ip_window ip_member w).1 in
      elim (check_rate_limit-Answers (ratelimit_submit_ip_key client_ip) submit_per_ip_limit
        submit_per_ip_window ip_member w (omega arith)) [
          | inl e ↦
              rw (e)
                (elim (check_rate_limit-Answers ratelimit_submit_global_key global_submit_limit
                  global_submit_window global_member w1 (omega arith)) [
                    | inl f ↦ inl f
                    | inr (seconds, f, h, x) ↦ inr (seconds, f, h, inr x)
                  ])
          | inr (seconds, e, h, x) ↦ inr (seconds, rw (e) refl, h, inl x)
        ]

  -- The entry that the wait is computed from leaves the window.
  freed :
      (key : Key) (limit window now later : ℕ) (s : r.Zsets) (o : Option (String × ℕ))
      → Oldest o (sets.entries key s)
      → 0 < second
      → 0 < limit
      → length (sets.entries key s) ≡ limit
      → now + suc (retry_after sets second window now o) * second ≤ later
      → counted sets second key limit window later s < limit
  unfolding retry_after
  freed key limit window now later s none empty h l full waited =
      let none_ : 0 ≡ limit = ap length (sym empty) ∙ full in omega (arith, none_, l)
  freed key limit window now later s (some (m, x)) (here, least) h l full waited =
      let q = (x + window * second - now) / second in
      let below : x + window * second - now < suc (max 1 q) * second =
        (div-lt_iff_lt-mul h).0 (omega arith) in
      let out : recent (window * second) later x ≡ false = ground (arith, below, waited) in
      let less = scores-Listed (recent (window * second) later) m x (sets.entries key s) here out in
      omega (arith, less, full)

  -- While Redis answers, a client that is rejected while no more requests than the limit are counted,
  -- and that comes back, when the clock has advanced by one second more than it was told to wait,
  -- to a set that no one has changed, is let in.
  pub check_rate_limit-retry :
      (key : Key) (limit window seconds : ℕ) (member again : String) (w w' : World r)
      → IsUp w
      → IsUp w'
      → 0 < second
      → 0 < limit
      → counted sets second key limit window (w.now w.calls) w.zsets ≤ limit
      → (check_rate_limit sets second key limit window member w).0 ≡ ok (false, some seconds)
      → w'.zsets ≡ (check_rate_limit sets second key limit window member w).1.zsets
      → w.now w.calls + suc seconds * second ≤ w'.now w'.calls
      → (check_rate_limit sets second key limit window again w').0 ≡ ok (true, none)
  check_rate_limit-retry key limit window seconds member again w w' up up' s l most told same
        waited =
      let now = w.now w.calls in
      let s1 = prune sets second key window now w.zsets in
      elim (Bool-cases (ltb (counted sets second key limit window now w.zsets) limit)) [
        | inl e ↦ absurd (
            let_in
              (rw (check_rate_limit-admits sets second key limit window member w up e) at told))
        | inr e ↦
            let rejected = check_rate_limit-rejects sets second key limit window member w up e in
            let wait = told_wait (rw (rejected) at told) in
            let left : w'.zsets ≡ s1 = rw (rejected) at same in
            let full : length (sets.entries key s1) ≡ limit = omega (
              arith,
              sets.zcard_lem key s1,
              zcard-prune sets second key limit window now w.zsets,
              most,
              not_below e,
            ) in
            let free =
              freed key limit window now (w'.now w'.calls) s1 (sets.zrange_first key s1)
                (sets.zrange_first-Oldest key s1) s l full
                (subst (λ n. now + suc n * second ≤ w'.now w'.calls) (sym wait) waited) in
            let room : ltb (counted sets second key limit window (w'.now w'.calls) w'.zsets) limit
                ≡ true =
              rw (left) (lt→ltb _ _ free) in
            rw (check_rate_limit-admits sets second key limit window again w' up' room) refl
      ]
