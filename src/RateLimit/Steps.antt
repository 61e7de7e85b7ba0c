-- ===== src/RateLimit/Steps.antt =====
-- One check of a rate limit: who is let in, and what is counted from then on.
use equalify_reflow.Prelude.{
  ℕ, suc, ◌+◌, ◌*◌, ◌-◌, ◌≤◌, String, true, false, none, some, List, ◌∷◌, ◌≡◌, refl, ◌∙◌, inl, inr,
  ◌&&◌, leb, ltb, leb→le, arith, str_eq, if◌then◌else◌, Bool-cases,
}
use equalify_reflow.Errors.{Result, ok}
use equalify_reflow.Redis.{Redis}
use equalify_reflow.Redis.Keys.{Key, key_eq_refl}
use equalify_reflow.Redis.Exec.{World, IsUp, call}
use equalify_reflow.Redis.Ranges.{Ranges}
use equalify_reflow.RateLimit.{
  Verdict, prune, prune_and_count, admit_request, reject_request, check_window, check_rate_limit,
  retry_after,
}
use equalify_reflow.RateLimit.Windows.{
  scores, recent, scores-insert, length-pruned, scores-pruned, length-young,
}

abbrev pub admitted_at : ℕ → Result Verdict → List ℕ → List ℕ
admitted_at now (ok (true, retry)) rest = now ∷ rest
admitted_at now _ rest = rest

module _ {r : Redis} (sets : Ranges r) (second : ℕ) (key : Key) (limit window : ℕ) where
  abbrev pub counted : ℕ → r.Zsets → ℕ
  counted later s = scores (recent (window * second) later) (sets.entries key s)

  pub zcard-prune :
      (now : ℕ) (s : r.Zsets) → sets.zcard key (prune sets second key window now s) ≡ counted now s
  unfolding prune
  zcard-prune now s = elim (Bool-cases (leb (window * second) now)) [
    | inl e ↦ rw (e) (
        sets.zcard_lem key _
        ∙ rw (sets.entries-zremrangebyscore key key 0 (now - window * second) s, key_eq_refl key)
            (length-pruned (window * second) now (sets.entries key s) (leb→le _ _ e)))
    | inr e ↦ rw (e) (
        sets.zcard_lem key s
        ∙ length-young (window * second) now (sets.entries key s) (ground arith))
  ]

  pub counted-prune :
      (now later : ℕ) (s : r.Zsets)
      → now ≤ later
      → counted later (prune sets second key window now s) ≡ counted later s
  unfolding prune
  counted-prune now later s h = elim (Bool-cases (leb (window * second) now)) [
    | inl e ↦ rw (e) (
        rw (sets.entries-zremrangebyscore key key 0 (now - window * second) s, key_eq_refl key)
          (scores-pruned (window * second) now later (sets.entries key s) (leb→le _ _ e) h))
    | inr e ↦ rw (e) refl
  ]

  zscore-prune :
      (m : String) (now : ℕ) (s : r.Zsets)
      → r.zscore key m s ≡ none
      → r.zscore key m (prune sets second key window now s) ≡ none
  unfolding prune
  zscore-prune m now s h = elim (Bool-cases (leb (window * second) now)) [
    | inl e ↦ rw (e) (sets.zscore-zremrangebyscore key 0 (now - window * second) m s h)
    | inr e ↦ rw (e) h
  ]

  counted-zadd :
      (m : String) (x later n : ℕ) (s : r.Zsets)
      → r.zscore key m s ≡ none
      → counted later (sets.expire_zset key n (r.zadd key m x s))
        ≡ (if recent (window * second) later x then 1 else 0) + counted later s
  counted-zadd m x later n s h =
      let (front, back, before, after) = sets.entries-zadd key m x s h in
      rw (sets.entries-expire key key n (r.zadd key m x s), after, before)
        (scores-insert (recent (window * second) later) front back m x)

  -- A check's step, while Redis answers: who is let in, and what is counted from then on.
  pub record Step (member : String) (w w' : World r) (verdict : Result Verdict) : Type 0 where
    pub up : IsUp w'
    pub clock : w'.now ≡ w.now
    pub later_calls : w.calls ≤ w'.calls
    pub others :
        (m : String)
        → r.zscore key m w.zsets ≡ none
        → str_eq member m ≡ false
        → r.zscore key m w'.zsets ≡ none
    pub counts :
        (later : ℕ)
        → w.now w.calls ≤ later
        → counted later w'.zsets
          ≡ (if (ltb (counted (w.now w.calls) w.zsets) limit
                && recent (window * second) later (w.now w.calls))
              then 1
              else 0)
            + counted later w.zsets
    pub answer :
        (rest : List ℕ)
        → admitted_at (w.now w.calls) verdict rest
          ≡ (if ltb (counted (w.now w.calls) w.zsets) limit then w.now w.calls ∷ rest else rest)

  pub check_rate_limit-admits :
      (member : String) (w : World r)
      → IsUp w
      → ltb (counted (w.now w.calls) w.zsets) limit ≡ true
      → check_rate_limit sets second key limit window member w ≡ (
        ok (true, none),
        record w {
          zsets = sets.expire_zset key window (
              r.zadd key member
                (w.now w.calls)
                (prune sets second key window (w.now w.calls) w.zsets));
          calls = suc (suc (suc w.calls));
        },
      )
  unfolding check_rate_limit check_window prune_and_count call admit_request
  check_rate_limit-admits member w up e =
      rw
        (
          up w.calls,
          zcard-prune (w.now w.calls) w.zsets,
          e,
          up (suc w.calls),
          up (suc (suc w.calls)),
        )
        refl

  pub check_rate_limit-rejects :
      (member : String) (w : World r)
      → IsUp w
      → ltb (counted (w.now w.calls) w.zsets) limit ≡ false
      → check_rate_limit sets second key limit window member w ≡ (
          let s = prune sets second key window (w.now w.calls) w.zsets in
          (
            ok (
              false,
              some (retry_after sets second window (w.now w.calls) (sets.zrange_first key s)),
            ),
            record w { zsets = s; calls = suc (suc w.calls) },
          ))
  unfolding check_rate_limit check_window prune_and_count call reject_request
  check_rate_limit-rejects member w up e =
      rw (up w.calls, zcard-prune (w.now w.calls) w.zsets, e, up (suc w.calls)) refl

  pub check_rate_limit-Step :
      (member : String) (w : World r)
      → IsUp w
      → r.zscore key member w.zsets ≡ none
      → Step member w
          (check_rate_limit sets second key limit window member w).1
          (check_rate_limit sets second key limit window member w).0
  check_rate_limit-Step member w up new =
      let now = w.now w.calls in
      elim (Bool-cases (ltb (counted now w.zsets) limit)) [
        | inl e ↦ rw (check_rate_limit-admits member w up e) (record {
          up = up;
          clock = refl;
          later_calls = omega arith;
          others = λ m h other.
              sets.zscore-expire key window m _
              ∙ r.zscore-zadd key key member m now _
              ∙ rw (other, key_eq_refl key) (zscore-prune m now w.zsets h);
          counts = λ later h.
              counted-zadd member now later window _ (zscore-prune member now w.zsets new)
              ∙ rw (counted-prune now later w.zsets h, e) refl;
          answer = λ rest. rw (e) refl;
        })
        | inr e ↦ rw (check_rate_limit-rejects member w up e) (record {
          up = up;
          clock = refl;
          later_calls = omega arith;
          others = λ m h other. zscore-prune m now w.zsets h;
          counts = λ later h. counted-prune now later w.zsets h ∙ rw (e) (omega arith);
          answer = λ rest. rw (e) refl;
        })
      ]
