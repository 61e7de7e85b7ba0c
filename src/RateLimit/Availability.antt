-- ===== src/RateLimit/Availability.antt =====
-- The middleware answers whatever Redis does, and rejects with a reason only.
use equalify_reflow.Prelude.{
  ℕ, ◌≤◌, String, Bool, true, not, Option, none, some, ◌≡◌, refl, ◌⊎◌, inl, inr, ◌||◌, arith,
  Bool-cases,
}
use equalify_reflow.Errors.{Result, ok, err}
use equalify_reflow.Redis.{Redis}
use equalify_reflow.Redis.Keys.{
  ratelimit_submit_ip_key, ratelimit_submit_global_key, ratelimit_status_ip_key,
}
use equalify_reflow.Redis.Exec.{World, pure, handle, continue}
use equalify_reflow.Redis.Ranges.{Ranges}
use equalify_reflow.RateLimit.{
  Quota, check_rate_limit, check_status_rate_limit, submit_per_ip_limit, submit_per_ip_window,
  global_submit_limit, global_submit_window, status_per_ip_limit, status_per_ip_window,
}
use equalify_reflow.RateLimit.Verdicts.{
  Exhausted, check_rate_limit-Answers, check_submit_rate_limit-Answers,
}
use equalify_reflow.RateLimit.Middleware.{
  Texts, Request, Response, get_client_ip, is_submission, is_status_check, skipped, blocked,
  check_limits, quota_of, respond, dispatch,
}

passed_on :
    {r : Redis} (x : Result (Option Quota) × World r)
    → (q : Option Quota) × ((continue (λ o. pure (Response.passed o)) (handle (λ e. pure none) x)).0
        ≡ ok (Response.passed q))
passed_on (ok q, w) = (q, refl)
passed_on (err e, w) = (none, refl)

module _ {r : Redis} (sets : Ranges r) (second : ℕ) (t : Texts) where
  -- The reason to reject a request.
  abbrev pub Reason : Request → (member : String) → World r → Type 0
  Reason request member w =
      let ip = get_client_ip t request in
      let key = ratelimit_submit_ip_key ip in
      ((is_submission request ≡ true)
        × (Exhausted sets second key submit_per_ip_limit submit_per_ip_window w
            ⊎ Exhausted sets second ratelimit_submit_global_key global_submit_limit
                global_submit_window
                (check_rate_limit sets second key submit_per_ip_limit submit_per_ip_window member
                  w).1))
      ⊎ ((is_status_check t request ≡ true)
          × Exhausted sets second (ratelimit_status_ip_key ip) status_per_ip_limit
              status_per_ip_window w)

  abbrev pub Answered : Request → (member : String) → World r → Result Response → Type 0
  Answered request member w v =
      ((q : Option Quota) × (v ≡ ok (Response.passed q)))
      ⊎ ((seconds : ℕ) × (limit_type : String) × (v
            ≡ ok (Response.too_many (some seconds) limit_type))
          × (1 ≤ seconds)
          × Reason request member w)

  respond-none :
      (request : Request) (w : World r)
      → (q : Option Quota) × ((respond sets second t request none w).0 ≡ ok (Response.passed q))
  unfolding respond
  respond-none request w = passed_on (quota_of sets second t request w)

  -- Whatever calls of Redis fail, and whether or not there is a rate limiter, a request is answered:
  -- it is passed on, or it is rejected with at least one second to wait. A rejected request is a
  -- submission, and its client or all clients have made as many as their window allows, or it is a
  -- status check whose client has.
  pub dispatch-Answered :
      (available : Bool) (request : Request) (member global_member : String) (w : World r)
      → Answered request member w
          (dispatch sets second t available request member global_member w).0
  unfolding dispatch check_limits blocked check_status_rate_limit respond
  dispatch-Answered available request member global_member w =
      let ip = get_client_ip t request in
      elim (Bool-cases (skipped request.path || not available)) [
        | inl e ↦ rw (e) (inl (none, refl))
        | inr e ↦ elim (Bool-cases (is_submission request)) [
          | inl s ↦ elim (check_submit_rate_limit-Answers sets second ip member global_member w) [
            | inl f ↦ rw (e, s, f) (inl (respond-none request _))
            | inr (seconds, f, h, x) ↦ rw (e, s, f) (inr (seconds, _, refl, h, inl (refl, x)))
          ]
          | inr s ↦ elim (Bool-cases (is_status_check t request)) [
            | inl k ↦
                elim (check_rate_limit-Answers sets second (ratelimit_status_ip_key ip)
                  status_per_ip_limit status_per_ip_window member w (omega arith)) [
                    | inl f ↦ rw (e, s, k, f) (inl (respond-none request _))
                    | inr (seconds, f, h, x) ↦
                        rw (e, s, k, f) (inr (seconds, _, refl, h, inr (refl, x)))
                  ]
            | inr k ↦ rw (e, s, k) (inl (respond-none request w))
          ]
        ]
      ]
