-- ===== src/RateLimit.antt =====
-- Rate limits (src/services/rate_limit_service.py): sliding windows of accepted requests in sorted
-- sets. Clock readings and scores are ticks, of which a second has `second`. The text of a new
-- member, the clock's reading with a random part, is an argument.
pub mod Windows
pub mod Steps
pub mod Bounds
pub mod Verdicts
pub mod Middleware
pub mod Availability
use equalify_reflow.Prelude.{
  ℕ, ◌+◌, ◌-◌, ◌*◌, ◌/◌, max, min, String, Bool, true, false, Option, none, some, leb, ltb, ◌==◌,
  str_eq, if◌then◌else◌,
}
use equalify_reflow.Redis.{Redis}
use equalify_reflow.Redis.Keys.{
  Key, ratelimit_submit_ip_key, ratelimit_submit_global_key, ratelimit_status_ip_key,
}
use equalify_reflow.Redis.Exec.{World, Exec, pure, call, catch, ◌>>=◌, ◌>>◌}
use equalify_reflow.Redis.Ranges.{Ranges}

-- Requests, and the seconds in which they may be made.
abbrev pub submit_per_ip_limit : ℕ
submit_per_ip_limit = 35

abbrev pub submit_per_ip_window : ℕ
submit_per_ip_window = 3600

abbrev pub status_per_ip_limit : ℕ
status_per_ip_limit = 100

abbrev pub status_per_ip_window : ℕ
status_per_ip_window = 3600

abbrev pub global_submit_limit : ℕ
global_submit_limit = 1000

abbrev pub global_submit_window : ℕ
global_submit_window = 86400

-- Whether the request is allowed, and after how many seconds to try again.
abbrev pub Verdict : Type 0
Verdict = Bool × Option ℕ

pub record Quota : Type 0 where
  pub limit : ℕ
  pub remaining : ℕ
  pub reset_at : ℕ
  pub window_seconds : ℕ

module _ {r : Redis} (sets : Ranges r) (second : ℕ) where
  -- The start of the window is a negative score before the first `window` has passed; then no entry
  -- is outside.
  unfoldable pub prune : (key : Key) (window now : ℕ) → r.Zsets → r.Zsets
  prune key window now s =
      if leb (window * second) now then sets.zremrangebyscore key 0 (now - window * second) s else s

  -- The pipeline is one call.
  unfoldable pub prune_and_count : (key : Key) (window now : ℕ) → Exec r ℕ
  prune_and_count key window now =
      call λ w. (let s = prune key window now w.zsets in (sets.zcard key s, record w { zsets = s }))

  unfoldable pub admit_request :
      (key : Key) (window : ℕ) (member : String) (now : ℕ) → Exec r Verdict
  admit_request key window member now = do
    call λ w. (tt {0}, record w { zsets = r.zadd key member now w.zsets })
    call λ w. (tt {0}, record w { zsets = sets.expire_zset key window w.zsets })
    pure (true, none)

  -- A time that has passed counts as no seconds, and so as one.
  unfoldable pub retry_after : (window now : ℕ) → Option (String × ℕ) → ℕ
  retry_after window now none = window
  retry_after window now (some (m, oldest)) = max 1 ((oldest + window * second - now) / second)

  unfoldable pub reject_request : (key : Key) (window now : ℕ) → Exec r Verdict
  reject_request key window now = do
    oldest ← call λ w. (sets.zrange_first key w.zsets, w)
    pure (false, some (retry_after window now oldest))

  unfoldable pub check_window :
      (key : Key) (limit window : ℕ) (member : String) (now : ℕ) → Exec r Verdict
  check_window key limit window member now = do
    current_count ← prune_and_count key window now
    if ltb current_count limit
        then admit_request key window member now
        else reject_request key window now

  -- Any exception allows the request.
  unfoldable pub check_rate_limit :
      (key : Key) (limit window : ℕ) (member : String) → Exec r Verdict
  check_rate_limit key limit window member w =
      catch (check_window key limit window member (w.now w.calls)) (λ e. pure (true, none)) w

  unfoldable pub check_global : (member : String) → Verdict → Exec r Verdict
  check_global member (false, retry) = pure (false, retry)
  check_global member (true, retry) =
      check_rate_limit ratelimit_submit_global_key global_submit_limit global_submit_window member

  unfoldable pub check_submit_rate_limit :
      (client_ip : String) (ip_member global_member : String) → Exec r Verdict
  check_submit_rate_limit client_ip ip_member global_member = do
    verdict ←
        check_rate_limit (ratelimit_submit_ip_key client_ip) submit_per_ip_limit
          submit_per_ip_window ip_member
    check_global global_member verdict

  unfoldable pub check_status_rate_limit : (client_ip member : String) → Exec r Verdict
  check_status_rate_limit client_ip member =
      check_rate_limit (ratelimit_status_ip_key client_ip) status_per_ip_limit status_per_ip_window
        member

  -- The key, the limit and the window of an operation; any other than "submit" is "status".
  unfoldable pub limits_of : (client_ip operation : String) → Key × (ℕ × ℕ)
  limits_of client_ip operation =
      if str_eq operation "submit"
      then (ratelimit_submit_ip_key client_ip, (submit_per_ip_limit, submit_per_ip_window))
      else (ratelimit_status_ip_key client_ip, (status_per_ip_limit, status_per_ip_window))

  unfoldable pub reset_time : (window now : ℕ) → Option (String × ℕ) → ℕ
  reset_time window now none = (now + window * second) / second
  reset_time window now (some (m, oldest)) = (oldest + window * second) / second

  unfoldable pub next_reset : (key : Key) (window now current : ℕ) → Exec r ℕ
  next_reset key window now current =
      if ltb 0 current
      then (do
        oldest ← call λ w. (sets.zrange_first key w.zsets, w)
        pure (reset_time window now oldest))
      else pure (reset_time window now none)

  unfoldable pub quota : (key : Key) (limit window now : ℕ) → Exec r Quota
  quota key limit window now = do
    call λ w. (tt {0}, record w { zsets = prune key window now w.zsets })
    current ← call λ w. (sets.zcard key w.zsets, w)
    reset ← next_reset key window now current
    pure (record {
      limit = limit;
      remaining = min limit (limit - current);
      reset_at = reset;
      window_seconds = window;
    })

  -- What is answered when a call fails.
  unfoldable pub full_quota : (limit window now : ℕ) → Quota
  full_quota limit window now = record {
    limit = limit;
    remaining = limit;
    reset_at = (now + window * second) / second;
    window_seconds = window;
  }

  unfoldable pub get_remaining_quota : (client_ip operation : String) → Exec r Quota
  get_remaining_quota client_ip operation w =
      let (key, (limit, window)) = limits_of client_ip operation in
      catch (quota key limit window (w.now w.calls))
        (λ e v. pure (full_quota limit window (v.now v.calls)) v) w

  unfoldable pub reset_rate_limit : (client_ip operation : String) → Exec r Bool
  reset_rate_limit client_ip operation =
      let (key, limits) = limits_of client_ip operation in
      catch (do call λ w. (tt {0}, record w { zsets = sets.del_zset key w.zsets }); pure true)
        (λ e. pure false)
