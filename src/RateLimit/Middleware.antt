-- ===== src/RateLimit/Middleware.antt =====
-- The middleware that applies the rate limits (src/middleware/rate_limit.py). What Python does with
-- texts is an argument.
use equalify_reflow.Prelude.{
  ℕ, String, Bool, true, false, not, Option, none, some, ◌&&◌, ◌||◌, str_eq, if◌then◌else◌,
}
use equalify_reflow.Redis.{Redis}
use equalify_reflow.Redis.Exec.{Exec, pure, catch, ◌>>=◌}
use equalify_reflow.Redis.Ranges.{Ranges}
use equalify_reflow.RateLimit.{
  Verdict, Quota, check_submit_rate_limit, check_status_rate_limit, get_remaining_quota,
}

pub record Texts : Type 0 where
  -- text.split(",")[0].strip(), text.strip(), part in text
  pub first_item : String → String
  pub strip : String → String
  pub contains : (part text : String) → Bool

pub record Request : Type 0 where
  pub path : String
  pub method : String
  pub forwarded : Option String
  pub real_ip : Option String
  pub host : Option String

-- What the caller gets: the answer of the next handler, with the headers of a quota if there is one,
-- or status 429 with the seconds to wait and the type of the limit.
pub data Response : Type 0 where
  passed : Option Quota → Response
  too_many : Option ℕ → String → Response

unfoldable pub direct_ip : Option String → String
direct_ip none = "unknown"
direct_ip (some host) = host

-- An empty header is no header.
unfoldable pub header_or : (read : String → String) → Option String → String → String
header_or read none rest = rest
header_or read (some text) rest = if str_eq text "" then rest else read text

unfoldable pub get_client_ip : Texts → Request → String
get_client_ip t request =
    header_or t.first_item request.forwarded
      (header_or t.strip request.real_ip (direct_ip request.host))

unfoldable pub skipped : String → Bool
skipped path =
    (str_eq path "/health" || str_eq path "/health/ready")
    || ((str_eq path "/docs" || str_eq path "/redoc")
        || (str_eq path "/openapi.json" || str_eq path "/"))

unfoldable pub submit_path : String → Bool
submit_path path = str_eq path "/api/documents/submit" || str_eq path "/api/v1/documents/submit"

unfoldable pub is_submission : Request → Bool
is_submission request = submit_path request.path && str_eq request.method "POST"

unfoldable pub is_status_check : Texts → Request → Bool
is_status_check t request = t.contains "/status" request.path && str_eq request.method "GET"

unfoldable pub blocked : (limit_type : String) → Verdict → Option Response
blocked limit_type (true, retry) = none
blocked limit_type (false, retry) = some (Response.too_many retry limit_type)

module _ {r : Redis} (sets : Ranges r) (second : ℕ) (t : Texts) where
  unfoldable pub check_limits : Request → (member global_member : String) → Exec r (Option Response)
  check_limits request member global_member =
      let client_ip = get_client_ip t request in
      if is_submission request
      then (do
        verdict ← check_submit_rate_limit sets second client_ip member global_member
        pure (blocked "submission" verdict))
      else (if is_status_check t request
          then (do
            verdict ← check_status_rate_limit sets second client_ip member
            pure (blocked "status_check" verdict))
          else pure none)

  unfoldable pub quota_of : Request → Exec r (Option Quota)
  quota_of request =
      let client_ip = get_client_ip t request in
      if submit_path request.path
      then (do q ← get_remaining_quota sets second client_ip "submit"; pure (some q))
      else (if t.contains "/status" request.path
          then (do q ← get_remaining_quota sets second client_ip "status"; pure (some q))
          else pure none)

  unfoldable pub respond : Request → Option Response → Exec r Response
  respond request (some response) = pure response
  respond request none = do q ← catch (quota_of request) (λ e. pure none); pure (Response.passed q)

  -- Whether there is a rate limiter; the members are those of the checks.
  unfoldable pub dispatch :
      (available : Bool) → Request → (member global_member : String) → Exec r Response
  dispatch available request member global_member =
      if skipped request.path || not available then pure (Response.passed none) else (do
        response ← catch (check_limits request member global_member) (λ e. pure none)
        respond request response)
