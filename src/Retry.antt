-- ===== src/Retry.antt =====
-- Error categories and retries (src/utils/retry_helpers.py). The function that is retried is not
-- the program's: it is an argument that gives the outcome of each attempt. Delays are whole clock
-- ticks. Besides its outcome a run of the loop reports the delays that it slept, in order.
pub mod Laws
pub mod Delays
pub mod Actions
use equalify_reflow.Prelude.{
  ℕ, zero, suc, ◌+◌, ◌-◌, ◌*◌, ◌^◌, min, String, Bool, true, false, not, ◌||◌, Option, none, some,
  List, [], ◌∷◌, ◌==◌, str_eq, if◌then◌else◌,
}
use equalify_reflow.Errors.{
  Exception, client_error, boto_core_error, network_error, redis_error, http_exception,
  runtime_error, Result, ok, err,
}

-- `code in codes`, for texts and for numbers.
unfoldable pub contains_text : List String → String → Bool
contains_text [] x = false
contains_text (y ∷ ys) x = str_eq y x || contains_text ys x

unfoldable pub contains_number : List ℕ → ℕ → Bool
contains_number [] x = false
contains_number (y ∷ ys) x = y == x || contains_number ys x

abbrev pub retryable_boto_error_codes : List String
retryable_boto_error_codes =
    "RequestTimeout" ∷ "ServiceUnavailable" ∷ "ThrottlingException" ∷ "RequestThrottled"
    ∷ "InternalError" ∷ "SlowDown" ∷ "TooManyRequestsException"
    ∷ "ProvisionedThroughputExceededException" ∷ []

abbrev pub retryable_http_codes : List ℕ
retryable_http_codes = 408 ∷ 429 ∷ 500 ∷ 502 ∷ 503 ∷ 504 ∷ []

abbrev pub non_retryable_boto_error_codes : List String
non_retryable_boto_error_codes =
    "NoSuchKey" ∷ "NoSuchBucket" ∷ "AccessDenied" ∷ "InvalidRequest" ∷ "InvalidArgument"
    ∷ "MalformedXML" ∷ "InvalidBucketName" ∷ []

-- A status that the response does not carry is `None`, which is in no list.
retryable_status : Option ℕ → Bool
unfolding contains_number
retryable_status none = false
retryable_status (some status) = contains_number retryable_http_codes status

unfoldable pub is_retryable_error : Exception → Bool
unfolding contains_text contains_number retryable_status
is_retryable_error (client_error code status) =
    if contains_text non_retryable_boto_error_codes code
    then false
    else (if contains_text retryable_boto_error_codes code then true else retryable_status status)
is_retryable_error boto_core_error = true
is_retryable_error network_error = true
is_retryable_error redis_error = true
is_retryable_error (http_exception status) = contains_number retryable_http_codes status
is_retryable_error _ = false

pub record Policy : Type 0 where
  pub max_attempts : ℕ
  pub base_delay : ℕ
  pub max_delay : ℕ
  pub backoff_factor : ℕ

-- `min(base_delay * backoff_factor ** (attempt - 1), max_delay)`
unfoldable pub backoff_delay : Policy → ℕ → ℕ
backoff_delay p attempt = min (p.base_delay * p.backoff_factor ^ (attempt - 1)) p.max_delay

pub record Run {ℓ} (A : Type ℓ) : Type ℓ where
  pub outcome : Result A
  pub calls : ℕ
  pub delays : List ℕ

module _ {ℓ} {A : Type ℓ} where
  -- A failed attempt: raise, or sleep and go on with the rest of the loop.
  unfoldable pub after_failure : Policy → ℕ → Exception → Run A → Run A
  after_failure p attempt e rest =
      if not (is_retryable_error e)
      then record { outcome = err e; calls = attempt; delays = [] }
      else (if attempt == p.max_attempts
          then record { outcome = err e; calls = attempt; delays = [] }
          else record rest { delays = backoff_delay p attempt ∷ rest.delays })

  -- The `for` loop from `attempt` on, with `left` values of the range left.
  unfoldable pub attempts : (ℕ → Result A) → Policy → (left attempt : ℕ) → Run A
  attempts func p zero attempt = record {
    outcome = err runtime_error;
    calls = attempt - 1;
    delays = [];
  }
  attempts func p (suc left) attempt =
      let rest = attempts func p left (attempt + 1) in
      elim (func attempt) [
        | ok a ↦ record { outcome = ok a; calls = attempt; delays = [] }
        | err e ↦ after_failure p attempt e rest
      ]

  unfoldable pub retry_with_backoff : (ℕ → Result A) → Policy → Run A
  unfolding attempts
  retry_with_backoff func p = attempts func p p.max_attempts 1

  -- The loop of the variant for blocking functions is the same text.
  unfoldable pub retry_with_backoff_for_sync_func : (ℕ → Result A) → Policy → Run A
  unfolding attempts
  retry_with_backoff_for_sync_func func p = attempts func p p.max_attempts 1
