-- ===== src/Errors.antt =====
-- Exceptions as values: the classes that the program's handlers tell apart, and what a fallible
-- call returns. An exception's message is kept only where the code reads it.
use equalify_reflow.Prelude.{ℕ, String, Option}

-- `client_error` has the error code and the HTTP status of a botocore `ClientError`;
-- `http_exception` has the status code; `circuit_open` is `CircuitBreakerOpenError`;
-- `network_error` is a `TimeoutError` or a `ConnectionError`.
pub data Exception : Type 0 where
  client_error : String → Option ℕ → Exception
  boto_core_error network_error redis_error : Exception
  http_exception : ℕ → Exception
  circuit_open value_error runtime_error other_error : Exception

pub data Result {ℓ} (A : Type ℓ) : Type ℓ where
  ok : A → Result A
  err : Exception → Result A
