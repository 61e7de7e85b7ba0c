-- ===== src/Storage.antt =====
-- Storage on S3 (src/services/storage_service.py): every operation asks its circuit breaker, makes
-- one request through the retry loop, and reports the outcome to the breaker.
-- The S3 client is not the program's. It is an argument that gives, for a request and the number of
-- an attempt, what the client's call returns or raises; a successful download has in turn an
-- outcome of reading its body. How a text is encoded is an argument too. An operation takes the three times at which it reads the clock.
pub mod Uploads
pub mod Downloads
pub mod Document
pub mod Rules
pub mod Balance
pub mod Leak
pub mod Missing
pub mod Reads
use Prim.Native.String.{◌++◌}
use equalify_reflow.Prelude.{
  ℕ, String, Bool, true, false, Option, none, some, List, str_eq, if◌then◌else◌,
}
use equalify_reflow.Errors.{
  Exception, client_error, http_exception, circuit_open, value_error, Result, ok, err,
}
use equalify_reflow.Breaker.{
  CircuitBreaker, CircuitBreakerOpenError, check_state, is_open, record_success, record_failure,
  new,
}
use equalify_reflow.Retry.{Policy, Run, retry_with_backoff_for_sync_func}

pub data Body : Type 0 where
  text : String → Body
  bytes : List ℕ → Body

-- `content if isinstance(content, bytes) else content.encode('utf-8')`. The encoding gives the
-- bytes, or `none` where `str.encode` raises its `ValueError`.
unfoldable pub encoded : (encode : String → Option (List ℕ)) → Body → Option (List ℕ)
encoded encode (text t) = encode t
encoded encode (bytes b) = some b

-- The requests that the program makes, with their arguments.
pub data Request : Type 0 where
  upload_fileobj : (bucket key : String) → Request
  get_object : (bucket key : String) → Request
  put_object :
      (bucket key : String) (body : List ℕ) (content_type : String) (cache_control : Option String)
      → Request

abbrev pub Client : Type 0 → Type 0
Client A = Request → ℕ → Result A

pub record StorageService : Type 0 where
  pub upload_circuit : CircuitBreaker
  pub download_circuit : CircuitBreaker
  pub temp_bucket : String
  pub results_bucket : String

unfoldable pub new_storage : (temp_bucket results_bucket : String) → StorageService
unfolding new
new_storage temp_bucket results_bucket = record {
  upload_circuit = new none (some 5) (some 2) (some 60);
  download_circuit = new none (some 5) (some 2) (some 60);
  temp_bucket = temp_bucket;
  results_bucket = results_bucket;
}

-- When an operation reads the clock: in `check_state`, in `is_open`, in `record_failure`.
pub record Times : Type 0 where
  pub checked : ℕ
  pub asked : ℕ
  pub failed : ℕ

-- What an operation leaves of a breaker, what it returns, and how many attempts it made.
pub record Reply (A : Type 0) : Type 0 where
  pub circuit : CircuitBreaker
  pub outcome : Result A
  pub calls : ℕ

-- `max_attempts=3, base_delay=1.0` and the defaults, in ticks of one second.
abbrev pub s3_policy : Policy
s3_policy = record { max_attempts = 3; base_delay = 1; max_delay = 30; backoff_factor = 2 }

admitted : {A : Type 0} → CircuitBreaker × Bool → Reply A → Reply A
admitted (b, true) rest = record { circuit = b; outcome = err circuit_open; calls = 0 }
admitted (b, false) rest = rest

checked_by :
    {A : Type 0}
    → ℕ
    → CircuitBreaker × Option CircuitBreakerOpenError
    → (CircuitBreaker → Reply A)
    → Reply A
unfolding admitted
checked_by now (b, some e) rest = record { circuit = b; outcome = err circuit_open; calls = 0 }
checked_by now (b, none) rest = let (b', o) = is_open now b in admitted (b', o) (rest b')

-- The two tests that open every operation: `check_state()`, then `is_open`.
unfoldable pub guarded :
    {A : Type 0} → Times → CircuitBreaker → (CircuitBreaker → Reply A) → Reply A
unfolding checked_by
guarded t b rest = checked_by t.asked (check_state t.checked b) rest

-- The handlers of a failed upload: an error of the breaker goes on as it is, any other is reported
-- to the breaker and becomes an HTTP error 500.
unfoldable pub upload_failed : {A : Type 0} → Times → Exception → ℕ → CircuitBreaker → Reply A
upload_failed t circuit_open n b = record { circuit = b; outcome = err circuit_open; calls = n }
upload_failed t e n b = record {
  circuit = record_failure t.failed b;
  outcome = err (http_exception 500);
  calls = n;
}

upload_finished : Times → String → CircuitBreaker → Run (Unit {0}) → Reply String
upload_finished t key b r = elim r.outcome [
  | ok u ↦ record { circuit = record_success b; outcome = ok key; calls = r.calls }
  | err e ↦ upload_failed t e r.calls b
]

-- The attempts of an upload, and the key that it returns.
unfoldable pub upload :
    Times → (attempt : ℕ → Result (Unit {0})) → String → CircuitBreaker → Reply String
unfolding upload_finished
upload t attempt key b =
    upload_finished t key b (retry_with_backoff_for_sync_func attempt s3_policy)

-- An attempt that makes its request itself: `none` is a `ValueError` before the client is called.
unfoldable pub send : Client (Unit {0}) → Option Request → ℕ → Result (Unit {0})
send s3 none n = err value_error
send s3 (some request) n = s3 request n

-- What is made inside the `try`, before the first attempt: `none` is a `ValueError`, which the
-- handlers report like a failed upload.
unfoldable pub made :
    {A : Type 0}
    → Times
    → Option A
    → (A → CircuitBreaker → Reply String)
    → CircuitBreaker
    → Reply String
unfolding upload_failed
made t none rest b = upload_failed t value_error 0 b
made t (some a) rest b = rest a b
