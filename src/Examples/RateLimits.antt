-- ===== src/Examples/RateLimits.antt =====
-- Rate limits at concrete inputs.
use equalify_reflow.Prelude.{◌≤◌, ◌*◌, true, false, none, some, [], ◌∷◌, ◌≡◌, refl, arith}
use equalify_reflow.Errors.{ok}
use equalify_reflow.Redis.Keys.{Key, ratelimit_status_ip_key}
use equalify_reflow.Redis.Exec.{World, call}
use equalify_reflow.Redis.Concrete.{concrete, set_at, score}
use equalify_reflow.Redis.ConcreteRanges.{ranges, least}
use equalify_reflow.RateLimit.{
  check_rate_limit, check_window, prune_and_count, prune, reject_request, retry_after,
}
use equalify_reflow.RateLimit.Windows.{times, within}
use equalify_reflow.RateLimit.Bounds.{admissions, admissions-bounded}
use equalify_reflow.RateLimit.Verdicts.{check_rate_limit-retry}
use equalify_reflow.RateLimit.Middleware.{Texts, Request, dispatch}
use equalify_reflow.RateLimit.Availability.{Answered, dispatch-Answered}
use equalify_reflow.Examples.Worlds.{no_data}

abbrev pub limited : Key
limited = ratelimit_status_ip_key "192.0.2.1"

abbrev pub ticking : World concrete
ticking = record no_data { now = λ n. n }

admissions-bounded_example :
    times
      (within (60 * 1000) 9)
      (admissions ranges 1000 limited 2 60 ("a" ∷ "b" ∷ "c" ∷ []) ticking)
    ≤ 2
unfolding score
admissions-bounded_example =
    admissions-bounded ranges 1000 limited 2 60 ("a" ∷ "b" ∷ "c" ∷ []) ticking 9 (λ n. refl)
      (λ i j h. h) refl (refl, (refl, (refl, tt)), (refl, (refl, tt), (refl, tt, tt)))

-- Two requests are in the window of a limit of two.
abbrev pub at_limit : World concrete
at_limit = record no_data { zsets = set_at limited (("a", 10) ∷ ("b", 20) ∷ []) (λ k. []) }

abbrev pub after_wait : World concrete
after_wait = record at_limit {
  zsets = (check_rate_limit ranges 1 limited 2 60 "c" at_limit).1.zsets;
  now = λ n. 71;
}

check_rate_limit-retry_example :
    (check_rate_limit ranges 1 limited 2 60 "d" after_wait).0 ≡ ok (true, none)
unfolding check_rate_limit check_window prune_and_count call prune reject_request retry_after least
check_rate_limit-retry_example =
    check_rate_limit-retry ranges 1 limited 2 60 20 "c" "d" at_limit after_wait (λ n. refl)
      (λ n. refl) (omega arith) (omega arith) (omega arith) refl refl (omega arith)

abbrev pub texts : Texts
texts = record { first_item = λ text. text; strip = λ text. text; contains = λ part text. false }

abbrev pub submission : Request
submission = record {
  path = "/api/v1/documents/submit";
  method = "POST";
  forwarded = none;
  real_ip = some "192.0.2.1";
  host = none;
}

-- No call of Redis answers.
abbrev pub down : World concrete
down = record no_data { faults = λ n. true }

dispatch-Answered_example :
    Answered ranges 1 texts submission "a" down
      (dispatch ranges 1 texts true submission "a" "b" down).0
dispatch-Answered_example = dispatch-Answered ranges 1 texts true submission "a" "b" down
