-- ===== src/Pii/Faults.antt =====
-- A fault while a document with findings is routed.
use equalify_reflow.Prelude.{suc, String, true, some, ◌≡◌, refl}
use equalify_reflow.Errors.{err, other_error}
use equalify_reflow.Redis.{Redis}
use equalify_reflow.Redis.Exec.{World, call}
use equalify_reflow.Retry.{is_retryable_error}
use equalify_reflow.Retry.Actions.{retrying, attempts_of, next_attempt}
use equalify_reflow.Queue.{enqueue}
use equalify_reflow.Approval.{Services}
use equalify_reflow.Pii.{PiiQueuePayload, Scanner, route, queue_for_approval}

-- If Redis fails once, in the call that queues the payload, the routing of a document with findings
-- ends with an error after this one call: it is not tried again.
route_fault :
    {r : Redis} (s : Services) (p : Scanner) (job : PiiQueuePayload) (findings : String)
    (w : World r)
    → w.faults w.calls ≡ true
    → route s p job (some findings) w ≡ (err other_error, record w { calls = suc w.calls })
unfolding route queue_for_approval enqueue call retrying attempts_of next_attempt is_retryable_error
route_fault s p job findings w down = rw (down) refl
