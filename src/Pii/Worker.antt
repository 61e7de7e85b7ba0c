-- ===== src/Pii/Worker.antt =====
-- The worker that takes documents from the queue and scans them (src/workers/pii_worker.py).
-- Telemetry and the pause after an error are left out.
use equalify_reflow.Prelude.{
  String, Bool, true, false, Option, none, some, List, [], ◌∷◌, if◌then◌else◌,
}
use equalify_reflow.Errors.{other_error}
use equalify_reflow.Redis.{Redis}
use equalify_reflow.Redis.Exec.{Exec, pure, raise, catch, ◌>>=◌, ◌>>◌}
use equalify_reflow.Queue.{enqueue, dequeue}
use equalify_reflow.Approval.{Services}
use equalify_reflow.Pii.{PiiQueuePayload, Scanner, pii_queue, process_pii_job}

-- The JSON text of a payload and its parse; a payload that lacks a field raises.
pub record Payloads : Type 1 where
  pub Json : Type 0
  pub loads : String → Option Json
  pub model_validate : Json → Option PiiQueuePayload
  pub dumps : PiiQueuePayload → String

module _ {r : Redis} (s : Services) (p : Scanner) (q : Payloads) where
  -- Whether the loop ends after the payload.
  unfoldable pub serve_payload : (shutdown : Bool) → Option PiiQueuePayload → Exec r Bool
  serve_payload shutdown none = raise other_error
  serve_payload shutdown (some job) =
      if shutdown
      then (do enqueue pii_queue (q.dumps job); pure true)
      else (do process_pii_job s p job; pure false)

  unfoldable pub serve_dequeued : (shutdown : Bool) → Option q.Json → Exec r Bool
  serve_dequeued shutdown none = pure false
  serve_dequeued shutdown (some job_data) = serve_payload shutdown (q.model_validate job_data)

  -- One iteration. `shutdown` is whether the event is set when a payload has come.
  unfoldable pub iterate : (shutdown : Bool) → Exec r Bool
  iterate shutdown =
      catch (do job_data ← dequeue q.loads pii_queue; serve_dequeued shutdown job_data)
        (λ e. pure false)

  unfoldable pub break_if : Bool → Exec r (Unit {0}) → Exec r (Unit {0})
  break_if true rest = pure tt
  break_if false rest = rest

  -- The loop, as long as the worker runs: one entry for each iteration.
  unfoldable pub start : (shutdowns : List Bool) → Exec r (Unit {0})
  start [] = pure tt
  start (shutdown ∷ shutdowns) = do done ← iterate shutdown; break_if done (start shutdowns)
