-- ===== src/Approval.antt =====
-- Approval of documents with PII findings (src/services/approval_service.py). A method is an action
-- over Redis. The clock is read at each update; the text of a time, the JSON text of a decision,
-- the parse of a stored time and whether a text is an integer are arguments. Starting the
-- processing as a background task is recorded in the world; the task itself is another component.
pub mod Token
pub mod Background
pub mod Decision
pub mod Lock
pub mod Outcome
pub mod Reapproval
pub mod Direct
pub mod Denial
use equalify_reflow.Prelude.{
  ℕ, String, Bool, true, false, not, Option, none, some, List, [], ◌∷◌, ◌||◌, str_eq, ltb,
  if◌then◌else◌,
}
use equalify_reflow.Errors.{Exception, value_error, Result, ok, err}
use equalify_reflow.Redis.{Redis, Hash, is_none}
use equalify_reflow.Redis.Keys.{lock_key, approval_timeout_key}
use equalify_reflow.Redis.Exec.{World, Exec, pure, raise, call, catch, continue, ◌>>=◌, ◌>>◌}
use equalify_reflow.Job.{
  Ttls, get_job, status_failed, status_processing, status_processing_queued,
  status_awaiting_approval, status_denied,
}
use equalify_reflow.Job.Fields.{Value, scalar, structure}
use equalify_reflow.Job.Service.{update_job_status, get_job_by_approval_token}
use equalify_reflow.Cleanup.{DeleteObject}

-- What `fromisoformat` makes of a stored time (`Z` written as an offset): `none` if it raises.
pub data Stamp : Type 0 where
  naive aware : ℕ → Stamp

pub record DecisionMetadata : Type 0 where
  pub decision : String
  pub justification : String
  pub reviewed_by : String
  pub reviewed_at : String

-- The settings, the injected services and the library functions that the methods use.
pub record Services : Type 0 where
  pub ttls : Ttls
  -- both `storage_service` and `s3_url_service` are there
  pub storage_configured : Bool
  pub delete_object : DeleteObject
  pub isoformat : ℕ → String
  pub fromisoformat : String → Option Stamp
  pub dumps : DecisionMetadata → String
  pub is_int : String → Bool

abbrev pub text_or : Option String → String → String
text_or none d = d
text_or (some t) d = t

-- `status in [a, b]`; a missing status is in no list.
abbrev pub status_in : Option String → String → String → Bool
status_in none a b = false
status_in (some t) a b = str_eq t a || str_eq t b

module _ {r : Redis} where
  -- ZREM of the job from the approval timeouts; a failure is logged and passed over.
  unfoldable pub untrack : (job_id : String) → Exec r (Unit {0})
  untrack job_id =
      catch (call λ w. (tt {0}, record w { zsets = r.zrem approval_timeout_key job_id w.zsets }))
        λ e. pure tt

  -- SET with NX and an expiry of 60 seconds.
  unfoldable pub acquire : (job_id : String) → Exec r Bool
  acquire job_id = call λ w.
      if is_none (r.get (lock_key job_id) w.strings)
      then (true, record w { strings = r.set (lock_key job_id) "processing" 60 w.strings })
      else (false, w)

  unfoldable pub release : (job_id : String) → Exec r (Unit {0})
  release job_id = call λ w. (tt {0}, record w { strings = r.del (lock_key job_id) w.strings })

  -- `asyncio.create_task(processing_service.process_document(...))`
  unfoldable pub create_task : (job_id : String) → Exec r (Unit {0})
  create_task job_id w = (ok tt, record w { started = job_id ∷ w.started })

module _ {r : Redis} (s : Services) where
  -- `update_job_status` at the time of the call.
  unfoldable pub update : (job_id status : String) → List (String × Value) → Exec r (Unit {0})
  update job_id status fields w =
      update_job_status s.ttls (s.isoformat (w.now w.calls)) (w.now w.calls) job_id status fields w

  -- From the reading of the job's options to the start of the processing.
  unfoldable pub trigger : (job_id : String) → Hash → Exec r (Unit {0})
  trigger job_id job =
      if not (s.is_int (text_or (job "max_rounds") "1"))
      then raise value_error
      else (if not s.storage_configured
          then update job_id status_failed
              (("error", scalar "Storage services not configured for processing") ∷ [])
          else create_task job_id)
