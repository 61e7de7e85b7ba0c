-- ===== src/Approval/Reapproval.antt =====
-- Decisions on a job that was decided before (src/api/approval.py,
-- src/services/approval_service.py).
use equalify_reflow.Prelude.{
  suc, String, true, false, Option, none, some, List, [], ◌∷◌, ◌≡◌, refl, ◌∙◌, ap, str_eq,
}
use equalify_reflow.Errors.{ok}
use equalify_reflow.Redis.{Redis, Hash, or_empty}
use equalify_reflow.Redis.Keys.{lock_key, job_key, approval_token_key}
use equalify_reflow.Redis.Exec.{World, call}
use equalify_reflow.Job.{get_job, status_processing_queued, status_processing}
use equalify_reflow.Job.Fields.{update_mapping, scalar, serialize_fields}
use equalify_reflow.Job.Service.{get_job_by_approval_token, job_of_mapping}
use equalify_reflow.Redis.Exec.{IsUp}
use equalify_reflow.Job.Laws.{put_all, update_job_status-Saved, Saved-fields}
use equalify_reflow.Approval.{Services, update}
use equalify_reflow.Approval.Token.{validate_approval_token, valid_job}
use equalify_reflow.Approval.Background.{process_approval_background}
use equalify_reflow.Approval.Decision.{
  quick_approve, submit_decision, answer_valid, answer, serve_decision, run_background_task,
  approval_task,
}
use equalify_reflow.Approval.Lock.{called}
use equalify_reflow.Approval.Outcome.{Leaves, Approved, background_outcome, is_waiting, rounds_ok}

-- The fields that the instant approval writes.
abbrev pub queued_fields : {r : Redis} → Services → World r → List (String × String)
queued_fields s v =
    ("status", status_processing_queued)
    ∷ ("updated_at", s.isoformat (v.now v.calls))
    ∷ ("approved_at", s.isoformat (v.now v.calls))
    ∷ []

-- What the instant approval leaves: the job is queued, whatever its status was.
record Queued {r : Redis} (s : Services) (job_id : String) (v v' : World r) : Type 0 where
  done : quick_approve s job_id v ≡ (ok tt, v')
  job :
      r.hgetall (job_key job_id) v'.hashes
      ≡ some (put_all (queued_fields s v) (or_empty (r.hgetall (job_key job_id) v.hashes)))
  started : v'.started ≡ v.started
  strings : v'.strings ≡ v.strings
  up : IsUp v'

quick_approve-Queued :
    {r : Redis} (s : Services) (job_id : String) (v : World r)
    → IsUp v
    → Queued s job_id v (quick_approve s job_id v).1
unfolding quick_approve update update_mapping serialize_fields
quick_approve-Queued s job_id v up =
    let (done, saved) =
      update_job_status-Saved s.ttls (s.isoformat (v.now v.calls)) (v.now v.calls) job_id v
        status_processing_queued (("approved_at", scalar (s.isoformat (v.now v.calls))) ∷ [])
        (up v.calls) in
    record {
      done = λ i. (done i, (quick_approve s job_id v).1);
      job = Saved-fields job_id _ _ _ v _ saved;
      started = saved.started;
      strings = saved.strings;
      up = λ n. ap (λ f. f n) saved.faults ∙ up n;
    }

rounds_after_queueing :
    {r : Redis} (s : Services) (v : World r) (h : Hash)
    → rounds_ok s (some (put_all (queued_fields s v) h)) ≡ rounds_ok s (some h)
unfolding put_all
rounds_after_queueing s v h = refl

waiting_after_queueing :
    {r : Redis} (s : Services) (v : World r) (h : Hash)
    → is_waiting (some (put_all (queued_fields s v) h)) ≡ true
unfolding put_all
waiting_after_queueing s v h = refl

Approved-now :
    {r : Redis} (s : Services) (job_id : String) (job : Option Hash) (tasks : List String)
    (w' : World r)
    → is_waiting job ≡ true
    → rounds_ok s job ≡ true
    → s.storage_configured ≡ true
    → Approved s job_id job tasks w'
    → Leaves s job_id (some status_processing) (job_id ∷ tasks) w'
Approved-now s job_id job tasks w' waiting int configured out =
    simp (waiting, int, configured) at out

-- A queued job is processed, once, by the task that follows.
Queued-processed :
    {r : Redis} (s : Services) (job_id x by : String) (v v' : World r) (h : Hash)
    → Queued s job_id v v'
    → r.hgetall (job_key job_id) v.hashes ≡ some h
    → r.get (lock_key job_id) v.strings ≡ none
    → rounds_ok s (some h) ≡ true
    → s.storage_configured ≡ true
    → Leaves s job_id
        (some status_processing)
        (job_id ∷ v.started)
        (process_approval_background s job_id x by v').1
Queued-processed {r} s job_id x by v v' h q found free rounds configured =
    let job = q.job ∙ ap (λ o. some (put_all (queued_fields s v) (or_empty o))) found in
    let waiting = ap is_waiting job ∙ waiting_after_queueing s v h in
    let int = ap (rounds_ok s) job ∙ rounds_after_queueing s v h ∙ rounds in
    let out =
      background_outcome s job_id x by v' q.up (ap (r.get (lock_key job_id)) q.strings ∙ free) in
    let now =
      Approved-now s job_id (r.hgetall (job_key job_id) v'.hashes) v'.started
        (process_approval_background s job_id x by v').1 waiting int configured out in
    (now.0, now.1 ∙ ap (λ tasks. job_id ∷ tasks) q.started)

module _ {r : Redis} (s : Services) (token job_id x by : String) (h : Hash) (w : World r)
    (up : IsUp w) (mapped : r.get (approval_token_key token) w.strings ≡ some job_id)
    (named : str_eq job_id "" ≡ false) (found : r.hgetall (job_key job_id) w.hashes ≡ some h)
    (identified : h "job_id" ≡ some job_id)
    (valid : valid_job s (some h) (w.now (suc (suc w.calls))) ≡ some h) where
  token_job : get_job_by_approval_token token w ≡ (ok (some h), called (called w))
  unfolding get_job_by_approval_token job_of_mapping get_job call
  token_job = rw (up w.calls, mapped, named, up (suc w.calls), found) refl

  token_valid : validate_approval_token s token w ≡ (ok (some h), called (called w))
  unfolding validate_approval_token
  token_valid = rw (token_job, valid) refl

  -- The world after the instant answer.
  abbrev answered : World r
  answered = (quick_approve s job_id (called (called w))).1

  submitted :
      (quick_approve s job_id (called (called w)) ≡ (ok tt, answered))
      → submit_decision s token "approved" x by w ≡ (ok (approval_task job_id x by), answered)
  unfolding submit_decision answer_valid answer
  submitted done = rw (token_valid, identified, done) refl

  -- While Redis answers, an approval with a token that has not expired starts the processing of the
  -- job, and makes it `processing`, whatever the job's status is: also if it was denied before, is
  -- being processed or is finished. (The job is found under the token, its number of rounds is a
  -- number, the storage is configured and no other approval of the job holds the lock.)
  pub serve_decision_again :
      r.get (lock_key job_id) w.strings ≡ none
      → rounds_ok s (some h) ≡ true
      → s.storage_configured ≡ true
      → Leaves s job_id
          (some status_processing)
          (job_id ∷ w.started)
          (serve_decision s token "approved" x by w).1
  unfolding serve_decision run_background_task
  serve_decision_again free rounds configured =
      let q = quick_approve-Queued s job_id (called (called w)) up in
      rw (submitted q.done) (
        Queued-processed s job_id x by (called (called w)) answered h q found free rounds
          configured)
