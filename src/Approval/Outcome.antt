-- ===== src/Approval/Outcome.antt =====
-- What a background approval does with the job (src/services/approval_service.py).
use equalify_reflow.Prelude.{
  String, Bool, true, false, not, Option, none, some, List, [], ◌∷◌, ◌≡◌, ◌&&◌, inl, inr, refl, sym,
  ◌∙◌, ap, subst, if◌then◌else◌, Bool-cases,
}
use equalify_reflow.Errors.{ok}
use equalify_reflow.Redis.{Redis, Hash, or_empty}
use equalify_reflow.Redis.Keys.{lock_key, job_key}
use equalify_reflow.Redis.Exec.{World, call, continue, ◌>>◌}
use equalify_reflow.Job.{
  get_job, status_processing_queued, status_awaiting_approval, status_processing, status_failed,
}
use equalify_reflow.Job.Fields.{Value, structure, scalar, serialize_fields}
use equalify_reflow.Redis.Exec.{IsUp}
use equalify_reflow.Job.Laws.{
  has_field, update_job_status-Saved, update_mapping-status, Saved-fields,
}
use equalify_reflow.Approval.{Services, update, create_task, trigger, text_or, status_in}
use equalify_reflow.Approval.Background.{
  approve_found, locked_approval, process_approval_background, decision_metadata,
}
use equalify_reflow.Approval.Lock.{untracked, locked, called, background_free}

-- The status that a lookup of the job finds.
abbrev pub found_status : Option Hash → Option String
found_status none = none
found_status (some h) = h "status"

abbrev pub status_of : {r : Redis} → String → World r → Option String
status_of {r} job_id w = found_status (r.hgetall (job_key job_id) w.hashes)

-- The job as a background approval finds it: is it waiting, and is its number of rounds one?
abbrev pub is_waiting : Option Hash → Bool
is_waiting job = status_in (found_status job) status_processing_queued status_awaiting_approval

abbrev pub rounds_ok : Services → Option Hash → Bool
rounds_ok s none = false
rounds_ok s (some job) = s.is_int (text_or (job "max_rounds") "1")

-- The status that a job has after the approval: unchanged unless it was waiting.
abbrev pub approved_status : (waiting int configured : Bool) → Option String → Option String
approved_status false int configured old = old
approved_status true int configured old =
    some (if int && not configured then status_failed else status_processing)

module _ {r : Redis} (s : Services) where
  -- An update, when Redis answers: what it returns, and what it leaves of the job.
  pub update-IsUp :
      (job_id status : String) (fields : List (String × Value)) (w : World r)
      → IsUp w
      → has_field (serialize_fields fields) "status" ≡ false
      → let w' = (update s job_id status fields w).1 in
        (update s job_id status fields w ≡ (ok tt, w'))
        × (status_of job_id w' ≡ some status)
        × (w'.started ≡ w.started)
        × IsUp w'
  unfolding update
  update-IsUp job_id status fields w up absent =
      let (done, saved) =
        update_job_status-Saved s.ttls (s.isoformat (w.now w.calls)) (w.now w.calls) job_id w status
          fields (up w.calls) in
      let status_set =
        update_mapping-status s.ttls (s.isoformat (w.now w.calls)) (w.now w.calls) job_id w status
          fields (or_empty (r.hgetall (job_key job_id) w.hashes)) absent in
      (
        λ i. (done i, (update s job_id status fields w).1),
        ap found_status (Saved-fields job_id _ _ _ w _ saved) ∙ status_set,
        saved.started,
        λ n. ap (λ f. f n) saved.faults ∙ up n,
      )

  -- What an action leaves of the job and of the tasks started.
  abbrev pub Leaves : String → Option String → List String → World r → Type 0
  Leaves job_id status tasks w' = (status_of job_id w' ≡ status) × (w'.started ≡ tasks)

  trigger_up :
      (job_id : String) (job : Hash) (v : World r)
      → IsUp v
      → status_of job_id v ≡ some status_processing
      → let int = s.is_int (text_or (job "max_rounds") "1") in
        Leaves job_id
          (approved_status true int s.storage_configured none)
          (if int && s.storage_configured then job_id ∷ v.started else v.started)
          (trigger s job_id job v).1
  unfolding trigger create_task serialize_fields
  trigger_up job_id job v up now =
      let (done, failed, same, still) =
        update-IsUp job_id status_failed
          (("error", scalar "Storage services not configured for processing") ∷ []) v up refl in
      elim (Bool-cases (s.is_int (text_or (job "max_rounds") "1"))) [
        | inr bad ↦ simp bad (now, refl)
        | inl good ↦ elim (Bool-cases s.storage_configured) [
          | inr missing ↦ simp (good, missing) (failed, same)
          | inl there ↦ simp (good, there) (now, refl)
        ]
      ]

  -- The update of an approved job and the start of its processing.
  pub approved_up :
      (job_id : String) (fields : List (String × Value)) (v : World r) (job : Hash)
      → IsUp v
      → has_field (serialize_fields fields) "status" ≡ false
      → let int = s.is_int (text_or (job "max_rounds") "1") in
        Leaves job_id
          (approved_status true int s.storage_configured none)
          (if int && s.storage_configured then job_id ∷ v.started else v.started)
          ((update s job_id status_processing fields >> trigger s job_id job) v).1
  approved_up job_id fields v job up absent =
      let (done, now, same, still) = update-IsUp job_id status_processing fields v up absent in
      let v' : World r = (update s job_id status_processing fields v).1 in
      let int = s.is_int (text_or (job "max_rounds") "1") in
      let triggered =
        subst
          (λ tasks.
            Leaves job_id (approved_status true int s.storage_configured none)
              (if int && s.storage_configured then job_id ∷ tasks else tasks)
              (trigger s job_id job v').1)
          same (trigger_up job_id job v' still now) in
      subst
        (λ p.
          Leaves job_id (approved_status true int s.storage_configured none)
            (if int && s.storage_configured then job_id ∷ v.started else v.started)
            (continue (λ _. trigger s job_id job) p).1)
        (sym done) triggered

  approve_found_up :
      (job_id x by : String) (v : World r) (job : Hash)
      → IsUp v
      → status_in (job "status") status_processing_queued status_awaiting_approval ≡ true
      → let int = s.is_int (text_or (job "max_rounds") "1") in
        Leaves job_id
          (approved_status true int s.storage_configured none)
          (if int && s.storage_configured then job_id ∷ v.started else v.started)
          (approve_found s job_id x by (some job) v).1
  unfolding approve_found serialize_fields
  approve_found_up job_id x by v job up waiting = simp waiting (
      approved_up job_id
        (("approval_decision", structure (s.dumps (decision_metadata s "approved" x by v))) ∷ []) v
        job up refl)

  -- What a background approval leaves of a job that it found, and of the tasks.
  abbrev pub Approved : String → Option Hash → List String → World r → Type 0
  Approved job_id job tasks w' =
      Leaves job_id
        (approved_status (is_waiting job) (rounds_ok s job) s.storage_configured (found_status job))
        (if is_waiting job && (rounds_ok s job && s.storage_configured)
          then job_id ∷ tasks
          else tasks)
        w'

  approve_found_waiting :
      (job_id x by : String) (v : World r) (job : Hash)
      → IsUp v
      → is_waiting (some job) ≡ true
      → Approved job_id (some job) v.started (approve_found s job_id x by (some job) v).1
  approve_found_waiting job_id x by v job up waiting =
      simp waiting (approve_found_up job_id x by v job up waiting)

  approve_found-Approved :
      (job_id x by : String) (v : World r) (job : Option Hash)
      → IsUp v
      → r.hgetall (job_key job_id) v.hashes ≡ job
      → Approved job_id job v.started (approve_found s job_id x by job v).1
  unfolding approve_found
  approve_found-Approved job_id x by v none up e = (ap found_status e, refl)
  approve_found-Approved job_id x by v (some job) up e = elim (Bool-cases (is_waiting (some job))) [
    | inl waiting ↦ approve_found_waiting job_id x by v job up waiting
    | inr other ↦ simp other (ap found_status e, refl)
  ]

  pub get_job_up :
      (job_id : String) (v : World r)
      → IsUp v
      → get_job job_id v ≡ (ok (r.hgetall (job_key job_id) v.hashes), called v)
  unfolding get_job call
  get_job_up job_id v up = rw (up v.calls) refl

  -- While Redis answers and the lock is free, a background approval starts the processing exactly
  -- if the job is queued or waiting for its approval, its number of rounds is a number and the
  -- storage is configured; a waiting job becomes `processing`, or `failed` if only the storage is
  -- missing; a job with any other status, or none, keeps it.
  pub background_outcome :
      (job_id x by : String) (w : World r)
      → IsUp w
      → r.get (lock_key job_id) w.strings ≡ none
      → Approved job_id
          (r.hgetall (job_key job_id) w.hashes)
          w.started
          (process_approval_background s job_id x by w).1
  unfolding locked_approval
  background_outcome job_id x by w up free =
      let v : World r = locked job_id (untracked job_id w) in
      rw (background_free s job_id x by w free up) (
        rw (get_job_up job_id v up) (
          approve_found-Approved job_id x by (called v) (r.hgetall (job_key job_id) w.hashes) up
            refl))
