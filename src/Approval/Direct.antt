-- ===== src/Approval/Direct.antt =====
-- The direct approval (src/services/approval_service.py).
use equalify_reflow.Prelude.{
  String, Bool, true, false, not, Option, none, some, List, [], ◌∷◌, ◌≡◌, ◌&&◌, inl, inr, refl, ◌∙◌,
  ap, arith, str_eq, eq_iff, if◌then◌else◌, Bool-cases,
}
use equalify_reflow.Errors.{Result}
use equalify_reflow.Redis.{Redis, Hash}
use equalify_reflow.Redis.Keys.{Key, key_eq, key_eq_refl, lock_key, job_key}
use equalify_reflow.Redis.Exec.{World, IsUp, after}
use equalify_reflow.Job.{status_awaiting_approval, status_pii_scanning, status_processing}
use equalify_reflow.Job.Fields.{structure, serialize_fields}
use equalify_reflow.Approval.{Services, DecisionMetadata, release, status_in}
use equalify_reflow.Approval.Decision.{
  has_status, approve_current, approve_locked, process_approval,
}
use equalify_reflow.Approval.Lock.{
  Keeps, Keeps-refl, Keeps-if, Keeps-continue, trigger-Keeps, update-Keeps, called, locked,
  released, acquire_free, release_lem,
}
use equalify_reflow.Approval.Outcome.{
  found_status, rounds_ok, approved_status, Leaves, approved_up, get_job_up,
}

-- The jobs that the direct approval accepts.
abbrev pub is_pending : Option Hash → Bool
is_pending job = status_in (found_status job) status_awaiting_approval status_pii_scanning

not_processing :
    (o : Option String)
    → status_in o status_awaiting_approval status_pii_scanning ≡ true
    → has_status o status_processing ≡ false
unfolding has_status
not_processing none h = refl
not_processing (some t) h = elim (Bool-cases (str_eq t status_awaiting_approval)) [
  | inl e ↦ rw ((eq_iff t status_awaiting_approval).0 e) refl
  | inr other ↦
      let e : str_eq t status_pii_scanning ≡ true = ground arith in
      rw ((eq_iff t status_pii_scanning).0 e) refl
]

module _ {r : Redis} (s : Services) (job_id : String) (m : DecisionMetadata) where
  approve_current-Keeps :
      (job : Option Hash) (w : World r) → Keeps w (approve_current s job_id m job w).1
  unfolding approve_current
  approve_current-Keeps none w = Keeps-refl w
  approve_current-Keeps (some job) w =
      Keeps-if (has_status (job "status") status_processing) _ _ w (Keeps-refl w) (
        Keeps-if (not (status_in (job "status") status_awaiting_approval status_pii_scanning)) _ _ w
          (Keeps-refl w)
          (Keeps-continue _ w _ (update-Keeps s job_id _ _ w)
            (λ u v. trigger-Keeps s job_id job v)))

  -- What a direct approval leaves of a job that it found, and of the tasks.
  abbrev pub Decided : Option Hash → List String → World r → Type 0
  Decided job tasks w' =
      Leaves s job_id
        (approved_status (is_pending job) (rounds_ok s job) s.storage_configured (found_status job))
        (if is_pending job && (rounds_ok s job && s.storage_configured)
          then job_id ∷ tasks
          else tasks)
        w'

  approve_current-Decided :
      (job : Option Hash) (v : World r)
      → IsUp v
      → r.hgetall (job_key job_id) v.hashes ≡ job
      → Decided job v.started (approve_current s job_id m job v).1
  unfolding approve_current serialize_fields
  approve_current-Decided none v up e = (ap found_status e, refl)
  approve_current-Decided (some job) v up e = elim (Bool-cases (is_pending (some job))) [
    | inl pending ↦
        let idle = not_processing (job "status") pending in
        rw (idle, pending)
          (approved_up s job_id (("approval_decision", structure (s.dumps m)) ∷ []) v job up refl)
    | inr other ↦ elim (Bool-cases (has_status (job "status") status_processing)) [
      | inl processing ↦ rw (processing, other) (ap found_status e, refl)
      | inr idle ↦ rw (idle, other) (ap found_status e, refl)
    ]
  ]

  -- The world in which the body of the direct approval ends.
  abbrev body : World r → Result (Unit {0}) × World r
  body w =
      approve_current s job_id m (r.hgetall (job_key job_id) w.hashes) (called (locked job_id w))

  finally_released :
      (x : Result (Unit {0})) (v : World r)
      → v.faults v.calls ≡ false
      → after x (release job_id v) ≡ (x, released job_id v)
  finally_released x v up = rw (release_lem job_id v up) refl

  process_approval_free :
      (w : World r)
      → r.get (lock_key job_id) w.strings ≡ none
      → IsUp w
      → process_approval s job_id m w ≡ ((body w).0, released job_id (body w).1)
  unfolding process_approval approve_locked
  process_approval_free w free up =
      let k =
        approve_current-Keeps (r.hgetall (job_key job_id) w.hashes) (called (locked job_id w)) in
      rw (acquire_free job_id w free (up w.calls)) (
        rw (get_job_up s job_id (locked job_id w) up) (
          finally_released (body w).0 (body w).1
            (ap (λ f. f (body w).1.calls) k.faults ∙ up (body w).1.calls)))

  -- While Redis answers and the lock is free, a direct approval starts the processing exactly if
  -- the job waits for its approval or is being scanned, its number of rounds is a number and the
  -- storage is configured; such a job becomes `processing`, or `failed` if only the storage is
  -- missing; a job with any other status, or none, keeps it. The lock is given back in every case,
  -- and every other lock and token is left as it was.
  pub process_approval-Decided :
      (w : World r)
      → r.get (lock_key job_id) w.strings ≡ none
      → IsUp w
      → Decided (r.hgetall (job_key job_id) w.hashes) w.started (process_approval s job_id m w).1
        × ((k : Key)
            → r.get k (process_approval s job_id m w).1.strings
              ≡ (if key_eq (lock_key job_id) k then none else r.get k w.strings))
  process_approval-Decided w free up =
      let v : World r = called (locked job_id w) in
      let job = r.hgetall (job_key job_id) w.hashes in
      let kept = (approve_current-Keeps job v).strings in
      rw (process_approval_free w free up) (
        approve_current-Decided job v up refl,
        λ k. r.get-del _ _ _ ∙ rw (ap (r.get k) kept ∙ r.get-set _ _ _ _ _) (ground arith),
      )

  process_approval-IsUp :
      (w : World r)
      → r.get (lock_key job_id) w.strings ≡ none
      → IsUp w
      → IsUp (process_approval s job_id m w).1
  process_approval-IsUp w free up n =
      let k =
        approve_current-Keeps (r.hgetall (job_key job_id) w.hashes) (called (locked job_id w)) in
      rw (process_approval_free w free up) (ap (λ f. f n) k.faults ∙ up n)

  calm :
      (job : Option Hash) (tasks : List String) (w' : World r)
      → is_pending job ≡ false
      → Decided job tasks w'
      → Leaves s job_id (found_status job) tasks w'
  calm job tasks w' other decided = simp other at decided

  pending :
      (job : Option Hash) (tasks : List String) (w' : World r)
      → is_pending job ≡ true
      → rounds_ok s job ≡ true
      → s.storage_configured ≡ true
      → Decided job tasks w'
      → Leaves s job_id (some status_processing) (job_id ∷ tasks) w'
  pending job tasks w' waits rounds configured decided = simp (waits, rounds, configured) at decided

module _ {r : Redis} (s : Services) (job_id : String) (m m' : DecisionMetadata) (w : World r) where
  -- Two direct approvals of a job that can be processed, one after the other while Redis answers,
  -- start its processing once and leave it `processing`.
  pub process_approval_twice :
      r.get (lock_key job_id) w.strings ≡ none
      → IsUp w
      → is_pending (r.hgetall (job_key job_id) w.hashes) ≡ true
      → rounds_ok s (r.hgetall (job_key job_id) w.hashes) ≡ true
      → s.storage_configured ≡ true
      → Leaves s job_id
          (some status_processing)
          (job_id ∷ w.started)
          (process_approval s job_id m' (process_approval s job_id m w).1).1
  process_approval_twice free up waits rounds configured =
      let v : World r = (process_approval s job_id m w).1 in
      let (first, strings) = process_approval-Decided s job_id m w free up in
      let now = pending s job_id m _ _ v waits rounds configured first in
      let released_lock = strings (lock_key job_id) ∙ rw (key_eq_refl (lock_key job_id)) refl in
      let up' = process_approval-IsUp s job_id m w free up in
      let second = process_approval-Decided s job_id m' v released_lock up' in
      let other = ap (λ o. status_in o status_awaiting_approval status_pii_scanning) now.0 in
      let again =
        calm s job_id m' (r.hgetall (job_key job_id) v.hashes) v.started
          (process_approval s job_id m' v).1 other second.0 in
      (again.0 ∙ now.0, again.1 ∙ now.1)
