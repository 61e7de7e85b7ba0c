-- ===== src/Approval/Lock.antt =====
-- The lock of a background approval (src/services/approval_service.py).
use equalify_reflow.Prelude.{
  suc, String, Bool, true, false, not, Option, none, some, List, ◌≡◌, inl, inr, refl, ◌∙◌, ap,
  arith, if◌then◌else◌, Bool-cases,
}
use equalify_reflow.Errors.{redis_error, Result, ok, err}
use equalify_reflow.Redis.{Redis, Hash}
use equalify_reflow.Redis.Keys.{lock_key, approval_timeout_key, key_eq, Key}
use equalify_reflow.Redis.Exec.{World, Exec, pure, call, continue, handle}
use equalify_reflow.Job.{
  get_job, hset_expire_zadd, status_processing_queued, status_awaiting_approval,
}
use equalify_reflow.Job.Fields.{Value}
use equalify_reflow.Job.Service.{update_job_status}
use equalify_reflow.Redis.Exec.{IsUp}
use equalify_reflow.Approval.{
  Services, update, untrack, acquire, release, trigger, create_task, text_or, status_in,
}
use equalify_reflow.Approval.Background.{
  approve_found, locked_approval, approve_if_acquired, process_approval_background,
}

-- What an action leaves alone: the text keys, so every lock and token, and the environment.
pub record Keeps {r : Redis} (w w' : World r) : Type 0 where
  pub strings : w'.strings ≡ w.strings
  pub faults : w'.faults ≡ w.faults
  pub deleted : w'.deleted ≡ w.deleted

Keeps-trans : {r : Redis} {u v w : World r} → Keeps u v → Keeps v w → Keeps u w
Keeps-trans a b = record {
  strings = b.strings ∙ a.strings;
  faults = b.faults ∙ a.faults;
  deleted = b.deleted ∙ a.deleted;
}

abbrev pub fault_or {ℓ} : {A : Type ℓ} → Bool → A → Result A
fault_or b a = if b then err redis_error else ok a

module _ {r : Redis} where
  pub Keeps-refl : (w : World r) → Keeps w w
  Keeps-refl w = record { strings = refl; faults = refl; deleted = refl }

  pub Keeps-if :
      {A : Type 0} (b : Bool) (m n : Exec r A) (w : World r)
      → Keeps w (m w).1
      → Keeps w (n w).1
      → Keeps w ((if b then m else n) w).1
  Keeps-if true m n w km kn = km
  Keeps-if false m n w km kn = kn

  Keeps-call :
      {A : Type 0} (op : World r → A × World r) (w : World r)
      → ((v : World r) → Keeps v (op v).1)
      → Keeps w (call op w).1
  unfolding call
  Keeps-call op w keeps = elim (Bool-cases (w.faults w.calls)) [
    | inl down ↦ rw down (record { strings = refl; faults = refl; deleted = refl })
    | inr up ↦ rw up (
        let k = keeps (record w { calls = suc w.calls }) in
        record { strings = k.strings; faults = k.faults; deleted = k.deleted })
  ]

  pub update-Keeps :
      (s : Services) (job_id status : String) (fields : List (String × Value)) (w : World r)
      → Keeps w (update s job_id status fields w).1
  unfolding update update_job_status hset_expire_zadd
  update-Keeps s job_id status fields w =
      Keeps-call _ w (λ v. record { strings = refl; faults = refl; deleted = refl })

  get_job-Keeps : (job_id : String) (w : World r) → Keeps w (get_job job_id w).1
  unfolding get_job
  get_job-Keeps job_id w =
      Keeps-call _ w (λ v. record { strings = refl; faults = refl; deleted = refl })

  untrack-Keeps : (job_id : String) (w : World r) → Keeps w (untrack job_id w).1
  unfolding untrack call
  untrack-Keeps job_id w = ground arith

  pub trigger-Keeps :
      (s : Services) (job_id : String) (job : Hash) (w : World r)
      → Keeps w (trigger s job_id job w).1
  unfolding trigger create_task
  trigger-Keeps s job_id job w =
      Keeps-if (not (s.is_int (text_or (job "max_rounds") "1"))) _ _ w (Keeps-refl w) (
        Keeps-if (not s.storage_configured) _ _ w (update-Keeps s job_id _ _ w)
          (record { strings = refl; faults = refl; deleted = refl }))

  pub Keeps-continue :
      {A B : Type 0} (f : A → Exec r B) (w : World r) (x : Result A × World r)
      → Keeps w x.1
      → ((a : A) (v : World r) → Keeps v (f a v).1)
      → Keeps w (continue f x).1
  Keeps-continue f w (ok a, v) k h = Keeps-trans k (h a v)
  Keeps-continue f w (err e, v) k h = k

  approve_found-Keeps :
      (s : Services) (job_id x by : String) (job : Option Hash) (w : World r)
      → Keeps w (approve_found s job_id x by job w).1
  unfolding approve_found
  approve_found-Keeps s job_id x by none w = record {
    strings = refl;
    faults = refl;
    deleted = refl;
  }
  approve_found-Keeps s job_id x by (some job) w =
      Keeps-if (not (status_in (job "status") status_processing_queued status_awaiting_approval)) _
        _ w (Keeps-refl w)
        (Keeps-continue _ w _ (update-Keeps s job_id _ _ w) (λ u v. trigger-Keeps s job_id job v))

  locked_approval-Keeps :
      (s : Services) (job_id x by : String) (w : World r)
      → Keeps w (locked_approval s job_id x by w).1
  unfolding locked_approval
  locked_approval-Keeps s job_id x by w =
      Keeps-continue _ w _ (get_job-Keeps job_id w) (λ j v. approve_found-Keeps s job_id x by j v)

  -- The world after the first step of a background approval.
  abbrev pub untracked : String → World r → World r
  untracked job_id w = record w {
    calls = suc w.calls;
    zsets = if w.faults w.calls then w.zsets else r.zrem approval_timeout_key job_id w.zsets;
  }

  pub untrack_lem : (job_id : String) (w : World r) → untrack job_id w ≡ (ok tt, untracked job_id w)
  unfolding untrack call
  untrack_lem job_id w = elim (Bool-cases (w.faults w.calls)) [
    | inl down ↦ rw down refl
    | inr up ↦ rw up refl
  ]

  -- The world in which a call was made that changed nothing.
  abbrev pub called : World r → World r
  called w = record w { calls = suc w.calls }

  acquire_held :
      (job_id v : String) (w : World r)
      → r.get (lock_key job_id) w.strings ≡ some v
      → acquire job_id w ≡ (fault_or (w.faults w.calls) false, called w)
  unfolding acquire call
  acquire_held job_id v w held = elim (Bool-cases (w.faults w.calls)) [
    | inl down ↦ rw down refl
    | inr up ↦ rw (up, held) refl
  ]

  -- The world in which the lock was taken.
  abbrev pub locked : String → World r → World r
  locked job_id w = record w {
    calls = suc w.calls;
    strings = r.set (lock_key job_id) "processing" 60 w.strings;
  }

  pub acquire_free :
      (job_id : String) (w : World r)
      → r.get (lock_key job_id) w.strings ≡ none
      → w.faults w.calls ≡ false
      → acquire job_id w ≡ (ok true, locked job_id w)
  unfolding acquire call
  acquire_free job_id w free up = rw (up, free) refl

  -- The world in which the lock was given back.
  abbrev pub released : String → World r → World r
  released job_id w = record w { calls = suc w.calls; strings = r.del (lock_key job_id) w.strings }

  pub release_lem :
      (job_id : String) (w : World r)
      → w.faults w.calls ≡ false
      → release job_id w ≡ (ok tt, released job_id w)
  unfolding release call
  release_lem job_id w up = rw up refl

swallow :
    {r : Redis} (a : Result (Unit {0})) (v : World r) → handle (λ e. pure tt) (a, v) ≡ (ok tt, v)
swallow (ok u) v = refl
swallow (err e) v = refl

module _ {r : Redis} (s : Services) (job_id x by : String) (w : World r) where
  -- While another approval of the job holds the lock, a background approval starts nothing and
  -- changes neither a job nor a lock, whichever calls of Redis fail; it ends without an error.
  pub background_while_locked :
      (v : String)
      → r.get (lock_key job_id) w.strings ≡ some v
      → let (result, w') = process_approval_background s job_id x by w in
        (result ≡ ok tt)
        × (w'.hashes ≡ w.hashes)
        × (w'.strings ≡ w.strings)
        × (w'.started ≡ w.started)
  unfolding process_approval_background approve_if_acquired
  background_while_locked v held = rw (untrack_lem job_id w) (
      rw (acquire_held job_id v (untracked job_id w) held)
        (elim (Bool-cases (w.faults (suc w.calls))) [
          | inl down ↦ rw down (refl, refl, refl, refl)
          | inr up ↦ rw up (refl, refl, refl, refl)
        ]))

  -- The world in which the body of a background approval ends.
  abbrev pub approved_body : Result (Unit {0}) × World r
  approved_body = locked_approval s job_id x by (locked job_id (untracked job_id w))

  pub background_free :
      r.get (lock_key job_id) w.strings ≡ none
      → IsUp w
      → process_approval_background s job_id x by w ≡ (ok tt, released job_id approved_body.1)
  unfolding process_approval_background approve_if_acquired
  background_free free up =
      let v : World r = approved_body.1 in
      let k = locked_approval-Keeps s job_id x by (locked job_id (untracked job_id w)) in
      rw (untrack_lem job_id w) (
        rw (acquire_free job_id (untracked job_id w) free (up (suc w.calls))) (
          rw (release_lem job_id v (ap (λ f. f v.calls) k.faults ∙ up v.calls))
            (swallow approved_body.0 (released job_id v))))

  -- While Redis answers and no other approval holds the lock, a background approval gives the lock
  -- back on every path, also where the job has gone, has another status or cannot be processed,
  -- leaves every other lock and token as it was, and ends without an error.
  pub background_releases :
      r.get (lock_key job_id) w.strings ≡ none
      → IsUp w
      → let (result, w') = process_approval_background s job_id x by w in
        (result ≡ ok tt)
        × ((k : Key)
            → r.get k w'.strings ≡ (if key_eq (lock_key job_id) k then none else r.get k w.strings))
  background_releases free up =
      let kept =
        (locked_approval-Keeps s job_id x by (locked job_id (untracked job_id w))).strings in
      rw (background_free free up)
        (refl, λ k. r.get-del _ _ _ ∙ rw (ap (r.get k) kept ∙ r.get-set _ _ _ _ _) (ground arith))
