-- ===== src/Timeout/Expiry.antt =====
-- What the timeout check does to a job that waits for its approval (src/services/timeout_service.py).
use equalify_reflow.Prelude.{
  String, Bool, true, false, Option, none, some, [], ◌∷◌, ◌≡◌, refl, ◌∙◌, ap, eq_refl, str_eq,
  Bool-cases, inl, inr, arith,
}
use equalify_reflow.Errors.{Exception, Result, ok, err}
use equalify_reflow.Redis.{Redis, Hash}
use equalify_reflow.Redis.Keys.{job_key, timeout_key, key_eq_refl}
use equalify_reflow.Redis.Exec.{World, Exec, IsUp, call, pure, continue, handle, ◌>>◌}
use equalify_reflow.Job.{get_job, status_failed}
use equalify_reflow.Job.Fields.{scalar, serialize_fields}
use equalify_reflow.Job.Service.{emit_job_audit_log}
use equalify_reflow.Cleanup.{after_delete, cleanup_job_files}
use equalify_reflow.Queue.{remove_from_timeout_tracking}
use equalify_reflow.Approval.{Services}
use equalify_reflow.Approval.Lock.{called}
use equalify_reflow.Approval.Outcome.{status_of, found_status, update-IsUp}
use equalify_reflow.Timeout.{cleanup_if_given, expire_found, expire_awaiting, process_expired_job}
use equalify_reflow.Timeout.Safety.{awaits}

-- An action that always answers, and leaves the data alone.
record Quiet {r : Redis} {A : Type 0} (w : World r) (x : Result A × World r) : Type 0 where
  value : A
  answers : x.0 ≡ ok value
  hashes : x.1.hashes ≡ w.hashes
  zsets : x.1.zsets ≡ w.zsets
  faults : x.1.faults ≡ w.faults

module _ {r : Redis} (s : Services) where
  after_delete-Quiet :
      (k : String) (x : Result (Unit {0})) (w : World r) → Quiet w (after_delete k x w)
  unfolding after_delete
  after_delete-Quiet k (ok u) w = record {
    value = _;
    answers = refl;
    hashes = refl;
    zsets = refl;
    faults = refl;
  }
  after_delete-Quiet k (err e) w = record {
    value = _;
    answers = refl;
    hashes = refl;
    zsets = refl;
    faults = refl;
  }

  skip-Quiet : (w : World r) → Quiet w (ok false, w)
  skip-Quiet w = record {
    value = false;
    answers = refl;
    hashes = refl;
    zsets = refl;
    faults = refl;
  }

  cleanup-Quiet : (k : Option String) (w : World r) → Quiet w (cleanup_if_given s k w)
  unfolding cleanup_if_given cleanup_job_files
  cleanup-Quiet none w = skip-Quiet w
  cleanup-Quiet (some k) w = elim (Bool-cases (str_eq k "")) [
    | inl empty ↦ rw empty (skip-Quiet w)
    | inr key ↦ rw key (after_delete-Quiet k (s.delete_object k) w)
  ]

  audit_up :
      (job_id : String) (w : World r) → IsUp w → emit_job_audit_log job_id w ≡ (ok tt, called w)
  unfolding emit_job_audit_log call
  audit_up job_id w up = rw (up w.calls) refl

  -- What expiring a job leaves of it.
  abbrev pub Expired : (job_id : String) → Result Bool × World r → Type 0
  Expired job_id x =
      (x.0 ≡ ok true)
      × (status_of job_id x.1 ≡ some status_failed)
      × (r.zscore (timeout_key "approval") job_id x.1.zsets ≡ none)

  untracked_last :
      (job_id : String) (w : World r)
      → IsUp w
      → status_of job_id w ≡ some status_failed
      → Expired job_id ((remove_from_timeout_tracking job_id "approval" >> pure true) w)
  unfolding remove_from_timeout_tracking call
  untracked_last job_id w up failed = rw (up w.calls) (
    refl,
    failed,
    r.zscore-zrem _ _ _ _ _ ∙ rw (key_eq_refl (timeout_key "approval"), eq_refl job_id) refl,
  )

  after_cleanup :
      (job_id : String) (w : World r) (x : Result Bool × World r)
      → IsUp w
      → status_of job_id w ≡ some status_failed
      → Quiet w x
      → Expired job_id
          (continue (λ b. remove_from_timeout_tracking job_id "approval" >> pure true) x)
  after_cleanup job_id w (ok b, v) up failed q =
      untracked_last job_id v (λ n. ap (λ f. f n) q.faults ∙ up n)
        (ap (λ hs. found_status (r.hgetall (job_key job_id) hs)) q.hashes ∙ failed)
  after_cleanup job_id w (err e, v) up failed q = let answered = q.answers in absurd (ground arith)

  expire_awaiting_up :
      (job_id : String) (h : Hash) (w : World r)
      → IsUp w
      → Expired job_id (expire_awaiting s job_id h w)
  unfolding expire_awaiting serialize_fields
  expire_awaiting_up job_id h w up =
      let (done, failed, same, still) =
        update-IsUp s job_id status_failed
          (("error_message", scalar "Approval deadline exceeded - no response received") ∷ [])
          (called w) up refl in
      rw (audit_up job_id w up, done)
        (after_cleanup job_id _ _ still failed (cleanup-Quiet (h "s3_key") _))

  expire_found_up :
      (job_id : String) (job : Option Hash) (w : World r)
      → IsUp w
      → awaits job ≡ true
      → Expired job_id (expire_found s job_id job w)
  unfolding expire_found
  expire_found_up job_id none w up waiting = absurd (ground arith)
  expire_found_up job_id (some h) w up waiting = rw waiting (expire_awaiting_up job_id h w up)

  handled :
      (job_id : String) (h : Exception → Exec r Bool) (x : Result Bool × World r)
      → Expired job_id x
      → Expired job_id (handle h x)
  handled job_id h (ok b, v) expired = expired
  handled job_id h (err e, v) (answered, failed, gone) = absurd (ground arith)

  -- While Redis answers, expiring a job that waits for its approval succeeds, makes it `failed` and
  -- takes it off the list of timeouts, whether or not its file can be deleted.
  pub process_expired_job-Expired :
      (job_id : String) (w : World r)
      → IsUp w
      → awaits (r.hgetall (job_key job_id) w.hashes) ≡ true
      → Expired job_id (process_expired_job s job_id w)
  unfolding process_expired_job get_job call
  process_expired_job-Expired job_id w up waiting =
      let job = r.hgetall (job_key job_id) w.hashes in
      rw (up w.calls) (
        handled job_id _ (expire_found s job_id job (called w))
          (expire_found_up job_id job (called w) up waiting))
