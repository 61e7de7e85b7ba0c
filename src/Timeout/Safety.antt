-- ===== src/Timeout/Safety.antt =====
-- Which jobs the timeout check leaves alone (src/services/timeout_service.py).
use equalify_reflow.Prelude.{
  ℕ, suc, ◌+◌, String, Bool, false, Option, none, some, List, [], ◌∷◌, ◌≡◌, refl, str_eq, ltb,
  if◌then◌else◌, Bool-cases, inl, inr, eq_iff,
}
use equalify_reflow.Errors.{Exception, Result, ok, err}
use equalify_reflow.Metrics.{increment_metric}
use equalify_reflow.Redis.{Redis, Hash}
use equalify_reflow.Redis.Keys.{job_key}
use equalify_reflow.Redis.Exec.{World, pure, call, catch, continue, raise, ◌>>=◌, ◌>>◌}
use equalify_reflow.Redis.Frames.{continue-rel, handle-rel, if-rel}
use equalify_reflow.Job.Service.{emit_job_audit_log}
use equalify_reflow.Job.Same.{
  SameJob, SameJob-trans, SameJob-refl, SameJob-call, increment_metric-SameJob, audit-SameJob,
  update-SameJob, Calm, Spared, Spared-trans, Spared-SameJob,
}
use equalify_reflow.Job.{get_job, status_awaiting_approval, status_failed}
use equalify_reflow.Cleanup.{after_delete, cleanup_job_files}
use equalify_reflow.Queue.{get_expired_timeouts, remove_from_timeout_tracking}
use equalify_reflow.Approval.{Services, update}
use equalify_reflow.Approval.Outcome.{found_status}
use equalify_reflow.Timeout.{
  status_is, cleanup_if_given, expire_found, expire_awaiting, process_expired_job, process_each,
  count_processed, process_expired_approvals,
}

-- Does the job wait for its approval?
abbrev pub awaits : Option Hash → Bool
awaits job = status_is (found_status job) status_awaiting_approval

module _ {r : Redis} (j : String) where
  pub remove-SameJob :
      (i t : String) (w : World r) → SameJob j w (remove_from_timeout_tracking i t w).1
  unfolding remove_from_timeout_tracking
  remove-SameJob i t w =
      handle-rel (SameJob j) (SameJob-trans j) _ w _ (SameJob-call j _ w (λ v. refl))
        (λ e v. SameJob-refl j v)

  after_delete-SameJob :
      (k : String) (x : Result (Unit {0})) (w : World r) → SameJob j w (after_delete k x w).1
  unfolding after_delete
  after_delete-SameJob k (ok u) w = record { same = refl }
  after_delete-SameJob k (err e) w = SameJob-refl j w

  cleanup_job_files-SameJob :
      (s : Services) (k : String) (w : World r)
      → SameJob j w (cleanup_job_files s.delete_object k w).1
  unfolding cleanup_job_files
  cleanup_job_files-SameJob s k w = after_delete-SameJob k (s.delete_object k) w

  cleanup-SameJob :
      (s : Services) (k : Option String) (w : World r) → SameJob j w (cleanup_if_given s k w).1
  unfolding cleanup_if_given
  cleanup-SameJob s none w = SameJob-refl j w
  cleanup-SameJob s (some k) w =
      if-rel (SameJob j) (str_eq k "") _ _ w (SameJob-refl j w) (cleanup_job_files-SameJob s k w)

  ignored-SameJob :
      (i : String) (w : World r)
      → SameJob j w
          (continue (λ (b : Bool). pure false) (remove_from_timeout_tracking i "approval" w)).1
  ignored-SameJob i w =
      continue-rel (SameJob j) (SameJob-trans j) _ w _ (remove-SameJob i "approval" w)
        (λ b v. SameJob-refl j v)

  -- Expiring another job.
  expire_awaiting-other :
      (s : Services) (i : String) (h : Hash) (w : World r)
      → str_eq i j ≡ false
      → SameJob j w (expire_awaiting s i h w).1
  unfolding expire_awaiting
  expire_awaiting-other s i h w other =
      continue-rel (SameJob j) (SameJob-trans j) _ w (emit_job_audit_log i w) (audit-SameJob j i w)
        λ a v.
          continue-rel (SameJob j) (SameJob-trans j) _ v (update s i status_failed _ v)
            (update-SameJob j s i status_failed _ v other)
            λ b u.
              continue-rel (SameJob j) (SameJob-trans j) _ u (cleanup_if_given s (h "s3_key") u)
                (cleanup-SameJob s (h "s3_key") u)
                λ c t.
                  continue-rel (SameJob j) (SameJob-trans j) _ t
                    (remove_from_timeout_tracking i "approval" t) (remove-SameJob i "approval" t)
                    λ d x. SameJob-refl j x

  expire_found-other :
      (s : Services) (i : String) (job : Option Hash) (w : World r)
      → str_eq i j ≡ false
      → SameJob j w (expire_found s i job w).1
  unfolding expire_found
  expire_found-other s i none w other = ignored-SameJob i w
  expire_found-other s i (some h) w other =
      elim (Bool-cases (status_is (h "status") status_awaiting_approval)) [
        | inl awaiting ↦ rw awaiting (expire_awaiting-other s i h w other)
        | inr calm ↦ rw calm (ignored-SameJob i w)
      ]

  -- Expiring a job that does not wait for its approval.
  expire_found-calm :
      (s : Services) (i : String) (job : Option Hash) (w : World r)
      → status_is (found_status job) status_awaiting_approval ≡ false
      → SameJob j w (expire_found s i job w).1
  unfolding expire_found
  expire_found-calm s i none w calm = ignored-SameJob i w
  expire_found-calm s i (some h) w calm = rw calm (ignored-SameJob i w)

  process_expired_job-SameJob :
      (s : Services) (i : String) (w : World r)
      → Calm j awaits w
      → SameJob j w (process_expired_job s i w).1
  unfolding process_expired_job get_job call
  process_expired_job-SameJob s i w calm = elim (Bool-cases (w.faults w.calls)) [
    | inl down ↦ rw down (record { same = refl })
    | inr up ↦
        let v = record w { calls = suc w.calls } in
        let found = r.hgetall (job_key i) w.hashes in
        rw up (
          handle-rel (SameJob j) (SameJob-trans j) _ w (expire_found s i found v)
            (SameJob-trans j w v _ (record { same = refl })
              (elim (Bool-cases (str_eq i j)) [
                | inr other ↦ expire_found-other s i found v other
                | inl same ↦ expire_found-calm s i found v (rw ((eq_iff i j).0 same) calm)
              ]))
            (λ e x. SameJob-refl j x))
  ]

  process_each-Spared :
      (s : Services) (l : List (String × ℕ)) (n : ℕ) (w : World r)
      → Spared j awaits w (process_each s l n w).1
  unfolding process_each
  process_each-Spared s [] n w = Spared-SameJob j awaits w w (SameJob-refl j w)
  process_each-Spared s ((i, x) ∷ l) n w =
      continue-rel (Spared j awaits) (Spared-trans j awaits) _ w
        (catch (process_expired_job s i) (λ e. pure false) w)
        (handle-rel (Spared j awaits) (Spared-trans j awaits) _ w (process_expired_job s i w)
          (record { spares = process_expired_job-SameJob s i w })
          λ e v. Spared-SameJob j awaits v v (SameJob-refl j v))
        λ success v. process_each-Spared s l (if success then n + 1 else n) v

  count_processed-SameJob :
      (s : Services) (n : ℕ) (w : World r) → SameJob j w (count_processed s n w).1
  unfolding count_processed
  count_processed-SameJob s n w = elim (Bool-cases (ltb 0 n)) [
    | inl some_done ↦ rw some_done (
        continue-rel (SameJob j) (SameJob-trans j) _ w
          (increment_metric "approval_timeouts_processed" n w)
          (increment_metric-SameJob j "approval_timeouts_processed" n w) λ u v. SameJob-refl j v)
    | inr none_done ↦ rw none_done (SameJob-refl j w)
  ]

  get_expired_timeouts-SameJob : (w : World r) → SameJob j w (get_expired_timeouts "approval" w).1
  unfolding get_expired_timeouts
  get_expired_timeouts-SameJob w =
      handle-rel (SameJob j) (SameJob-trans j) _ w _ (SameJob-call j _ w (λ v. refl))
        λ e v. SameJob-refl j v

  metric_error-SameJob :
      (e : Exception) (w : World r)
      → SameJob j w ((increment_metric "approval_timeout_errors" 1 >> raise {A = ℕ} e) w).1
  metric_error-SameJob e w =
      continue-rel (SameJob j) (SameJob-trans j) _ w
        (increment_metric "approval_timeout_errors" 1 w)
        (increment_metric-SameJob j "approval_timeout_errors" 1 w) λ u v. SameJob-refl j v

  -- The check of the expired approvals, whatever calls of Redis fail in it, leaves the fields of
  -- each job alone that does not wait for an approval, also when the job is in the list of timeouts.
  pub process_expired_approvals-SameJob :
      (s : Services) (w : World r) → Calm j awaits w → SameJob j w (process_expired_approvals s w).1
  unfolding process_expired_approvals
  process_expired_approvals-SameJob s w =
      (handle-rel (Spared j awaits) (Spared-trans j awaits) _ w
        (continue (λ l. process_each s l 0 >>= count_processed s)
          (get_expired_timeouts "approval" w))
        (continue-rel (Spared j awaits) (Spared-trans j awaits) _ w
          (get_expired_timeouts "approval" w)
          (Spared-SameJob j awaits w _ (get_expired_timeouts-SameJob w))
          λ l v.
            continue-rel (Spared j awaits) (Spared-trans j awaits) _ v (process_each s l 0 v)
              (process_each-Spared s l 0 v)
              λ n u. Spared-SameJob j awaits u _ (count_processed-SameJob s n u))
        λ e v. Spared-SameJob j awaits v _ (metric_error-SameJob e v)).spares
