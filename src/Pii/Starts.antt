-- ===== src/Pii/Starts.antt =====
-- When the scan of a document starts its processing.
use equalify_reflow.Prelude.{
  ℕ, zero, suc, ◌+◌, String, Bool, true, false, not, ◌||◌, Option, none, some, List, ◌∷◌, ◌≡◌, refl,
  ◌∙◌, ap, ◌⊎◌, inl, inr, Bool-cases, ◌==◌,
}
use equalify_reflow.Errors.{Exception, Result, ok, err}
use equalify_reflow.Redis.{Redis, Hash}
use equalify_reflow.Redis.Exec.{World, Exec, call, continue, handle}
use equalify_reflow.Retry.{is_retryable_error}
use equalify_reflow.Retry.Actions.{next_attempt, attempts_of, retrying}
use equalify_reflow.Job.{get_job, hset_expire_zadd}
use equalify_reflow.Job.Fields.{Value}
use equalify_reflow.Job.Service.{update_job_status, store_approval_token_mapping}
use equalify_reflow.Queue.{enqueue, add_to_timeout_tracking}
use equalify_reflow.Approval.{Services, update, create_task, text_or}
use equalify_reflow.Pii.{
  PiiQueuePayload, Scanner, scan, queue_for_approval, start_processing, process_found,
  queue_for_processing, route, route_scanned, fail_job, process_pii_job,
}

-- What an action does to the list of started tasks: nothing, or, if it succeeds and may start the
-- job, it adds the job once.
abbrev pub Starts :
    {r : Redis} {A : Type 0}
    → (job_id : String) (may : Bool) → World r
    → Result A × World r
    → Type 0
Starts job_id may w (ok a, w') =
    (w'.started ≡ w.started) ⊎ ((may ≡ true) × (w'.started ≡ job_id ∷ w.started))
Starts job_id may w (err e, w') = w'.started ≡ w.started

module _ {r : Redis} (job_id : String) where
  Starts-none :
      {A : Type 0} (may : Bool) (w : World r) (x : Result A × World r)
      → x.1.started ≡ w.started
      → Starts job_id may w x
  Starts-none may w (ok a, v) h = inl h
  Starts-none may w (err e, v) h = h

  call-Starts :
      {A : Type 0} (may : Bool) (op : World r → A × World r) (w : World r)
      → ((v : World r) → (op v).1.started ≡ v.started)
      → Starts job_id may w (call op w)
  unfolding call
  call-Starts may op w same = elim (Bool-cases (w.faults w.calls)) [
    | inl e ↦ rw (e) refl
    | inr e ↦ rw (e) (inl (same (record w { calls = suc w.calls })))
  ]

  Starts-after :
      {A : Type 0} (may : Bool) (w v : World r) (x : Result A × World r)
      → v.started ≡ w.started
      → Starts job_id may v x
      → Starts job_id may w x
  Starts-after may w v (ok a, u) h (inl k) = inl (k ∙ h)
  Starts-after may w v (ok a, u) h (inr (m, k)) = inr (m, k ∙ ap (λ l. job_id ∷ l) h)
  Starts-after may w v (err e, u) h k = k ∙ h

  -- A step that starts nothing, and then another.
  continue-Starts :
      {A B : Type 0} (may : Bool) (f : A → Exec r B) (w : World r) (x : Result A × World r)
      → Starts job_id false w x
      → ((a : A) (v : World r) → Starts job_id may v (f a v))
      → Starts job_id may w (continue f x)
  continue-Starts may f w (ok a, v) (inl h) k = Starts-after may w v (f a v) h (k a v)
  continue-Starts may f w (ok a, v) (inr (never, h)) k = cc
  continue-Starts may f w (err e, v) h k = h

  -- A handler runs only after an error, when nothing has been started.
  handle-Starts :
      {A : Type 0} (may : Bool) (f : Exception → Exec r A) (w : World r) (x : Result A × World r)
      → Starts job_id may w x
      → ((e : Exception) (v : World r) → Starts job_id may v (f e v))
      → Starts job_id may w (handle f x)
  handle-Starts may f w (ok a, v) h k = h
  handle-Starts may f w (err e, v) h k = Starts-after may w v (f e v) h (k e v)

  next_attempt-Starts :
      {A : Type 0} (may : Bool) (max_attempts attempt : ℕ) (rest : Exec r A) (w : World r)
      (x : Result A × World r)
      → Starts job_id may w x
      → ((v : World r) → Starts job_id may v (rest v))
      → Starts job_id may w (next_attempt max_attempts attempt rest x)
  unfolding next_attempt
  next_attempt-Starts may max_attempts attempt rest w (ok a, v) h k = h
  next_attempt-Starts may max_attempts attempt rest w (err e, v) h k =
      elim (Bool-cases (not (is_retryable_error e) || attempt == max_attempts)) [
        | inl stop ↦ rw (stop) h
        | inr go ↦ rw (go) (Starts-after may w v (rest v) h (k v))
      ]

  attempts_of-Starts :
      {A : Type 0} (may : Bool) (m : Exec r A) (max_attempts left attempt : ℕ) (w : World r)
      → ((v : World r) → Starts job_id may v (m v))
      → Starts job_id may w (attempts_of max_attempts m left attempt w)
  unfolding attempts_of
  attempts_of-Starts may m max_attempts zero attempt w h = refl
  attempts_of-Starts may m max_attempts (suc left) attempt w h =
      next_attempt-Starts may max_attempts attempt _ w (m w) (h w)
        (λ v. attempts_of-Starts may m max_attempts left (attempt + 1) v h)

  update-Starts :
      (may : Bool) (s : Services) (i status : String) (fields : List (String × Value)) (w : World r)
      → Starts job_id may w (update s i status fields w)
  unfolding update update_job_status hset_expire_zadd
  update-Starts may s i status fields w = call-Starts may _ w (λ v. refl)

-- The scan has found that there is nothing to ask about.
abbrev pub is_clean : Result (Option String) → Bool
is_clean (ok none) = true
is_clean _ = false

is_clean_sound : (x : Result (Option String)) → is_clean x ≡ true → x ≡ ok none
is_clean_sound (ok none) h = refl
is_clean_sound (ok (some findings)) h = cc
is_clean_sound (err e) h = cc

started_once :
    {r : Redis} (job_id : String) (may : Bool) (w : World r) (x : Result (Unit {0}) × World r)
    → Starts job_id may w x
    → (x.1.started ≡ w.started) ⊎ ((may ≡ true) × (x.1.started ≡ job_id ∷ w.started))
started_once job_id may w (ok a, v) h = h
started_once job_id may w (err e, v) h = inl h

module _ {r : Redis} (s : Services) (p : Scanner) (job : PiiQueuePayload) where
  queue_for_approval-Starts :
      (findings : String) (w : World r)
      → Starts job.job_id false w (queue_for_approval s p job findings w)
  unfolding queue_for_approval enqueue add_to_timeout_tracking store_approval_token_mapping
  queue_for_approval-Starts findings w =
      continue-Starts job.job_id false _ w _
        (handle-Starts job.job_id false _ w _ (call-Starts job.job_id false _ w (λ v. refl))
          (λ e v. refl))
        (λ a v.
          continue-Starts job.job_id false _ v _ (update-Starts job.job_id false s _ _ _ v) (λ b u.
            continue-Starts job.job_id false _ u _
              (handle-Starts job.job_id false _ u _ (call-Starts job.job_id false _ u (λ t. refl))
                (λ e t. refl))
              (λ c t.
                handle-Starts job.job_id false _ t _ (call-Starts job.job_id false _ t (λ x. refl))
                  (λ e x. refl))))

  start_processing-Starts :
      (job_data : Hash) (w : World r)
      → Starts job.job_id true w (start_processing s p job job_data w)
  unfolding start_processing create_task
  start_processing-Starts job_data w =
      elim (Bool-cases (not (s.is_int (text_or (job_data "max_rounds") "1")))) [
        | inl e ↦ rw (e) refl
        | inr e ↦ elim (Bool-cases (not s.storage_configured)) [
          | inl f ↦ rw (e, f) (update-Starts job.job_id true s _ _ _ w)
          | inr f ↦ rw (e, f) (inr (refl, refl))
        ]
      ]

  process_found-Starts :
      (o : Option Hash) (w : World r) → Starts job.job_id true w (process_found s p job o w)
  unfolding process_found
  process_found-Starts none w = update-Starts job.job_id true s _ _ _ w
  process_found-Starts (some job_data) w = start_processing-Starts job_data w

  queue_for_processing-Starts :
      (w : World r) → Starts job.job_id true w (queue_for_processing s p job w)
  unfolding queue_for_processing get_job
  queue_for_processing-Starts w =
      continue-Starts job.job_id true _ w _ (update-Starts job.job_id false s _ _ _ w) (λ a v.
        continue-Starts job.job_id true _ v _ (call-Starts job.job_id false _ v (λ u. refl))
          process_found-Starts)

  route_scanned-Starts :
      (x : Result (Option String)) (w : World r)
      → Starts job.job_id (is_clean x) w (route_scanned s p job x w)
  unfolding route_scanned route retrying
  route_scanned-Starts (ok none) w =
      attempts_of-Starts job.job_id true _ 3 3 1 w queue_for_processing-Starts
  route_scanned-Starts (ok (some findings)) w =
      attempts_of-Starts job.job_id false _ 3 3 1 w (queue_for_approval-Starts findings)
  route_scanned-Starts (err e) w = refl

  process_pii_job-Starts :
      (w : World r) → Starts job.job_id (is_clean (scan p job)) w (process_pii_job s p job w)
  unfolding process_pii_job fail_job retrying
  process_pii_job-Starts w =
      handle-Starts job.job_id (is_clean (scan p job)) _ w _
        (continue-Starts job.job_id (is_clean (scan p job)) _ w _
          (attempts_of-Starts job.job_id false _ 3 3 1 w (update-Starts job.job_id false s _ _ _))
          (λ a. route_scanned-Starts (scan p job)))
        (λ e v.
          attempts_of-Starts job.job_id (is_clean (scan p job)) _ 3 3 1 v
            (update-Starts job.job_id (is_clean (scan p job)) s _ _ _))

  -- Whatever calls of Redis fail, however often, the scan of a document starts its processing at most
  -- once, and only if its text was extracted and the analysis found no personal data in it.
  pub process_pii_job-started :
      (w : World r)
      → ((process_pii_job s p job w).1.started ≡ w.started)
        ⊎ ((scan p job ≡ ok none)
            × ((process_pii_job s p job w).1.started ≡ job.job_id ∷ w.started))
  process_pii_job-started w = elim (started_once job.job_id _ w _ (process_pii_job-Starts w)) [
    | inl same ↦ inl same
    | inr (clean, once) ↦ inr (is_clean_sound (scan p job) clean, once)
  ]
