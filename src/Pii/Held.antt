-- ===== src/Pii/Held.antt =====
-- A document in which personal data was found waits for its approval.
use equalify_reflow.Prelude.{
  ℕ, suc, ◌+◌, ◌*◌, String, some, List, [], ◌∷◌, ◌≡◌, refl, ◌∙◌, ap, subst, eq_refl,
}
use equalify_reflow.Errors.{ok}
use equalify_reflow.Redis.{Redis, Hash}
use equalify_reflow.Redis.Keys.{Key, key_eq_refl, job_key, timeout_key, approval_token_key}
use equalify_reflow.Redis.Exec.{World, Exec, IsUp, call}
use equalify_reflow.Retry.Actions.{next_attempt, attempts_of, retrying}
use equalify_reflow.Job.{status_awaiting_approval, status_pii_scanning, hset_expire_zadd}
use equalify_reflow.Job.Fields.{
  Value, scalar, structure, update_mapping, serialize_fields, serialize,
}
use equalify_reflow.Job.Laws.{update_job_status-Saved, Saved-fields, put_all}
use equalify_reflow.Job.Service.{update_job_status, store_approval_token_mapping}
use equalify_reflow.Queue.{enqueue, add_to_timeout_tracking}
use equalify_reflow.Approval.{Services, update}
use equalify_reflow.Approval.Outcome.{update-IsUp}
use equalify_reflow.Pii.{
  PiiQueuePayload, Scanner, approval_queue, scan, approval_timeout_hours, queue_for_approval, route,
  route_scanned, process_pii_job,
}

module _ {r : Redis} where
  retrying_ok :
      {A : Type 0} (m : Exec r A) (w v : World r) (a : A)
      → m w ≡ (ok a, v)
      → retrying 3 m w ≡ (ok a, v)
  unfolding retrying attempts_of next_attempt
  retrying_ok m w v a e = rw (e) refl

  -- The job's fields have the token and the time `expires`, the token leads to the job, the timeout is
  -- tracked for `expires_at`, and `payload` is the newest item of the approval queue.
  pub record Waits (job_id token : String) (expires_at : ℕ) (expires payload : String)
      (earlier : r.Lists) (w : World r) : Type 0 where
    pub fields :
        (h : Hash) × (r.hgetall (job_key job_id) w.hashes ≡ some h)
        × (h "status" ≡ some status_awaiting_approval)
        × (h "approval_token" ≡ some token)
        × (h "approval_expires_at" ≡ some expires)
    pub mapping : r.get (approval_token_key token) w.strings ≡ some job_id
    pub tracked : r.zscore (timeout_key "approval") job_id w.zsets ≡ some expires_at
    pub queued : r.items approval_queue w.lists ≡ payload ∷ r.items approval_queue earlier

  enqueue_up :
      (queue : Key) (payload : String) (w : World r)
      → IsUp w
      → enqueue queue payload w
        ≡ (ok tt, record w { lists = r.lpush queue payload w.lists; calls = suc w.calls })
  unfolding enqueue call
  enqueue_up queue payload w up = rw (up w.calls) refl

  tracking_up :
      (job_id : String) (expires_at : ℕ) (w : World r)
      → IsUp w
      → add_to_timeout_tracking job_id expires_at "approval" w ≡ (
        ok tt,
        record w {
          zsets = r.zadd (timeout_key "approval") job_id expires_at w.zsets;
          calls = suc w.calls;
        },
      )
  unfolding add_to_timeout_tracking call
  tracking_up job_id expires_at w up = rw (up w.calls) refl

  mapping_up :
      (token job_id : String) (hours : ℕ) (w : World r)
      → IsUp w
      → store_approval_token_mapping token job_id hours w ≡ (
        ok tt,
        record w {
          strings = r.set (approval_token_key token) job_id (hours * 3600) w.strings;
          calls = suc w.calls;
        },
      )
  unfolding store_approval_token_mapping call
  mapping_up token job_id hours w up = rw (up w.calls) refl

-- The fields that the status update adds.
abbrev held_update : (findings token expires : String) → List (String × Value)
held_update findings token expires =
    ("pii_findings", structure findings)
    ∷ ("approval_token", scalar token)
    ∷ ("approval_expires_at", scalar expires)
    ∷ []

module _ {r : Redis} (s : Services) (p : Scanner) (job : PiiQueuePayload) where
  held_fields :
      (findings token expires : String) (w : World r)
      → IsUp w
      → let w' =
          (update s job.job_id status_awaiting_approval (held_update findings token expires) w).1 in
        (h : Hash) × (r.hgetall (job_key job.job_id) w'.hashes ≡ some h)
        × (h "status" ≡ some status_awaiting_approval)
        × (h "approval_token" ≡ some token)
        × (h "approval_expires_at" ≡ some expires)
  unfolding update put_all update_mapping serialize_fields serialize
  held_fields findings token expires w up = (
    _,
    Saved-fields job.job_id _ _ _ w _
        (update_job_status-Saved s.ttls (s.isoformat (w.now w.calls)) (w.now w.calls) job.job_id w
          status_awaiting_approval _ (up w.calls)).1,
    refl,
    refl,
    refl,
  )

  -- What a status update leaves of the clock, the number of calls and the queues.
  update_rest :
      (status : String) (fields : List (String × Value)) (w : World r)
      → IsUp w
      → let w' = (update s job.job_id status fields w).1 in
        (w'.calls ≡ suc w.calls) × (w'.now ≡ w.now) × (w'.lists ≡ w.lists)
  unfolding update update_job_status hset_expire_zadd call
  update_rest status fields w up = rw (up w.calls) (refl, refl, refl)

  -- The state in which `queue_for_approval` updates the job.
  abbrev enqueued : (findings : String) → World r → World r
  enqueued findings w = record w {
    lists =
        r.lpush approval_queue
          (p.approval_payload job findings (p.tokens w.calls)
            (w.now w.calls + approval_timeout_hours * p.hour))
          w.lists;
    calls = suc w.calls;
  }

  abbrev held : (findings : String) → World r → World r
  held findings w =
      let token = p.tokens w.calls in
      let expires_at = w.now w.calls + approval_timeout_hours * p.hour in
      let u =
        (update s job.job_id status_awaiting_approval
          (held_update findings token (s.isoformat expires_at)) (enqueued findings w)).1 in
      record u {
        zsets = r.zadd (timeout_key "approval") job.job_id expires_at u.zsets;
        strings =
            r.set (approval_token_key token) job.job_id (approval_timeout_hours * 3600) u.strings;
        calls = suc (suc u.calls);
      }

  queue_for_approval-Waits :
      (findings : String) (w : World r)
      → IsUp w
      → (queue_for_approval s p job findings w ≡ (ok tt, held findings w))
        × Waits job.job_id
            (p.tokens w.calls)
            (w.now w.calls + approval_timeout_hours * p.hour)
            (s.isoformat (w.now w.calls + approval_timeout_hours * p.hour))
            (p.approval_payload job findings
              (p.tokens w.calls)
              (w.now w.calls + approval_timeout_hours * p.hour))
            w.lists
            (held findings w)
        × ((held findings w).started ≡ w.started)
  unfolding queue_for_approval
  queue_for_approval-Waits findings w up =
      let token = p.tokens w.calls in
      let expires_at = w.now w.calls + approval_timeout_hours * p.hour in
      let u =
        (update s job.job_id status_awaiting_approval
          (held_update findings token (s.isoformat expires_at)) (enqueued findings w)).1 in
      let (done, status, started, up1) =
        update-IsUp s job.job_id status_awaiting_approval
          (held_update findings token (s.isoformat expires_at)) (enqueued findings w) up
          (unfold serialize_fields in refl) in
      (
        rw
            (
              enqueue_up approval_queue (p.approval_payload job findings token expires_at) w up,
              done,
              tracking_up job.job_id expires_at u up1,
              mapping_up token job.job_id approval_timeout_hours
                  (record u {
                    zsets = r.zadd (timeout_key "approval") job.job_id expires_at u.zsets;
                    calls = suc u.calls;
                  })
                  up1,
            )
            refl,
        record {
          fields = held_fields findings token (s.isoformat expires_at) (enqueued findings w) up;
          mapping = r.get-set _ _ _ _ _ ∙ rw (key_eq_refl (approval_token_key token)) refl;
          tracked =
              r.zscore-zadd _ _ _ _ _ _
              ∙ rw (key_eq_refl (timeout_key "approval"), eq_refl job.job_id) refl;
          queued =
              ap (r.items approval_queue)
                (update_rest status_awaiting_approval
                  (held_update findings token (s.isoformat expires_at)) (enqueued findings w) up).2
              ∙ r.items-lpush _ _ _ _
              ∙ rw (key_eq_refl approval_queue) refl;
        },
        started,
      )

  -- The job waits with the token and the end that belong to a reading of the clock.
  abbrev HeldAt : (findings : String) (n : ℕ) (now : ℕ → ℕ) → r.Lists → World r → Type 0
  HeldAt findings n now earlier v =
      let token = p.tokens n in
      let expires_at = now n + approval_timeout_hours * p.hour in
      Waits job.job_id token expires_at (s.isoformat expires_at)
        (p.approval_payload job findings token expires_at) earlier v

  at_reading :
      {findings : String} {n m : ℕ} {now now1 : ℕ → ℕ} {l k : r.Lists} {v : World r}
      → n ≡ m
      → now ≡ now1
      → l ≡ k
      → HeldAt findings n now l v
      → HeldAt findings m now1 k v
  at_reading {findings} {n} {m} {now} {now1} {l} {k} {v} same_n same_now same_l h =
      subst (λ i. HeldAt findings i now1 k v) same_n
        (subst (λ f. HeldAt findings n f k v) same_now
          (subst (λ i. HeldAt findings n now i v) same_l h))

  -- While Redis answers, a document in which personal data is found is not processed: its job
  -- waits for an approval until four hours after the clock's reading that follows the first status
  -- update. The job's fields and the tracked timeout have this end of the waiting. The token
  -- generated at that reading is in the job's fields and leads to the job, and the newest item of
  -- the approval queue is the payload made with the token and the end.
  pub process_pii_job-Waits :
      (findings : String) (w : World r)
      → scan p job ≡ ok (some findings)
      → IsUp w
      → let (result, w') = process_pii_job s p job w in
        let token = p.tokens (suc w.calls) in
        let expires_at = w.now (suc w.calls) + 4 * p.hour in
        (result ≡ ok tt)
        × (w'.started ≡ w.started)
        × Waits job.job_id token expires_at
            (s.isoformat expires_at)
            (p.approval_payload job findings token expires_at)
            w.lists
            w'
  unfolding process_pii_job route_scanned route
  process_pii_job-Waits findings w found up =
      let (done, status, started, up1) =
        update-IsUp s job.job_id status_pii_scanning [] w up (unfold serialize_fields in refl) in
      let w1 = (update s job.job_id status_pii_scanning [] w).1 in
      let (calls, now, lists) = update_rest status_pii_scanning [] w up in
      let (queued, waits, started1) = queue_for_approval-Waits findings w1 up1 in
      rw (retrying_ok _ w _ tt done, found, retrying_ok _ w1 _ tt queued)
        (refl, started1 ∙ started, at_reading calls now lists waits)
