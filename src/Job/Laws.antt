-- ===== src/Job/Laws.antt =====
-- What the job operations leave in Redis (src/services/job_service.py).
use equalify_reflow.Prelude.{
  ℕ, suc, String, Bool, true, false, some, List, [], ◌∷◌, ◌≡◌, refl, arith, str_eq, eq_refl,
  if◌then◌else◌, ◌∙◌, ◌||◌,
}
use equalify_reflow.Redis.{Redis, Hash, put, or_empty}
use equalify_reflow.Redis.Keys.{Key, key_eq, key_eq_refl, job_key, jobs_by_updated_key}
use equalify_reflow.Redis.Exec.{World, call}
use equalify_reflow.Errors.{ok, err, redis_error}
use equalify_reflow.Job.{
  Mapping, Ttls, get_ttl_for_status, flatten_mapping, hset_args, hset_expire_zadd,
}
use equalify_reflow.Job.Fields.{Value, NewJob, create_mapping, update_mapping, serialize_fields}
use equalify_reflow.Job.Service.{create_job, update_job_status}

-- A dictionary after the fields of a mapping were put into it, one after another.
unfoldable pub put_all : Mapping → Hash → Hash
put_all [] h = h
put_all ((f, v) ∷ m) h = put_all m (put f v h)

module _ (r : Redis) where
  -- The loop of the script over the flattened mapping: the hash at the key gets every field, and
  -- every other hash stays as it is.
  pub hgetall-hset_args :
      (k j : Key) (f v : String) (m : Mapping) (s : r.Hashes)
      → r.hgetall j (hset_args r k (flatten_mapping ((f, v) ∷ m)) s) ≡ (
          if key_eq k j
          then some (put_all ((f, v) ∷ m) (or_empty (r.hgetall k s)))
          else r.hgetall j s)
  unfolding hset_args flatten_mapping put_all
  hgetall-hset_args k j f v [] s = r.hgetall-hset k j f v s
  hgetall-hset_args k j f v ((g, u) ∷ m) s =
      hgetall-hset_args k j g u m (r.hset k f v s)
      ∙ rw (r.hgetall-hset k j f v s, r.hgetall-hset k k f v s, key_eq_refl k) (ground arith)

-- Does the mapping have the field?
abbrev pub has_field : Mapping → String → Bool
has_field [] g = false
has_field ((f, v) ∷ m) g = str_eq f g || has_field m g

pub put_all-absent :
    (m : Mapping) (h : Hash) (g : String) → has_field m g ≡ false → put_all m h g ≡ h g
unfolding put_all
put_all-absent [] h g e = refl
put_all-absent ((f, v) ∷ m) h g e = ground (arith, put_all-absent m (put f v h) g)

-- What an update of one job leaves: the mapping put into the job's fields, its retention time and
-- its entry in the index; and the other jobs as they were.
pub record Saved {r : Redis} (job_id : String) (m : Mapping) (ttl now_ts : ℕ) (w w' : World r)
    : Type 0 where
  pub jobs :
      (j : String)
      → r.hgetall (job_key j) w'.hashes ≡ (
          if str_eq job_id j
          then some (put_all m (or_empty (r.hgetall (job_key job_id) w.hashes)))
          else r.hgetall (job_key j) w.hashes)
  pub retention : r.ttl (job_key job_id) w'.hashes ≡ some ttl
  pub scores :
      (j : String)
      → r.zscore jobs_by_updated_key j w'.zsets
        ≡ (if str_eq job_id j then some now_ts else r.zscore jobs_by_updated_key j w.zsets)
  pub strings : w'.strings ≡ w.strings
  pub started : w'.started ≡ w.started
  pub deleted : w'.deleted ≡ w.deleted
  pub faults : w'.faults ≡ w.faults

module _ {r : Redis} (job_id : String) (m : Mapping) (ttl now_ts : ℕ) (w w' : World r)
    (saved : Saved job_id m ttl now_ts w w') where
  pub Saved-fields :
      r.hgetall (job_key job_id) w'.hashes
      ≡ some (put_all m (or_empty (r.hgetall (job_key job_id) w.hashes)))
  Saved-fields = saved.jobs job_id ∙ rw (eq_refl job_id) refl

  pub Saved-others :
      (j : String)
      → str_eq job_id j ≡ false
      → r.hgetall (job_key j) w'.hashes ≡ r.hgetall (job_key j) w.hashes
  Saved-others j other = saved.jobs j ∙ rw other refl

module _ {r : Redis} (job_id f v : String) (m : Mapping) (ttl now_ts : ℕ) (w : World r) where
  pub hset_expire_zadd-Saved :
      w.faults w.calls ≡ false
      → ((hset_expire_zadd (job_key job_id) ttl now_ts job_id (flatten_mapping ((f, v) ∷ m)) w).0
          ≡ ok tt)
        × Saved job_id
            ((f, v) ∷ m)
            ttl
            now_ts
            w
            (hset_expire_zadd (job_key job_id) ttl now_ts job_id (flatten_mapping ((f, v) ∷ m)) w).1
  unfolding hset_expire_zadd call job_key
  hset_expire_zadd-Saved up = rw up (
    refl,
    record {
      jobs = λ j.
          r.hgetall-expire _ _ _ _
          ∙ hgetall-hset_args r (job_key job_id) (job_key j) f v m w.hashes;
      retention = r.ttl-expire _ _ _ (
          rw
            (
              hgetall-hset_args r (job_key job_id) (job_key job_id) f v m w.hashes,
              key_eq_refl (job_key job_id),
            )
            refl);
      scores = λ j. r.zscore-zadd _ _ _ _ _ _;
      strings = refl;
      started = refl;
      deleted = refl;
      faults = refl;
    },
  )

module _ {r : Redis} (ttls : Ttls) (now_iso : String) (now_ts : ℕ) (job_id : String)
    (w : World r) where
  -- Creating a job, when Redis answers, writes all the fields of the new job, its retention time by
  -- its status and its index entry, and leaves every other job and the tokens alone.
  create_job-Saved :
      (j : NewJob)
      → w.faults w.calls ≡ false
      → ((create_job ttls now_iso now_ts job_id j w).0 ≡ ok tt)
        × Saved job_id
            (create_mapping job_id now_iso j)
            (get_ttl_for_status ttls j.status)
            now_ts
            w
            (create_job ttls now_iso now_ts job_id j w).1
  unfolding create_job create_mapping
  create_job-Saved j up = hset_expire_zadd-Saved job_id _ _ _ _ now_ts w up

  -- Updating a job's status, when Redis answers, changes only the fields of the update, sets the
  -- retention time of the new status and the index entry, and leaves every other job and the tokens
  -- alone.
  pub update_job_status-Saved :
      (status : String) (fields : List (String × Value))
      → w.faults w.calls ≡ false
      → ((update_job_status ttls now_iso now_ts job_id status fields w).0 ≡ ok tt)
        × Saved job_id
            (update_mapping status now_iso fields)
            (get_ttl_for_status ttls status)
            now_ts
            w
            (update_job_status ttls now_iso now_ts job_id status fields w).1
  unfolding update_job_status update_mapping
  update_job_status-Saved status fields up =
      hset_expire_zadd-Saved job_id "status" status
        (("updated_at", now_iso) ∷ serialize_fields fields) (get_ttl_for_status ttls status) now_ts
        w up

  -- The job's status is the new one, unless a further field overrides it.
  pub update_mapping-status :
      (status : String) (fields : List (String × Value)) (h : Hash)
      → has_field (serialize_fields fields) "status" ≡ false
      → put_all (update_mapping status now_iso fields) h "status" ≡ some status
  unfolding update_mapping put_all
  update_mapping-status status fields h absent =
      put_all-absent (serialize_fields fields) _ "status" absent

  -- An update that Redis does not answer changes nothing.
  pub update_job_status-fault :
      (status : String) (fields : List (String × Value))
      → w.faults w.calls ≡ true
      → update_job_status ttls now_iso now_ts job_id status fields w
        ≡ (err redis_error, record w { calls = suc w.calls })
  unfolding update_job_status hset_expire_zadd call
  update_job_status-fault status fields down = rw down refl
