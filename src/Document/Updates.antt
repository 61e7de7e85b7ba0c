-- ===== src/Document/Updates.antt =====
-- The updates of a job during its processing, while Redis answers.
use equalify_reflow.Prelude.{suc, String, false, Option, some, List, ◌∷◌, ◌≡◌, refl, ◌∙◌, ap}
use equalify_reflow.Errors.{ok}
use equalify_reflow.Redis.{Redis, Hash, or_empty}
use equalify_reflow.Redis.Keys.{key_eq_refl, job_key}
use equalify_reflow.Redis.Exec.{World, IsUp, call}
use equalify_reflow.Job.{hset_args, flatten_mapping}
use equalify_reflow.Job.Fields.{Value, scalar, serialize, serialize_fields}
use equalify_reflow.Job.Laws.{hgetall-hset_args, put_all, put_all-absent, has_field}
use equalify_reflow.Approval.{Services}
use equalify_reflow.Approval.Outcome.{status_of, found_status}
use equalify_reflow.Document.{
  put_fields, set_job_ttl, state_ttl, update_job_fields, update_job_state, count_job,
}

put_status :
    (status now : String) (m : List (String × String)) (h : Hash)
    → has_field m "status" ≡ false
    → put_all (("updated_at", now) ∷ ("status", status) ∷ m) h "status" ≡ some status
unfolding put_all
put_status status now m h absent = put_all-absent m _ "status" absent

module _ {r : Redis} (s : Services) (job_id : String) where
  -- An update leaves the counters alone, and Redis answering.
  pub record Updated (status : Option String) (w w' : World r) : Type 0 where
    pub has_status : status_of job_id w' ≡ status
    pub metrics : w'.metrics ≡ w.metrics
    pub up : IsUp w'

  abbrev pub after_put : List (String × Value) → World r → World r
  after_put fields w = record w {
    hashes =
        hset_args r (job_key job_id)
          (flatten_mapping (("updated_at", s.isoformat (w.now w.calls)) ∷ serialize_fields fields))
          w.hashes;
    calls = suc w.calls;
  }

  put_fields_up :
      (fields : List (String × Value)) (w : World r)
      → IsUp w
      → put_fields s job_id fields w ≡ (ok tt, after_put fields w)
  unfolding put_fields call
  put_fields_up fields w up = rw (up w.calls) refl

  abbrev pub after_update : (status : String) → List (String × Value) → World r → World r
  after_update status fields w =
      let v = after_put (("status", scalar status) ∷ fields) w in
      record v {
        hashes = r.expire (job_key job_id) (state_ttl s.ttls status) v.hashes;
        calls = suc v.calls;
      }

  after_update-fields :
      (status : String) (fields : List (String × Value)) (w : World r)
      → r.hgetall (job_key job_id) (after_update status fields w).hashes
        ≡ some (
            put_all
              (("updated_at", s.isoformat (w.now w.calls))
                ∷ ("status", status)
                ∷ serialize_fields fields)
              (or_empty (r.hgetall (job_key job_id) w.hashes)))
  unfolding serialize_fields serialize
  after_update-fields status fields w =
      r.hgetall-expire _ _ _ _
      ∙ hgetall-hset_args r (job_key job_id) (job_key job_id) "updated_at"
          (s.isoformat (w.now w.calls)) (("status", status) ∷ serialize_fields fields) w.hashes
      ∙ rw (key_eq_refl (job_key job_id)) refl

  pub update_job_state_up :
      (status : String) (fields : List (String × Value)) (w : World r)
      → IsUp w
      → has_field (serialize_fields fields) "status" ≡ false
      → (update_job_state s job_id status fields w ≡ (ok tt, after_update status fields w))
        × Updated (some status) w (after_update status fields w)
  unfolding update_job_state set_job_ttl call serialize_fields serialize
  update_job_state_up status fields w up absent = (
    rw (put_fields_up (("status", scalar status) ∷ fields) w up, up (suc w.calls)) refl,
    record {
      has_status =
          ap found_status (after_update-fields status fields w)
          ∙ put_status status _ (serialize_fields fields) _ absent;
      metrics = refl;
      up = up;
    },
  )

  pub update_job_fields_up :
      (fields : List (String × Value)) (w : World r)
      → IsUp w
      → update_job_fields s job_id fields w ≡ (ok tt, after_put fields w)
  unfolding update_job_fields
  update_job_fields_up fields w up = put_fields_up fields w up

pub count_job_up :
    {r : Redis} (command : String) (w : World r)
    → IsUp w
    → count_job command w
      ≡ (ok tt, record w { metrics = (command, 1) ∷ w.metrics; calls = suc w.calls })
unfolding count_job call
count_job_up command w up = rw (up w.calls) refl
