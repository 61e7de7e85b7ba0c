-- ===== src/Job/Service.antt =====
-- The methods of `JobService` (src/services/job_service.py). `now_iso` and `now_ts` are the two
-- readings of the clock that a method makes.
use equalify_reflow.Prelude.{
  ℕ, ◌*◌, String, Bool, false, Option, none, some, List, [], ◌∷◌, not, str_eq, if◌then◌else◌,
}
use equalify_reflow.Redis.{Redis, Hash, is_none}
use equalify_reflow.Redis.Keys.{job_key, jobs_by_updated_key, approval_token_key, stream_token_key}
use equalify_reflow.Redis.Exec.{Exec, pure, raise, call, catch, ◌>>=◌, ◌>>◌}
use equalify_reflow.Errors.{other_error}
use equalify_reflow.Job.{
  Ttls, get_ttl_for_status, flatten_mapping, hset_expire_zadd, hset_zadd, lua_delete_job, get_job,
}
use equalify_reflow.Job.Fields.{NewJob, create_mapping, Value, update_mapping}

abbrev pub members : List (String × ℕ) → List String
members [] = []
members ((m, x) ∷ l) = m ∷ members l

abbrev pub nonempty : Option String → Option String
nonempty none = none
nonempty (some job_id) = if str_eq job_id "" then none else some job_id

module _ {r : Redis} (ttls : Ttls) (now_iso : String) (now_ts : ℕ) where
  unfoldable pub create_job : (job_id : String) → NewJob → Exec r (Unit {0})
  create_job job_id j =
      hset_expire_zadd (job_key job_id) (get_ttl_for_status ttls j.status) now_ts job_id
        (flatten_mapping (create_mapping job_id now_iso j))

  unfoldable pub update_job_status :
      (job_id status : String) → List (String × Value) → Exec r (Unit {0})
  update_job_status job_id status additional_fields =
      hset_expire_zadd (job_key job_id) (get_ttl_for_status ttls status) now_ts job_id
        (flatten_mapping (update_mapping status now_iso additional_fields))

module _ {r : Redis} (now_iso : String) (now_ts : ℕ) where
  -- `findings` is the JSON text of the findings.
  unfoldable pub add_pii_findings : (job_id findings : String) → Exec r (Unit {0})
  add_pii_findings job_id findings =
      hset_zadd (job_key job_id) now_ts job_id
        (flatten_mapping (("pii_findings", findings) ∷ ("updated_at", now_iso) ∷ []))

  unfoldable pub add_processing_result : (job_id result_url confidence : String) → Exec r (Unit {0})
  add_processing_result job_id result_url confidence = hset_zadd (job_key job_id) now_ts job_id (
      flatten_mapping (
        ("result_url", result_url)
        ∷ ("confidence_score", confidence)
        ∷ ("completed_at", now_iso)
        ∷ ("updated_at", now_iso)
        ∷ []))

module _ {r : Redis} where
  unfoldable pub job_exists : (job_id : String) → Exec r Bool
  job_exists job_id =
      catch (call λ w. (not (is_none (r.hgetall (job_key job_id) w.hashes)), w)) λ e. pure false

  unfoldable pub delete_job : (job_id : String) → Exec r (Unit {0})
  delete_job job_id =
      catch (do lua_delete_job (job_key job_id) job_id; pure tt) λ e. raise other_error

  unfoldable pub cleanup_old_job : (job_id : String) → Exec r Bool
  cleanup_old_job job_id = catch (lua_delete_job (job_key job_id) job_id) λ e. pure false

  unfoldable pub set_expiration : (job_id : String) (ttl_seconds : ℕ) → Exec r (Unit {0})
  set_expiration job_id ttl_seconds =
      catch (call λ w. (tt, record w { hashes = r.expire (job_key job_id) ttl_seconds w.hashes }))
        λ e. raise other_error

  -- The scores are times since the epoch, so "-inf" is 0.
  unfoldable pub list_jobs_updated_before : (cutoff : ℕ) → Exec r (List String)
  list_jobs_updated_before cutoff =
      catch (call λ w. (members (r.zrangebyscore jobs_by_updated_key 0 cutoff w.zsets), w))
        λ e. pure []

  -- SETs that raise are reported under another message.
  unfoldable pub store_approval_token_mapping :
      (approval_token job_id : String) (ttl_hours : ℕ) → Exec r (Unit {0})
  store_approval_token_mapping approval_token job_id ttl_hours =
      catch
        (call λ w. (
          tt,
          record w {
            strings = r.set (approval_token_key approval_token) job_id (ttl_hours * 3600) w.strings;
          },
        ))
        λ e. raise other_error

  -- A missing mapping and an empty job identifier are both false.
  unfoldable pub job_of_mapping : Option String → Exec r (Option Hash)
  job_of_mapping none = pure none
  job_of_mapping (some job_id) = if str_eq job_id "" then pure none else get_job job_id

  unfoldable pub get_job_by_approval_token : (token : String) → Exec r (Option Hash)
  get_job_by_approval_token token =
      catch
        (do
          job_id ← call λ w. (r.get (approval_token_key token) w.strings, w)
          job_of_mapping job_id)
        λ e. pure none

  -- `token` is the new secure token.
  unfoldable pub create_stream_token : (token job_id : String) → Exec r String
  create_stream_token token job_id = do
    call λ w. (tt {0}, record w { strings = r.set (stream_token_key token) job_id 300 w.strings })
    pure token

  -- GETDEL reads and deletes in one command.
  unfoldable pub validate_and_consume_stream_token : (token : String) → Exec r (Option String)
  validate_and_consume_stream_token token = do
    job_id ← call λ w. (
      r.get (stream_token_key token) w.strings,
      record w { strings = r.del (stream_token_key token) w.strings },
    )
    pure (nonempty job_id)

  -- `emit_job_audit_log` reads the job and logs it; it never raises.
  unfoldable pub emit_job_audit_log : (job_id : String) → Exec r (Unit {0})
  emit_job_audit_log job_id =
      catch (do call λ w. (r.hgetall (job_key job_id) w.hashes, w); pure tt) λ e. pure tt
