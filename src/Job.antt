-- ===== src/Job.antt =====
-- Jobs in Redis (src/services/job_service.py, src/shared/constants/statuses.py). A method is an
-- action over Redis; the clock's reading, as a number and as the text of `isoformat`, is an
-- argument, and so are the texts of numbers and of JSON values. Logging is left out.
pub mod Fields
pub mod Service
pub mod Laws
pub mod Transitions
pub mod Tokens
pub mod Same
use equalify_reflow.Prelude.{
  ℕ, ◌*◌, String, Bool, true, false, Option, none, some, List, [], ◌∷◌, ◌++◌, ltb, str_eq,
  if◌then◌else◌,
}
use equalify_reflow.Redis.{Redis, Hash, is_none, or_empty, put}
use equalify_reflow.Redis.Keys.{
  Key, job_key, jobs_by_updated_key, approval_token_key, stream_token_key,
}
use equalify_reflow.Redis.Exec.{World, Exec, pure, raise, call, catch, continue, ◌>>=◌, ◌>>◌}
use equalify_reflow.Errors.{Exception, other_error}

abbrev pub status_pii_scanning : String
status_pii_scanning = "pii_scanning"

abbrev pub status_awaiting_approval : String
status_awaiting_approval = "awaiting_approval"

abbrev pub status_processing_queued : String
status_processing_queued = "processing_queued"

abbrev pub status_processing : String
status_processing = "processing"

abbrev pub status_completed : String
status_completed = "completed"

abbrev pub status_failed : String
status_failed = "failed"

abbrev pub status_denied : String
status_denied = "denied"

-- The retention times of the settings.
pub record Ttls : Type 0 where
  pub active : ℕ
  pub completed : ℕ
  pub failed : ℕ
  pub denied : ℕ

unfoldable pub get_ttl_for_status : Ttls → String → ℕ
get_ttl_for_status c status =
    if str_eq status status_completed
    then c.completed
    else (if str_eq status status_failed
        then c.failed
        else (if str_eq status status_denied then c.denied else c.active))

-- A dictionary of texts, in the order in which it was filled; a later entry of a field replaces an
-- earlier one.
abbrev pub Mapping : Type 0
Mapping = List (String × String)

unfoldable pub flatten_mapping : Mapping → List String
flatten_mapping [] = []
flatten_mapping ((k, v) ∷ m) = k ∷ v ∷ flatten_mapping m

-- The Lua loop over ARGV, two arguments at a time.
unfoldable pub hset_args : (r : Redis) → Key → List String → r.Hashes → r.Hashes
hset_args r key [] s = s
hset_args r key (f ∷ []) s = s
hset_args r key (f ∷ v ∷ rest) s = hset_args r key rest (r.hset key f v s)

module _ {r : Redis} where
  -- _LUA_HSET_EXPIRE_ZADD
  unfoldable pub hset_expire_zadd :
      (key : Key) (ttl now_ts : ℕ) (job_id : String) (argv : List String) → Exec r (Unit {0})
  hset_expire_zadd key ttl now_ts job_id argv = call λ w. (
    tt,
    record w {
      hashes = r.expire key ttl (hset_args r key argv w.hashes);
      zsets = r.zadd jobs_by_updated_key job_id now_ts w.zsets;
    },
  )

  -- _LUA_HSET_ZADD
  unfoldable pub hset_zadd :
      (key : Key) (now_ts : ℕ) (job_id : String) (argv : List String) → Exec r (Unit {0})
  hset_zadd key now_ts job_id argv = call λ w. (
    tt,
    record w {
      hashes = hset_args r key argv w.hashes;
      zsets = r.zadd jobs_by_updated_key job_id now_ts w.zsets;
    },
  )

  -- _LUA_DELETE_JOB: DEL answers how many keys it deleted.
  unfoldable pub lua_delete_job : (key : Key) (job_id : String) → Exec r Bool
  lua_delete_job key job_id = call λ w. (
    if is_none (r.hgetall key w.hashes) then false else true,
    record w {
      hashes = r.del_hash key w.hashes;
      zsets = r.zrem jobs_by_updated_key job_id w.zsets;
    },
  )

  -- The fetch of `get_job` and `get_job_status`; see `decode_fields` for its second part.
  unfoldable pub get_job : (job_id : String) → Exec r (Option Hash)
  get_job job_id = call λ w. (r.hgetall (job_key job_id) w.hashes, w)
