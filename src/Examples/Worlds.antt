-- ===== src/Examples/Worlds.antt =====
-- Worlds that the examples start from.
use equalify_reflow.Prelude.{String, true, false, none, some, [], ◌∷◌, ◌==◌}
use equalify_reflow.Errors.{ok}
use equalify_reflow.Redis.{Hash, put, empty_hash}
use equalify_reflow.Redis.Keys.{Key, job_key, approval_token_key, lock_key, timeout_key}
use equalify_reflow.Redis.Exec.{World}
use equalify_reflow.Redis.Concrete.{concrete, set_at, Stored}
use equalify_reflow.Job.{Ttls}
use equalify_reflow.Approval.{Services, aware}

abbrev pub ttls : Ttls
ttls = record { active = 86400; completed = 2592000; failed = 604800; denied = 604800 }

-- Every stored time reads as tick 100.
abbrev pub services : Services
services = record {
  ttls = ttls;
  storage_configured = true;
  delete_object = λ key. ok tt;
  isoformat = λ now. "2026-01-01T00:00:00+00:00";
  fromisoformat = λ text. some (aware 100);
  dumps = λ decision. "{}";
  is_int = λ text. true;
}

-- Redis without any data.
abbrev pub no_hashes : Stored
no_hashes = record { hash = λ k. none; ttl_ = λ k. none }

abbrev pub no_data : World concrete
no_data = record {
  hashes = no_hashes;
  strings = λ k. none;
  zsets = λ k. [];
  lists = λ k. [];
  faults = λ n. false;
  now = λ n. 50;
  calls = 0;
  deleted = [];
  started = [];
  metrics = [];
}

-- The fields of a denied job that still has its token.
abbrev pub denied_job : Hash
denied_job = put "job_id" "j1" (
    put "status" "denied"
      (put "approval_token" "t1" (put "approval_expires_at" "2026-01-02T00:00:00Z" empty_hash)))

abbrev pub waiting_job : Hash
waiting_job = put "status" "awaiting_approval" denied_job

abbrev pub with_job : String → Hash → World concrete → World concrete
with_job job_id h w = record w {
  hashes = record w.hashes { hash = set_at (job_key job_id) (some h) w.hashes.hash };
}

-- A text that is kept for an hour more.
abbrev pub with_string : Key → String → World concrete → World concrete
with_string k v w = record w { strings = set_at k (some (v, 3600)) w.strings }

abbrev pub denied_world : World concrete
denied_world = with_job "j1" denied_job (with_string (approval_token_key "t1") "j1" no_data)

abbrev pub waiting_world : World concrete
waiting_world = with_job "j1" waiting_job (with_string (approval_token_key "t1") "j1" no_data)

abbrev pub locked_world : World concrete
locked_world = with_string (lock_key "j1") "processing" waiting_world

-- Both jobs are in the list of timeouts; the fourth call of Redis fails.
abbrev pub expired_world : World concrete
expired_world = record (with_job "j2" waiting_job denied_world) {
  zsets = set_at (timeout_key "approval") (("j1", 10) ∷ ("j2", 20) ∷ []) (λ k. []);
  faults = λ n. n == 3;
}
