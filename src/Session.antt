-- ===== src/Session.antt =====
-- The sessions of the streaming viewer (src/services/session_store.py). A result is a value of any
-- type; a task is a number, and `done` tells which tasks have finished. An argument for each reading
-- of the clock, where the readings of one sweep are taken to be the same.
pub mod Entries
pub mod Sweep
pub mod Calls
pub mod Refinement
use equalify_reflow.Prelude.{
  ℕ, ◌-◌, String, Bool, true, false, Option, none, some, List, [], ◌∷◌, ◌++◌, map, ltb, length,
  if◌then◌else◌, select,
}
use equalify_reflow.Redis.{is_none}
use equalify_reflow.Session.Entries.{Dict, lookup, put, pop}

abbrev pub session_ttl_seconds : ℕ
session_ttl_seconds = 3600

pub record PipelineSession (R : Type 0) : Type 0 where
  pub session_id : String
  pub result : R
  pub created_at : ℕ
  pub last_accessed : ℕ
  pub event_buffer : List String
  pub status : String
  pub event_counter : ℕ
  pub new_event : Bool
  pub pipeline_task : Option ℕ
  pub pii_decision_event : Bool
  pub pii_decision : Option String
  pub identity_sub : Option String
  pub provider_id : Option String

-- Besides the sessions, the tasks that were asked to cancel, the first one first.
pub record SessionStore (R : Type 0) : Type 0 where
  pub sessions : Dict (PipelineSession R)
  pub cancelled : List ℕ

-- The task to cancel, if there is one that runs.
unfoldable pub running : (done : ℕ → Bool) → Option ℕ → List ℕ
running done none = []
running done (some task) = if done task then [] else task ∷ []

module _ {R : Type 0} where
  unfoldable pub touch : ℕ → PipelineSession R → PipelineSession R
  touch now s = record s { last_accessed = now }

  -- A reading before the last access gives a negative age, which is not too old either.
  unfoldable pub is_expired : ℕ → PipelineSession R → Bool
  is_expired now s = ltb session_ttl_seconds (now - s.last_accessed)

  -- The store of a new process.
  unfoldable pub init : SessionStore R
  init = record { sessions = []; cancelled = [] }

  -- A missing key, which the source never pops here, is left out.
  unfoldable pub discard :
      (done : ℕ → Bool) → Option (PipelineSession R) → SessionStore R → SessionStore R
  discard done none store = store
  discard done (some s) store = record store {
    cancelled = store.cancelled ++ running done s.pipeline_task;
  }

  -- The loop over the expired identifiers.
  unfoldable pub evict : (done : ℕ → Bool) → List String → SessionStore R → SessionStore R
  evict done [] store = store
  evict done (sid ∷ sids) store = evict done sids (
      discard done (lookup sid store.sessions) (record store { sessions = pop sid store.sessions }))

  unfoldable pub expired_ids : ℕ → Dict (PipelineSession R) → List String
  expired_ids now l = map (λ e. e.0) (select (λ e. is_expired now e.1) l)

  unfoldable pub evict_expired : (done : ℕ → Bool) → ℕ → SessionStore R → SessionStore R
  evict_expired done now store = evict done (expired_ids now store.sessions) store

  unfoldable pub new_session :
      (empty_result : String → R) (session_id filename : String)
      (identity_sub provider_id : Option String) (created accessed : ℕ)
      → PipelineSession R
  new_session empty_result session_id filename identity_sub provider_id created accessed = record {
    session_id = session_id;
    result = empty_result filename;
    created_at = created;
    last_accessed = accessed;
    event_buffer = [];
    status = "processing";
    event_counter = 0;
    new_event = false;
    pipeline_task = none;
    pii_decision_event = false;
    pii_decision = none;
    identity_sub = identity_sub;
    provider_id = provider_id;
  }

  -- The identifier is the new random one.
  unfoldable pub create_for_stream :
      (done : ℕ → Bool) (swept : ℕ) (session : PipelineSession R)
      → SessionStore R
      → PipelineSession R × SessionStore R
  create_for_stream done swept session store =
      let store' = evict_expired done swept store in
      (session, record store' { sessions = put session.session_id session store'.sessions })

  -- The session that is found, at the time of the check and at that of the access.
  unfoldable pub accessed :
      (checked touched : ℕ) (session_id : String)
      → Option (PipelineSession R)
      → SessionStore R
      → Option (PipelineSession R) × SessionStore R
  accessed checked touched sid none store = (none, store)
  accessed checked touched sid (some s) store =
      if is_expired checked s then (none, record store { sessions = pop sid store.sessions }) else (
        some (touch touched s),
        record store { sessions = put sid (touch touched s) store.sessions },
      )

  -- The access changes the session that the store holds.
  unfoldable pub get :
      (done : ℕ → Bool) (swept checked touched : ℕ) (session_id : String)
      → SessionStore R
      → Option (PipelineSession R) × SessionStore R
  get done swept checked touched sid store =
      let store' = evict_expired done swept store in
      accessed checked touched sid (lookup sid store'.sessions) store'

  unfoldable pub delete : (session_id : String) → SessionStore R → Bool × SessionStore R
  delete sid store = (
    if is_none (lookup sid store.sessions) then false else true,
    record store { sessions = pop sid store.sessions },
  )

  unfoldable pub count : (done : ℕ → Bool) (now : ℕ) → SessionStore R → ℕ × SessionStore R
  count done now store =
      let store' = evict_expired done now store in (length store'.sessions, store')
