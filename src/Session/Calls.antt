-- ===== src/Session/Calls.antt =====
-- Calls of the store of sessions, and the same calls of a map that never evicts.
use equalify_reflow.Prelude.{
  ℕ, ◌≤◌, String, Bool, not, Option, none, some, List, [], ◌∷◌, str_eq, if◌then◌else◌,
}
use equalify_reflow.Session.{
  PipelineSession, SessionStore, is_expired, touch, create_for_stream, get, delete, count,
}
use equalify_reflow.Session.Entries.{kept}

-- The map: a session is found while it is live, and stays where it is.
abbrev pub Sessions : Type 0 → Type 0
Sessions R = String → Option (PipelineSession R)

-- A call of the store with the times at which it reads the clock.
pub data Request (R : Type 0) : Type 0 where
  create : (swept : ℕ) (session : PipelineSession R) → Request R
  access : (swept checked touched : ℕ) (session_id : String) → Request R
  drop : (session_id : String) → Request R
  size : (now : ℕ) → Request R

module _ {R : Type 0} where
  abbrev pub live : ℕ → PipelineSession R → Bool
  live now s = not (is_expired now s)

  -- The session that the call returns, if it returns one, and the store after it.
  unfoldable pub serve :
      (done : ℕ → Bool) → Request R → SessionStore R → Option (PipelineSession R) × SessionStore R
  serve done (Request.create swept s) store =
      let (new, store') = create_for_stream done swept s store in (some new, store')
  serve done (Request.access swept checked touched sid) store =
      get done swept checked touched sid store
  serve done (Request.drop sid) store = (none, (delete sid store).1)
  serve done (Request.size now) store = (none, (count done now store).1)

  unfoldable pub serve_all :
      (done : ℕ → Bool) → List (Request R) → SessionStore R → List (Option (PipelineSession R))
  serve_all done [] store = []
  serve_all done (q ∷ qs) store =
      let (answer, store') = serve done q store in answer ∷ serve_all done qs store'

  unfoldable pub update : String → Option (PipelineSession R) → Sessions R → Sessions R
  update sid o m = λ j. if str_eq sid j then o else m j

  unfoldable pub found :
      (touched : ℕ) (sid : String)
      → Option (PipelineSession R)
      → Sessions R
      → Option (PipelineSession R) × Sessions R
  found touched sid none m = (none, m)
  found touched sid (some s) m = (some (touch touched s), update sid (some (touch touched s)) m)

  unfoldable pub look : Request R → Sessions R → Option (PipelineSession R) × Sessions R
  look (Request.create swept s) m = (some s, update s.session_id (some s) m)
  look (Request.access swept checked touched sid) m =
      found touched sid (kept (live checked) (m sid)) m
  look (Request.drop sid) m = (none, update sid none m)
  look (Request.size now) m = (none, m)

  unfoldable pub look_all : List (Request R) → Sessions R → List (Option (PipelineSession R))
  look_all [] m = []
  look_all (q ∷ qs) m = let (answer, m') = look q m in answer ∷ look_all qs m'

  -- The time that has come when a call that starts at a time has read the clock.
  abbrev pub until : ℕ → Request R → ℕ
  until now (Request.create swept s) = swept
  until now (Request.access swept checked touched sid) = checked
  until now (Request.drop sid) = now
  until now (Request.size later) = later

  abbrev pub Later : ℕ → Request R → Type 0
  Later now (Request.create swept s) = now ≤ swept
  Later now (Request.access swept checked touched sid) = (now ≤ swept) × (swept ≤ checked)
  Later now (Request.drop sid) = Unit {0}
  Later now (Request.size later) = now ≤ later

  -- The clock does not go back.
  abbrev pub Ordered : ℕ → List (Request R) → Type 0
  Ordered now [] = Unit {0}
  Ordered now (q ∷ qs) = Later now q × Ordered (until now q) qs
