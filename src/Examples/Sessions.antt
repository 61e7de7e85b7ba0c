-- ===== src/Examples/Sessions.antt =====
-- The store of sessions at concrete inputs.
use equalify_reflow.Prelude.{ℕ, String, false, none, some, List, [], ◌∷◌, ◌≡◌, refl, arith, ◌==◌}
use equalify_reflow.Session.{
  PipelineSession, SessionStore, init, new_session, touch, evict_expired, create_for_stream, get,
  accessed, evict, expired_ids, count, is_expired, discard, running,
}
use equalify_reflow.Session.Calls.{Request, serve, serve_all, look_all}
use equalify_reflow.Session.Entries.{Unique, lookup, put, pop}
use equalify_reflow.Session.Sweep.{evict_expired_lem, running_tasks}
use equalify_reflow.Session.Refinement.{serve_all-refines}

abbrev pub session_at : String → ℕ → PipelineSession String
session_at sid now = new_session (λ filename. filename) sid "a.pdf" none none now now

abbrev pub session_calls : List (Request String)
session_calls =
    Request.create 100 (session_at "s1" 100)
    ∷ Request.access 3000 3000 3000 "s1"
    ∷ Request.access 6000 6000 6000 "s1"
    ∷ Request.size 9000
    ∷ Request.access 9700 9700 9700 "s1"
    ∷ []

serve_all_test :
    serve_all (λ task. false) session_calls init
    ≡ some (session_at "s1" 100)
      ∷ some (touch 3000 (session_at "s1" 100))
      ∷ some (touch 6000 (session_at "s1" 100))
      ∷ none
      ∷ none
      ∷ []
unfolding serve_all serve new_session create_for_stream get accessed lookup evict_expired evict
    expired_ids put count init is_expired touch discard pop
serve_all_test = refl

serve_all-refines_example :
    serve_all (λ task. false) session_calls init ≡ look_all session_calls (λ sid. none)
serve_all-refines_example =
    serve_all-refines (λ task. false) 0 session_calls
      (
        omega arith,
        (
          (omega arith, omega arith),
          ((omega arith, omega arith), (omega arith, ((omega arith, omega arith), tt))),
        ),
      )

-- The first session has expired, with a task that runs; the second has not.
abbrev pub two_sessions : SessionStore String
two_sessions = record {
  sessions =
      ("s1", record (session_at "s1" 100) { pipeline_task = some 7 })
      ∷ ("s2", record (session_at "s2" 5000) { pipeline_task = some 8 })
      ∷ [];
  cancelled = [];
}

evict_expired_lem_example : evict_expired (λ task. task == 8) 5000 two_sessions ≡ record {
  sessions = ("s2", record (session_at "s2" 5000) { pipeline_task = some 8 }) ∷ [];
  cancelled = 7 ∷ [];
}
unfolding lookup is_expired running_tasks new_session running
evict_expired_lem_example =
    evict_expired_lem (λ task. task == 8) 5000 two_sessions (unfold Unique in (refl, (refl, tt)))
