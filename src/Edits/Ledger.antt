-- ===== src/Edits/Ledger.antt =====
-- The changes that the step between pages records (src/services/pipeline_viewer.py).
use equalify_reflow.Prelude.{
  ℕ, zero, suc, ◌≡◌, ◌∙◌, true, false, some, List, [], ◌∷◌, ◌++◌, ltb, Text, codes, if◌then◌else◌,
}
use mathlib.Core.List.{append_assoc}
use equalify_reflow.Edits.{Draft, DocumentChange}
use equalify_reflow.Edits.Agents.{
  Call, Ending, run_boundary_agent, run_footnote_agent, end_run, serve_calls, serve_call,
}
use equalify_reflow.Edits.Replay.{replay, replay-append, Recorded, str_replace-Recorded, nothing}
use equalify_reflow.Edits.Boundaries.{
  Run, no_run, hyphen_join, joined_changes, boundary_run, footnote_run, step_boundaries,
}

serve_call-Recorded :
    (agent stage : Text) (c : Call) (original : Text) (s : Draft × List Text)
    → Recorded original s.0
    → Recorded original (serve_call agent stage c s).0
unfolding serve_call
serve_call-Recorded agent stage (Call.str_replace_call old new reasoning category) original s h =
    str_replace-Recorded 0 old new reasoning stage original s.0 h
serve_call-Recorded agent stage (Call.no_changes_call confidence notes) original s h = h

serve_calls-Recorded :
    (agent stage : Text) (cs : List Call) (original : Text) (s : Draft × List Text)
    → Recorded original s.0
    → Recorded original (serve_calls agent stage cs s).0
unfolding serve_calls
serve_calls-Recorded agent stage [] original s h = h
serve_calls-Recorded agent stage (c ∷ cs) original s h =
    serve_calls-Recorded agent stage cs original (serve_call agent stage c s)
      (serve_call-Recorded agent stage c original s h)

end_run-Recorded :
    (agent : Text) (e : Ending) (original : Text) (s : Draft × List Text)
    → Recorded original s.0
    → Recorded original (end_run agent e s).draft
unfolding end_run
end_run-Recorded agent (Ending.finished i o) original s h = h
end_run-Recorded agent (Ending.failed error) original s h = h

boundary_run-Recorded :
    (total_pages : ℕ) (run : Run) (document : Text)
    → Recorded document (boundary_run total_pages run document).draft
unfolding boundary_run run_boundary_agent
boundary_run-Recorded total_pages run document =
    elim (ltb 1 total_pages)
      as (λ b.
        Recorded document
          (if b then run_boundary_agent document run.0 run.1 else no_run document).draft) [
            | true ↦ end_run-Recorded (codes "Boundary agent") run.1 document _ (
                serve_calls-Recorded (codes "Boundary agent") (codes "boundary_fix") run.0 document
                  (record { current = document; changes = [] }, []) (nothing document))
            | false ↦ nothing document
          ]

footnote_run-Recorded :
    (footnotes : ℕ) (run : Run) (document : Text)
    → Recorded document (footnote_run footnotes run document).draft
unfolding footnote_run run_footnote_agent
footnote_run-Recorded zero run document = nothing document
footnote_run-Recorded (suc n) run document =
    end_run-Recorded (codes "Footnote agent") run.1 document _ (
      serve_calls-Recorded (codes "Footnote agent") (codes "footnote") run.0 document
        (record { current = document; changes = [] }, []) (nothing document))

-- Whatever the two agents call and whether or not they fail: after the change that stands for the
-- joined words, if words were joined, the step records edits that, made one after another on the
-- source with its words joined, each name a text that is counted once, and give the document.
pub step_boundaries-Replays :
    (source : Text) (total_pages footnotes : ℕ) (boundary footnote : Run)
    → (edits : List DocumentChange) × ((step_boundaries source total_pages footnotes boundary
          footnote).changes
        ≡ joined_changes source (hyphen_join 0 source) ++ edits)
      × (replay edits (hyphen_join 0 source)
          ≡ some (step_boundaries source total_pages footnotes boundary footnote).document)
unfolding step_boundaries
step_boundaries-Replays source total_pages footnotes boundary footnote =
    let joined = hyphen_join 0 source in
    let b = boundary_run total_pages boundary joined in
    let f = footnote_run footnotes footnote b.draft.current in
    (
      b.draft.changes ++ f.draft.changes,
      append_assoc (joined_changes source joined) b.draft.changes f.draft.changes,
      replay-append b.draft.changes f.draft.changes joined
            (boundary_run-Recorded total_pages boundary joined)
          ∙ footnote_run-Recorded footnotes footnote b.draft.current,
    )
