-- ===== src/Edits/Agents.antt =====
-- The agents that edit the assembled document (src/services/pipeline_viewer.py). What the language
-- model does is a list of tool calls, and then its usage or an error, which are arguments.
use Prim.Native.Nat.{ℕ}
use equalify_reflow.Prelude.{List, [], ◌∷◌, ◌++◌, Text, codes}
use equalify_reflow.Edits.{Draft, str_replace}

-- The two tools of these agents.
pub data Call : Type 0 where
  str_replace_call : (old_text new_text reasoning category : Text) → Call
  no_changes_call : (confidence notes : Text) → Call

-- How the run of an agent ends: its usage, or what it raised.
pub data Ending : Type 0 where
  finished : (input_tokens output_tokens : ℕ) → Ending
  failed : (error : Text) → Ending

pub record AgentResult : Type 0 where
  pub draft : Draft
  pub issues : List Text
  pub input_tokens : ℕ
  pub output_tokens : ℕ

-- "{agent} ({confidence}): {notes}", if there are notes.
unfoldable pub add_note : (agent confidence notes : Text) → List Text → List Text
add_note agent confidence [] issues = issues
add_note agent confidence (c ∷ notes) issues =
    issues ++ (agent ++ (codes " (" ++ (confidence ++ (codes "): " ++ c ∷ notes)))) ∷ []

-- One tool call of the agent whose edits have this stage; the stage that the call gives is not used.
unfoldable pub serve_call : (agent stage : Text) → Call → Draft × List Text → Draft × List Text
serve_call agent stage (str_replace_call old_text new_text reasoning category) (d, issues) =
    ((str_replace 0 old_text new_text reasoning stage d).1, issues)
serve_call agent stage (no_changes_call confidence notes) (d, issues) =
    (d, add_note agent confidence notes issues)

unfoldable pub serve_calls :
    (agent stage : Text) → List Call → Draft × List Text → Draft × List Text
serve_calls agent stage [] s = s
serve_calls agent stage (c ∷ cs) s = serve_calls agent stage cs (serve_call agent stage c s)

unfoldable pub end_run : (agent : Text) → Ending → Draft × List Text → AgentResult
end_run agent (finished input_tokens output_tokens) (d, issues) = record {
  draft = d;
  issues = issues;
  input_tokens = input_tokens;
  output_tokens = output_tokens;
}
end_run agent (failed error) (d, issues) = record {
  draft = d;
  issues = issues ++ (agent ++ (codes " error: " ++ error)) ∷ [];
  input_tokens = 0;
  output_tokens = 0;
}

-- An agent starts with the document and no changes.
unfoldable pub run_boundary_agent : (document : Text) → List Call → Ending → AgentResult
run_boundary_agent document calls ending = end_run (codes "Boundary agent") ending (
    serve_calls (codes "Boundary agent") (codes "boundary_fix") calls
      (record { current = document; changes = [] }, []))

unfoldable pub run_footnote_agent : (document : Text) → List Call → Ending → AgentResult
run_footnote_agent document calls ending = end_run (codes "Footnote agent") ending (
    serve_calls (codes "Footnote agent") (codes "footnote") calls
      (record { current = document; changes = [] }, []))
