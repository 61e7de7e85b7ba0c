-- ===== src/Edits/Boundaries.antt =====
-- The step that mends the joints between pages (src/services/pipeline_viewer.py). The excerpts that
-- the agents are shown are left out: what the agents do is an argument.
use equalify_reflow.Prelude.{
  ℕ, zero, suc, ◌+◌, Bool, false, ◌&&◌, List, [], ◌∷◌, ◌++◌, length, select, leb, ltb, Text,
  text_eq, codes, starts_with, if◌then◌else◌,
}
use equalify_reflow.Edits.{DocumentChange}
use equalify_reflow.Edits.Agents.{Call, Ending, AgentResult, run_boundary_agent, run_footnote_agent}

abbrev pub is_lower : ℕ → Bool
is_lower c = leb b'a' c && leb c b'z'

abbrev pub first_is_lower : Text → Bool
first_is_lower [] = false
first_is_lower (c ∷ t) = is_lower c

-- A hyphen and an empty line.
abbrev pub page_break : Text
page_break = codes "-\n\n"

-- The letter after a page break; it belongs to the match.
abbrev pub letter_behind : Text → Text
letter_behind (h ∷ n ∷ m ∷ c ∷ t) = c ∷ []
letter_behind t = []

unfoldable pub joins_here : ℕ → Text → Bool
joins_here c (h ∷ n ∷ m ∷ t) =
    is_lower c && (starts_with page_break (h ∷ n ∷ m ∷ t) && first_is_lower t)
joins_here c t = false

-- re.sub(r"([a-z])-\n\n([a-z])", r"\1\2", t); the next four code points of a match are passed over.
unfoldable pub hyphen_join : (skip : ℕ) → Text → Text
hyphen_join skip [] = []
hyphen_join (suc skip) (c ∷ t) = hyphen_join skip t
hyphen_join zero (c ∷ t) =
    let found = joins_here c t in
    let rest = hyphen_join (if found then 4 else 0) t in
    if found then c ∷ (letter_behind t ++ rest) else c ∷ rest

-- The reason, which gives the number of the joins, is left out.
abbrev pub join_change : DocumentChange
join_change = record {
  page = 0;
  old_text = codes "(hyphenated line breaks)";
  new_text = codes "(joined words)";
  reasoning = [];
  stage = codes "boundary_fix";
}

unfoldable pub joined_changes : (before after : Text) → List DocumentChange
joined_changes before after = if text_eq after before then [] else join_change ∷ []

-- A run of an agent that was not started.
abbrev pub no_run : (document : Text) → AgentResult
no_run document = record {
  draft = record { current = document; changes = [] };
  issues = [];
  input_tokens = 0;
  output_tokens = 0;
}

unfoldable pub has_stage : Text → DocumentChange → Bool
has_stage stage c = text_eq c.stage stage

pub record BoundaryStep : Type 0 where
  pub document : Text
  pub changes : List DocumentChange
  pub issues : List Text
  pub footnotes_relocated : ℕ
  pub boundary_fixes : ℕ
  pub input_tokens : ℕ
  pub output_tokens : ℕ

-- What the model does in a run.
abbrev pub Run : Type 0
Run = List Call × Ending

unfoldable pub boundary_run : (total_pages : ℕ) → Run → Text → AgentResult
boundary_run total_pages (calls, ending) document =
    if ltb 1 total_pages then run_boundary_agent document calls ending else no_run document

unfoldable pub footnote_run : (footnotes : ℕ) → Run → Text → AgentResult
footnote_run zero run document = no_run document
footnote_run (suc n) (calls, ending) document = run_footnote_agent document calls ending

unfoldable pub step_boundaries :
    (source : Text) (total_pages footnotes : ℕ) (boundary footnote : Run) → BoundaryStep
step_boundaries source total_pages footnotes boundary footnote =
    let joined = hyphen_join 0 source in
    let b = boundary_run total_pages boundary joined in
    let f = footnote_run footnotes footnote b.draft.current in
    let changes = (joined_changes source joined ++ b.draft.changes) ++ f.draft.changes in
    record {
      document = f.draft.current;
      changes = changes;
      issues = b.issues ++ f.issues;
      footnotes_relocated = length (select (has_stage (codes "footnote")) changes);
      boundary_fixes = length (select (has_stage (codes "boundary_fix")) changes);
      input_tokens = b.input_tokens + f.input_tokens;
      output_tokens = b.output_tokens + f.output_tokens;
    }
