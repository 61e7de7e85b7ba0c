-- ===== src/Examples/Edits.antt =====
-- Edits of a text and of a document at concrete inputs.
use equalify_reflow.Prelude.{
  ◌≡◌, refl, some, none, List, [], ◌∷◌, ◌++◌, Text, codes, count, count_from, replace_first,
}
use equalify_reflow.Edits.{
  DocumentChange, apply_diff, validate_search_replace, applied, refuse_count, find_unique_context,
  unique_context, expand, candidate, slice, find, widths, str_replace, replace_counted,
}
use equalify_reflow.Edits.Occurrences.{Once, Around, apply_diff-Once}
use equalify_reflow.Edits.Contexts.{find_unique_context-applies}
use equalify_reflow.Edits.Agents.{
  Call, Ending, run_boundary_agent, serve_calls, serve_call, end_run,
}
use equalify_reflow.Edits.Boundaries.{
  hyphen_join, joins_here, joined_changes, step_boundaries, boundary_run, footnote_run,
}
use equalify_reflow.Edits.Replay.{replay}
use equalify_reflow.Edits.Ledger.{step_boundaries-Replays}

hello : apply_diff (codes "# Hello World") (codes "Hello") (codes "Hi") ≡ some (codes "# Hi World")
unfolding apply_diff validate_search_replace refuse_count applied count count_from replace_first
hello = refl

-- A text that stands twice is refused.
hello_twice : apply_diff (codes "# Hello Hello") (codes "Hello") (codes "Hi") ≡ none
unfolding apply_diff validate_search_replace refuse_count applied count count_from replace_first
hello_twice = refl

-- Places that overlap are counted once.
overlapping : apply_diff (codes "aaa") (codes "aa") (codes "b") ≡ some (codes "ba")
unfolding apply_diff validate_search_replace refuse_count applied count count_from replace_first
overlapping = refl

apply_diff-Once_example :
    Once (codes "Hello") (codes "Hi") (codes "# Hello World") (codes "# Hi World")
apply_diff-Once_example = apply_diff-Once (codes "# Hello World") (codes "Hello") (codes "Hi") hello

context : find_unique_context (codes "cat sat cat ran") (codes "cat") 5 20 ≡ some (codes "cat sat ")
unfolding find_unique_context unique_context expand candidate slice find widths count count_from
context = refl

find_unique_context-applies_example :
    ((a b : Text) × Around (codes "cat") (codes "cat sat ") a b)
    × (apply_diff (codes "cat sat cat ran") (codes "cat sat ") []
        ≡ some (replace_first (codes "cat sat ") [] (codes "cat sat cat ran")))
find_unique_context-applies_example =
    find_unique_context-applies (codes "cat sat cat ran") b'c' (codes "at") 5 20 [] context
      (λ e. absurd (cc))

joined : hyphen_join 0 (codes "docu-\n\nment A-\n\nb") ≡ codes "document A-\n\nb"
unfolding hyphen_join joins_here
joined = refl

abbrev fix_title : Call
fix_title = Call.str_replace_call (codes "Titel") (codes "Title") [] []

abbrev fix_all : Call
fix_all = Call.str_replace_call (codes "e") (codes "i") [] []

-- The second edit is refused, and the agent fails at the end.
boundary_document :
    (step_boundaries
      (codes "Titel docu-\n\nment")
      2
      0
      (fix_title ∷ fix_all ∷ [], Ending.failed (codes "x"))
      ([], Ending.finished 0 0)).document
    ≡ codes "Title document"
unfolding step_boundaries boundary_run footnote_run run_boundary_agent serve_calls serve_call
    end_run str_replace replace_counted hyphen_join joins_here count count_from replace_first
boundary_document = refl

step_boundaries-Replays_example :
    (edits : List DocumentChange) × ((step_boundaries
        (codes "Titel docu-\n\nment")
        2
        0
        (fix_title ∷ fix_all ∷ [], Ending.failed (codes "x"))
        ([], Ending.finished 0 0)).changes
      ≡ joined_changes (codes "Titel docu-\n\nment") (hyphen_join 0 (codes "Titel docu-\n\nment"))
        ++ edits)
    × (replay edits (hyphen_join 0 (codes "Titel docu-\n\nment"))
        ≡ some
            (step_boundaries
              (codes "Titel docu-\n\nment")
              2
              0
              (fix_title ∷ fix_all ∷ [], Ending.failed (codes "x"))
              ([], Ending.finished 0 0)).document)
step_boundaries-Replays_example =
    step_boundaries-Replays (codes "Titel docu-\n\nment") 2 0
      (fix_title ∷ fix_all ∷ [], Ending.failed (codes "x")) ([], Ending.finished 0 0)
