-- ===== src/Examples/Pages.antt =====
-- The correction of pages at concrete inputs.
use equalify_reflow.Prelude.{
  ℕ, ◌≡◌, refl, some, none, Option, List, [], ◌∷◌, arith, Text, codes, true, false, select, ◌==◌,
  if◌then◌else◌, count, count_from, replace_first,
}
use equalify_reflow.Edits.{str_replace, replace_counted}
use equalify_reflow.Edits.Agents.{Ending}
use equalify_reflow.Edits.Replay.{replay}
use equalify_reflow.Pages.{
  Subagents, Page, FigureData, Call, run_page_agent, is_create_mode, serve_calls, serve_call,
  enable_describe,
}
use equalify_reflow.Pages.Step.{
  Run, step_page_content, collect_pages, correct_page, collect, process_page, end_page, correction,
  get_md, join_pages,
}
use equalify_reflow.Pages.Whole.{of_page, step_page_content-replay}
use equalify_reflow.Pages.Budget.{InBudget, Cheap, run_page_agent-InBudget}

abbrev agents : Subagents
agents = record {
  describe = λ n f md. some (record { input_tokens = 7; output_tokens = 2 });
  reconstruct_table = λ n t md. none;
  reconstruct_list = λ n text around. none;
}

abbrev figure : FigureData
figure = record { ref_id = codes "figure-1"; caption = []; page_number = 1; image_base64 = [] }

abbrev page : ℕ → Page
page n = record {
  page_num = n;
  name = codes "Page";
  attributes =
      some (record { is_poster = false; has_images = true; has_tables = false; has_lists = false });
  figures = figure ∷ [];
  tables = [];
}

abbrev calls : List Call
calls =
    Call.describe_image_call (codes "figure-1")
    ∷ Call.str_replace_call (codes "Titel") (codes "Title") [] []
    ∷ Call.rewrite_page_call (codes "x") []
    ∷ []

-- The agent of the second page fails.
abbrev runs : ℕ → Run
runs n = record {
  calls = calls;
  ending = if n == 2 then Ending.failed (codes "x") else Ending.finished 100 10;
}

abbrev markdowns : ℕ → Option Text
markdowns n = if n == 3 then none else some (codes "# Titel")

pages_corrected :
    (step_page_content agents page runs markdowns 3).version ≡ codes "# Title\n\n# Titel\n\n"
unfolding step_page_content collect_pages correct_page collect process_page end_page correction
    get_md join_pages run_page_agent serve_calls serve_call str_replace replace_counted count
    count_from replace_first enable_describe is_create_mode
pages_corrected = refl

step_page_content-replay_example :
    (corrected : Text) × ((step_page_content agents page runs markdowns 3).page_markdowns 1
      ≡ some corrected)
    × (replay
          (select (of_page 1) (step_page_content agents page runs markdowns 3).changes)
          (codes "# Titel")
        ≡ some corrected)
unfolding is_create_mode
step_page_content-replay_example =
    step_page_content-replay agents page runs markdowns (λ n. refl) 1 3 (codes "# Titel")
      (omega arith) (omega arith) refl refl

agents-Cheap : Cheap 7 2 agents
agents-Cheap = record {
  describing = λ n f md. (omega arith, omega arith);
  tables = λ n t md. tt;
  lists = λ n text around. tt;
}

run_page_agent-InBudget_example :
    InBudget 7 2 (run_page_agent agents (page 1) (codes "# Titel") calls)
run_page_agent-InBudget_example =
    run_page_agent-InBudget 7 2 agents agents-Cheap (page 1) (codes "# Titel") calls
