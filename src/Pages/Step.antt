-- ===== src/Pages/Step.antt =====
-- The step that corrects all the pages (src/services/pipeline_viewer.py). The agents of the pages
-- share nothing, so their order does not matter: each is what its calls make of its page.
use equalify_reflow.Prelude.{
  ℕ, zero, suc, Option, none, some, List, [], ◌∷◌, ◌++◌, ◌==◌, if◌then◌else◌, Text, codes, ◌⊎◌, inl,
  inr,
}
use equalify_reflow.Edits.{DocumentChange}
use equalify_reflow.Edits.Agents.{Ending, finished, failed}
use equalify_reflow.Pages.{
  Subagents, Page, Call, Usage, no_usage, add_usage, PageState, run_page_agent,
}

-- What the agent of a page does: its calls, and how its run ends.
pub record Run : Type 0 where
  pub calls : List Call
  pub ending : Ending

pub record PageCorrectionResult : Type 0 where
  pub page : ℕ
  pub corrected_markdown : Text
  pub changes : List DocumentChange
  pub issues : List Text
  pub used : Usage
  pub describer_used : Usage
  pub table_reconstructor_used : Usage
  pub list_reconstructor_used : Usage

unfoldable pub correction : (page input_tokens output_tokens : ℕ) → PageState → PageCorrectionResult
correction page input_tokens output_tokens s = record {
  page = page;
  corrected_markdown = s.draft.current;
  changes = s.draft.changes;
  issues = s.issues;
  used = record { input_tokens = input_tokens; output_tokens = output_tokens };
  describer_used = s.describer.used;
  table_reconstructor_used = s.table_reconstructor.used;
  list_reconstructor_used = s.list_reconstructor.used;
}

-- An agent that fails leaves nothing but its error.
unfoldable pub end_page : (page : ℕ) → Ending → PageState → Text ⊎ PageCorrectionResult
end_page page (finished input_tokens output_tokens) s =
    inr (correction page input_tokens output_tokens s)
end_page page (failed error) s = inl error

-- The collected results: the markdown of the pages with a result, by their numbers, the latest
-- first.
pub record Collected : Type 0 where
  pub corrected_mds : List (ℕ × Text)
  pub changes : List DocumentChange
  pub issues : List Text
  pub used : Usage

unfoldable pub all_used : PageCorrectionResult → Usage
all_used r =
    add_usage (add_usage r.used r.describer_used)
      (add_usage r.table_reconstructor_used r.list_reconstructor_used)

unfoldable pub collect :
    (page : ℕ) (name page_markdown : Text) → Text ⊎ PageCorrectionResult → Collected → Collected
collect page name page_markdown (inl error) c = record c {
  corrected_mds = (page, page_markdown) ∷ c.corrected_mds;
  issues = c.issues ++ (name ++ (codes ": agent error — " ++ error)) ∷ [];
}
collect page name page_markdown (inr r) c = record {
  corrected_mds = (page, r.corrected_markdown) ∷ c.corrected_mds;
  changes = c.changes ++ r.changes;
  issues = c.issues ++ r.issues;
  used = add_usage c.used (all_used r);
}

unfoldable pub get_md : (page : ℕ) → List (ℕ × Text) → Option Text
get_md page [] = none
get_md page ((n, md) ∷ mds) = if n == page then some md else get_md page mds

module _ (a : Subagents) (pages : ℕ → Page) (runs : ℕ → Run) (page_mds : ℕ → Option Text) where
  unfoldable pub process_page : (page : ℕ) → (page_markdown : Text) → Text ⊎ PageCorrectionResult
  process_page n page_markdown =
      end_page n (runs n).ending (run_page_agent a (pages n) page_markdown (runs n).calls)

  -- A page with no markdown is passed over.
  unfoldable pub correct_page : (page : ℕ) → Option Text → Collected → Collected
  correct_page n none c = c
  correct_page n (some md) c = collect n (pages n).name md (process_page n md) c

  -- The pages from 1 to the total.
  unfoldable pub collect_pages : (total_pages : ℕ) → Collected
  collect_pages zero = record { corrected_mds = []; changes = []; issues = []; used = no_usage }
  collect_pages (suc n) = correct_page (suc n) (page_mds (suc n)) (collect_pages n)

abbrev pub or_empty : Option Text → Text
or_empty none = []
or_empty (some md) = md

-- "\n\n".join(mds.get(str(p), "") for p in range(1, total_pages + 1))
unfoldable pub join_pages : (total_pages : ℕ) → (ℕ → Option Text) → Text
join_pages zero mds = []
join_pages (suc zero) mds = or_empty (mds 1)
join_pages (suc (suc n)) mds =
    join_pages (suc n) mds ++ (codes "\n\n" ++ or_empty (mds (suc (suc n))))

pub record PageContentStep : Type 0 where
  pub page_markdowns : ℕ → Option Text
  pub version : Text
  pub changes : List DocumentChange
  pub issues : List Text
  pub used : Usage

unfoldable pub step_page_content :
    Subagents
    → (pages : ℕ → Page) (runs : ℕ → Run) (page_mds : ℕ → Option Text) (total_pages : ℕ)
    → PageContentStep
step_page_content a pages runs page_mds total_pages =
    let c = collect_pages a pages runs page_mds total_pages in
    record {
      page_markdowns = λ n. get_md n c.corrected_mds;
      version = join_pages total_pages (λ n. get_md n c.corrected_mds);
      changes = c.changes;
      issues = c.issues;
      used = c.used;
    }
