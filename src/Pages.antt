-- ===== src/Pages.antt =====
-- The agent that corrects a page (src/services/pipeline_viewer.py). What the language models do is
-- an argument: the tool calls of the agent, and what each subagent answers. The prompts and the
-- wording of the answers to the agent are left out. The tool calls of one answer of the model, which
-- may overlap while subagents run, are taken one after another.
pub mod Step
pub mod Ledger
pub mod Whole
pub mod Budget
use equalify_reflow.Prelude.{
  ℕ, zero, suc, ◌+◌, ◌-◌, Bool, true, false, ◌&&◌, ◌||◌, not, Option, none, some, List, [], ◌∷◌,
  ◌++◌, length, take, ltb, leb, ◌==◌, if◌then◌else◌, min, Text, text_eq, codes, count, is_blank,
  and_then,
}
use equalify_reflow.Edits.{Draft, DocumentChange, Refusal, str_replace, find, slice}
use equalify_reflow.Edits.Agents.{add_note}

pub record FigureData : Type 0 where
  pub ref_id : Text
  pub caption : Text
  pub page_number : ℕ
  pub image_base64 : Text

pub record TableData : Type 0 where
  pub ref_id : Text
  pub page_number : ℕ
  pub markdown_content : Text

-- The attributes of a page that the agent reads.
pub record PageAttributes : Type 0 where
  pub is_poster : Bool
  pub has_images : Bool
  pub has_tables : Bool
  pub has_lists : Bool

-- Tokens that a run of a model used; none if it failed.
pub record Usage : Type 0 where
  pub input_tokens : ℕ
  pub output_tokens : ℕ

abbrev pub no_usage : Usage
no_usage = record { input_tokens = 0; output_tokens = 0 }

unfoldable pub add_usage : Usage → Usage → Usage
add_usage u v = record {
  input_tokens = u.input_tokens + v.input_tokens;
  output_tokens = u.output_tokens + v.output_tokens;
}

-- The subagents, as far as the page's state depends on them: an error is passed on as an answer. What
-- a run answers depends on how many calls of the tool there were before.
pub record Subagents : Type 0 where
  pub describe : (call : ℕ) → FigureData → (current_markdown : Text) → Option Usage
  pub reconstruct_table : (call : ℕ) → TableData → (current_markdown : Text) → Option Usage
  pub reconstruct_list : (call : ℕ) (list_text surrounding : Text) → Option Usage

pub data Call : Type 0 where
  str_replace_call : (old_text new_text reasoning category : Text) → Call
  no_changes_call : (confidence notes : Text) → Call
  describe_image_call reconstruct_table_call : (ref_id : Text) → Call
  reconstruct_list_call : (list_text reasoning : Text) → Call
  rewrite_page_call : (new_markdown reasoning : Text) → Call

-- A tool with a limit: the calls made and the tokens used.
pub record Meter : Type 0 where
  pub call_count : ℕ
  pub used : Usage

pub record PageState : Type 0 where
  pub draft : Draft
  pub issues : List Text
  pub describer : Meter
  pub table_reconstructor : Meter
  pub list_reconstructor : Meter

pub record Page : Type 0 where
  pub page_num : ℕ
  -- f"Page {page_num}"
  pub name : Text
  pub attributes : Option PageAttributes
  pub figures : List FigureData
  pub tables : List TableData

abbrev pub max_describe_calls : ℕ
max_describe_calls = 10

abbrev pub max_table_reconstruct_calls : ℕ
max_table_reconstruct_calls = 10

abbrev pub max_list_reconstruct_calls : ℕ
max_list_reconstruct_calls = 5

abbrev pub is_nonempty : {A : Type 0} → List A → Bool
is_nonempty [] = false
is_nonempty (x ∷ xs) = true

unfoldable pub is_create_mode : Page → Bool
is_create_mode p = elim p.attributes [ none ↦ false | some a ↦ a.is_poster ]

unfoldable pub enable_describe : Page → Bool
enable_describe p = elim p.attributes [
  | none ↦ false
  | some a ↦ a.has_images && is_nonempty p.figures
]

unfoldable pub enable_table_reconstruct : Page → Bool
enable_table_reconstruct p = elim p.attributes [
  | none ↦ false
  | some a ↦ a.has_tables && is_nonempty p.tables
]

unfoldable pub enable_list_reconstruct : Page → Bool
enable_list_reconstruct p = elim p.attributes [ none ↦ false | some a ↦ a.has_lists ]

-- The dictionaries by reference: the last of two items with the same one counts.
abbrev pub or_else : {A : Type 0} → Option A → Option A → Option A
or_else none b = b
or_else (some a) b = some a

unfoldable pub figure_lookup : Text → List FigureData → Option FigureData
figure_lookup ref_id [] = none
figure_lookup ref_id (f ∷ fs) =
    or_else (figure_lookup ref_id fs) (if text_eq f.ref_id ref_id then some f else none)

unfoldable pub table_lookup : Text → List TableData → Option TableData
table_lookup ref_id [] = none
table_lookup ref_id (t ∷ ts) =
    or_else (table_lookup ref_id ts) (if text_eq t.ref_id ref_id then some t else none)

-- A call counts, and the tokens of its run are added if there was one that did not fail.
unfoldable pub spend : Option Usage → Meter → Meter
spend none m = record m { call_count = suc m.call_count }
spend (some u) m = record { call_count = suc m.call_count; used = add_usage m.used u }

unfoldable pub metered : (limit : ℕ) → Option Usage → Meter → Meter
metered limit run m = if leb limit m.call_count then m else spend run m

-- The text around the list, 200 code points on each side.
unfoldable pub surrounding : (list_text markdown : Text) → Text
surrounding list_text markdown =
    slice (find list_text markdown - 200)
      (min (length markdown) (find list_text markdown + length list_text + 200)) markdown

unfoldable pub list_run : Subagents → (call : ℕ) (list_text markdown : Text) → Option Usage
list_run a call list_text markdown =
    if count list_text markdown == 0
    then none
    else a.reconstruct_list call list_text (surrounding list_text markdown)

-- text[:200], with dots if it is longer
unfoldable pub clipped : Text → Text
clipped text = if ltb 200 (length text) then take 200 text ++ codes "..." else text

unfoldable pub rewrite_page : (page_num : ℕ) → (new_markdown reasoning : Text) → Draft → Draft
rewrite_page page_num new_markdown reasoning d = if is_blank new_markdown then d else record {
  current = new_markdown;
  changes =
      d.changes
      ++ record {
        page = page_num;
        old_text = clipped d.current;
        new_text = clipped new_markdown;
        reasoning = reasoning;
        stage = codes "create_mode_rewrite";
      }
        ∷ [];
}

-- The state of an agent that starts on a page.
abbrev pub new_page : (page_markdown : Text) → PageState
new_page page_markdown = record {
  draft = record { current = page_markdown; changes = [] };
  issues = [];
  describer = record { call_count = 0; used = no_usage };
  table_reconstructor = record { call_count = 0; used = no_usage };
  list_reconstructor = record { call_count = 0; used = no_usage };
}

-- One tool call. A tool that is not registered for the page does nothing.
module _ (a : Subagents) (p : Page) where
  unfoldable pub serve_call : Call → PageState → PageState
  serve_call (str_replace_call old_text new_text reasoning category) s = record s {
    draft = (str_replace p.page_num old_text new_text reasoning category s.draft).1;
  }
  serve_call (no_changes_call confidence notes) s = record s {
    issues = add_note p.name confidence notes s.issues;
  }
  serve_call (describe_image_call ref_id) s =
      if enable_describe p
      then record s {
        describer =
            metered max_describe_calls
              (and_then (figure_lookup ref_id p.figures)
                (λ f. a.describe s.describer.call_count f s.draft.current))
              s.describer;
      }
      else s
  serve_call (reconstruct_table_call ref_id) s =
      if enable_table_reconstruct p
      then record s {
        table_reconstructor =
            metered max_table_reconstruct_calls
              (and_then (table_lookup ref_id p.tables)
                (λ t. a.reconstruct_table s.table_reconstructor.call_count t s.draft.current))
              s.table_reconstructor;
      }
      else s
  serve_call (reconstruct_list_call list_text reasoning) s =
      if enable_list_reconstruct p
      then record s {
        list_reconstructor =
            metered max_list_reconstruct_calls
              (list_run a s.list_reconstructor.call_count list_text s.draft.current)
              s.list_reconstructor;
      }
      else s
  serve_call (rewrite_page_call new_markdown reasoning) s =
      if is_create_mode p
      then record s { draft = rewrite_page p.page_num new_markdown reasoning s.draft }
      else s

  unfoldable pub serve_calls : List Call → PageState → PageState
  serve_calls [] s = s
  serve_calls (c ∷ cs) s = serve_calls cs (serve_call c s)

  -- The state after the calls of a run on the page.
  unfoldable pub run_page_agent : (page_markdown : Text) → List Call → PageState
  run_page_agent page_markdown calls = serve_calls calls (new_page page_markdown)
