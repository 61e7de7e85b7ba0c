-- ===== src/Edits.antt =====
-- Edits of a text by search and replace: the checks of src/utils/diff_utils.py, and the tool
-- `str_replace` that the agents of src/services/pipeline_viewer.py share, with their change records
-- (src/services/pipeline_viewer_models.py). Texts are lists of code points; the wording of errors is
-- left out.
pub mod Occurrences
pub mod Contexts
pub mod Replay
pub mod Agents
pub mod Boundaries
pub mod Ledger
use equalify_reflow.Prelude.{
  ℕ, zero, suc, ◌+◌, ◌-◌, ◌/◌, Bool, true, false, Option, none, some, List, [], ◌∷◌, ◌++◌, length,
  take, drop, leb, ltb, ◌==◌, if◌then◌else◌, min, Text, text_eq, starts_with, count, replace_first,
}

-- Why an edit is refused.
pub data Refusal : Type 0 where
  empty_search identical_texts not_found : Refusal
  ambiguous : ℕ → Refusal

unfoldable pub refuse_count : ℕ → Option Refusal
refuse_count zero = some not_found
refuse_count (suc zero) = none
refuse_count (suc (suc n)) = some (ambiguous (suc (suc n)))

-- `none` for a valid edit.
unfoldable pub validate_search_replace : (markdown search replace : Text) → Option Refusal
validate_search_replace markdown [] replace = some empty_search
validate_search_replace markdown (c ∷ search) replace =
    if text_eq (c ∷ search) replace
    then some identical_texts
    else refuse_count (count (c ∷ search) markdown)

unfoldable pub applied : Option Refusal → (markdown search replace : Text) → Option Text
applied none markdown search replace = some (replace_first search replace markdown)
applied (some refusal) markdown search replace = none

unfoldable pub apply_diff : (markdown search replace : Text) → Option Text
apply_diff markdown search replace =
    applied (validate_search_replace markdown search replace) markdown search replace

pub record DiffChanges : Type 0 where
  pub chars_removed : ℕ
  pub chars_added : ℕ
  -- the two sides of the difference, which may be negative
  pub net_added : ℕ
  pub net_removed : ℕ

unfoldable pub count_diff_changes : (original search replace : Text) → DiffChanges
count_diff_changes original search replace = record {
  chars_removed = length search;
  chars_added = length replace;
  net_added = length replace - length search;
  net_removed = length search - length replace;
}

-- markdown.find(target), for a target that occurs.
unfoldable pub find : (target markdown : Text) → ℕ
find target [] = 0
find target (c ∷ markdown) =
    let rest = find target markdown in if starts_with target (c ∷ markdown) then 0 else suc rest

-- markdown[start:end]
unfoldable pub slice : (start end : ℕ) → Text → Text
slice start end markdown = take (end - start) (drop start markdown)

unfoldable pub candidate : (markdown target : Text) (idx ctx : ℕ) → Text
candidate markdown target idx ctx =
    slice (idx - ctx) (min (length markdown) (idx + length target + ctx)) markdown

-- The loop over the widths of the context, `rounds` of them.
unfoldable pub expand : (markdown target : Text) (idx ctx rounds : ℕ) → Option Text
expand markdown target idx ctx zero = none
expand markdown target idx ctx (suc rounds) =
    let rest = expand markdown target idx (ctx + 10) rounds in
    if count (candidate markdown target idx ctx) markdown == 1
    then some (candidate markdown target idx ctx)
    else rest

-- len(range(min_context, max_context + 1, 10))
unfoldable pub widths : (min_context max_context : ℕ) → ℕ
widths min_context max_context = (max_context + 10 - min_context) / 10

-- The search for a context, when the target occurs `n` times.
unfoldable pub unique_context :
    (n : ℕ) (markdown target : Text) (min_context max_context : ℕ) → Option Text
unique_context zero markdown target min_context max_context = none
unique_context (suc zero) markdown target min_context max_context = some target
unique_context (suc (suc n)) markdown target min_context max_context =
    expand markdown target (find target markdown) min_context (widths min_context max_context)

unfoldable pub find_unique_context :
    (markdown target : Text) (min_context max_context : ℕ) → Option Text
find_unique_context markdown target min_context max_context =
    unique_context (count target markdown) markdown target min_context max_context

pub record DocumentChange : Type 0 where
  pub page : ℕ
  pub old_text : Text
  pub new_text : Text
  pub reasoning : Text
  pub stage : Text

-- A document that is being edited, and the record of its changes.
pub record Draft : Type 0 where
  pub current : Text
  pub changes : List DocumentChange

-- The tool, when the text to replace occurs `n` times.
unfoldable pub replace_counted :
    (n page : ℕ) (old_text new_text reasoning stage : Text) → Draft → Option Refusal × Draft
replace_counted zero page old_text new_text reasoning stage d = (some not_found, d)
replace_counted (suc zero) page old_text new_text reasoning stage d = (
  none,
  record {
    current = replace_first old_text new_text d.current;
    changes =
        d.changes
        ++ record {
          page = page;
          old_text = old_text;
          new_text = new_text;
          reasoning = reasoning;
          stage = stage;
        }
          ∷ [];
  },
)
replace_counted (suc (suc n)) page old_text new_text reasoning stage d =
    (some (ambiguous (suc (suc n))), d)

unfoldable pub str_replace :
    (page : ℕ) (old_text new_text reasoning stage : Text) → Draft → Option Refusal × Draft
str_replace page old_text new_text reasoning stage d =
    replace_counted (count old_text d.current) page old_text new_text reasoning stage d
