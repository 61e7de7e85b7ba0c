-- ===== src/Pages/Budget.antt =====
-- The limits on the subagents of a page (src/services/pipeline_viewer.py).
use equalify_reflow.Prelude.{
  and_then, ℕ, suc, ◌+◌, ◌*◌, ◌≤◌, Bool, true, false, Option, none, some, List, [], ◌∷◌, ◌==◌,
  if◌then◌else◌, leb, Bool-cases, inl, inr, Text, count, arith,
}
use equalify_reflow.Pages.{
  Subagents, Usage, Meter, Call, Page, PageState, FigureData, TableData, serve_call, serve_calls,
  run_page_agent, new_page, metered, spend, add_usage, list_run, surrounding, figure_lookup,
  table_lookup, enable_describe, enable_table_reconstruct, enable_list_reconstruct, is_create_mode,
}

-- A run that did not fail used at most `i` tokens of input and `o` of output.
abbrev pub AtMost : (i o : ℕ) → Option Usage → Type 0
AtMost i o none = Unit {0}
AtMost i o (some u) = (u.input_tokens ≤ i) × (u.output_tokens ≤ o)

-- No more calls than the limit, and no more tokens than these calls can use.
pub record Within (limit i o : ℕ) (m : Meter) : Type 0 where
  pub calls : m.call_count ≤ limit
  pub input : m.used.input_tokens ≤ m.call_count * i
  pub output : m.used.output_tokens ≤ m.call_count * o

one_more : (c t u i : ℕ) → t ≤ c * i → u ≤ i → t + u ≤ suc c * i
one_more c t u i h k = grind arith

no_more : (c t i : ℕ) → t ≤ c * i → t ≤ suc c * i
no_more c t i h = grind arith

metered-Within :
    (limit i o : ℕ) (run : Option Usage) (m : Meter)
    → AtMost i o run
    → Within limit i o m
    → Within limit i o (metered limit run m)
unfolding metered spend add_usage
metered-Within limit i o none m cheap h = elim (Bool-cases (leb limit m.call_count)) [
  | inl full ↦ rw full h
  | inr free ↦ rw free (record {
    calls = ground (arith, h.calls);
    input = no_more m.call_count m.used.input_tokens i h.input;
    output = no_more m.call_count m.used.output_tokens o h.output;
  })
]
metered-Within limit i o (some u) m cheap h = elim (Bool-cases (leb limit m.call_count)) [
  | inl full ↦ rw full h
  | inr free ↦ rw free (record {
    calls = ground (arith, h.calls);
    input = one_more m.call_count m.used.input_tokens u.input_tokens i h.input cheap.0;
    output = one_more m.call_count m.used.output_tokens u.output_tokens o h.output cheap.1;
  })
]

-- Each run of a subagent uses at most `i` tokens of input and `o` of output.
pub record Cheap (i o : ℕ) (a : Subagents) : Type 0 where
  pub describing : (n : ℕ) (f : FigureData) (md : Text) → AtMost i o (a.describe n f md)
  pub tables : (n : ℕ) (t : TableData) (md : Text) → AtMost i o (a.reconstruct_table n t md)
  pub lists : (n : ℕ) (list_text around : Text) → AtMost i o (a.reconstruct_list n list_text around)

and_then-AtMost :
    {A : Type 0} (i o : ℕ) (found : Option A) (f : A → Option Usage)
    → ((x : A) → AtMost i o (f x))
    → AtMost i o (and_then found f)
and_then-AtMost i o none f h = tt
and_then-AtMost i o (some x) f h = h x

list_run-AtMost :
    (i o : ℕ) (a : Subagents) (n : ℕ) (list_text md : Text)
    → Cheap i o a
    → AtMost i o (list_run a n list_text md)
unfolding list_run
list_run-AtMost i o a n list_text md cheap = elim (Bool-cases (count list_text md == 0)) [
  | inl absent ↦ rw absent tt
  | inr present ↦ rw present (cheap.lists n list_text (surrounding list_text md))
]

-- The three limits on a page.
pub record InBudget (i o : ℕ) (s : PageState) : Type 0 where
  pub describing : Within 10 i o s.describer
  pub tables : Within 10 i o s.table_reconstructor
  pub lists : Within 5 i o s.list_reconstructor

state_if :
    (b : Bool) (P : PageState → Type 0) (s t : PageState) → P s → P t → P (if b then s else t)
state_if true P s t h k = h
state_if false P s t h k = k

module _ (i o : ℕ) (a : Subagents) (cheap : Cheap i o a) (p : Page) where
  serve_call-InBudget :
      (c : Call) (s : PageState) → InBudget i o s → InBudget i o (serve_call a p c s)
  unfolding serve_call
  serve_call-InBudget (Call.str_replace_call old new reasoning category) s h = record {
    describing = h.describing;
    tables = h.tables;
    lists = h.lists;
  }
  serve_call-InBudget (Call.no_changes_call confidence notes) s h = record {
    describing = h.describing;
    tables = h.tables;
    lists = h.lists;
  }
  serve_call-InBudget (Call.describe_image_call ref_id) s h =
      state_if (enable_describe p) (InBudget i o) _ s
        (record {
          describing =
              metered-Within 10 i o _ s.describer
                (and_then-AtMost i o (figure_lookup ref_id p.figures) _
                  (λ f. cheap.describing s.describer.call_count f s.draft.current))
                h.describing;
          tables = h.tables;
          lists = h.lists;
        })
        h
  serve_call-InBudget (Call.reconstruct_table_call ref_id) s h =
      state_if (enable_table_reconstruct p) (InBudget i o) _ s
        (record {
          describing = h.describing;
          tables =
              metered-Within 10 i o _ s.table_reconstructor
                (and_then-AtMost i o (table_lookup ref_id p.tables) _
                  (λ t. cheap.tables s.table_reconstructor.call_count t s.draft.current))
                h.tables;
          lists = h.lists;
        })
        h
  serve_call-InBudget (Call.reconstruct_list_call list_text reasoning) s h =
      state_if (enable_list_reconstruct p) (InBudget i o) _ s
        (record {
          describing = h.describing;
          tables = h.tables;
          lists =
              metered-Within 5 i o _ s.list_reconstructor
                (list_run-AtMost i o a s.list_reconstructor.call_count list_text s.draft.current
                  cheap)
                h.lists;
        })
        h
  serve_call-InBudget (Call.rewrite_page_call new reasoning) s h =
      state_if (is_create_mode p) (InBudget i o) _ s
        (record { describing = h.describing; tables = h.tables; lists = h.lists }) h

  serve_calls-InBudget :
      (cs : List Call) (s : PageState) → InBudget i o s → InBudget i o (serve_calls a p cs s)
  unfolding serve_calls
  serve_calls-InBudget [] s h = h
  serve_calls-InBudget (c ∷ cs) s h =
      serve_calls-InBudget cs (serve_call a p c s) (serve_call-InBudget c s h)

  -- If no run of a subagent uses more than `i` tokens of input and `o` of output: whatever the
  -- agent of a page calls, and however often, it makes at most ten descriptions, ten tables and
  -- five lists, and uses no more tokens in each of the three than these calls can.
  pub run_page_agent-InBudget :
      (page_markdown : Text) (calls : List Call)
      → InBudget i o (run_page_agent a p page_markdown calls)
  unfolding run_page_agent
  run_page_agent-InBudget page_markdown calls =
      serve_calls-InBudget calls (new_page page_markdown) (record {
        describing = record { calls = omega arith; input = omega arith; output = omega arith };
        tables = record { calls = omega arith; input = omega arith; output = omega arith };
        lists = record { calls = omega arith; input = omega arith; output = omega arith };
      })
