-- ===== src/Pages/Ledger.antt =====
-- The changes that the correction of the pages records (src/services/pipeline_viewer.py).
use equalify_reflow.Prelude.{
  ℕ, zero, suc, ◌≡◌, refl, Bool, true, false, Option, some, List, [], ◌∷◌, ◌++◌, Bool-cases, ◌⊎◌,
  inl, inr, if◌then◌else◌, Text, count, subst, is_blank,
}
use equalify_reflow.Edits.{Draft, DocumentChange, str_replace, replace_counted}
use equalify_reflow.Edits.Replay.{replay, Recorded, str_replace-Recorded, nothing}
use equalify_reflow.Edits.Agents.{Ending}
use equalify_reflow.Pages.{
  Subagents, Page, Call, PageState, serve_call, serve_calls, run_page_agent, new_page,
  is_create_mode, rewrite_page, enable_describe, enable_table_reconstruct, enable_list_reconstruct,
}
use equalify_reflow.Pages.Step.{Run, process_page, end_page, correction, PageCorrectionResult}

-- All changes are of this page.
abbrev pub AllOf : ℕ → List DocumentChange → Type 0
AllOf n [] = Unit {0}
AllOf n (c ∷ cs) = (c.page ≡ n) × AllOf n cs

AllOf-snoc :
    (n : ℕ) (cs : List DocumentChange) (c : DocumentChange)
    → AllOf n cs
    → c.page ≡ n
    → AllOf n (cs ++ c ∷ [])
AllOf-snoc n [] c h e = (e, tt)
AllOf-snoc n (d ∷ ds) c h e = (h.0, AllOf-snoc n ds c h.1 e)

replace_counted-AllOf :
    (n page : ℕ) (old_text new_text reasoning stage : Text) (d : Draft)
    → AllOf page d.changes
    → AllOf page (replace_counted n page old_text new_text reasoning stage d).1.changes
unfolding replace_counted
replace_counted-AllOf zero page old new reasoning stage d h = h
replace_counted-AllOf (suc zero) page old new reasoning stage d h =
    AllOf-snoc page d.changes _ h refl
replace_counted-AllOf (suc (suc n)) page old new reasoning stage d h = h

draft_if :
    (b : Bool) (P : Draft → Type 0) (s t : PageState)
    → P s.draft
    → P t.draft
    → P (if b then s else t).draft
draft_if true P s t h k = h
draft_if false P s t h k = k

rewrite_page-AllOf :
    (page : ℕ) (new reasoning : Text) (d : Draft)
    → AllOf page d.changes
    → AllOf page (rewrite_page page new reasoning d).changes
unfolding rewrite_page
rewrite_page-AllOf page new reasoning d h = elim (Bool-cases (is_blank new)) [
  | inl empty ↦ rw empty h
  | inr full ↦ rw full (AllOf-snoc page d.changes _ h refl)
]

module _ (a : Subagents) (p : Page) where
  serve_call-AllOf :
      (c : Call) (s : PageState)
      → AllOf p.page_num s.draft.changes
      → AllOf p.page_num (serve_call a p c s).draft.changes
  unfolding serve_call str_replace
  serve_call-AllOf (Call.str_replace_call old new reasoning category) s h =
      replace_counted-AllOf (count old s.draft.current) p.page_num old new reasoning category
        s.draft h
  serve_call-AllOf (Call.no_changes_call confidence notes) s h = h
  serve_call-AllOf (Call.describe_image_call ref_id) s h =
      draft_if (enable_describe p) (λ d. AllOf p.page_num d.changes) _ s h h
  serve_call-AllOf (Call.reconstruct_table_call ref_id) s h =
      draft_if (enable_table_reconstruct p) (λ d. AllOf p.page_num d.changes) _ s h h
  serve_call-AllOf (Call.reconstruct_list_call list_text reasoning) s h =
      draft_if (enable_list_reconstruct p) (λ d. AllOf p.page_num d.changes) _ s h h
  serve_call-AllOf (Call.rewrite_page_call new reasoning) s h =
      draft_if (is_create_mode p) (λ d. AllOf p.page_num d.changes) _ s
        (rewrite_page-AllOf p.page_num new reasoning s.draft h) h

  serve_calls-AllOf :
      (cs : List Call) (s : PageState)
      → AllOf p.page_num s.draft.changes
      → AllOf p.page_num (serve_calls a p cs s).draft.changes
  unfolding serve_calls
  serve_calls-AllOf [] s h = h
  serve_calls-AllOf (c ∷ cs) s h =
      serve_calls-AllOf cs (serve_call a p c s) (serve_call-AllOf c s h)

module _ (a : Subagents) (p : Page) (no_create : is_create_mode p ≡ false) (original : Text) where
  serve_call-Recorded :
      (c : Call) (s : PageState)
      → Recorded original s.draft
      → Recorded original (serve_call a p c s).draft
  unfolding serve_call
  serve_call-Recorded (Call.str_replace_call old new reasoning category) s h =
      str_replace-Recorded p.page_num old new reasoning category original s.draft h
  serve_call-Recorded (Call.no_changes_call confidence notes) s h = h
  serve_call-Recorded (Call.describe_image_call ref_id) s h =
      draft_if (enable_describe p) (Recorded original) _ s h h
  serve_call-Recorded (Call.reconstruct_table_call ref_id) s h =
      draft_if (enable_table_reconstruct p) (Recorded original) _ s h h
  serve_call-Recorded (Call.reconstruct_list_call list_text reasoning) s h =
      draft_if (enable_list_reconstruct p) (Recorded original) _ s h h
  serve_call-Recorded (Call.rewrite_page_call new reasoning) s h = rw no_create h

  serve_calls-Recorded :
      (cs : List Call) (s : PageState)
      → Recorded original s.draft
      → Recorded original (serve_calls a p cs s).draft
  unfolding serve_calls
  serve_calls-Recorded [] s h = h
  serve_calls-Recorded (c ∷ cs) s h =
      serve_calls-Recorded cs (serve_call a p c s) (serve_call-Recorded c s h)

abbrev pub Outcome : Type 0
Outcome = Text ⊎ PageCorrectionResult

-- What the outcome of a page adds to the results.
abbrev pub changes_of : Outcome → List DocumentChange
changes_of (inl error) = []
changes_of (inr r) = r.changes

abbrev pub markdown_of : Text → Outcome → Text
markdown_of md (inl error) = md
markdown_of md (inr r) = r.corrected_markdown

pub end_page-AllOf :
    (n : ℕ) (e : Ending) (s : PageState)
    → AllOf n s.draft.changes
    → AllOf n (changes_of (end_page n e s))
unfolding end_page correction
end_page-AllOf n (Ending.finished i o) s h = h
end_page-AllOf n (Ending.failed error) s h = tt

pub end_page-replay :
    (n : ℕ) (e : Ending) (s : PageState) (md : Text)
    → Recorded md s.draft
    → replay (changes_of (end_page n e s)) md ≡ some (markdown_of md (end_page n e s))
unfolding end_page correction
end_page-replay n (Ending.finished i o) s md h = h
end_page-replay n (Ending.failed error) s md h = nothing md

module _ (a : Subagents) (pages : ℕ → Page) (runs : ℕ → Run) (page_mds : ℕ → Option Text) where
  pub process_page-AllOf :
      (n : ℕ) (md : Text)
      → (pages n).page_num ≡ n
      → AllOf n (changes_of (process_page a pages runs page_mds n md))
  unfolding process_page run_page_agent
  process_page-AllOf n md numbered = end_page-AllOf n (runs n).ending _ (
      subst (λ k. AllOf k (run_page_agent a (pages n) md (runs n).calls).draft.changes) numbered
        (serve_calls-AllOf a (pages n) (runs n).calls (new_page md) tt))

  pub process_page-replay :
      (n : ℕ) (md : Text)
      → is_create_mode (pages n) ≡ false
      → let x = process_page a pages runs page_mds n md in
        replay (changes_of x) md ≡ some (markdown_of md x)
  unfolding process_page run_page_agent
  process_page-replay n md no_create =
      end_page-replay n (runs n).ending _ md
        (serve_calls-Recorded a (pages n) no_create md (runs n).calls _ (nothing md))
