-- ===== src/Pages/Whole.antt =====
-- The record of the whole step that corrects the pages (src/services/pipeline_viewer.py).
use equalify_reflow.Prelude.{
  ℕ, zero, suc, ◌≤◌, ◌<◌, ◌≡◌, ◌≢◌, refl, sym, ap, ap₂, ◌∙◌, Bool, false, Option, none, some, List,
  [], ◌∷◌, ◌++◌, ◌==◌, ==_iff, Bool-cases, inl, inr, select, Text, arith, subst,
}
use mathlib.Core.List.{append-nil}
use equalify_reflow.Edits.{DocumentChange}
use equalify_reflow.Edits.Replay.{replay}
use equalify_reflow.Pages.{Subagents, Page, is_create_mode}
use equalify_reflow.Pages.Step.{
  Run, Collected, process_page, collect, correct_page, collect_pages, get_md, step_page_content,
}
use equalify_reflow.Pages.Ledger.{
  AllOf, Outcome, changes_of, markdown_of, process_page-AllOf, process_page-replay,
}

abbrev pub of_page : ℕ → DocumentChange → Bool
of_page n c = c.page == n

select-append :
    (p : DocumentChange → Bool) (xs ys : List DocumentChange)
    → select p (xs ++ ys) ≡ select p xs ++ select p ys
select-append p [] ys = refl
select-append p (x ∷ xs) ys = elim (Bool-cases (p x)) [
  | inl t ↦ rw t (ap (λ l. x ∷ l) (select-append p xs ys))
  | inr f ↦ rw f (select-append p xs ys)
]

select-own : (n : ℕ) (cs : List DocumentChange) → AllOf n cs → select (of_page n) cs ≡ cs
select-own n [] h = refl
select-own n (c ∷ cs) h = rw ((==_iff c.page n).1 h.0) (ap (λ l. c ∷ l) (select-own n cs h.1))

ne-test : (m n : ℕ) → m ≢ n → (m == n) ≡ false
ne-test m n h = ground arith

select-other :
    (m n : ℕ) (cs : List DocumentChange) → m ≢ n → AllOf m cs → select (of_page n) cs ≡ []
select-other m n [] ne h = refl
select-other m n (c ∷ cs) ne h =
    rw (ne-test c.page n (λ e. ne (sym h.0 ∙ e))) (select-other m n cs ne h.1)

collect-changes :
    (n : ℕ) (name md : Text) (x : Outcome) (c : Collected)
    → (collect n name md x c).changes ≡ c.changes ++ changes_of x
unfolding collect
collect-changes n name md (inl error) c = sym (append-nil c.changes)
collect-changes n name md (inr r) c = refl

collect-mds :
    (n : ℕ) (name md : Text) (x : Outcome) (c : Collected)
    → (collect n name md x c).corrected_mds ≡ (n, markdown_of md x) ∷ c.corrected_mds
unfolding collect
collect-mds n name md (inl error) c = refl
collect-mds n name md (inr r) c = refl

module _ (a : Subagents) (pages : ℕ → Page) (runs : ℕ → Run) (page_mds : ℕ → Option Text)
    (numbered : (n : ℕ) → (pages n).page_num ≡ n) where
  -- What the results hold of page `n` when other pages are added.
  other-page :
      (m n : ℕ) (o : Option Text) (c : Collected)
      → m ≢ n
      → (select (of_page n) (correct_page a pages runs page_mds m o c).changes
          ≡ select (of_page n) c.changes)
        × (get_md n (correct_page a pages runs page_mds m o c).corrected_mds
            ≡ get_md n c.corrected_mds)
  unfolding correct_page get_md
  other-page m n none c ne = (refl, refl)
  other-page m n (some md) c ne =
      let x = process_page a pages runs page_mds m md in
      (
        ap (select (of_page n)) (collect-changes m (pages m).name md x c)
            ∙ select-append (of_page n) c.changes (changes_of x)
            ∙ ap (λ l. select (of_page n) c.changes ++ l)
                (select-other m n (changes_of x) ne
                  (process_page-AllOf a pages runs page_mds m md (numbered m)))
            ∙ append-nil (select (of_page n) c.changes),
        ap (get_md n) (collect-mds m (pages m).name md x c) ∙ rw (ne-test m n ne) refl,
      )

  -- Nothing is held of a page that is still to come.
  to_come :
      (k n : ℕ)
      → k < n
      → (select (of_page n) (collect_pages a pages runs page_mds k).changes ≡ [])
        × (get_md n (collect_pages a pages runs page_mds k).corrected_mds ≡ none)
  unfolding collect_pages get_md
  to_come zero n h = (refl, refl)
  to_come (suc k) n h =
      let ih = to_come k n (omega arith) in
      let o =
        other-page (suc k) n (page_mds (suc k)) (collect_pages a pages runs page_mds k)
          (λ e. absurd (omega (arith, e))) in
      (o.0 ∙ ih.0, o.1 ∙ ih.1)

  module _ (n : ℕ) (md : Text) (given : page_mds n ≡ some md) (positive : 1 ≤ n) where
    -- The results hold the page's outcome.
    abbrev Holds : Collected → Type 0
    Holds c =
        let x = process_page a pages runs page_mds n md in
        (select (of_page n) c.changes ≡ changes_of x)
        × (get_md n c.corrected_mds ≡ some (markdown_of md x))

    this-page :
        (c : Collected)
        → select (of_page n) c.changes ≡ []
        → Holds (correct_page a pages runs page_mds n (some md) c)
    unfolding correct_page get_md
    this-page c before =
        let x = process_page a pages runs page_mds n md in
        (
          ap (select (of_page n)) (collect-changes n (pages n).name md x c)
              ∙ select-append (of_page n) c.changes (changes_of x)
              ∙ ap₂ (λ u v. u ++ v) before
                  (select-own n (changes_of x)
                    (process_page-AllOf a pages runs page_mds n md (numbered n))),
          ap (get_md n) (collect-mds n (pages n).name md x c) ∙ rw ((==_iff n n).1 refl) refl,
        )

    collected-page : (k : ℕ) → n ≤ k → Holds (collect_pages a pages runs page_mds k)
    unfolding collect_pages
    collected-page zero h = absurd (omega arith)
    collected-page (suc k) h = elim (Bool-cases (suc k == n)) [
      | inl last ↦
          let e = (==_iff (suc k) n).0 last in
          subst
            (λ m. Holds (
              correct_page a pages runs page_mds m (page_mds m)
                (collect_pages a pages runs page_mds k)))
            (sym e)
            (rw given (
              this-page (collect_pages a pages runs page_mds k) (to_come k n (omega (arith, e))).0))
      | inr other ↦
          let ih = collected-page k (ground arith) in
          let o =
            other-page (suc k) n (page_mds (suc k)) (collect_pages a pages runs page_mds k)
              (ground arith) in
          (o.0 ∙ ih.0, o.1 ∙ ih.1)
    ]

  -- For every page with markdown that is not a poster: the changes that the step records for this
  -- page, made one after another on its markdown, each name a text that is counted once, and give
  -- its corrected markdown, whatever the agents call and whichever of them fail.
  pub step_page_content-replay :
      (n total_pages : ℕ) (md : Text)
      → 1 ≤ n
      → n ≤ total_pages
      → page_mds n ≡ some md
      → is_create_mode (pages n) ≡ false
      → (corrected : Text) × ((step_page_content a pages runs page_mds total_pages).page_markdowns n
          ≡ some corrected)
        × (replay
              (select (of_page n) (step_page_content a pages runs page_mds total_pages).changes)
              md
            ≡ some corrected)
  unfolding step_page_content
  step_page_content-replay n total_pages md positive within given no_create =
      let x = process_page a pages runs page_mds n md in
      let held = collected-page n md given positive total_pages within in
      (
        markdown_of md x,
        held.1,
        ap (λ cs. replay cs md) held.0 ∙ process_page-replay a pages runs page_mds n md no_create,
      )
