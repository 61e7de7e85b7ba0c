-- ===== src/Classifier/Accepted.antt =====
-- Which documents the classification lets through (src/services/pdf_classifier.py).
use equalify_reflow.Prelude.{
  ℕ, ◌+◌, ◌≤◌, ◌≡◌, ◌↔◌, refl, sym, ap, ap₂, ◌∙◌, Bool, true, false, ◌&&◌, ◌||◌, Bool-cases, inl,
  inr, List, [], ◌∷◌, ◌++◌, length, ltb, leb, ◌==◌, arith, Text,
}
use equalify_reflow.Classifier.{
  Code, combined, any_in, scanner_producers, presentation_producers, spreadsheet_producers,
  has_oversized, is_mixed, orientations, scan_producer, oversized_pages, mixed_orientation,
  presentation_document, spreadsheet_document, empty_document, too_many_pages, Pdf, PdfPage,
  Metadata, Finding, fail_if, warn_if, has_errors, widgets, read_pages, extract_metadata,
  form_findings, check_hard_blockers, check_soft_warnings, classify_open, classify_pdf, Opening,
  enrich_classification,
}
use equalify_reflow.Classifier.Enriched.{
  has_errors-append, has_errors-warn_if, enrich_classification_twice,
}

-- The annotations of every page can be read.
abbrev pub AllRead : List PdfPage → Type 0
AllRead [] = Unit {0}
AllRead (PdfPage.unreadable ∷ pages) = ⊥
AllRead (PdfPage.sized w h ∷ pages) = ⊥
AllRead (PdfPage.annotated w h subtypes ∷ pages) = AllRead pages

-- The form fields of all the pages.
abbrev pub fields : List PdfPage → ℕ
fields [] = 0
fields (PdfPage.unreadable ∷ pages) = fields pages
fields (PdfPage.sized w h ∷ pages) = fields pages
fields (PdfPage.annotated w h subtypes ∷ pages) = widgets subtypes + fields pages

read_pages-fields :
    (total : ℕ) (pages : List PdfPage)
    → AllRead pages
    → (read_pages true total pages).1 ≡ total + fields pages
unfolding read_pages
read_pages-fields total [] all = omega arith
read_pages-fields total (PdfPage.unreadable ∷ pages) all = elim all [ ]
read_pages-fields total (PdfPage.sized w h ∷ pages) all = elim all [ ]
read_pages-fields total (PdfPage.annotated w h subtypes ∷ pages) all =
    read_pages-fields (total + widgets subtypes) pages all ∙ omega arith

soft_step :
    (b : Bool) (c : Code) (fs : List Finding)
    → has_errors fs ≡ false
    → has_errors (warn_if b c ++ fs) ≡ false
soft_step b c fs h =
    has_errors-append (warn_if b c) fs ∙ ap₂ (λ u v. u || v) (has_errors-warn_if b c) h

has_errors-soft :
    (lower : Text → Text) (meta : Metadata) → has_errors (check_soft_warnings lower meta) ≡ false
unfolding check_soft_warnings
has_errors-soft lower meta =
    let producers = combined lower meta in
    let dims = meta.page_dimensions in
    soft_step (any_in scanner_producers producers) scan_producer _ (
      soft_step (has_oversized dims) oversized_pages _ (
        soft_step (leb 2 (length dims) && is_mixed (orientations dims)) mixed_orientation _ (
          soft_step (any_in presentation_producers producers) presentation_document _
            (has_errors-warn_if (any_in spreadsheet_producers producers) spreadsheet_document))))

has_errors-fail_if : (b : Bool) (c : Code) → has_errors (fail_if b c) ≡ b
unfolding has_errors
has_errors-fail_if true c = refl
has_errors-fail_if false c = refl

has_errors-form : (meta : Metadata) → has_errors (form_findings meta) ≡ ltb 0 meta.form_field_count
unfolding form_findings has_errors
has_errors-form meta = elim (Bool-cases (ltb 0 meta.form_field_count)) [
  | inl some_field ↦ rw some_field refl
  | inr no_field ↦ rw no_field refl
]

has_errors-hard :
    (max_pages : ℕ) (meta : Metadata)
    → has_errors (check_hard_blockers max_pages meta)
      ≡ (ltb 0 meta.form_field_count || (meta.page_count == 0 || ltb max_pages meta.page_count))
unfolding check_hard_blockers
has_errors-hard max_pages meta =
    has_errors-append (form_findings meta) _
    ∙ ap₂ (λ u v. u || v) (has_errors-form meta)
        (has_errors-append (fail_if (meta.page_count == 0) empty_document) _
          ∙ ap₂ (λ u v. u || v) (has_errors-fail_if (meta.page_count == 0) empty_document)
              (has_errors-fail_if (ltb max_pages meta.page_count) too_many_pages))

or_false : (a : Bool) → (a || false) ≡ a
or_false true = refl
or_false false = refl

within : (f n m : ℕ) → ((ltb 0 f || (n == 0 || ltb m n)) ≡ false) ↔ ((f ≡ 0) × (1 ≤ n) × (n ≤ m))
within f n m = ground arith

classify_pdf-accepts_before :
    (lower : Text → Text) (max_pages : ℕ) (pdf : Pdf)
    → AllRead pdf.pages
    → (has_errors (classify_pdf lower true max_pages (Opening.opened pdf)).findings ≡ false)
      ↔ ((fields pdf.pages ≡ 0) × (1 ≤ length pdf.pages) × (length pdf.pages ≤ max_pages))
unfolding classify_pdf classify_open extract_metadata
classify_pdf-accepts_before lower max_pages pdf all =
    let meta = extract_metadata true pdf in
    let errors =
      has_errors-append (check_hard_blockers max_pages meta) (check_soft_warnings lower meta)
      ∙ ap₂ (λ u v. u || v) (has_errors-hard max_pages meta) (has_errors-soft lower meta)
      ∙ or_false _
      ∙ ap (λ f. ltb 0 f || (length pdf.pages == 0 || ltb max_pages (length pdf.pages)))
          (read_pages-fields 0 pdf.pages all) in
    let w = within (0 + fields pdf.pages) (length pdf.pages) max_pages in
    let same : 0 + fields pdf.pages ≡ fields pdf.pages = omega arith in
    (
      (λ h. let k = w.0 (sym errors ∙ h) in (sym same ∙ k.0, k.1, k.2)),
      (λ k. errors ∙ w.1 (same ∙ k.0, k.1, k.2)),
    )

-- A document that is opened, and whose annotations can all be read, is let through, which means
-- that no finding is an error, exactly if it has no form field on any page, at least one page, and
-- at most the pages that the settings allow, whatever the counts of the extraction add to its
-- classification; and adding them once more changes nothing.
pub classify_pdf-accepts :
    (lower : Text → Text) (max_pages : ℕ) (pdf : Pdf)
    (total_pages total_chars presentation_count : ℕ)
    → AllRead pdf.pages
    → let enrich = enrich_classification total_pages total_chars presentation_count in
      let c = enrich (classify_pdf lower true max_pages (Opening.opened pdf)) in
      ((has_errors c.findings ≡ false)
        ↔ ((fields pdf.pages ≡ 0) × (1 ≤ length pdf.pages) × (length pdf.pages ≤ max_pages)))
      × (enrich c ≡ c)
classify_pdf-accepts lower max_pages pdf total_pages total_chars presentation_count all =
    let c = classify_pdf lower true max_pages (Opening.opened pdf) in
    let same = enrich_classification_twice total_pages total_chars presentation_count c in
    let before = classify_pdf-accepts_before lower max_pages pdf all in
    (((λ h. before.0 (sym same.1 ∙ h)), (λ k. same.1 ∙ before.1 k)), same.0)
