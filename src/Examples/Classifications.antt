-- ===== src/Examples/Classifications.antt =====
-- The classification of a PDF at concrete inputs.
use equalify_reflow.Prelude.{◌≡◌, ◌≤◌, ◌↔◌, refl, some, none, [], ◌∷◌, codes, true, false, length}
use equalify_reflow.Classifier.{
  Pdf, PdfPage, Opening, classify_pdf, enrich_classification, has_errors, DocumentType,
  form_findings, check_hard_blockers, check_soft_warnings, classify_open, extract_metadata,
  read_pages, widgets, combined, has_oversized, orientations, infer_document_type, has_code,
  code_eq, code_number,
}
use equalify_reflow.Classifier.Accepted.{fields, classify_pdf-accepts}

abbrev two_pages : Pdf
two_pages = record {
  producer = some (codes "keynote");
  creator = none;
  form_type = some 1;
  pages = PdfPage.annotated 6120 7920 (2 ∷ []) ∷ PdfPage.annotated 7920 6120 (20 ∷ []) ∷ [];
}

is_form :
    (classify_pdf (λ t. t) true 500 (Opening.opened two_pages)).document_type ≡ DocumentType.form
unfolding classify_pdf classify_open extract_metadata read_pages widgets check_hard_blockers
    form_findings check_soft_warnings combined has_oversized orientations infer_document_type
    has_code code_eq code_number
is_form = refl

-- With a page that cannot be read, the form is not noticed.
is_presentation :
    (classify_pdf
      (λ t. t)
      true
      500
      (Opening.opened (record two_pages {
        pages = PdfPage.annotated 6120 7920 (20 ∷ []) ∷ PdfPage.unreadable ∷ [];
      }))).document_type
    ≡ DocumentType.presentation
unfolding classify_pdf classify_open extract_metadata read_pages widgets check_hard_blockers
    form_findings check_soft_warnings combined has_oversized orientations infer_document_type
    has_code code_eq code_number
is_presentation = refl

classify_pdf-accepts_example :
    ((has_errors
          (enrich_classification 2 100 0
            (classify_pdf (λ t. t) true 500 (Opening.opened two_pages))).findings
        ≡ false)
      ↔ ((fields two_pages.pages ≡ 0)
          × (1 ≤ length two_pages.pages)
          × (length two_pages.pages ≤ 500)))
    × (enrich_classification 2 100 0 (
          enrich_classification 2 100 0 (classify_pdf (λ t. t) true 500 (Opening.opened two_pages)))
        ≡ enrich_classification 2 100 0 (classify_pdf (λ t. t) true 500 (Opening.opened two_pages)))
classify_pdf-accepts_example = classify_pdf-accepts (λ t. t) 500 two_pages 2 100 0 tt
