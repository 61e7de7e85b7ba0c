-- ===== src/Classifier/Enriched.antt =====
-- What the enrichment of a classification does (src/services/pdf_classifier.py).
use equalify_reflow.Prelude.{
  ℕ, zero, suc, ◌*◌, ◌≡◌, refl, sym, ap, ap₂, ◌∙◌, Bool, true, false, ◌&&◌, ◌||◌, Bool-cases, inl,
  inr, List, [], ◌∷◌, ◌++◌, ltb, leb, ==_iff,
}
use mathlib.Core.List.{append-nil}
use equalify_reflow.Classifier.{
  DocumentType, Code, Finding, Classification, code_eq, code_number, is_error, warn_if, new_warning,
  has_code, has_errors, infer_document_type, enriched_findings, enrich_classification,
  scanned_document, low_text_density, presentation_document, form_acroform, form_xfa, scan_producer,
  spreadsheet_document,
}

or_assoc : (a b c : Bool) → ((a || b) || c) ≡ (a || (b || c))
or_assoc true b c = refl
or_assoc false b c = refl

has_code-append :
    (code : Code) (fs gs : List Finding)
    → has_code code (fs ++ gs) ≡ (has_code code fs || has_code code gs)
unfolding has_code
has_code-append code [] gs = refl
has_code-append code (f ∷ fs) gs =
    ap (λ b. code_eq f.code code || b) (has_code-append code fs gs)
    ∙ sym (or_assoc (code_eq f.code code) (has_code code fs) (has_code code gs))

pub has_errors-append :
    (fs gs : List Finding) → has_errors (fs ++ gs) ≡ (has_errors fs || has_errors gs)
unfolding has_errors
has_errors-append [] gs = refl
has_errors-append (f ∷ fs) gs =
    ap (λ b. is_error f.severity || b) (has_errors-append fs gs)
    ∙ sym (or_assoc (is_error f.severity) (has_errors fs) (has_errors gs))

pub has_errors-warn_if : (b : Bool) (code : Code) → has_errors (warn_if b code) ≡ false
unfolding has_errors
has_errors-warn_if true code = refl
has_errors-warn_if false code = refl

code_eq_refl : (c : Code) → code_eq c c ≡ true
unfolding code_eq
code_eq_refl c = (==_iff (code_number c) (code_number c)).1 refl

or_false : (a : Bool) → (a || false) ≡ a
or_false true = refl
or_false false = refl

or_here : (a b : Bool) → a ≡ true → (a || b) ≡ true
or_here true b h = refl
or_here false b h = absurd (cc)

or_there : (a b : Bool) → b ≡ true → (a || b) ≡ true
or_there true b h = refl
or_there false b h = h

has_code-warn_if : (code : Code) → has_code code (warn_if true code) ≡ true
unfolding has_code
has_code-warn_if code = rw (code_eq_refl code) refl

-- A code that is there stays there.
has_code-left :
    (code : Code) (fs gs : List Finding) → has_code code fs ≡ true → has_code code (fs ++ gs) ≡ true
has_code-left code fs gs h = has_code-append code fs gs ∙ or_here _ _ h

has_code-right :
    (code : Code) (fs gs : List Finding) → has_code code gs ≡ true → has_code code (fs ++ gs) ≡ true
has_code-right code fs gs h = has_code-append code fs gs ∙ or_there _ _ h

-- Where a warning is due, its code is among the old findings or the new ones.
warned :
    (code : Code) (existing fresh : List Finding) (test : Bool)
    → (has_code code (new_warning existing test code) ≡ true → has_code code fresh ≡ true)
    → test ≡ true
    → has_code code (existing ++ fresh) ≡ true
warned code existing fresh true carry due = elim (Bool-cases (has_code code existing)) [
  | inl old ↦ has_code-left code existing fresh old
  | inr new ↦ has_code-right code existing fresh (carry (rw new (has_code-warn_if code)))
]
warned code existing fresh false carry due = absurd (cc)

-- A warning whose code is there if it is due is not given again.
new_warning_again :
    (code : Code) (existing : List Finding) (test : Bool)
    → (test ≡ true → has_code code existing ≡ true)
    → new_warning existing test code ≡ []
new_warning_again code existing true there = rw (there refl) refl
new_warning_again code existing false there = refl

module _ (total_pages total_chars presentation_count : ℕ) (existing : List Finding) where
  abbrev few : Bool
  few = ltb total_chars (50 * total_pages)

  abbrev low : Bool
  low = leb (50 * total_pages) total_chars && ltb total_chars (200 * total_pages)

  abbrev slides : Bool
  slides = leb 3 total_pages && leb (6 * total_pages) (10 * presentation_count)

  enriched_findings_again :
      let fs = enriched_findings total_pages total_chars presentation_count existing in
      enriched_findings total_pages total_chars presentation_count fs ≡ fs
  unfolding enriched_findings
  enriched_findings_again =
      let a = new_warning existing few scanned_document in
      let b = new_warning existing low low_text_density in
      let c = new_warning existing slides presentation_document in
      let fs = existing ++ (a ++ (b ++ c)) in
      rw
        (
          new_warning_again scanned_document fs few (
              warned scanned_document existing (a ++ (b ++ c)) few
                (has_code-left scanned_document a (b ++ c))),
          new_warning_again low_text_density fs low (
              warned low_text_density existing (a ++ (b ++ c)) low (λ h.
                has_code-right low_text_density a (b ++ c) (has_code-left low_text_density b c h))),
          new_warning_again presentation_document fs slides (
              warned presentation_document existing (a ++ (b ++ c)) slides (λ h.
                has_code-right presentation_document a (b ++ c)
                  (has_code-right presentation_document b c h))),
        )
        (append-nil fs)

  enriched_findings-errors :
      has_errors (enriched_findings total_pages total_chars presentation_count existing)
      ≡ has_errors existing
  unfolding enriched_findings
  enriched_findings-errors =
      let a = new_warning existing few scanned_document in
      let b = new_warning existing low low_text_density in
      let c = new_warning existing slides presentation_document in
      has_errors-append existing (a ++ (b ++ c))
      ∙ ap (λ e. has_errors existing || e)
          (has_errors-append a (b ++ c)
            ∙ ap₂ (λ u v. u || v) (has_errors-warn_if _ scanned_document)
                (has_errors-append b c
                  ∙ ap₂ (λ u v. u || v) (has_errors-warn_if _ low_text_density)
                      (has_errors-warn_if _ presentation_document)))
      ∙ or_false (has_errors existing)

-- The inference looks at the old type only where no finding decides it.
infer_again :
    (fs : List Finding) (t : DocumentType)
    → infer_document_type fs (infer_document_type fs t) ≡ infer_document_type fs t
unfolding infer_document_type
infer_again fs t = elim (Bool-cases (has_code form_acroform fs || has_code form_xfa fs)) [
  | inl a ↦ rw a refl
  | inr a ↦ rw a (elim (Bool-cases (has_code scanned_document fs || has_code scan_producer fs)) [
    | inl b ↦ rw b refl
    | inr b ↦ rw b (elim (Bool-cases (has_code presentation_document fs)) [
      | inl c ↦ rw c refl
      | inr c ↦ rw c (elim (Bool-cases (has_code spreadsheet_document fs)) [
        | inl d ↦ rw d refl
        | inr d ↦ rw d (elim (Bool-cases (has_errors fs)) [ inl e ↦ rw e refl | inr e ↦ rw e refl ])
      ])
    ])
  ])
]

-- The enrichment of a classification by the same counts, done again, changes nothing, and it neither
-- blocks a document nor lets one through: the findings have an error exactly if they had one.
pub enrich_classification_twice :
    (total_pages total_chars presentation_count : ℕ) (c : Classification)
    → let d = enrich_classification total_pages total_chars presentation_count c in
      (enrich_classification total_pages total_chars presentation_count d ≡ d)
      × (has_errors d.findings ≡ has_errors c.findings)
unfolding enrich_classification
enrich_classification_twice zero chars slides_count c = (refl, refl)
enrich_classification_twice (suc n) chars slides_count c =
    let again = enriched_findings_again (suc n) chars slides_count c.findings in
    let fs = enriched_findings (suc n) chars slides_count c.findings in
    (
      ap
            (λ gs. record c {
              document_type = infer_document_type gs (infer_document_type fs c.document_type);
              findings = gs;
            })
            again
          ∙ ap (λ t. record c { document_type = t; findings = fs })
              (infer_again fs c.document_type),
      enriched_findings-errors (suc n) chars slides_count c.findings,
    )
