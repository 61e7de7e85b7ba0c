-- ===== src/Classifier.antt =====
-- The classification of a PDF before and after its extraction (src/services/pdf_classifier.py). What
-- pypdfium2 answers is an argument, and so is `str.lower`. Lengths are whole tenths of a point, to
-- which the source rounds them, and the tests on them are exact; messages and details are left out.
pub mod Accepted
pub mod Enriched
use equalify_reflow.Prelude.{
  ℕ, zero, suc, ◌+◌, ◌*◌, Bool, true, false, not, ◌&&◌, ◌||◌, Option, none, some, List, [], ◌∷◌,
  ◌++◌, length, ltb, leb, ◌==◌, if◌then◌else◌, Text, codes, contains,
}

pub data DocumentType : Type 0 where
  standard form scanned presentation spreadsheet unknown : DocumentType

pub data Severity : Type 0 where
  error warning : Severity

pub data Code : Type 0 where
  form_acroform form_xfa encrypted empty_document too_many_pages scanned_document : Code
  scan_producer presentation_document spreadsheet_document oversized_pages : Code
  low_text_density mixed_orientation : Code

pub record Finding : Type 0 where
  pub code : Code
  pub severity : Severity

-- Two codes are equal if these numbers are.
unfoldable pub code_number : Code → ℕ
code_number form_acroform = 0
code_number form_xfa = 1
code_number encrypted = 2
code_number empty_document = 3
code_number too_many_pages = 4
code_number scanned_document = 5
code_number scan_producer = 6
code_number presentation_document = 7
code_number spreadsheet_document = 8
code_number oversized_pages = 9
code_number low_text_density = 10
code_number mixed_orientation = 11

unfoldable pub code_eq : Code → Code → Bool
code_eq a b = code_number a == code_number b

pub record Metadata : Type 0 where
  pub page_count : ℕ
  pub producer : Option Text
  pub creator : Option Text
  pub form_type : ℕ
  pub form_field_count : ℕ
  pub page_dimensions : List (ℕ × ℕ)
  pub is_encrypted : Bool

pub record Classification : Type 0 where
  pub document_type : DocumentType
  pub findings : List Finding
  pub metadata : Metadata

-- A page of an open document: it cannot be opened, its annotations cannot be read, or they have
-- these subtypes.
pub data PdfPage : Type 0 where
  unreadable : PdfPage
  sized : (w h : ℕ) → PdfPage
  annotated : (w h : ℕ) → (subtypes : List ℕ) → PdfPage

-- `none` for a call that raises, or a value that is empty.
pub record Pdf : Type 0 where
  pub producer : Option Text
  pub creator : Option Text
  pub form_type : Option ℕ
  pub pages : List PdfPage

abbrev pub empty_metadata : Metadata
empty_metadata = record {
  page_count = 0;
  producer = none;
  creator = none;
  form_type = 0;
  form_field_count = 0;
  page_dimensions = [];
  is_encrypted = false;
}

-- FPDF_ANNOT_WIDGET
unfoldable pub widgets : List ℕ → ℕ
widgets [] = 0
widgets (subtype ∷ subtypes) =
    let rest = widgets subtypes in if subtype == 20 then suc rest else rest

-- The loop over the pages: the dimensions so far, and the number of the fields, which is kept only
-- if no page raises. `raw` tells whether the raw bindings are there.
unfoldable pub read_pages : (raw : Bool) (form_field_total : ℕ) → List PdfPage → List (ℕ × ℕ) × ℕ
read_pages raw total [] = ([], total)
read_pages raw total (unreadable ∷ pages) = ([], 0)
read_pages raw total (sized w h ∷ pages) =
    let rest = read_pages raw total pages in
    if raw then ((w, h) ∷ [], 0) else ((w, h) ∷ rest.0, rest.1)
read_pages raw total (annotated w h subtypes ∷ pages) =
    let rest = read_pages raw (if raw then total + widgets subtypes else total) pages in
    ((w, h) ∷ rest.0, rest.1)

abbrev pub or_zero : Option ℕ → ℕ
or_zero none = 0
or_zero (some n) = n

unfoldable pub extract_metadata : (raw : Bool) → Pdf → Metadata
extract_metadata raw pdf =
    let read = read_pages raw 0 pdf.pages in
    record {
      page_count = length pdf.pages;
      producer = pdf.producer;
      creator = pdf.creator;
      form_type = or_zero pdf.form_type;
      form_field_count = read.1;
      page_dimensions = read.0;
      is_encrypted = false;
    }

abbrev pub fail_if : Bool → Code → List Finding
fail_if true code = record { code = code; severity = error } ∷ []
fail_if false code = []

abbrev pub warn_if : Bool → Code → List Finding
warn_if true code = record { code = code; severity = warning } ∷ []
warn_if false code = []

unfoldable pub form_findings : Metadata → List Finding
form_findings meta =
    if ltb 0 meta.form_field_count
    then fail_if true
        (if meta.form_type == 2 || meta.form_type == 3 then form_xfa else form_acroform)
    else []

unfoldable pub check_hard_blockers : (pdf_max_pages : ℕ) → Metadata → List Finding
check_hard_blockers max_pages meta =
    form_findings meta
    ++ (fail_if (meta.page_count == 0) empty_document
        ++ fail_if (ltb max_pages meta.page_count) too_many_pages)

abbrev pub any_in : List Text → Text → Bool
any_in [] t = false
any_in (p ∷ ps) t = contains p t || any_in ps t

abbrev pub or_empty : Option Text → Text
or_empty none = []
or_empty (some t) = t

abbrev pub scanner_producers : List Text
scanner_producers =
    codes "adobe scan"
    ∷ codes "camscanner"
    ∷ codes "scanbot"
    ∷ codes "genius scan"
    ∷ codes "microsoft lens"
    ∷ codes "office lens"
    ∷ codes "epson scan"
    ∷ codes "hp scan"
    ∷ codes "brother scan"
    ∷ codes "fujitsu scansnap"
    ∷ codes "vuescan"
    ∷ codes "naps2"
    ∷ codes "readiris"
    ∷ codes "abbyy finereader"
    ∷ codes "tesseract"
    ∷ codes "ocrmypdf"
    ∷ []

abbrev pub presentation_producers : List Text
presentation_producers =
    codes "microsoft powerpoint" ∷ codes "impress" ∷ codes "keynote" ∷ codes "google slides" ∷ []

abbrev pub spreadsheet_producers : List Text
spreadsheet_producers = codes "microsoft excel" ∷ codes "calc" ∷ codes "google sheets" ∷ []

unfoldable pub combined : (lower : Text → Text) → Metadata → Text
combined lower meta = lower (or_empty meta.producer) ++ b' ' ∷ lower (or_empty meta.creator)

-- More than the area of A0 and a tenth of it, in square tenths of a point.
abbrev pub a0_area : ℕ
a0_area = 2384 * 3370

unfoldable pub has_oversized : List (ℕ × ℕ) → Bool
has_oversized [] = false
has_oversized ((w, h) ∷ dims) = ltb (a0_area * 110) (w * h) || has_oversized dims

-- Landscape, portrait or square.
abbrev pub orientation : ℕ → ℕ → ℕ
orientation w h = if ltb (h * 105) (w * 100) then 0 else if ltb (w * 105) (h * 100) then 1 else 2

unfoldable pub orientations : List (ℕ × ℕ) → List ℕ
orientations [] = []
orientations ((w, h) ∷ dims) =
    let rest = orientations dims in if ltb 0 w && ltb 0 h then orientation w h ∷ rest else rest

abbrev pub differs : ℕ → List ℕ → Bool
differs o [] = false
differs o (p ∷ ps) = not (o == p) || differs o ps

-- len(set(orientations)) > 1
abbrev pub is_mixed : List ℕ → Bool
is_mixed [] = false
is_mixed (o ∷ os) = differs o os

unfoldable pub check_soft_warnings : (lower : Text → Text) → Metadata → List Finding
check_soft_warnings lower meta =
    warn_if (any_in scanner_producers (combined lower meta)) scan_producer
    ++ (warn_if (has_oversized meta.page_dimensions) oversized_pages
        ++ (warn_if
              (leb 2 (length meta.page_dimensions) && is_mixed (orientations meta.page_dimensions))
              mixed_orientation
            ++ (warn_if (any_in presentation_producers (combined lower meta)) presentation_document
                ++ warn_if (any_in spreadsheet_producers (combined lower meta))
                    spreadsheet_document)))

unfoldable pub has_code : Code → List Finding → Bool
has_code code [] = false
has_code code (f ∷ fs) = code_eq f.code code || has_code code fs

abbrev pub is_error : Severity → Bool
is_error error = true
is_error warning = false

unfoldable pub has_errors : List Finding → Bool
has_errors [] = false
has_errors (f ∷ fs) = is_error f.severity || has_errors fs

unfoldable pub infer_document_type : List Finding → DocumentType → DocumentType
infer_document_type findings t =
    if has_code form_acroform findings || has_code form_xfa findings
    then form
    else if has_code scanned_document findings || has_code scan_producer findings
    then scanned
    else if has_code presentation_document findings
    then presentation
    else if has_code spreadsheet_document findings
    then spreadsheet
    else if not (has_errors findings)
    then standard
    else t

unfoldable pub classify_open :
    (lower : Text → Text) (raw : Bool) (pdf_max_pages : ℕ) → Pdf → Classification
classify_open lower raw max_pages pdf =
    let meta = extract_metadata raw pdf in
    let findings = check_hard_blockers max_pages meta ++ check_soft_warnings lower meta in
    record {
      document_type = infer_document_type findings unknown;
      findings = findings;
      metadata = meta;
    }

-- What the opening of the bytes gives: no library, an error, which may name a password or an
-- encryption, or a document.
pub data Opening : Type 0 where
  unavailable : Opening
  refused : (names_encryption : Bool) → Opening
  opened : Pdf → Opening

unfoldable pub classify_pdf :
    (lower : Text → Text) (raw : Bool) (pdf_max_pages : ℕ) → Opening → Classification
classify_pdf lower raw max_pages unavailable = record {
  document_type = unknown;
  findings = [];
  metadata = empty_metadata;
}
classify_pdf lower raw max_pages (refused names_encryption) = record {
  document_type = unknown;
  findings = fail_if true encrypted;
  metadata = record empty_metadata { is_encrypted = names_encryption };
}
classify_pdf lower raw max_pages (opened pdf) = classify_open lower raw max_pages pdf

-- A warning that was not there before.
abbrev pub new_warning : (existing : List Finding) → Bool → Code → List Finding
new_warning existing test code = warn_if (test && not (has_code code existing)) code

-- `presentation_count` is the number of the layout hints for a presentation.
unfoldable pub enriched_findings :
    (total_pages total_chars presentation_count : ℕ) → List Finding → List Finding
enriched_findings total_pages total_chars presentation_count existing =
    existing
    ++ (new_warning existing (ltb total_chars (50 * total_pages)) scanned_document
        ++ (new_warning existing
              (leb (50 * total_pages) total_chars && ltb total_chars (200 * total_pages))
              low_text_density
            ++ new_warning existing
                (leb 3 total_pages && leb (6 * total_pages) (10 * presentation_count))
                presentation_document))

unfoldable pub enrich_classification :
    (total_pages total_chars presentation_count : ℕ) → Classification → Classification
enrich_classification zero total_chars presentation_count c = c
enrich_classification (suc n) total_chars presentation_count c =
    let findings = enriched_findings (suc n) total_chars presentation_count c.findings in
    record c { document_type = infer_document_type findings c.document_type; findings = findings }
