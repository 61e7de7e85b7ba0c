-- ===== src/Examples/Documents.antt =====
-- The processing of a document at concrete inputs.
use equalify_reflow.Prelude.{String, false, none, some, [], ◌∷◌, ◌≡◌, refl}
use equalify_reflow.Errors.{ok}
use equalify_reflow.Job.{status_completed}
use equalify_reflow.Approval.Outcome.{status_of}
use equalify_reflow.Document.{
  PipelineViewerResult, DocumentRun, process_document, final_markdown, incr_job, decr_job, or_text,
  has_versions, is_given,
}
use equalify_reflow.Document.Finish.{process_document-final}
use equalify_reflow.Examples.Worlds.{services, waiting_world}

-- The last version is empty.
abbrev pub viewed : PipelineViewerResult
viewed = record {
  v0 = some "a";
  v1 = some "b";
  v2 = some "c";
  v3 = some "";
  other_versions = false;
  classification_error = none;
  figures = ("fig1", some "aGk=") ∷ ("fig2", none) ∷ [];
  warnings = none;
  total_pages = 1;
  steps = [];
}

final_markdown_test : final_markdown viewed ≡ "c"
unfolding final_markdown or_text
final_markdown_test = refl

abbrev pub document_run : DocumentRun
document_run = record {
  Content = String;
  download = ok "%PDF";
  process = λ content. ok viewed;
  upload = λ s3_key content. ok tt;
  ledger = λ result. "{}";
  figures_json = λ figures. "[]";
  describe = λ e. "";
  str = λ n. "0";
  str_cents = λ n. "0";
  result_key = "results/j1/result.md";
  ledger_key = "results/j1/ledger.json";
  figure_key = λ ref_id. ref_id;
}

process_document-final_example :
    let w' = (process_document services "j1" document_run "auto" waiting_world).1 in
    (status_of "j1" w' ≡ some status_completed) × (w'.metrics ≡ (decr_job, 1) ∷ (incr_job, 1) ∷ [])
unfolding has_versions is_given
process_document-final_example =
    process_document-final services "j1" document_run "auto" waiting_world (λ n. refl)
