-- ===== src/Document.antt =====
-- The processing of a document (src/services/document_processing_service.py). The storage's answers,
-- the pipeline's result and JSON texts are arguments; the events for subscribers and the metrics of
-- Prometheus are left out. INCR and DECR of the counter of running jobs are recorded in the world.
pub mod Updates
pub mod Finish
use equalify_reflow.Prelude.{
  ℕ, ◌+◌, String, Bool, true, false, Option, none, some, List, [], ◌∷◌, ◌++◌, str_eq, if◌then◌else◌,
}
use equalify_reflow.Errors.{Exception, Result, ok, err}
use equalify_reflow.Redis.{Redis}
use equalify_reflow.Redis.Keys.{job_key}
use equalify_reflow.Redis.Exec.{World, Exec, pure, raise, call, catch, finally_, ◌>>=◌, ◌>>◌}
use equalify_reflow.Job.{
  Ttls, flatten_mapping, hset_args, status_completed, status_failed, status_processing,
}
use equalify_reflow.Job.Fields.{Value, scalar, structure, serialize_fields}
use equalify_reflow.Approval.{Services}

-- A step's tokens, cost and number of changes. Costs are in fractions of a cent.
pub record Step : Type 0 where
  pub input_tokens : ℕ
  pub output_tokens : ℕ
  pub cost_cents : ℕ
  pub changes : ℕ

-- What the pipeline returns, as far as it is read here. A version that is missing is `none`.
pub record PipelineViewerResult : Type 0 where
  pub v0 : Option String
  pub v1 : Option String
  pub v2 : Option String
  pub v3 : Option String
  pub other_versions : Bool
  pub classification_error : Option String
  -- the reference and the image of each figure, `none` for no image
  pub figures : List (String × Option String)
  -- the JSON text of the warnings, `none` for no warnings
  pub warnings : Option String
  pub total_pages : ℕ
  pub steps : List Step

-- A missing text and an empty one are both false.
unfoldable pub or_text : Option String → String → String
or_text none rest = rest
or_text (some text) rest = if str_eq text "" then rest else text

unfoldable pub final_markdown : PipelineViewerResult → String
final_markdown result =
    or_text result.v3 (or_text result.v2 (or_text result.v1 (or_text result.v0 "")))

unfoldable pub is_given : Option String → Bool
is_given none = false
is_given (some text) = true

-- `result.versions` is not empty.
unfoldable pub has_versions : PipelineViewerResult → Bool
has_versions result =
    if is_given result.v0
    then true
    else (if is_given result.v1
        then true
        else (if is_given result.v2
            then true
            else (if is_given result.v3 then true else result.other_versions)))

unfoldable pub rejection : Option String → String
rejection none = "PDF classification rejected this document"
rejection (some error) = error

-- The collaborators of one run: the download of the file, the pipeline, and what an upload under a
-- key answers. An image that is no base64 text raises as its upload does.
pub record DocumentRun : Type 1 where
  pub Content : Type 0
  pub download : Result Content
  pub process : Content → Result PipelineViewerResult
  pub upload : (s3_key content : String) → Result (Unit {0})
  pub ledger : PipelineViewerResult → String
  pub figures_json : List String → String
  pub describe : Exception → String
  pub str : ℕ → String
  pub str_cents : ℕ → String
  pub result_key : String
  pub ledger_key : String
  pub figure_key : (ref_id : String) → String

unfoldable pub state_ttl : Ttls → String → ℕ
state_ttl ttls status =
    if str_eq status status_completed
    then ttls.completed
    else (if str_eq status status_failed then ttls.failed else ttls.active)

unfoldable pub kept_figure :
    DocumentRun → (ref_id image : String) → Result (Unit {0}) → List String → List String
kept_figure d ref_id image (ok u) rest = ref_id ∷ rest
kept_figure d ref_id image (err e) rest = rest

-- A figure that cannot be stored is left out.
unfoldable pub store_figures : DocumentRun → List (String × Option String) → List String
store_figures d [] = []
store_figures d ((ref_id, none) ∷ figures) = store_figures d figures
store_figures d ((ref_id, some image) ∷ figures) =
    let rest = store_figures d figures in
    if str_eq image ""
    then rest
    else kept_figure d ref_id image (d.upload (d.figure_key ref_id) image) rest

unfoldable pub warning_fields : Option String → List (String × Value)
warning_fields none = []
warning_fields (some json) = ("warnings", structure json) ∷ []

unfoldable pub total_of : (Step → ℕ) → List Step → ℕ
total_of f [] = 0
total_of f (step ∷ steps) = f step + total_of f steps

unfoldable pub final_fields : DocumentRun → PipelineViewerResult → List (String × Value)
final_fields d result =
    ("processing_phase", scalar "complete")
    ∷ ("result_url", scalar d.result_key)
    ∷ ("ledger_s3_key", scalar d.ledger_key)
    ∷ ("total_edits", scalar (d.str (total_of (λ x. x.changes) result.steps)))
    ∷ ("total_pages", scalar (d.str result.total_pages))
    ∷ ("llm_input_tokens", scalar (d.str (total_of (λ x. x.input_tokens) result.steps)))
    ∷ ("llm_output_tokens", scalar (d.str (total_of (λ x. x.output_tokens) result.steps)))
    ∷ (
      "llm_total_tokens",
      scalar (
          d.str (
            total_of (λ x. x.input_tokens) result.steps
            + total_of (λ x. x.output_tokens) result.steps)),
    )
    ∷ ("llm_cost_cents", scalar (d.str_cents (total_of (λ x. x.cost_cents) result.steps)))
    ∷ ("stored_figures", structure (d.figures_json (store_figures d result.figures)))
    ∷ warning_fields result.warnings

module _ {r : Redis} where
  unfoldable pub lift : {A : Type 0} → Result A → Exec r A
  lift (ok a) = pure a
  lift (err e) = raise e

  -- Redis is there; a failure is logged and passed over.
  unfoldable pub count_job : (command : String) → Exec r (Unit {0})
  count_job command =
      catch (call λ w. (tt, record w { metrics = (command, 1) ∷ w.metrics })) (λ e. pure tt)

abbrev pub incr_job : String
incr_job = "INCR eq-pdf:metrics:jobs_in_processing"

abbrev pub decr_job : String
decr_job = "DECR eq-pdf:metrics:jobs_in_processing"

module _ {r : Redis} (s : Services) (job_id : String) where
  unfoldable pub set_job_ttl : (status : String) → Exec r (Unit {0})
  set_job_ttl status =
      call λ w.
        (tt, record w { hashes = r.expire (job_key job_id) (state_ttl s.ttls status) w.hashes })

  unfoldable pub put_fields : List (String × Value) → Exec r (Unit {0})
  put_fields fields w =
      call
        (λ v. (
          tt,
          record v {
            hashes =
                hset_args r (job_key job_id)
                  (flatten_mapping
                    (("updated_at", s.isoformat (w.now w.calls)) ∷ serialize_fields fields))
                  v.hashes;
          },
        ))
        w

  -- An update without a status, and one whose first field is the status.
  unfoldable pub update_job_fields : List (String × Value) → Exec r (Unit {0})
  update_job_fields fields = put_fields fields

  unfoldable pub update_job_state : (status : String) → List (String × Value) → Exec r (Unit {0})
  update_job_state status fields = do
    put_fields (("status", scalar status) ∷ fields)
    set_job_ttl status

  unfoldable pub store_results : DocumentRun → PipelineViewerResult → Exec r PipelineViewerResult
  store_results d result = do
    lift (d.upload d.result_key (final_markdown result))
    lift (d.upload d.ledger_key (d.ledger result))
    update_job_state status_completed (final_fields d result)
    pure result

  unfoldable pub finish_run : DocumentRun → PipelineViewerResult → Exec r PipelineViewerResult
  finish_run d result = if has_versions result then store_results d result else (do
    update_job_state status_failed (("error", scalar (rejection result.classification_error)) ∷ [])
    pure result)

  unfoldable pub run_pipeline : DocumentRun → Exec r PipelineViewerResult
  run_pipeline d = do
    content ← lift d.download
    update_job_fields (("processing_phase", scalar "pipeline") ∷ [])
    result ← lift (d.process content)
    finish_run d result

  unfoldable pub fail_run : DocumentRun → Exception → Exec r PipelineViewerResult
  fail_run d e = do update_job_state status_failed (("error", scalar (d.describe e)) ∷ []); raise e

  unfoldable pub process_document :
      DocumentRun → (review_mode : String) → Exec r PipelineViewerResult
  process_document d review_mode = do
    update_job_state status_processing
        (("processing_phase", scalar "docling") ∷ ("review_mode", scalar review_mode) ∷ [])
    count_job incr_job
    finally_ (catch (run_pipeline d) (fail_run d)) (count_job decr_job)
