-- ===== src/Document/Finish.antt =====
-- How the processing of a document ends, while Redis answers.
use equalify_reflow.Prelude.{
  suc, String, Bool, true, false, ◌&&◌, Option, none, some, List, [], ◌∷◌, ◌≡◌, refl, ◌∙◌, ap, ◌⊎◌,
  inl, inr, if◌then◌else◌, Bool-cases,
}
use equalify_reflow.Errors.{Exception, Result, ok, err}
use equalify_reflow.Redis.{Redis}
use equalify_reflow.Redis.Exec.{World, IsUp, continue, handle, after, ◌>>=◌, ◌>>◌}
use equalify_reflow.Job.{status_completed, status_failed, status_processing}
use equalify_reflow.Job.Fields.{Value, scalar, serialize_fields}
use equalify_reflow.Job.Laws.{has_field}
use equalify_reflow.Approval.{Services}
use equalify_reflow.Approval.Outcome.{status_of}
use equalify_reflow.Document.{
  PipelineViewerResult, DocumentRun, final_markdown, has_versions, rejection, warning_fields,
  final_fields, count_job, update_job_fields, lift, store_results, finish_run, run_pipeline,
  fail_run, process_document, incr_job, decr_job,
}
use equalify_reflow.Document.Updates.{
  Updated, after_put, after_update, update_job_state_up, update_job_fields_up, count_job_up,
}

abbrev pub is_ok : {A : Type 0} → Result A → Bool
is_ok (ok a) = true
is_ok (err e) = false

Result-cases :
    {A : Type 0} (x : Result A) → ((a : A) × (x ≡ ok a)) ⊎ ((e : Exception) × (x ≡ err e))
Result-cases (ok a) = inl (a, refl)
Result-cases (err e) = inr (e, refl)

-- The pipeline has made a version, and its text and its ledger were stored.
abbrev pub stored : DocumentRun → Result PipelineViewerResult → Bool
stored d (ok result) =
    has_versions result
    && (is_ok (d.upload d.result_key (final_markdown result))
        && is_ok (d.upload d.ledger_key (d.ledger result)))
stored d (err e) = false

abbrev pub processed : (d : DocumentRun) → Result d.Content → Bool
processed d (ok content) = stored d (d.process content)
processed d (err e) = false

abbrev pub final_status : Bool → String
final_status succeeded = if succeeded then status_completed else status_failed

final_fields-status :
    (d : DocumentRun) (result : PipelineViewerResult)
    → has_field (serialize_fields (final_fields d result)) "status" ≡ false
unfolding final_fields warning_fields serialize_fields
final_fields-status d result = by_warnings result.warnings
  where
    by_warnings :
        (o : Option String) → has_field (serialize_fields (warning_fields o)) "status" ≡ false
    by_warnings none = refl
    by_warnings (some json) = refl

-- The fields of the first two updates.
abbrev pipeline_fields : List (String × Value)
pipeline_fields = ("processing_phase", scalar "pipeline") ∷ []

abbrev docling_fields : String → List (String × Value)
docling_fields review_mode =
    ("processing_phase", scalar "docling") ∷ ("review_mode", scalar review_mode) ∷ []

module _ {r : Redis} (s : Services) (job_id : String) (d : DocumentRun) where
  -- The end of a run: the job's status says whether it succeeded.
  abbrev pub Ends : Bool → World r → Result PipelineViewerResult × World r → Type 0
  Ends succeeded w x = Updated s job_id (some (final_status succeeded)) w x.1

  failed-Ends : (e : Exception) (v : World r) → IsUp v → Ends false v (fail_run s job_id d e v)
  unfolding fail_run
  failed-Ends e v up =
      let (done, updated) =
        update_job_state_up s job_id status_failed (("error", scalar (d.describe e)) ∷ []) v up
          (unfold serialize_fields in refl) in
      rw (done) updated

  store_results-Ends :
      (result : PipelineViewerResult) (w : World r)
      → IsUp w
      → Ends
          (is_ok (d.upload d.result_key (final_markdown result))
            && is_ok (d.upload d.ledger_key (d.ledger result)))
          w
          (handle (fail_run s job_id d) (store_results s job_id d result w))
  unfolding store_results lift
  store_results-Ends result w up =
      elim (Result-cases (d.upload d.result_key (final_markdown result))) [
        | inr (e, failed) ↦ rw (failed) (failed-Ends e w up)
        | inl (a, done) ↦ elim (Result-cases (d.upload d.ledger_key (d.ledger result))) [
          | inr (e, failed) ↦ rw (done, failed) (failed-Ends e w up)
          | inl (b, done') ↦
              let (saved, updated) =
                update_job_state_up s job_id status_completed (final_fields d result) w up
                  (final_fields-status d result) in
              rw (done, done', saved) updated
        ]
      ]

  finish_run-Ends :
      (result : PipelineViewerResult) (w : World r)
      → IsUp w
      → Ends
          (stored d (ok result))
          w
          (handle (fail_run s job_id d) (finish_run s job_id d result w))
  unfolding finish_run
  finish_run-Ends result w up = elim (Bool-cases (has_versions result)) [
    | inl e ↦ rw (e) (store_results-Ends result w up)
    | inr e ↦
        let (done, updated) =
          update_job_state_up s job_id status_failed
            (("error", scalar (rejection result.classification_error)) ∷ []) w up
            (unfold serialize_fields in refl) in
        rw (e, done) updated
  ]

  Updated-after :
      (status : Option String) (w v u : World r)
      → v.metrics ≡ w.metrics
      → Updated s job_id status v u
      → Updated s job_id status w u
  Updated-after status w v u same k = record {
    has_status = k.has_status;
    metrics = k.metrics ∙ same;
    up = k.up;
  }

  made-Ends :
      (x : Result PipelineViewerResult) (w : World r)
      → IsUp w
      → Ends
          (stored d x)
          w
          (handle (fail_run s job_id d) (continue (finish_run s job_id d) (lift x w)))
  unfolding lift
  made-Ends (ok result) w up = finish_run-Ends result w up
  made-Ends (err e) w up = failed-Ends e w up

  got-Ends :
      (x : Result d.Content) (w : World r)
      → IsUp w
      → Ends (processed d x) w (
          handle (fail_run s job_id d) (
            (do
              content ← lift x
              update_job_fields s job_id pipeline_fields
              result ← lift (d.process content)
              finish_run s job_id d result)
              w))
  unfolding lift
  got-Ends (err e) w up = failed-Ends e w up
  got-Ends (ok content) w up =
      let v = after_put s job_id pipeline_fields w in
      rw (update_job_fields_up s job_id pipeline_fields w up)
        (Updated-after _ w v _ refl (made-Ends (d.process content) v up))

  run_pipeline-Ends :
      (w : World r)
      → IsUp w
      → Ends (processed d d.download) w (handle (fail_run s job_id d) (run_pipeline s job_id d w))
  unfolding run_pipeline
  run_pipeline-Ends w up = got-Ends d.download w up

  -- The decrement runs after any result.
  counted_down :
      (status : Option String) (w : World r) (x : Result PipelineViewerResult × World r)
      → Updated s job_id status w x.1
      → let y = (let (a, v) = x in after a (count_job decr_job v)).1 in
        (status_of job_id y ≡ status) × (y.metrics ≡ (decr_job, 1) ∷ w.metrics)
  counted_down status w (a, v) k =
      rw (count_job_up decr_job v k.up) (k.has_status, ap (λ l. (decr_job, 1) ∷ l) k.metrics)

  -- While Redis answers, the processing of a document always comes to an end that its job shows: the
  -- job is `completed` if the file was downloaded, the pipeline made a version of it, and its text
  -- and its ledger were stored, and `failed` in every other case, never left as it was. The counter
  -- of running jobs is incremented once and decremented once.
  pub process_document-final :
      (review_mode : String) (w : World r)
      → IsUp w
      → let w' = (process_document s job_id d review_mode w).1 in
        (status_of job_id w' ≡ some (final_status (processed d d.download)))
        × (w'.metrics ≡ (decr_job, 1) ∷ (incr_job, 1) ∷ w.metrics)
  unfolding process_document
  process_document-final review_mode w up =
      let v = after_update s job_id status_processing (docling_fields review_mode) w in
      let counted : World r = record v {
        metrics = (incr_job, 1) ∷ v.metrics;
        calls = suc v.calls;
      } in
      let (done, updated) =
        update_job_state_up s job_id status_processing (docling_fields review_mode) w up
          (unfold serialize_fields in refl) in
      rw (done, count_job_up incr_job v up)
        (counted_down _ counted _ (run_pipeline-Ends counted up))
