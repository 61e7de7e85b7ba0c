-- ===== src/Examples/Jobs.antt =====
-- Jobs and stream tokens at concrete inputs.
use equalify_reflow.Retry.{contains_text}
use equalify_reflow.Job.Transitions.{Reaches, can_transition_to, valid_transitions}
use equalify_reflow.Prelude.{◌≡◌, true, false, none, some, [], ◌∷◌, refl}
use equalify_reflow.Errors.{ok}
use equalify_reflow.Job.{get_ttl_for_status}
use equalify_reflow.Job.Fields.{NewJob, update_mapping, scalar}
use equalify_reflow.Job.Service.{update_job_status, create_stream_token}
use equalify_reflow.Job.Laws.{Saved, update_job_status-Saved}
use equalify_reflow.Job.Tokens.{presented, stream_token_once}
use equalify_reflow.Examples.Worlds.{ttls, no_data, denied_world}

abbrev pub job : NewJob
job = record {
  s3_key = "temp/j3.pdf";
  status = "pii_scanning";
  original_filename = some "thesis.pdf";
  pii_skipped = false;
  pii_skip_reason = none;
  debug_bundle_requested = true;
  review_mode = none;
  max_rounds = "1";
  ocr_languages = none;
}

update_job_status-Saved_example :
    ((update_job_status ttls "now" 50 "j1" "failed" (("error", scalar "gone") ∷ []) denied_world).0
      ≡ ok tt)
    × Saved "j1"
        (update_mapping "failed" "now" (("error", scalar "gone") ∷ []))
        (get_ttl_for_status ttls "failed")
        50
        denied_world
        (update_job_status ttls "now" 50 "j1" "failed"
          (("error", scalar "gone") ∷ [])
          denied_world).1
update_job_status-Saved_example =
    update_job_status-Saved ttls "now" 50 "j1" denied_world "failed" (("error", scalar "gone") ∷ [])
      refl

stream_token_once_example :
    presented (299 ∷ 0 ∷ 5 ∷ []) "s1" (create_stream_token "s1" "j1" no_data).1
    ≡ ok (some "j1") ∷ ok none ∷ ok none ∷ []
stream_token_once_example = stream_token_once 299 (0 ∷ 5 ∷ []) "s1" "j1" no_data (λ n. refl) refl

-- From the scan over the approval and the processing to the end.
whole_way : Reaches "pii_scanning" "completed" 3
unfolding can_transition_to valid_transitions contains_text
whole_way =
    Reaches.step {t = "awaiting_approval"} refl
      (Reaches.step {t = "processing"} refl (Reaches.step {t = "completed"} refl Reaches.stay))
