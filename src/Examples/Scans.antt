-- ===== src/Examples/Scans.antt =====
-- The scan of documents at concrete inputs.
use equalify_reflow.Prelude.{String, true, false, none, some, [], ◌∷◌, ◌≡◌, refl, ◌==◌}
use equalify_reflow.Errors.{ok}
use equalify_reflow.Redis.Exec.{World}
use equalify_reflow.Redis.Concrete.{concrete}
use equalify_reflow.Pii.{PiiQueuePayload, Scanner, scan, extracted, analyzed, process_pii_job}
use equalify_reflow.Retry.{retry_with_backoff}
use equalify_reflow.Pii.Worker.{Payloads, start}
use equalify_reflow.Pii.Cleared.{Cleared, start-Cleared}
use equalify_reflow.Pii.Held.{Waits, process_pii_job-Waits}
use equalify_reflow.Examples.Worlds.{services, no_data}

abbrev pub payload : PiiQueuePayload
payload = record { job_id = "j1"; s3_key = "uploads/j1.pdf" }

-- The analysis has one finding.
abbrev pub scanner : Scanner
scanner = record {
  Pdf = String;
  download = λ s3_key. ok s3_key;
  extract = λ pdf attempt. ok pdf;
  analyze_text = λ text. some "[{}]";
  tokens = λ n. "t1";
  approval_payload = λ job findings token expires_at. "{}";
  describe = λ e. "";
  hour = 3600;
}

abbrev pub payloads : Payloads
payloads = record {
  Json = String;
  loads = λ text. some text;
  model_validate = λ text. some payload;
  dumps = λ job. "{}";
}

process_pii_job-Waits_example :
    let (result, w') = process_pii_job services scanner payload no_data in
    (result ≡ ok tt)
    × (w'.started ≡ [])
    × Waits "j1" "t1" 14450 "2026-01-01T00:00:00+00:00" "{}" no_data.lists w'
unfolding scan extracted analyzed retry_with_backoff
process_pii_job-Waits_example =
    process_pii_job-Waits services scanner payload "[{}]" no_data refl (λ n. refl)

-- The analysis has no finding, and one text is in every queue.
abbrev pub clean_scanner : Scanner
clean_scanner = record scanner { analyze_text = λ text. none }

abbrev pub queued : World concrete
queued = record no_data { lists = λ k. "{}" ∷ [] }

start-Cleared_example :
    Cleared clean_scanner
      (start services clean_scanner payloads (false ∷ false ∷ true ∷ []) queued).1.started
start-Cleared_example =
    start-Cleared services clean_scanner payloads (false ∷ false ∷ true ∷ []) queued tt

-- Only the first call fails.
abbrev pub one_fault : World concrete
one_fault = record no_data { faults = λ n. n == 0 }
