-- ===== src/Examples/Uploads.antt =====
-- Uploads at concrete inputs.
use equalify_reflow.Prelude.{ℕ, ◌≡◌, String, Option, some, List, [], ◌∷◌, refl, arith}
use equalify_reflow.Errors.{err, network_error, http_exception, circuit_open}
use equalify_reflow.Breaker.Invariant.{Inv}
use equalify_reflow.Storage.{put_object, Client, StorageService, Times}
use equalify_reflow.Storage.Document.{UploadFile, store_document, validation}
use equalify_reflow.Storage.Rules.{RaisesNoBreaker, Balanced, Upload, run_upload, final_markdown}
use equalify_reflow.Storage.Balance.{Answered, run_upload-Balanced}
use equalify_reflow.Storage.Leak.{LastSlot, with_slot_taken, store_document-leak}
use equalify_reflow.Examples.Breakers.{probing}

abbrev pub service : StorageService
service = record {
  upload_circuit = probing;
  download_circuit = probing;
  temp_bucket = "temp";
  results_bucket = "results";
}

abbrev pub times : Times
times = record { checked = 200; asked = 200; failed = 201 }

abbrev pub down : Client (Unit {0})
down = λ q n. err network_error

-- Declared as HTML.
abbrev pub page : UploadFile
page = record { content_type = "text/html"; size = some 4000 }

invalid : validation 1000000 page ≡ some (http_exception 400)
unfolding validation
invalid = refl

pub last_slot : LastSlot probing
last_slot = record { state = refl; free = refl }

store_document-leak_example :
    (store_document service times down 1000000 "j1" page
      ≡ record { circuit = with_slot_taken probing; outcome = err (http_exception 400); calls = 0 })
    × ((t' : Times) (encode : String → Option (List ℕ)) (s3' : Client (Unit {0})) (u : Upload)
        → run_upload (record service { upload_circuit = with_slot_taken probing }) t' encode s3' u
          ≡ record { circuit = with_slot_taken probing; outcome = err circuit_open; calls = 0 })
store_document-leak_example =
    store_document-leak service times down 1000000 "j1" page (http_exception 400) invalid last_slot

down_quiet : RaisesNoBreaker down
down_quiet q n = ground arith

pub probing-Inv : Inv probing
probing-Inv = ground arith

-- An encoding that gives the same bytes for every text.
abbrev pub same_bytes : String → Option (List ℕ)
same_bytes t = some (35 ∷ [])

run_upload-Balanced_example :
    Balanced probing
      (run_upload service times same_bytes down (final_markdown "j1" "# Title")).circuit
    × Answered down
        (some (
          put_object "results" "jobs/j1/final.md"
            (35 ∷ [])
            "text/markdown"
            (some "public, max-age=31536000")))
        "jobs/j1/final.md"
        (run_upload service times same_bytes down (final_markdown "j1" "# Title"))
run_upload-Balanced_example =
    run_upload-Balanced service times same_bytes down (final_markdown "j1" "# Title") down_quiet
      probing-Inv
