-- ===== src/Examples/Downloads.antt =====
-- Downloads at concrete inputs.
use equalify_reflow.Prelude.{String, some, arith}
use equalify_reflow.Errors.{Result, ok, err, client_error, network_error}
use equalify_reflow.Storage.{get_object, Client, StorageService}
use equalify_reflow.Storage.Downloads.{download_file, download_temp_file}
use equalify_reflow.Storage.Leak.{with_slot_taken}
use equalify_reflow.Storage.Rules.{Balanced}
use equalify_reflow.Storage.Reads.{NeverOpen, Fetched, downloads-Fetched}
use equalify_reflow.Examples.Breakers.{probing}
use equalify_reflow.Examples.Uploads.{service, times, probing-Inv}

-- No object is there.
abbrev pub empty_bucket : Client (Result String)
empty_bucket = λ q n. err (client_error "NoSuchKey" (some 404))

-- Every body breaks off.
abbrev pub broken_off : Client (Result String)
broken_off = λ q n. ok (err network_error)

abbrev pub stuck : StorageService
stuck = record service { download_circuit = with_slot_taken probing }

broken_off_quiet : NeverOpen broken_off
broken_off_quiet q n = (ground arith, ground arith)

downloads-Fetched_example :
    (Balanced probing (download_temp_file service times broken_off "temp/j1.pdf").circuit
      × Fetched broken_off
          (get_object "temp" "temp/j1.pdf")
          (download_temp_file service times broken_off "temp/j1.pdf"))
    × (Balanced probing (download_file service times broken_off "temp/j1.pdf").circuit
        × Fetched broken_off
            (get_object "results" "temp/j1.pdf")
            (download_file service times broken_off "temp/j1.pdf"))
downloads-Fetched_example =
    downloads-Fetched service times broken_off "temp/j1.pdf" broken_off_quiet probing-Inv
