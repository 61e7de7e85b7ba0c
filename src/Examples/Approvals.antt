-- ===== src/Examples/Approvals.antt =====
-- Approvals at concrete inputs.
use equalify_reflow.Prelude.{◌≡◌, none, some, [], ◌∷◌, refl, if◌then◌else◌}
use equalify_reflow.Errors.{ok}
use equalify_reflow.Redis.Keys.{Key, key_eq, lock_key, job_key}
use equalify_reflow.Redis.Concrete.{concrete}
use equalify_reflow.Job.{status_processing, status_denied}
use equalify_reflow.Approval.{DecisionMetadata}
use equalify_reflow.Approval.Direct.{process_approval-Decided, process_approval_twice}
use equalify_reflow.Approval.Token.{valid_job, unexpired, before_expiry, validate_approval_token}
use equalify_reflow.Approval.Token.Expiry.{
  NoneOr, Mapped, Unexpired, read_at, validate_approval_token-Unexpired,
}
use equalify_reflow.Approval.Background.{process_approval_background, process_denial_background}
use equalify_reflow.Approval.Denial.{process_denial_background-Leaves}
use equalify_reflow.Approval.Decision.{serve_decision, process_approval}
use equalify_reflow.Approval.Lock.{background_while_locked, background_releases}
use equalify_reflow.Approval.Outcome.{Leaves, background_outcome}
use equalify_reflow.Approval.Reapproval.{serve_decision_again}
use equalify_reflow.Examples.Worlds.{
  services, denied_job, denied_world, waiting_world, locked_world,
}

background_while_locked_example :
    let (result, w') = process_approval_background services "j1" "fine" "r" locked_world in
    (result ≡ ok tt)
    × (w'.hashes ≡ locked_world.hashes)
    × (w'.strings ≡ locked_world.strings)
    × (w'.started ≡ [])
background_while_locked_example =
    background_while_locked services "j1" "fine" "r" locked_world "processing" refl

background_releases_example :
    let (result, w') = process_approval_background services "j1" "fine" "r" waiting_world in
    (result ≡ ok tt)
    × ((k : Key)
        → concrete.get k w'.strings
          ≡ (if key_eq (lock_key "j1") k then none else concrete.get k waiting_world.strings))
background_releases_example =
    background_releases services "j1" "fine" "r" waiting_world refl (λ n. refl)

background_outcome_example :
    Leaves services "j1"
      (some status_processing)
      ("j1" ∷ [])
      (process_approval_background services "j1" "fine" "r" waiting_world).1
unfolding job_key
background_outcome_example =
    background_outcome services "j1" "fine" "r" waiting_world (λ n. refl) refl

denied_found : concrete.hgetall (job_key "j1") denied_world.hashes ≡ some denied_job
unfolding job_key
denied_found = refl

denied_valid : valid_job services (some denied_job) 50 ≡ some denied_job
unfolding valid_job unexpired before_expiry
denied_valid = refl

serve_decision_again_example :
    Leaves services "j1"
      (some status_processing)
      ("j1" ∷ [])
      (serve_decision services "t1" "approved" "fine" "r" denied_world).1
serve_decision_again_example =
    serve_decision_again services "t1" "j1" "fine" "r" denied_job denied_world (λ n. refl) refl refl
      denied_found refl denied_valid refl refl refl

abbrev metadata : DecisionMetadata
metadata = record {
  decision = "approved";
  justification = "fine";
  reviewed_by = "r";
  reviewed_at = "now";
}

process_approval-Decided_example :
    Leaves services "j1"
      (some status_processing)
      ("j1" ∷ [])
      (process_approval services "j1" metadata waiting_world).1
    × ((k : Key)
        → concrete.get k (process_approval services "j1" metadata waiting_world).1.strings
          ≡ (if key_eq (lock_key "j1") k then none else concrete.get k waiting_world.strings))
unfolding job_key
process_approval-Decided_example =
    process_approval-Decided services "j1" metadata waiting_world refl (λ n. refl)

process_approval_twice_example :
    Leaves services "j1"
      (some status_processing)
      ("j1" ∷ [])
      (process_approval services "j1" metadata
        (process_approval services "j1" metadata waiting_world).1).1
unfolding job_key
process_approval_twice_example =
    process_approval_twice services "j1" metadata metadata waiting_world refl (λ n. refl) refl refl
      refl

validate_approval_token-Unexpired_example :
    NoneOr
      (λ h. Mapped "t1" denied_world h × Unexpired services (read_at services "t1" denied_world) h)
      (validate_approval_token services "t1" denied_world).0
validate_approval_token-Unexpired_example =
    validate_approval_token-Unexpired services "t1" denied_world

process_denial_background-Leaves_example :
    ((process_denial_background services "j1" "temp/j1.pdf" "no" "r" waiting_world).0 ≡ ok tt)
    × Leaves services "j1"
        (some status_denied)
        []
        (process_denial_background services "j1" "temp/j1.pdf" "no" "r" waiting_world).1
process_denial_background-Leaves_example =
    process_denial_background-Leaves services "j1" "temp/j1.pdf" "no" "r" waiting_world (λ n. refl)
