-- ===== src/Approval/Denial.antt =====
-- The background part of a denial (src/services/approval_service.py).
use equalify_reflow.Prelude.{String, List, [], ◌∷◌, Bool, some, ◌≡◌, refl}
use equalify_reflow.Errors.{Result, ok, err}
use equalify_reflow.Redis.{Redis}
use equalify_reflow.Redis.Exec.{World, IsUp}
use equalify_reflow.Job.{status_denied}
use equalify_reflow.Job.Fields.{structure, serialize_fields}
use equalify_reflow.Cleanup.{after_delete, cleanup_job_files}
use equalify_reflow.Approval.{Services}
use equalify_reflow.Approval.Background.{decision_metadata, process_denial_background}
use equalify_reflow.Approval.Lock.{untracked, untrack_lem}
use equalify_reflow.Approval.Outcome.{Leaves, update-IsUp}

module _ {r : Redis} (s : Services) (job_id s3_key x by : String) where
  -- The world in which the file was deleted, or not.
  abbrev with_deleted : List String → World r → World r
  with_deleted d w = record w { deleted = d }

  after_delete_shape :
      (y : Result (Unit {0})) (w : World r)
      → (b : Bool) × (d : List String) × (after_delete s3_key y w ≡ (ok b, with_deleted d w))
  unfolding after_delete
  after_delete_shape (ok u) w = (_, _, refl)
  after_delete_shape (err e) w = (_, _, refl)

  -- While Redis answers, the background part of a denial makes the job `denied`, whatever its
  -- status is and whether or not its file can be deleted, starts no processing and does not raise.
  pub process_denial_background-Leaves :
      (w : World r)
      → IsUp w
      → ((process_denial_background s job_id s3_key x by w).0 ≡ ok tt)
        × Leaves s job_id
            (some status_denied)
            w.started
            (process_denial_background s job_id s3_key x by w).1
  unfolding process_denial_background cleanup_job_files serialize_fields
  process_denial_background-Leaves w up =
      let (b, d, shape) = after_delete_shape (s.delete_object s3_key) (untracked job_id w) in
      let v : World r = with_deleted d (untracked job_id w) in
      let (done, denied, same, still) =
        update-IsUp s job_id status_denied
          (("denial_decision", structure (s.dumps (decision_metadata s "denied" x by v))) ∷ []) v up
          refl in
      rw (untrack_lem job_id w) (rw shape (rw done (refl, (denied, same))))
