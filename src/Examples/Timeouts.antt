-- ===== src/Examples/Timeouts.antt =====
-- The timeout check at concrete inputs.
use equalify_reflow.Prelude.{◌<◌, refl, true, false, some, arith, ◌≡◌}
use equalify_reflow.Errors.{other_error, ok}
use equalify_reflow.Redis.Exec.{World, Exec, pure, raise, ◌>>◌}
use equalify_reflow.Timeout.Worker.{Task, Schedule, Settings, interval, enabled, iteration}
use equalify_reflow.Timeout.Punctual.{Recent, iteration-Recent}
use equalify_reflow.Redis.Concrete.{concrete}
use equalify_reflow.Redis.Keys.{job_key}
use equalify_reflow.Timeout.{process_expired_approvals, process_expired_job}
use equalify_reflow.Timeout.Expiry.{Expired, process_expired_job-Expired}
use equalify_reflow.Timeout.Safety.{awaits, process_expired_approvals-SameJob}
use equalify_reflow.Job.Same.{SameJob, Calm}
use equalify_reflow.Examples.Worlds.{services, expired_world, waiting_world}

denied-Calm : Calm "j1" awaits expired_world
unfolding job_key
denied-Calm = refl

process_expired_approvals-SameJob_example :
    SameJob "j1" expired_world (process_expired_approvals services expired_world).1
process_expired_approvals-SameJob_example =
    process_expired_approvals-SameJob "j1" services expired_world denied-Calm

waiting_awaits : awaits (concrete.hgetall (job_key "j1") waiting_world.hashes) ≡ true
unfolding job_key
waiting_awaits = refl

process_expired_job-Expired_example :
    Expired services "j1" (process_expired_job services "j1" waiting_world)
process_expired_job-Expired_example =
    process_expired_job-Expired services "j1" waiting_world (λ n. refl) waiting_awaits

abbrev pub worker_settings : Settings
worker_settings = record {
  approval_check_interval_seconds = 30;
  temp_cleanup_interval_hours = 1;
  orphan_cleanup_interval_hours = 4;
  metrics_cleanup_interval_hours = 24;
  production = false;
}

-- The check of the approvals is the program's; the other tasks fail.
abbrev pub worker_tasks : Task → Exec concrete (Unit {0})
worker_tasks Task.approval_check = do process_expired_approvals services; pure tt
worker_tasks _ = raise other_error

-- The intervals, in seconds.
intervals_positive : (t : Task) → 0 < interval worker_settings t
unfolding interval
intervals_positive Task.approval_check = omega arith
intervals_positive Task.scaling_metrics = omega arith
intervals_positive _ = omega arith

iteration-Recent_example :
    (st' : Schedule) × (v : World concrete) × (iteration worker_settings worker_tasks 500
        (λ t. 501)
        (λ t. some 480)
        expired_world
      ≡ (ok st', v))
    × ((t : Task) → enabled worker_settings t ≡ true → Recent worker_settings 500 t st')
iteration-Recent_example =
    iteration-Recent worker_settings worker_tasks 500 (λ t. 501) intervals_positive
      (λ t. omega arith) (λ t. some 480) expired_world
