-- ===== src/Timeout/Worker.antt =====
-- The schedule of the timeout worker (src/workers/timeout_worker.py). A task is any action; the
-- readings of the clock, in seconds, are arguments. Telemetry and the sleeps are left out. Every task passes over
-- what it raises, so the loop's own handler is left out too.
use equalify_reflow.Prelude.{
  ℕ, ◌+◌, ◌*◌, Bool, true, false, ◌&&◌, Option, none, some, List, [], ◌∷◌, leb, if◌then◌else◌,
}
use equalify_reflow.Redis.{Redis}
use equalify_reflow.Redis.Exec.{Exec, pure, catch, ◌>>=◌, ◌>>◌}
use equalify_reflow.Metrics.{increment_metric}

pub data Task : Type 0 where
  approval_check temp_cleanup debug_cleanup orphan_cleanup metrics_cleanup : Task
  scaling_metrics : Task

abbrev pub same_task : Task → Task → Bool
same_task approval_check approval_check = true
same_task temp_cleanup temp_cleanup = true
same_task debug_cleanup debug_cleanup = true
same_task orphan_cleanup orphan_cleanup = true
same_task metrics_cleanup metrics_cleanup = true
same_task scaling_metrics scaling_metrics = true
same_task _ _ = false

-- The attribute with the last run of each task.
abbrev pub Schedule : Type 0
Schedule = Task → Option ℕ

pub record Settings : Type 0 where
  pub approval_check_interval_seconds : ℕ
  pub temp_cleanup_interval_hours : ℕ
  pub orphan_cleanup_interval_hours : ℕ
  pub metrics_cleanup_interval_hours : ℕ
  pub production : Bool

unfoldable pub interval : Settings → Task → ℕ
interval c approval_check = c.approval_check_interval_seconds
interval c temp_cleanup = c.temp_cleanup_interval_hours * 3600
interval c debug_cleanup = c.temp_cleanup_interval_hours * 3600
interval c orphan_cleanup = c.orphan_cleanup_interval_hours * 3600
interval c metrics_cleanup = c.metrics_cleanup_interval_hours * 3600
interval c scaling_metrics = 60

-- The last task runs in production only.
unfoldable pub enabled : Settings → Task → Bool
enabled c scaling_metrics = c.production
enabled c _ = true

-- A reading before the last run gives a negative time, which is too short.
unfoldable pub should_run_task : (last_run : Option ℕ) (interval_seconds current_time : ℕ) → Bool
should_run_task none interval_seconds current_time = true
should_run_task (some last) interval_seconds current_time =
    leb (last + interval_seconds) current_time

unfoldable pub mark : Task → ℕ → Schedule → Schedule
mark t now st = λ u. if same_task t u then some now else st u

module _ {r : Redis} where
  -- The handlers of the tasks: all but the one that publishes the scaling metrics count the error.
  unfoldable pub after_error : Task → Exec r (Unit {0})
  after_error scaling_metrics = pure tt
  after_error _ = increment_metric "worker_task_errors" 1

  -- The `_run_…` methods and `_publish_scaling_metrics`: what a task raises is passed over.
  unfoldable pub run_task : Task → Exec r (Unit {0}) → Exec r (Unit {0})
  run_task t task = catch task (λ e. after_error t)

  -- `check` is the reading of the test, `now` that of the iteration.
  unfoldable pub run_if_due :
      (c : Settings) (tasks : Task → Exec r (Unit {0})) (now : ℕ) (check : Task → ℕ) (t : Task)
      → Schedule
      → Exec r Schedule
  run_if_due c tasks now check t st =
      if enabled c t && should_run_task (st t) (interval c t) (check t)
      then (do run_task t (tasks t); pure (mark t now st))
      else pure st

  unfoldable pub run_due :
      (c : Settings) (tasks : Task → Exec r (Unit {0})) (now : ℕ) (check : Task → ℕ)
      → List Task
      → Schedule
      → Exec r Schedule
  run_due c tasks now check [] st = pure st
  run_due c tasks now check (t ∷ ts) st = do
    st' ← run_if_due c tasks now check t st
    run_due c tasks now check ts st'

  -- The tasks of an iteration, in order.
  unfoldable pub iteration :
      (c : Settings) (tasks : Task → Exec r (Unit {0})) (now : ℕ) (check : Task → ℕ)
      → Schedule
      → Exec r Schedule
  iteration c tasks now check = run_due c tasks now check (
      approval_check ∷ temp_cleanup ∷ debug_cleanup ∷ orphan_cleanup ∷ metrics_cleanup
      ∷ scaling_metrics ∷ [])
