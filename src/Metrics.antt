-- ===== src/Metrics.antt =====
-- Counting (src/services/metrics_service.py). The world records the increments; the retention of
-- the counters, which the second call renews, is left out.
use equalify_reflow.Prelude.{ℕ, String, ◌∷◌}
use equalify_reflow.Redis.{Redis}
use equalify_reflow.Redis.Exec.{Exec, pure, call, catch, ◌>>◌}

-- HINCRBY and EXPIRE; a failure is logged and passed over.
unfoldable pub increment_metric :
    {r : Redis} → (metric_name : String) (value : ℕ) → Exec r (Unit {0})
increment_metric metric_name value =
    catch
      (do
        call λ w. (tt {0}, record w { metrics = (metric_name, value) ∷ w.metrics })
        call λ w. (tt {0}, w))
      λ e. pure tt
