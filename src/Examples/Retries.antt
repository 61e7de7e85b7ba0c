-- ===== src/Examples/Retries.antt =====
-- Retries at concrete inputs.
use equalify_reflow.Prelude.{ℕ, ◌==◌, if◌then◌else◌, arith}
use equalify_reflow.Errors.{Result, ok, err, network_error}
use equalify_reflow.Retry.{retry_with_backoff}
use equalify_reflow.Retry.Laws.{Stopped, retry_with_backoff-Decides}
use equalify_reflow.Storage.{s3_policy}

-- The network fails once.
abbrev pub second_time : ℕ → Result ℕ
second_time n = if n == 1 then err network_error else ok n

retry_with_backoff-Decides_example :
    Stopped second_time 3 1 (retry_with_backoff second_time s3_policy)
retry_with_backoff-Decides_example = retry_with_backoff-Decides second_time s3_policy (omega arith)
