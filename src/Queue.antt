-- ===== src/Queue.antt =====
-- Queues and timeout tracking in Redis (src/services/queue_service.py). Payloads are JSON texts; the
-- parse of a text is an argument. The timeouts are those of type "approval".
pub mod Fifo
use equalify_reflow.Prelude.{ℕ, String, Bool, false, not, Option, none, some, List, []}
use equalify_reflow.Errors.{other_error}
use equalify_reflow.Redis.{Redis, is_none}
use equalify_reflow.Redis.Keys.{Key, timeout_key}
use equalify_reflow.Redis.Exec.{World, Exec, pure, raise, call, catch, ◌>>=◌}

module _ {r : Redis} where
  -- LPUSH of the payload's JSON text.
  unfoldable pub enqueue : (queue : Key) (payload_json : String) → Exec r (Unit {0})
  enqueue queue payload_json =
      catch (call λ w. (tt, record w { lists = r.lpush queue payload_json w.lists }))
        λ e. raise other_error

  unfoldable pub popped : Option (String × r.Lists) → World r → Option String × World r
  popped none w = (none, w)
  popped (some (v, lists)) w = (some v, record w { lists = lists })

  unfoldable pub validated : {J : Type 0} → Option J → Exec r (Option J)
  validated none = raise other_error
  validated (some payload) = pure (some payload)

  -- An absent payload is a timeout; one that is not JSON raises, and is gone from the queue.
  unfoldable pub parsed :
      {J : Type 0} → (loads : String → Option J) → Option String → Exec r (Option J)
  parsed loads none = pure none
  parsed loads (some text) = validated (loads text)

  -- BRPOP takes from the tail.
  unfoldable pub dequeue :
      {J : Type 0} → (loads : String → Option J) → (queue : Key) → Exec r (Option J)
  dequeue loads queue =
      catch (do result ← call λ w. popped (r.rpop queue w.lists) w; parsed loads result)
        λ e. raise other_error

  -- `expires_at` in ticks.
  unfoldable pub add_to_timeout_tracking :
      (job_id : String) (expires_at : ℕ) (timeout_type : String) → Exec r (Unit {0})
  add_to_timeout_tracking job_id expires_at timeout_type =
      catch
        (call λ w.
          (tt, record w { zsets = r.zadd (timeout_key timeout_type) job_id expires_at w.zsets }))
        λ e. raise other_error

  -- The clock is read before the query; an error answers the empty list.
  unfoldable pub get_expired_timeouts : (timeout_type : String) → Exec r (List (String × ℕ))
  get_expired_timeouts timeout_type =
      catch
        (λ w.
          call (λ v. (r.zrangebyscore (timeout_key timeout_type) 0 (w.now w.calls) v.zsets, v)) w)
        λ e. pure []

  -- ZREM answers whether the member was there; an error answers false.
  unfoldable pub remove_from_timeout_tracking : (job_id timeout_type : String) → Exec r Bool
  remove_from_timeout_tracking job_id timeout_type =
      catch
        (call λ w. (
          not (is_none (r.zscore (timeout_key timeout_type) job_id w.zsets)),
          record w { zsets = r.zrem (timeout_key timeout_type) job_id w.zsets },
        ))
        λ e. pure false
