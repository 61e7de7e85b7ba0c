-- ===== src/Examples/Queues.antt =====
-- A queue at a concrete input.
use equalify_reflow.Prelude.{String, ◌≡◌, Option, none, some, [], ◌∷◌, refl, str_eq, if◌then◌else◌}
use equalify_reflow.Errors.{ok, err, other_error}
use equalify_reflow.Redis.Keys.{Key, queue}
use equalify_reflow.Queue.Fifo.{enqueue_all, dequeue_all, enqueue_all-dequeue_all}
use equalify_reflow.Examples.Worlds.{no_data}

abbrev pub pii_queue : Key
pii_queue = record { template = queue; name = "pii" }

-- The text "?" is no JSON.
abbrev pub loads : String → Option String
loads text = if str_eq text "?" then none else some text

enqueue_all-dequeue_all_example :
    dequeue_all pii_queue loads 4 (enqueue_all pii_queue ("1" ∷ "?" ∷ "2" ∷ []) no_data).1
    ≡ ok (some "1") ∷ err other_error ∷ ok (some "2") ∷ ok none ∷ []
enqueue_all-dequeue_all_example =
    enqueue_all-dequeue_all pii_queue loads ("1" ∷ "?" ∷ "2" ∷ []) 1 no_data refl (λ n. refl)
