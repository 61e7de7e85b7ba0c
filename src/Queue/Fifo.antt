-- ===== src/Queue/Fifo.antt =====
-- The order of a queue (src/services/queue_service.py).
use equalify_reflow.Prelude.{
  ℕ, zero, suc, String, Option, none, some, List, [], ◌∷◌, ◌++◌, ◌≡◌, refl, sym, ◌∙◌, ap, ap₂,
  subst, arith, replicate, ◌+◌, length,
}
use mathlib.Core.List.{append-nil, append_assoc}
use equalify_reflow.Errors.{Result, ok, err, other_error}
use equalify_reflow.Redis.{Redis}
use equalify_reflow.Redis.Keys.{Key, key_eq_refl}
use equalify_reflow.Redis.Exec.{World, Exec, call, handle, pure, raise, ◌>>◌}
use equalify_reflow.Redis.Exec.{IsUp}
use equalify_reflow.Queue.{enqueue, dequeue, popped, parsed, validated}

-- The items of a list in the order in which they were put in.
unfoldable pub backwards : List String → List String
backwards [] = []
backwards (x ∷ xs) = backwards xs ++ x ∷ []

backwards-append : (xs ys : List String) → backwards (xs ++ ys) ≡ backwards ys ++ backwards xs
unfolding backwards
backwards-append [] ys = sym (append-nil (backwards ys))
backwards-append (x ∷ xs) ys =
    ap (λ l. l ++ x ∷ []) (backwards-append xs ys)
    ∙ append_assoc (backwards ys) (backwards xs) (x ∷ [])

-- What a worker gets for a payload: an error if it is not JSON.
abbrev pub decoded : {J : Type 0} → Option J → Result (Option J)
decoded none = err other_error
decoded (some payload) = ok (some payload)

abbrev pub answers :
    {J : Type 0} → (loads : String → Option J) → List String → List (Result (Option J))
answers loads [] = []
answers loads (x ∷ xs) = decoded (loads x) ∷ answers loads xs

module _ {r : Redis} (queue : Key) where
  unfoldable pub enqueue_all : List String → Exec r (Unit {0})
  enqueue_all [] = pure tt
  enqueue_all (x ∷ xs) = do enqueue queue x; enqueue_all xs

  -- The answers of `n` workers that take from the queue one after another.
  unfoldable pub dequeue_all :
      {J : Type 0} → (loads : String → Option J) (n : ℕ) → World r → List (Result (Option J))
  dequeue_all loads zero w = []
  dequeue_all loads (suc n) w =
      let (result, w') = dequeue loads queue w in result ∷ dequeue_all loads n w'

  -- The queue has the payloads, the oldest first.
  pub record Waiting (l : List String) (w : World r) : Type 0 where
    pub items : r.items queue w.lists ≡ backwards l
    pub up : IsUp w

  enqueue-Waiting :
      (l : List String) (x : String) (w : World r)
      → Waiting l w
      → ((enqueue queue x w).0 ≡ ok tt) × Waiting (l ++ x ∷ []) (enqueue queue x w).1
  unfolding enqueue call backwards
  enqueue-Waiting l x w h = rw (h.up w.calls) (
    refl,
    record {
      items =
          r.items-lpush queue queue x w.lists
          ∙ rw (key_eq_refl queue, h.items) (sym (backwards-append l (x ∷ [])));
      up = h.up;
    },
  )

  validated_lem :
      {J : Type 0} (o : Option J) (w : World r)
      → handle (λ e. raise other_error) (validated o w) ≡ (decoded o, w)
  unfolding validated
  validated_lem none w = refl
  validated_lem (some payload) w = refl

  dequeue-Waiting :
      {J : Type 0} (loads : String → Option J) (l : List String) (x : String) (w : World r)
      → Waiting (x ∷ l) w
      → ((dequeue loads queue w).0 ≡ decoded (loads x)) × Waiting l (dequeue loads queue w).1
  unfolding dequeue call popped parsed backwards
  dequeue-Waiting loads l x w h =
      let (t, taken, left) = r.rpop-last queue w.lists (backwards l) x h.items in
      rw (h.up w.calls, taken, validated_lem (loads x))
        (refl, record { items = left queue ∙ rw (key_eq_refl queue) refl; up = h.up })

  dequeue_empty :
      {J : Type 0} (loads : String → Option J) (w : World r)
      → Waiting [] w
      → ((dequeue loads queue w).0 ≡ ok none) × Waiting [] (dequeue loads queue w).1
  unfolding dequeue call popped parsed backwards
  dequeue_empty loads w h =
      rw (h.up w.calls, r.rpop-empty queue w.lists h.items)
        (refl, record { items = h.items; up = h.up })

  dequeue_all_empty :
      {J : Type 0} (loads : String → Option J) (n : ℕ) (w : World r)
      → Waiting [] w
      → dequeue_all loads n w ≡ replicate n (ok none)
  unfolding dequeue_all
  dequeue_all_empty loads zero w h = refl
  dequeue_all_empty loads (suc n) w h =
      let (now, still) = dequeue_empty loads w h in
      ap₂ (λ x l. x ∷ l) now (dequeue_all_empty loads n (dequeue loads queue w).1 still)

  dequeue_all-Waiting :
      {J : Type 0} (loads : String → Option J) (l : List String) (n : ℕ) (w : World r)
      → Waiting l w
      → dequeue_all loads (length l + n) w ≡ answers loads l ++ replicate n (ok none)
  unfolding dequeue_all
  dequeue_all-Waiting loads [] n w h =
      let nothing : 0 + n ≡ n = omega arith in rw nothing (dequeue_all_empty loads n w h)
  dequeue_all-Waiting loads (x ∷ l) n w h =
      let one_more : suc (length l) + n ≡ suc (length l + n) = omega arith in
      let (now, rest) = dequeue-Waiting loads l x w h in
      rw one_more
        (ap₂ (λ y ys. y ∷ ys) now (dequeue_all-Waiting loads l n (dequeue loads queue w).1 rest))

  enqueue_all-Waiting :
      (l xs : List String) (w : World r)
      → Waiting l w
      → ((enqueue_all xs w).0 ≡ ok tt) × Waiting (l ++ xs) (enqueue_all xs w).1
  unfolding enqueue_all
  enqueue_all-Waiting l [] w h = (refl, subst (λ m. Waiting m w) (sym (append-nil l)) h)
  enqueue_all-Waiting l (x ∷ xs) w h =
      let (sent, waiting) = enqueue-Waiting l x w h in
      let (done, all) = enqueue_all-Waiting (l ++ x ∷ []) xs (enqueue queue x w).1 waiting in
      rw sent (
        done,
        subst (λ m. Waiting m (enqueue_all xs (enqueue queue x w).1).1) (append_assoc l (x ∷ []) xs)
            all,
      )

  -- While Redis answers, the payloads that are put into an empty queue are taken out by the workers
  -- one after another in the same order, each exactly once, and later workers get nothing. A
  -- payload that is not JSON is an error for the worker that takes it.
  pub enqueue_all-dequeue_all :
      {J : Type 0} (loads : String → Option J) (xs : List String) (n : ℕ) (w : World r)
      → r.items queue w.lists ≡ []
      → IsUp w
      → dequeue_all loads (length xs + n) (enqueue_all xs w).1
        ≡ answers loads xs ++ replicate n (ok none)
  enqueue_all-dequeue_all loads xs n w empty up =
      dequeue_all-Waiting loads xs n (enqueue_all xs w).1
        (enqueue_all-Waiting [] xs w (record { items = unfold backwards in empty; up = up })).1
