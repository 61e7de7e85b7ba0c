-- ===== src/Pii/Cleared.antt =====
-- What a worker starts.
use equalify_reflow.Prelude.{
  suc, String, Bool, true, false, Option, none, some, List, [], ◌∷◌, ◌≡◌, refl, sym, subst, inl,
  inr, Bool-cases, Option-cases,
}
use equalify_reflow.Errors.{ok, other_error}
use equalify_reflow.Redis.{Redis}
use equalify_reflow.Redis.Keys.{Key}
use equalify_reflow.Redis.Exec.{World, Exec, call, pure, raise, continue}
use equalify_reflow.Redis.Frames.{continue-rel, handle-rel}
use equalify_reflow.Queue.{enqueue, dequeue, popped, parsed, validated}
use equalify_reflow.Approval.{Services}
use equalify_reflow.Pii.{PiiQueuePayload, Scanner, scan, pii_queue, process_pii_job}
use equalify_reflow.Pii.Worker.{Payloads, serve_payload, serve_dequeued, iterate, break_if, start}
use equalify_reflow.Pii.Starts.{process_pii_job-started}

-- Each of the jobs has a payload whose scan found no personal data.
abbrev pub Cleared : Scanner → List String → Type 0
Cleared p [] = Unit {0}
Cleared p (job_id ∷ jobs) =
    ((job : PiiQueuePayload) × (job.job_id ≡ job_id) × (scan p job ≡ ok none)) × Cleared p jobs

-- A worker's step keeps that.
record Clears (p : Scanner) {r : Redis} (w w' : World r) : Type 0 where
  keeps : Cleared p w.started → Cleared p w'.started

Clears-same : (p : Scanner) {r : Redis} (w w' : World r) → w'.started ≡ w.started → Clears p w w'
Clears-same p w w' e = record { keeps = λ c. subst (Cleared p) (sym e) c }

Clears-trans :
    (p : Scanner) {r : Redis} (u v w : World r) → Clears p u v → Clears p v w → Clears p u w
Clears-trans p u v w a b = record { keeps = λ c. b.keeps (a.keeps c) }

Clears-refl : (p : Scanner) {r : Redis} (w : World r) → Clears p w w
Clears-refl p w = record { keeps = λ c. c }

call-same :
    {r : Redis} {A : Type 0} (op : World r → A × World r) (w : World r)
    → ((v : World r) → (op v).1.started ≡ v.started)
    → (call op w).1.started ≡ w.started
unfolding call
call-same op w same = elim (Bool-cases (w.faults w.calls)) [
  | inl e ↦ rw (e) refl
  | inr e ↦ rw (e) (same (record w { calls = suc w.calls }))
]

module _ {r : Redis} (s : Services) (p : Scanner) (q : Payloads) where
  popped-same : (o : Option (String × r.Lists)) (w : World r) → (popped o w).1.started ≡ w.started
  unfolding popped
  popped-same none w = refl
  popped-same (some (v, lists)) w = refl

  parsed-same : (o : Option String) (w : World r) → (parsed q.loads o w).1.started ≡ w.started
  unfolding parsed validated
  parsed-same none w = refl
  parsed-same (some text) w = elim (Option-cases (q.loads text)) [
    | inl e ↦ rw (e) refl
    | inr (json, e) ↦ rw (e) refl
  ]

  process-Clears : (job : PiiQueuePayload) (w : World r) → Clears p w (process_pii_job s p job w).1
  process-Clears job w = record {
    keeps = λ c. elim (process_pii_job-started s p job w) [
      | inl same ↦ subst (Cleared p) (sym same) c
      | inr (clean, once) ↦ subst (Cleared p) (sym once) ((job, refl, clean), c)
    ];
  }

  enqueue-Clears :
      (queue : Key) (payload : String) (w : World r) → Clears p w (enqueue queue payload w).1
  unfolding enqueue call
  enqueue-Clears queue payload w = elim (Bool-cases (w.faults w.calls)) [
    | inl e ↦ rw (e) (record { keeps = λ c. c })
    | inr e ↦ rw (e) (record { keeps = λ c. c })
  ]

  dequeue-Clears : (queue : Key) (w : World r) → Clears p w (dequeue q.loads queue w).1
  unfolding dequeue
  dequeue-Clears queue w =
      let take : Exec r (Option String) = call λ v. popped (r.rpop queue v.lists) v in
      handle-rel (Clears p) (Clears-trans p) (λ e. raise other_error) w
        (continue (parsed q.loads) (take w))
        (continue-rel (Clears p) (Clears-trans p) (parsed q.loads) w (take w)
          (Clears-same p w _
            (call-same (λ v. popped (r.rpop queue v.lists) v) w (λ v. popped-same _ v)))
          (λ o v. Clears-same p v _ (parsed-same o v)))
        (λ e v. Clears-refl p v)

  serve_payload-Clears :
      (shutdown : Bool) (o : Option PiiQueuePayload) (w : World r)
      → Clears p w (serve_payload s p q shutdown o w).1
  unfolding serve_payload
  serve_payload-Clears shutdown none w = Clears-refl p w
  serve_payload-Clears true (some job) w =
      continue-rel (Clears p) (Clears-trans p) (λ a. pure true) w
        (enqueue pii_queue (q.dumps job) w) (enqueue-Clears pii_queue (q.dumps job) w)
        (λ a v. Clears-refl p v)
  serve_payload-Clears false (some job) w =
      continue-rel (Clears p) (Clears-trans p) (λ a. pure false) w (process_pii_job s p job w)
        (process-Clears job w) (λ a v. Clears-refl p v)

  serve_dequeued-Clears :
      (shutdown : Bool) (o : Option q.Json) (w : World r)
      → Clears p w (serve_dequeued s p q shutdown o w).1
  unfolding serve_dequeued
  serve_dequeued-Clears shutdown none w = Clears-refl p w
  serve_dequeued-Clears shutdown (some json) w =
      serve_payload-Clears shutdown (q.model_validate json) w

  iterate-Clears : (shutdown : Bool) (w : World r) → Clears p w (iterate s p q shutdown w).1
  unfolding iterate
  iterate-Clears shutdown w =
      let rest = serve_dequeued s p q shutdown in
      handle-rel (Clears p) (Clears-trans p) (λ e. pure false) w
        (continue rest (dequeue q.loads pii_queue w))
        (continue-rel (Clears p) (Clears-trans p) rest w (dequeue q.loads pii_queue w)
          (dequeue-Clears pii_queue w) (serve_dequeued-Clears shutdown))
        (λ e v. Clears-refl p v)

  break_if-Clears :
      (done : Bool) (rest : Exec r (Unit {0})) (w : World r)
      → Clears p w (rest w).1
      → Clears p w (break_if s p q done rest w).1
  unfolding break_if
  break_if-Clears true rest w h = Clears-refl p w
  break_if-Clears false rest w h = h

  start-Clears : (shutdowns : List Bool) (w : World r) → Clears p w (start s p q shutdowns w).1
  unfolding start
  start-Clears [] w = Clears-refl p w
  start-Clears (shutdown ∷ shutdowns) w =
      continue-rel (Clears p) (Clears-trans p) _ w (iterate s p q shutdown w)
        (iterate-Clears shutdown w)
        (λ done v. break_if-Clears done (start s p q shutdowns) v (start-Clears shutdowns v))

  -- However long a worker runs, whatever calls of Redis fail and whatever stands in the queue: every
  -- job that is processed has a payload whose text was extracted and in which no personal data was
  -- found, if that held of the jobs started before.
  pub start-Cleared :
      (shutdowns : List Bool) (w : World r)
      → Cleared p w.started
      → Cleared p (start s p q shutdowns w).1.started
  start-Cleared shutdowns w c = (start-Clears shutdowns w).keeps c
