-- ===== src/Timeout/Punctual.antt =====
-- No task of the timeout worker is late after an iteration.
use equalify_reflow.Prelude.{
  ℕ, ◌+◌, ◌≤◌, ◌<◌, String, true, false, ◌&&◌, Option, none, some, List, [], ◌∷◌, ◌≡◌, refl, sym,
  subst, inl, inr, ◌⊎◌, arith, Bool-cases,
}
use equalify_reflow.Errors.{Result, ok, err}
use equalify_reflow.Redis.{Redis}
use equalify_reflow.Redis.Exec.{World, Exec, pure, handle}
use equalify_reflow.Metrics.{increment_metric}
use equalify_reflow.Timeout.Worker.{
  Task, approval_check, temp_cleanup, debug_cleanup, orphan_cleanup, metrics_cleanup,
  scaling_metrics, same_task, Schedule, Settings, interval, enabled, should_run_task, after_error,
  run_task, mark, run_if_due, run_due, iteration,
}

-- The last run of a task is less than its interval ago.
abbrev pub Recent : Settings → (now : ℕ) → Task → Schedule → Type 0
Recent c now t st = (last : ℕ) × (st t ≡ some last) × (now < last + interval c t)

abbrev Among : Task → List Task → Type 0
Among t [] = ⊥
Among t (u ∷ us) = (u ≡ t) ⊎ Among t us

same_task_refl : (t : Task) → same_task t t ≡ true
same_task_refl Task.approval_check = refl
same_task_refl _ = refl

passed_over :
    {r : Redis} (x : Result (Unit {0}) × World r)
    → (v : World r) × (handle (λ e. pure tt) x ≡ (ok tt, v))
passed_over (ok u, v) = (v, refl)
passed_over (err e, v) = (v, refl)

increment_ok :
    {r : Redis} (name : String) (n : ℕ) (w : World r)
    → (v : World r) × (increment_metric name n w ≡ (ok tt, v))
unfolding increment_metric
increment_ok name n w = passed_over _

after_error_ok :
    {r : Redis} (t : Task) (w : World r) → (v : World r) × (after_error t w ≡ (ok tt, v))
unfolding after_error
after_error_ok scaling_metrics w = (w, refl)
after_error_ok approval_check w = increment_ok "worker_task_errors" 1 w
after_error_ok temp_cleanup w = increment_ok "worker_task_errors" 1 w
after_error_ok debug_cleanup w = increment_ok "worker_task_errors" 1 w
after_error_ok orphan_cleanup w = increment_ok "worker_task_errors" 1 w
after_error_ok metrics_cleanup w = increment_ok "worker_task_errors" 1 w

handled_ok :
    {r : Redis} (t : Task) (x : Result (Unit {0}) × World r)
    → (v : World r) × (handle (λ e. after_error t) x ≡ (ok tt, v))
handled_ok t (ok u, v) = (v, refl)
handled_ok t (err e, v) = after_error_ok t v

-- A task that is not due has run a short time ago.
not_due :
    (c : Settings) (t : Task) (o : Option ℕ) (now check : ℕ)
    → now ≤ check
    → should_run_task o (interval c t) check ≡ false
    → (last : ℕ) × (o ≡ some last) × (now < last + interval c t)
unfolding should_run_task
not_due c t none now check later e = cc
not_due c t (some last) now check later e = (last, refl, ground arith)

module _ {r : Redis} (c : Settings) (tasks : Task → Exec r (Unit {0})) (now : ℕ) (check : Task → ℕ)
    (positive : (t : Task) → 0 < interval c t) (later : (t : Task) → now ≤ check t) where
  -- A step ends with a schedule in which its task is not late, and no other is later than before.
  abbrev Steps : List Task → Schedule → Result Schedule × World r → Type 0
  Steps ts st x =
      (st' : Schedule) × (v : World r) × (x ≡ (ok st', v))
      × ((t : Task) → enabled c t ≡ true → Among t ts → Recent c now t st')
      × ((u : Task) → Recent c now u st → Recent c now u st')

  run_if_due-Steps :
      (t : Task) (st : Schedule) (w : World r)
      → (st' : Schedule) × (v : World r) × (run_if_due c tasks now check t st w ≡ (ok st', v))
        × (enabled c t ≡ true → Recent c now t st')
        × ((u : Task) → Recent c now u st → Recent c now u st')
  unfolding run_if_due run_task mark
  run_if_due-Steps t st w =
      elim (Bool-cases (enabled c t && should_run_task (st t) (interval c t) (check t))) [
        | inl e ↦
            let (v, done) = handled_ok t (tasks t w) in
            rw (e, done)
              (
                mark t now st,
                v,
                refl,
                λ on. (now, rw (same_task_refl t) refl, omega (arith, positive t)),
                λ u h. elim (Bool-cases (same_task t u)) [
                  | inl s ↦ (now, rw (s) refl, omega (arith, positive u))
                  | inr s ↦ let (last, is, h') = h in (last, rw (s) is, h')
                ],
              )
        | inr e ↦ rw (e) (
          st,
          w,
          refl,
          λ on. not_due c t (st t) now (check t) (later t) (ground (arith, e, on)),
          λ u h. h,
        )
      ]

  run_due-Steps :
      (ts : List Task) (st : Schedule) (w : World r)
      → Steps ts st (run_due c tasks now check ts st w)
  unfolding run_due
  run_due-Steps [] st w = (st, w, refl, λ t on h. absurd h, λ u h. h)
  run_due-Steps (t ∷ ts) st w =
      let (st1, v, first, own, others) = run_if_due-Steps t st w in
      let (st2, u, rest, these, keeps) = run_due-Steps ts st1 v in
      (
        st2,
        u,
        rw (first) rest,
        λ i on h. elim h [
          | inl same ↦ keeps i (
              subst (λ j. Recent c now j st1) same
                (own (subst (λ j. enabled c j ≡ true) (sym same) on)))
          | inr there ↦ these i on there
        ],
        λ i h. keeps i (others i h),
      )

  Among-all :
      (t : Task)
      → Among t (
          Task.approval_check ∷ Task.temp_cleanup ∷ Task.debug_cleanup ∷ Task.orphan_cleanup
          ∷ Task.metrics_cleanup ∷ Task.scaling_metrics ∷ [])
  Among-all Task.approval_check = inl refl
  Among-all Task.temp_cleanup = inr (inl refl)
  Among-all Task.debug_cleanup = inr (inr (inl refl))
  Among-all Task.orphan_cleanup = inr (inr (inr (inl refl)))
  Among-all Task.metrics_cleanup = inr (inr (inr (inr (inl refl))))
  Among-all Task.scaling_metrics = inr (inr (inr (inr (inr (inl refl)))))

  -- Whatever the tasks raise and whatever calls of Redis fail, an iteration of the worker goes
  -- through all its tasks: after it, the last run of every task (of the publishing of the metrics in
  -- production) is less than the interval of the task before the start of the iteration, or at it.
  -- The intervals are positive, and the tests read the clock after the start of the iteration.
  pub iteration-Recent :
      (st : Schedule) (w : World r)
      → (st' : Schedule) × (v : World r) × (iteration c tasks now check st w ≡ (ok st', v))
        × ((t : Task) → enabled c t ≡ true → Recent c now t st')
  unfolding iteration
  iteration-Recent st w =
      let (st', v, done, recent, keeps) = run_due-Steps _ st w in
      (st', v, done, λ t on. recent t on (Among-all t))
