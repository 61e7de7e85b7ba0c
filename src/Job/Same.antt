-- ===== src/Job/Same.antt =====
-- Actions that leave a job's fields alone.
use equalify_reflow.Prelude.{
  ℕ, suc, String, Bool, false, List, Option, ◌≡◌, refl, ◌∙◌, ap, str_eq, Bool-cases, inl, inr,
}
use equalify_reflow.Redis.{Redis, Hash}
use equalify_reflow.Redis.Keys.{job_key}
use equalify_reflow.Redis.Exec.{World, call}
use equalify_reflow.Job.{get_job}
use equalify_reflow.Metrics.{increment_metric}
use equalify_reflow.Job.Fields.{Value}
use equalify_reflow.Job.Service.{emit_job_audit_log}
use equalify_reflow.Job.Laws.{update_job_status-Saved, update_job_status-fault, Saved-others}
use equalify_reflow.Approval.{Services, update}

-- The job's fields are what they were.
pub record SameJob {r : Redis} (j : String) (w w' : World r) : Type 0 where
  pub same : r.hgetall (job_key j) w'.hashes ≡ r.hgetall (job_key j) w.hashes

module _ {r : Redis} (j : String) where
  pub SameJob-trans : (u v w : World r) → SameJob j u v → SameJob j v w → SameJob j u w
  SameJob-trans u v w a b = record { same = b.same ∙ a.same }

  pub SameJob-refl : (w : World r) → SameJob j w w
  SameJob-refl w = record { same = refl }

  pub SameJob-call :
      {A : Type 0} (op : World r → A × World r) (w : World r)
      → ((v : World r) → (op v).1.hashes ≡ v.hashes)
      → SameJob j w (call op w).1
  unfolding call
  SameJob-call op w same = elim (Bool-cases (w.faults w.calls)) [
    | inl down ↦ rw down (record { same = refl })
    | inr up ↦
        rw up
          (record { same = ap (r.hgetall (job_key j)) (same (record w { calls = suc w.calls })) })
  ]

  pub get_job-SameJob : (i : String) (w : World r) → SameJob j w (get_job i w).1
  unfolding get_job
  get_job-SameJob i w = SameJob-call _ w (λ v. refl)

  pub increment_metric-SameJob :
      (name : String) (n : ℕ) (w : World r) → SameJob j w (increment_metric name n w).1
  unfolding increment_metric call
  increment_metric-SameJob name n w = elim (Bool-cases (w.faults w.calls)) [
    | inl down ↦ rw down (record { same = refl })
    | inr up ↦ rw up (elim (Bool-cases (w.faults (suc w.calls))) [
      | inl down ↦ rw down (record { same = refl })
      | inr up' ↦ rw up' (record { same = refl })
    ])
  ]

  pub audit-SameJob : (i : String) (w : World r) → SameJob j w (emit_job_audit_log i w).1
  unfolding emit_job_audit_log call
  audit-SameJob i w = elim (Bool-cases (w.faults w.calls)) [
    | inl down ↦ rw down (record { same = refl })
    | inr up ↦ rw up (record { same = refl })
  ]

  pub update-SameJob :
      (s : Services) (i status : String) (fields : List (String × Value)) (w : World r)
      → str_eq i j ≡ false
      → SameJob j w (update s i status fields w).1
  unfolding update
  update-SameJob s i status fields w other = elim (Bool-cases (w.faults w.calls)) [
    | inl down ↦
        rw
          (update_job_status-fault s.ttls (s.isoformat (w.now w.calls)) (w.now w.calls) i w status
            fields down)
          (record { same = refl })
    | inr up ↦ record {
      same =
          Saved-others i _ _ _ w _
            (update_job_status-Saved s.ttls (s.isoformat (w.now w.calls)) (w.now w.calls) i w status
              fields up).1
            j other;
    }
  ]

-- Jobs of which a test is false keep their fields.
module _ {r : Redis} (j : String) (test : Option Hash → Bool) where
  -- The test is false of the job.
  abbrev pub Calm : World r → Type 0
  Calm w = test (r.hgetall (job_key j) w.hashes) ≡ false

  pub Calm-SameJob : (w w' : World r) → SameJob j w w' → Calm w → Calm w'
  Calm-SameJob w w' k calm = rw k.same calm

  pub record Spared (w w' : World r) : Type 0 where
    pub spares : Calm w → SameJob j w w'

  pub Spared-trans : (u v w : World r) → Spared u v → Spared v w → Spared u w
  Spared-trans u v w a b = record {
    spares = λ calm.
        let first = a.spares calm in
        SameJob-trans j u v w first (b.spares (Calm-SameJob u v first calm));
  }

  pub Spared-SameJob : (w w' : World r) → SameJob j w w' → Spared w w'
  Spared-SameJob w w' k = record { spares = λ calm. k }
