-- ===== src/Orphan/Sparing.antt =====
-- What a sweep leaves alone (src/services/orphan_service.py): jobs of which its test is false.
use equalify_reflow.Prelude.{
  ℕ, String, Bool, true, false, Option, List, [], ◌∷◌, ◌++◌, ◌≡◌, refl, ltb, str_eq, eq_iff,
  Bool-cases, inl, inr,
}
use equalify_reflow.Errors.{Exception, ok}
use equalify_reflow.Redis.{Redis, Hash}
use equalify_reflow.Redis.Exec.{World, Exec, continue, ◌>>=◌}
use equalify_reflow.Redis.Frames.{continue-rel, handle-rel}
use equalify_reflow.Job.Service.{list_jobs_updated_before}
use equalify_reflow.Job.Same.{
  SameJob, SameJob-trans, SameJob-refl, SameJob-call, increment_metric-SameJob, Calm, Spared,
  Spared-trans, Spared-SameJob,
}
use equalify_reflow.Metrics.{increment_metric}
use equalify_reflow.Orphan.{scan_pages, list_all_jobs}
use equalify_reflow.Orphan.Sweep.{
  Counts, act_if, check_job, check_jobs, add_metric, report, or_scan, sweep_jobs, failed_sweep,
  sweep,
}

module _ {r : Redis} (j : String) where
  scan_pages-SameJob :
      (pages : List (List String)) (ids : List String) (w : World r)
      → SameJob j w (scan_pages pages ids w).1
  unfolding scan_pages
  scan_pages-SameJob [] ids w = SameJob-refl j w
  scan_pages-SameJob (page ∷ pages) ids w =
      continue-rel (SameJob j) (SameJob-trans j) _ w _ (SameJob-call j _ w (λ v. refl))
        λ u v. scan_pages-SameJob pages (ids ++ page) v

  or_scan-SameJob :
      (scanned : ℕ → List (List String)) (ids : List String) (w : World r)
      → SameJob j w (or_scan scanned ids w).1
  unfolding or_scan list_all_jobs
  or_scan-SameJob scanned [] w =
      handle-rel (SameJob j) (SameJob-trans j) _ w (scan_pages (scanned w.calls) [] w)
        (scan_pages-SameJob (scanned w.calls) [] w) λ e v. SameJob-refl j v
  or_scan-SameJob scanned (i ∷ ids) w = SameJob-refl j w

  indexed-SameJob : (cutoff : ℕ) (w : World r) → SameJob j w (list_jobs_updated_before cutoff w).1
  unfolding list_jobs_updated_before
  indexed-SameJob cutoff w =
      handle-rel (SameJob j) (SameJob-trans j) _ w _ (SameJob-call j _ w (λ v. refl))
        λ e v. SameJob-refl j v

  add_metric-SameJob : (m : String) (n : ℕ) (w : World r) → SameJob j w (add_metric m n w).1
  unfolding add_metric
  add_metric-SameJob m n w = elim (Bool-cases (ltb 0 n)) [
    | inl some_done ↦ rw some_done (increment_metric-SameJob j m n w)
    | inr none_done ↦ rw none_done (SameJob-refl j w)
  ]

  report-SameJob : (m : String) (c : Counts) (w : World r) → SameJob j w (report m c w).1
  unfolding report
  report-SameJob m c w =
      continue-rel (SameJob j) (SameJob-trans j) _ w (add_metric m c.jobs w)
        (add_metric-SameJob m c.jobs w)
        λ u v.
          continue-rel (SameJob j) (SameJob-trans j) _ v
            (add_metric "orphan_cleanup_errors" c.errors v)
            (add_metric-SameJob "orphan_cleanup_errors" c.errors v) λ u' v'. SameJob-refl j v'

  failed_sweep-SameJob : (e : Exception) (w : World r) → SameJob j w (failed_sweep e w).1
  unfolding failed_sweep
  failed_sweep-SameJob e w =
      continue-rel (SameJob j) (SameJob-trans j) _ w (increment_metric "orphan_cleanup_errors" 1 w)
        (increment_metric-SameJob j "orphan_cleanup_errors" 1 w) λ u v. SameJob-refl j v

module _ {r : Redis} (j : String) (hit : Option Hash → Bool) (test act : String → Exec r Bool)
    (test_keeps : (i : String) (w : World r) → SameJob j w (test i w).1)
    (test_fails : (w : World r) → Calm j hit w → (test j w).0 ≡ ok false)
    (act_keeps : (i : String) (w : World r) → str_eq i j ≡ false → SameJob j w (act i w).1) where
  act_if-SameJob :
      (i : String) (c : Counts) (b : Bool) (w : World r)
      → str_eq i j ≡ false
      → SameJob j w (act_if test act i c b w).1
  unfolding act_if
  act_if-SameJob i c false w other = SameJob-refl j w
  act_if-SameJob i c true w other =
      continue-rel (SameJob j) (SameJob-trans j) _ w (act i w) (act_keeps i w other)
        λ s v. SameJob-refl j v

  check_job-other :
      (i : String) (c : Counts) (w : World r)
      → str_eq i j ≡ false
      → SameJob j w (check_job test act i c w).1
  unfolding check_job
  check_job-other i c w other =
      handle-rel (SameJob j) (SameJob-trans j) _ w (continue (act_if test act i c) (test i w))
        (continue-rel (SameJob j) (SameJob-trans j) _ w (test i w) (test_keeps i w)
          λ b v. act_if-SameJob i c b v other)
        λ e v. SameJob-refl j v

  check_job-own :
      (c : Counts) (w : World r) → Calm j hit w → SameJob j w (check_job test act j c w).1
  unfolding check_job act_if
  check_job-own c w calm = rw (test_fails w calm) (test_keeps j w)

  check_job-SameJob :
      (i : String) (c : Counts) (w : World r)
      → Calm j hit w
      → SameJob j w (check_job test act i c w).1
  check_job-SameJob i c w calm = elim (Bool-cases (str_eq i j)) [
    | inl own ↦ rw ((eq_iff i j).0 own) (check_job-own c w calm)
    | inr other ↦ check_job-other i c w other
  ]

  check_jobs-Spared :
      (ids : List String) (c : Counts) (w : World r)
      → Spared j hit w (check_jobs test act ids c w).1
  unfolding check_jobs
  check_jobs-Spared [] c w = Spared-SameJob j hit w w (SameJob-refl j w)
  check_jobs-Spared (i ∷ ids) c w =
      continue-rel (Spared j hit) (Spared-trans j hit) _ w (check_job test act i c w)
        (record { spares = check_job-SameJob i c w }) λ c' v. check_jobs-Spared ids c' v

  sweep_jobs-Spared :
      (m : String) (ids : List String) (w : World r)
      → Spared j hit w (sweep_jobs m test act ids w).1
  unfolding sweep_jobs
  sweep_jobs-Spared m [] w = Spared-SameJob j hit w w (SameJob-refl j w)
  sweep_jobs-Spared m (i ∷ ids) w =
      let start : Counts = record { jobs = 0; errors = 0 } in
      continue-rel (Spared j hit) (Spared-trans j hit) _ w (check_jobs test act (i ∷ ids) start w)
        (check_jobs-Spared (i ∷ ids) start w)
        λ c v. Spared-SameJob j hit v _ (report-SameJob j m c v)

  -- A sweep keeps the fields of a job of which the test is false, whatever the candidates are.
  pub sweep-SameJob :
      (scanned : ℕ → List (List String)) (m : String) (cutoff : ℕ) (w : World r)
      → Calm j hit w
      → SameJob j w (sweep scanned m test act cutoff w).1
  unfolding sweep
  sweep-SameJob scanned m cutoff w =
      (handle-rel (Spared j hit) (Spared-trans j hit) _ w
        (continue (λ ids. or_scan scanned ids >>= sweep_jobs m test act)
          (list_jobs_updated_before cutoff w))
        (continue-rel (Spared j hit) (Spared-trans j hit) _ w (list_jobs_updated_before cutoff w)
          (Spared-SameJob j hit w _ (indexed-SameJob j cutoff w))
          λ ids v.
            continue-rel (Spared j hit) (Spared-trans j hit) _ v (or_scan scanned ids v)
              (Spared-SameJob j hit v _ (or_scan-SameJob j scanned ids v))
              λ candidates u. sweep_jobs-Spared m candidates u)
        λ e v. Spared-SameJob j hit v _ (failed_sweep-SameJob j e v)).spares
