-- ===== src/S3Cleanup/Swept.antt =====
-- What a sweep over the old files deletes and reports (src/services/s3_cleanup_service.py).
use equalify_reflow.Prelude.{
  ℕ, ◌+◌, ◌≡◌, refl, sym, ap, ◌∙◌, Bool, true, false, not, Option, List, [], ◌∷◌, ◌++◌, map, length,
  select, arith, Bool-cases, inl, inr,
}
use mathlib.Core.List.{append-nil, append_assoc}
use equalify_reflow.Errors.{ok}
use equalify_reflow.S3Cleanup.Expired.{
  S3Object, Client, Sweep, no_stats, is_old, old_files, list_temp_files, list_debug_artifacts,
  delete_from_s3, count_deletion, delete_each, sweep_listed, hours_or, or_raise, or_nothing,
  cleanup_expired_temp_files, cleanup_expired_debug_artifacts,
}

abbrev pub concat : List (List S3Object) → List S3Object
concat [] = []
concat (page ∷ pages) = page ++ concat pages

abbrev pub total_size : List S3Object → ℕ
total_size [] = 0
total_size (o ∷ os) = o.size + total_size os

select-append :
    (p : S3Object → Bool) (xs ys : List S3Object) → select p (xs ++ ys) ≡ select p xs ++ select p ys
select-append p [] ys = refl
select-append p (x ∷ xs) ys = elim (Bool-cases (p x)) [
  | inl t ↦ rw t (ap (λ l. x ∷ l) (select-append p xs ys))
  | inr f ↦ rw f (select-append p xs ys)
]

select_yes :
    (p : S3Object → Bool) (x : S3Object) (xs : List S3Object)
    → p x ≡ true
    → select p (x ∷ xs) ≡ x ∷ select p xs
select_yes p x xs h = rw h refl

select_no :
    (p : S3Object → Bool) (x : S3Object) (xs : List S3Object)
    → p x ≡ false
    → select p (x ∷ xs) ≡ select p xs
select_no p x xs h = rw h refl

old_files_lem :
    (hour now hours : ℕ) (pages : List (List S3Object))
    → old_files hour now hours pages ≡ select (is_old hour now hours) (concat pages)
unfolding old_files
old_files_lem hour now hours [] = refl
old_files_lem hour now hours (page ∷ pages) =
    ap (λ l. select (is_old hour now hours) page ++ l) (old_files_lem hour now hours pages)
    ∙ sym (select-append (is_old hour now hours) page (concat pages))

-- What a sweep over these files amounts to: every one is asked to be deleted, once and in order, and
-- the statistics are those of the ones that were and were not deleted.
pub record Swept (s3 : Client) (files : List S3Object) (s : Sweep) : Type 0 where
  pub requested : s.requested ≡ map (λ o. o.key) files
  pub deleted : s.stats.files_deleted ≡ length (select (λ o. delete_from_s3 s3 o.key) files)
  pub freed : s.stats.bytes_freed ≡ total_size (select (λ o. delete_from_s3 s3 o.key) files)
  pub errors : s.stats.errors ≡ length (select (λ o. not (delete_from_s3 s3 o.key)) files)

-- The same, added to what was done before.
record Added (s3 : Client) (files : List S3Object) (s t : Sweep) : Type 0 where
  requested : t.requested ≡ s.requested ++ map (λ o. o.key) files
  deleted :
      t.stats.files_deleted
      ≡ s.stats.files_deleted + length (select (λ o. delete_from_s3 s3 o.key) files)
  freed :
      t.stats.bytes_freed
      ≡ s.stats.bytes_freed + total_size (select (λ o. delete_from_s3 s3 o.key) files)
  errors :
      t.stats.errors ≡ s.stats.errors + length (select (λ o. not (delete_from_s3 s3 o.key)) files)

delete_each-Added :
    (s3 : Client) (files : List S3Object) (s : Sweep) → Added s3 files s (delete_each s3 files s)
unfolding delete_each count_deletion
delete_each-Added s3 [] s = record {
  requested = sym (append-nil s.requested);
  deleted = omega arith;
  freed = omega arith;
  errors = omega arith;
}
delete_each-Added s3 (o ∷ os) s = elim (Bool-cases (delete_from_s3 s3 o.key)) [
  | inl gone ↦
      let a = delete_each-Added s3 os (record {
        stats = count_deletion true o.size s.stats;
        requested = s.requested ++ o.key ∷ [];
      }) in
      let kept = select_yes (λ p. delete_from_s3 s3 p.key) o os gone in
      let more = ap length kept in
      let size = ap total_size kept in
      let same = select_no (λ p. not (delete_from_s3 s3 p.key)) o os (ap not gone) in
      rw gone (record {
        requested = a.requested ∙ append_assoc s.requested (o.key ∷ []) (map (λ p. p.key) os);
        deleted = a.deleted ∙ omega (arith, more);
        freed = a.freed ∙ omega (arith, size);
        errors = a.errors ∙ ap (λ l. s.stats.errors + length l) (sym same);
      })
  | inr failed ↦
      let a = delete_each-Added s3 os (record {
        stats = count_deletion false o.size s.stats;
        requested = s.requested ++ o.key ∷ [];
      }) in
      let same = select_no (λ p. delete_from_s3 s3 p.key) o os failed in
      let kept = select_yes (λ p. not (delete_from_s3 s3 p.key)) o os (ap not failed) in
      let more = ap length kept in
      rw failed (record {
        requested = a.requested ∙ append_assoc s.requested (o.key ∷ []) (map (λ p. p.key) os);
        deleted = a.deleted ∙ ap (λ l. s.stats.files_deleted + length l) (sym same);
        freed = a.freed ∙ ap (λ l. s.stats.bytes_freed + total_size l) (sym same);
        errors = a.errors ∙ omega (arith, more);
      })
]

delete_each-Swept :
    (s3 : Client) (files : List S3Object)
    → Swept s3 files (delete_each s3 files (record { stats = no_stats; requested = [] }))
delete_each-Swept s3 files =
    let a = delete_each-Added s3 files (record { stats = no_stats; requested = [] }) in
    record {
      requested = a.requested;
      deleted = a.deleted ∙ omega arith;
      freed = a.freed ∙ omega arith;
      errors = a.errors ∙ omega arith;
    }

-- If S3 lists the files, each of the two sweeps asks for the deletion of exactly the listed files
-- that were last modified before the retention time, once and in order, whatever the deletions of
-- the others raise and whatever the status of their jobs is, and reports how many of them were
-- deleted, their size, and how many were not.
pub cleanup_expired-Swept :
    (s3 : Client) (retention hour now : ℕ) (hours : Option ℕ)
    (temp_pages debug_pages : List (List S3Object))
    → s3.list_objects "temp/" ≡ ok temp_pages
    → s3.list_objects "debug/" ≡ ok debug_pages
    → Swept s3
        (select (is_old hour now (hours_or hours retention)) (concat temp_pages))
        (cleanup_expired_temp_files s3 retention hour now hours)
      × Swept s3
          (select (is_old hour now (hours_or hours retention)) (concat debug_pages))
          (cleanup_expired_debug_artifacts s3 retention hour now hours)
unfolding cleanup_expired_temp_files cleanup_expired_debug_artifacts list_temp_files
    list_debug_artifacts sweep_listed or_raise or_nothing
cleanup_expired-Swept s3 retention hour now hours temp_pages debug_pages temp debug =
    let h = hours_or hours retention in
    (
      rw (ap (or_raise hour now h) temp) (
          rw (← old_files_lem hour now h temp_pages)
            (delete_each-Swept s3 (old_files hour now h temp_pages))),
      rw (ap (or_nothing hour now h) debug) (
          rw (← old_files_lem hour now h debug_pages)
            (delete_each-Swept s3 (old_files hour now h debug_pages))),
    )
