-- ===== src/S3Cleanup/Batches.antt =====
-- The requests that the deletion of a job's files makes (src/services/s3_cleanup_service.py).
use Prim.Native.String.{◌++◌ as joined}
use equalify_reflow.Prelude.{
  ℕ, zero, suc, ◌+◌, ◌-◌, ◌≤◌, ◌<◌, ◌≡◌, String, List, [], ◌∷◌, ◌++◌, length, arith, refl, sym, ◌∙◌,
  ap, ap₂, length-append, take, drop, take-drop,
}
use mathlib.Core.List.{append-nil, append_assoc}
use equalify_reflow.Errors.{ok}
use equalify_reflow.S3Cleanup.{
  S3Client, batches, batch_size, collected, delete_batches, delete_listed,
  cleanup_temp_files_for_job,
}

length-take_bound : (n : ℕ) (l : List String) → length (take n l) ≤ n
length-take_bound zero l = omega arith
length-take_bound (suc n) [] = omega arith
length-take_bound (suc n) (x ∷ l) = let h = length-take_bound n l in ground arith

length-drop_bound : (n : ℕ) (l : List String) → length (drop n l) ≤ length l - n
length-drop_bound zero l = omega arith
length-drop_bound (suc n) [] = ground arith
length-drop_bound (suc n) (x ∷ l) = let h = length-drop_bound n l in ground arith

-- Every batch has between one and `size` keys.
abbrev pub AllSmall : (size : ℕ) → List (List String) → Type 0
AllSmall size [] = Unit {0}
AllSmall size (b ∷ bs) = (1 ≤ length b) × (length b ≤ size) × AllSmall size bs

batches-AllSmall :
    (size fuel : ℕ) (l : List String) → 0 < size → AllSmall size (batches size fuel l)
unfolding batches
batches-AllSmall size zero l h = tt
batches-AllSmall size (suc fuel) [] h = tt
batches-AllSmall zero (suc fuel) (x ∷ l) h = absurd (omega arith)
batches-AllSmall (suc n) (suc fuel) (x ∷ l) h = (
  ground arith,
  length-take_bound (suc n) (x ∷ l),
  batches-AllSmall (suc n) fuel (drop (suc n) (x ∷ l)) h,
)

collected-batches :
    (size fuel : ℕ) (l : List String)
    → 0 < size
    → length l ≤ fuel
    → collected (batches size fuel l) ≡ l
unfolding batches collected
collected-batches size zero [] h f = refl
collected-batches size zero (x ∷ l) h f = absurd (ground arith)
collected-batches size (suc fuel) [] h f = refl
collected-batches size (suc fuel) (x ∷ l) h f =
    let shorter = length-drop_bound size (x ∷ l) in
    ap (λ t. take size (x ∷ l) ++ t)
      (collected-batches size fuel (drop size (x ∷ l)) h (ground arith))
    ∙ take-drop size (x ∷ l)

-- The requests of a deletion are batches of one to 1000 keys, and contain every listed key once,
-- in the order of the listing: the loop ends with the last key.
pub batches_of_deletion :
    (pages : List (List String))
    → let bs = batches batch_size (length (collected pages)) (collected pages) in
      AllSmall batch_size bs × (collected bs ≡ collected pages)
batches_of_deletion pages =
    let keys = collected pages in
    (
      batches-AllSmall batch_size (length keys) keys (omega arith),
      collected-batches batch_size (length keys) keys (omega arith) (omega arith),
    )

module _ (s3 : S3Client) (all : (b : List String) → s3.delete_objects b ≡ ok b) where
  delete_batches_all :
      (bs : List (List String)) (n : ℕ) (gone : List String)
      → delete_batches s3 bs n gone
        ≡ record { outcome = ok (n + length (collected bs)); deleted = gone ++ collected bs }
  unfolding delete_batches collected
  delete_batches_all [] n gone =
      ap₂ (λ m l. record { outcome = ok m; deleted = l }) (omega arith) (sym (append-nil gone))
  delete_batches_all (b ∷ bs) n gone =
      rw (all b, delete_batches)
        (delete_batches_all bs (n + length b) (gone ++ b)
          ∙ ap₂ (λ m l. record { outcome = ok m; deleted = l })
              (let l = length-append b (collected bs) in omega arith)
              (append_assoc gone b (collected bs)))

  -- If S3 lists the pages of a job's files and deletes what it is asked to, the deletion deletes
  -- exactly the listed files, whatever their number, and returns how many they are.
  cleanup_temp_files_for_job-all :
      (job_id : String) (pages : List (List String))
      → s3.list_objects (joined "temp/" job_id) ≡ ok pages
      → cleanup_temp_files_for_job s3 job_id
        ≡ record { outcome = ok (length (collected pages)); deleted = collected pages }
  unfolding cleanup_temp_files_for_job delete_listed
  cleanup_temp_files_for_job-all job_id pages listed =
      let keys = collected pages in
      let whole = collected-batches batch_size (length keys) keys (omega arith) (omega arith) in
      let number = ap length whole in
      rw listed (
        delete_batches_all (batches batch_size (length keys) keys) 0 []
        ∙ ap₂ (λ m l. record { outcome = ok m; deleted = l }) (omega arith) whole)
