-- ===== src/Edits/Replay.antt =====
-- The record of the changes that the tool `str_replace` makes (src/services/pipeline_viewer.py).
use Prim.Native.Nat.{ℕ}
use equalify_reflow.Prelude.{
  ◌≡◌, ◌≢◌, refl, ap, ◌∙◌, List, [], ◌∷◌, ◌++◌, zero, suc, Text, count, replace_first, Option, none,
  some, Bool-cases, inl, inr, ◌==◌, if◌then◌else◌,
}
use equalify_reflow.Edits.{Draft, DocumentChange, str_replace, replace_counted}

some_cancel : {s t : Text} → some s ≡ some t → s ≡ t
some_cancel h = cc

none-ne-some : {s : Text} → ◌≢◌ {A = Option Text} none (some s)
none-ne-some h = cc

-- The recorded changes made again, in their order; each must name a text that is counted once.
unfoldable pub replay : List DocumentChange → Text → Option Text
replay [] t = some t
replay (c ∷ cs) t =
    let rest = replay cs (replace_first c.old_text c.new_text t) in
    if count c.old_text t == 1 then rest else none

pub replay-append :
    (cs ds : List DocumentChange) (t : Text) {u : Text}
    → replay cs t ≡ some u
    → replay (cs ++ ds) t ≡ replay ds u
unfolding replay
replay-append [] ds t h = ap (replay ds) (some_cancel h)
replay-append (c ∷ cs) ds t h = elim (Bool-cases (count c.old_text t == 1)) [
  | inl one ↦ rw one (replay-append cs ds (replace_first c.old_text c.new_text t) (rw one at h))
  | inr other ↦ absurd (let n = rw other at h in none-ne-some n)
]

-- The draft is what the recorded changes make of the original.
abbrev pub Recorded : Text → Draft → Type 0
Recorded original d = replay d.changes original ≡ some d.current

replace_counted-Recorded :
    (n page : ℕ) (old_text new_text reasoning stage original : Text) (d : Draft)
    → count old_text d.current ≡ n
    → Recorded original d
    → Recorded original (replace_counted n page old_text new_text reasoning stage d).1
unfolding replace_counted replay
replace_counted-Recorded zero page old new reasoning stage original d e h = h
replace_counted-Recorded (suc zero) page old new reasoning stage original d e h =
    replay-append d.changes _ original h ∙ rw e refl
replace_counted-Recorded (suc (suc n)) page old new reasoning stage original d e h = h

pub str_replace-Recorded :
    (page : ℕ) (old_text new_text reasoning stage original : Text) (d : Draft)
    → Recorded original d
    → Recorded original (str_replace page old_text new_text reasoning stage d).1
unfolding str_replace
str_replace-Recorded page old new reasoning stage original d h =
    replace_counted-Recorded (count old d.current) page old new reasoning stage original d refl h

pub nothing : (original : Text) → Recorded original (record { current = original; changes = [] })
unfolding replay
nothing original = refl
