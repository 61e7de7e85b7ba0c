-- ===== src/Redis/Frames.antt =====
-- Relations between the world before an action and after it, along the steps of the action.
use equalify_reflow.Prelude.{Bool, true, false, if◌then◌else◌}
use equalify_reflow.Errors.{Exception, Result, ok, err}
use equalify_reflow.Redis.{Redis}
use equalify_reflow.Redis.Exec.{World, Exec, continue, handle}

module _ {r : Redis} (R : World r → World r → Type 0)
    (trans : (u v w : World r) → R u v → R v w → R u w) where
  -- What each of two steps keeps, their sequence keeps.
  pub continue-rel :
      {A B : Type 0} (f : A → Exec r B) (w : World r) (x : Result A × World r)
      → R w x.1
      → ((a : A) (v : World r) → R v (f a v).1)
      → R w (continue f x).1
  continue-rel f w (ok a, v) k h = trans w v _ k (h a v)
  continue-rel f w (err e, v) k h = k

  -- What the block and its handler keep, the statement keeps.
  pub handle-rel :
      {A : Type 0} (h : Exception → Exec r A) (w : World r) (x : Result A × World r)
      → R w x.1
      → ((e : Exception) (v : World r) → R v (h e v).1)
      → R w (handle h x).1
  handle-rel h w (ok a, v) k kh = k
  handle-rel h w (err e, v) k kh = trans w v _ k (kh e v)

pub if-rel :
    {r : Redis} {A : Type 0} (R : World r → World r → Type 0) (b : Bool) (m n : Exec r A)
    (w : World r)
    → R w (m w).1
    → R w (n w).1
    → R w ((if b then m else n) w).1
if-rel R true m n w km kn = km
if-rel R false m n w km kn = kn
