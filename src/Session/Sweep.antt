-- ===== src/Session/Sweep.antt =====
-- The eviction of expired sessions: the loop over their identifiers does what one pass would.
use equalify_reflow.Prelude.{
  ℕ, String, Bool, false, not, Option, none, some, List, [], ◌∷◌, ◌++◌, ◌≡◌, refl, sym, ap, ◌∙◌,
  inl, inr, str_eq, eq_iff, eq_refl, arith, select, Bool-cases,
}
use mathlib.Core.List.{append-nil, append_assoc}
use equalify_reflow.Session.{
  PipelineSession, SessionStore, is_expired, running, discard, evict, expired_ids, evict_expired,
}
use equalify_reflow.Session.Entries.{Dict, lookup, pop, Unique, pop-absent}

abbrev Absent : String → List String → Type 0
Absent sid [] = Unit {0}
Absent sid (k ∷ ks) = (str_eq sid k ≡ false) × Absent sid ks

module _ {R : Type 0} (done : ℕ → Bool) where
  -- The tasks of the sessions that have not finished.
  unfoldable pub running_tasks : Dict (PipelineSession R) → List ℕ
  running_tasks [] = []
  running_tasks ((sid, s) ∷ l) = running done s.pipeline_task ++ running_tasks l

  abbrev pub at_front : String → PipelineSession R → SessionStore R → SessionStore R
  at_front sid s store = record store { sessions = (sid, s) ∷ store.sessions }

  discard-front :
      (o : Option (PipelineSession R)) (sid : String) (s : PipelineSession R)
      (store : SessionStore R)
      → discard done o (at_front sid s store) ≡ at_front sid s (discard done o store)
  unfolding discard
  discard-front none sid s store = refl
  discard-front (some t) sid s store = refl

  other_key :
      (sid k : String) (s : PipelineSession R) (l : Dict (PipelineSession R))
      → lookup sid ((k, s) ∷ l) ≡ none
      → str_eq sid k ≡ false
  unfolding lookup
  other_key sid k s l h = elim (Bool-cases (str_eq k sid)) [
    | inl e ↦ ground (arith, e, h)
    | inr e ↦ ground (arith, e, eq_iff sid k, eq_refl k)
  ]

  later_key :
      (sid k : String) (s : PipelineSession R) (l : Dict (PipelineSession R))
      → lookup sid ((k, s) ∷ l) ≡ none
      → lookup sid l ≡ none
  unfolding lookup
  later_key sid k s l h = elim (Bool-cases (str_eq k sid)) [
    | inl e ↦ ground (arith, e, h)
    | inr e ↦ ground (arith, e, h)
  ]

  expired_ids-Absent :
      (sid : String) (now : ℕ) (l : Dict (PipelineSession R))
      → lookup sid l ≡ none
      → Absent sid (expired_ids now l)
  unfolding expired_ids lookup
  expired_ids-Absent sid now [] h = tt
  expired_ids-Absent sid now ((k, s) ∷ l) h = elim (Bool-cases (is_expired now s)) [
    | inl e ↦ rw (e) (other_key sid k s l h, expired_ids-Absent sid now l (later_key sid k s l h))
    | inr e ↦ rw (e) (expired_ids-Absent sid now l (later_key sid k s l h))
  ]

  evict-front :
      (ids : List String) (sid : String) (s : PipelineSession R) (store : SessionStore R)
      → Absent sid ids
      → evict done ids (at_front sid s store) ≡ at_front sid s (evict done ids store)
  unfolding evict lookup pop
  evict-front [] sid s store h = refl
  evict-front (k ∷ ks) sid s store (other, h) = rw (other) (
      ap (evict done ks) (
        discard-front (lookup k store.sessions) sid s
          (record store { sessions = pop k store.sessions }))
      ∙ evict-front ks sid s
          (discard done (lookup k store.sessions)
            (record store { sessions = pop k store.sessions }))
          h)

  discard_first :
      (k : String) (s : PipelineSession R) (l : Dict (PipelineSession R)) (c : List ℕ)
      → lookup k l ≡ none
      → discard done
          (lookup k ((k, s) ∷ l))
          (record { sessions = pop k ((k, s) ∷ l); cancelled = c })
        ≡ record { sessions = l; cancelled = c ++ running done s.pipeline_task }
  unfolding lookup pop discard
  discard_first k s l c fresh = rw (eq_refl k, pop-absent k l fresh) refl

  evict-passes :
      (now : ℕ) (l : Dict (PipelineSession R)) (c : List ℕ)
      → Unique l
      → evict done (expired_ids now l) (record { sessions = l; cancelled = c }) ≡ record {
        sessions = select (λ e. not (is_expired now e.1)) l;
        cancelled = c ++ running_tasks (select (λ e. is_expired now e.1) l);
      }
  unfolding evict lookup pop Unique running_tasks expired_ids discard
  evict-passes now [] c h = ap (λ d. record { sessions = []; cancelled = d }) (sym (append-nil c))
  evict-passes now ((k, s) ∷ l) c (fresh, h) = elim (Bool-cases (is_expired now s)) [
    | inl e ↦ rw (e) (
        ap (evict done (expired_ids now l)) (discard_first k s l c fresh)
        ∙ evict-passes now l (c ++ running done s.pipeline_task) h
        ∙ ap (λ d. record { sessions = select (λ e. not (is_expired now e.1)) l; cancelled = d })
            (append_assoc c (running done s.pipeline_task)
              (running_tasks (select (λ e. is_expired now e.1) l))))
    | inr e ↦ rw (e) (
        evict-front (expired_ids now l) k s (record { sessions = l; cancelled = c })
          (expired_ids-Absent k now l fresh)
        ∙ ap (at_front k s) (evict-passes now l c h))
  ]

  -- If no identifier stands twice, the eviction removes exactly the expired sessions, keeps the
  -- order of the others, and cancels exactly the tasks of the removed sessions that still run.
  pub evict_expired_lem :
      (now : ℕ) (store : SessionStore R)
      → Unique store.sessions
      → evict_expired done now store ≡ record {
        sessions = select (λ e. not (is_expired now e.1)) store.sessions;
        cancelled =
            store.cancelled ++ running_tasks (select (λ e. is_expired now e.1) store.sessions);
      }
  unfolding evict_expired
  evict_expired_lem now store h = evict-passes now store.sessions store.cancelled h
