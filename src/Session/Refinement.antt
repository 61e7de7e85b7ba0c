-- ===== src/Session/Refinement.antt =====
-- The store of sessions against a map that never evicts: what the callers of `create_for_stream` and
-- `get` are given is what they would be given by a map in which sessions only become too old.
use equalify_reflow.Prelude.{
  ℕ, ◌≤◌, String, Bool, true, Option, none, some, List, [], ◌∷◌, ◌≡◌, refl, sym, ap, ◌∙◌, inl, inr,
  str_eq, eq_iff, arith, ap₂, Option-cases, Bool-cases, subst,
}
use equalify_reflow.Session.{
  PipelineSession, SessionStore, is_expired, touch, create_for_stream, get, delete, count, accessed,
  init, evict_expired,
}
use equalify_reflow.Session.Entries.{
  lookup, put, pop, Unique, kept, lookup-put, lookup-pop, lookup-select, Unique-put, Unique-pop,
  Unique-select,
}
use equalify_reflow.Session.Sweep.{evict_expired_lem}
use equalify_reflow.Session.Calls.{
  Sessions, Request, live, serve, serve_all, update, found, look, look_all, until, Later, Ordered,
}

module _ {R : Type 0} where
  -- From a time on, the store and the map have the same live sessions.
  record Agrees (now : ℕ) (m : Sessions R) (store : SessionStore R) : Type 0 where
    unique : Unique store.sessions
    same : (sid : String) → kept (live now) (lookup sid store.sessions) ≡ kept (live now) (m sid)

  still_expired :
      (now later : ℕ) (s : PipelineSession R)
      → now ≤ later
      → is_expired now s ≡ true
      → is_expired later s ≡ true
  unfolding is_expired
  still_expired now later s h e = ground arith

  kept-kept :
      (now later : ℕ) (o : Option (PipelineSession R))
      → now ≤ later
      → kept (live later) (kept (live now) o) ≡ kept (live later) o
  kept-kept now later none h = refl
  kept-kept now later (some s) h = elim (Bool-cases (is_expired now s)) [
    | inl e ↦ rw (e, still_expired now later s h e) refl
    | inr e ↦ rw (e) refl
  ]

  Agrees-later :
      (now later : ℕ) (m : Sessions R) (store : SessionStore R)
      → now ≤ later
      → Agrees now m store
      → Agrees later m store
  Agrees-later now later m store h a = record {
    unique = a.unique;
    same = λ sid.
        sym (kept-kept now later (lookup sid store.sessions) h)
        ∙ ap (kept (live later)) (a.same sid)
        ∙ kept-kept now later (m sid) h;
  }

  evict_expired-Agrees :
      (done : ℕ → Bool) (now : ℕ) (m : Sessions R) (store : SessionStore R)
      → Agrees now m store
      → Agrees now m (evict_expired done now store)
  evict_expired-Agrees done now m store a = rw (evict_expired_lem done now store a.unique) (record {
    unique = Unique-select (live now) store.sessions a.unique;
    same = λ sid.
        ap (kept (live now)) (lookup-select (live now) sid store.sessions a.unique)
        ∙ kept-kept now now (lookup sid store.sessions) (omega arith)
        ∙ a.same sid;
  })

  put-Agrees :
      (now : ℕ) (sid : String) (s : PipelineSession R) (m : Sessions R) (store : SessionStore R)
      → Agrees now m store
      → Agrees now (update sid (some s) m) (record store { sessions = put sid s store.sessions })
  unfolding update
  put-Agrees now sid s m store a = record {
    unique = Unique-put sid s store.sessions a.unique;
    same = λ j. elim (Bool-cases (str_eq sid j)) [
      | inl e ↦ rw (lookup-put sid j s store.sessions, e) refl
      | inr e ↦ rw (lookup-put sid j s store.sessions, e) (a.same j)
    ];
  }

  pop-Agrees :
      (now : ℕ) (sid : String) (m : Sessions R) (store : SessionStore R)
      → Agrees now m store
      → Agrees now (update sid none m) (record store { sessions = pop sid store.sessions })
  unfolding update
  pop-Agrees now sid m store a = record {
    unique = Unique-pop sid store.sessions a.unique;
    same = λ j. elim (Bool-cases (str_eq sid j)) [
      | inl e ↦ rw (lookup-pop sid j store.sessions, e) refl
      | inr e ↦ rw (lookup-pop sid j store.sessions, e) (a.same j)
    ];
  }

  dropped :
      (now : ℕ) (sid : String) (s : PipelineSession R) (m : Sessions R) (store : SessionStore R)
      → Agrees now m store
      → lookup sid store.sessions ≡ some s
      → is_expired now s ≡ true
      → Agrees now m (record store { sessions = pop sid store.sessions })
  dropped now sid s m store a e q =
      let nothing : none ≡ kept (live now) (lookup sid store.sessions) = rw (e, q) refl in
      record {
        unique = Unique-pop sid store.sessions a.unique;
        same = λ j. elim (Bool-cases (str_eq sid j)) [
          | inl own ↦
              rw (lookup-pop sid j store.sessions, own)
                (subst (λ k. none ≡ kept (live now) (m k)) ((eq_iff sid j).0 own)
                  (nothing ∙ a.same sid))
          | inr other ↦ rw (lookup-pop sid j store.sessions, other) (a.same j)
        ];
      }

  accessed-Agrees :
      (checked touched : ℕ) (sid : String) (m : Sessions R) (store : SessionStore R)
      → Agrees checked m store
      → ((accessed checked touched sid (lookup sid store.sessions) store).0
          ≡ (found touched sid (kept (live checked) (m sid)) m).0)
        × Agrees checked
            (found touched sid (kept (live checked) (m sid)) m).1
            (accessed checked touched sid (lookup sid store.sessions) store).1
  unfolding accessed found
  accessed-Agrees checked touched sid m store a = elim (Option-cases (lookup sid store.sessions)) [
    | inl e ↦ rw (sym (a.same sid), e) (refl, a)
    | inr (s, e) ↦ elim (Bool-cases (is_expired checked s)) [
      | inl q ↦ rw (sym (a.same sid), e, q) (refl, dropped checked sid s m store a e q)
      | inr q ↦
          rw (sym (a.same sid), e, q) (refl, put-Agrees checked sid (touch touched s) m store a)
    ]
  ]

  serve-Agrees :
      (done : ℕ → Bool) (now : ℕ) (q : Request R) (m : Sessions R) (store : SessionStore R)
      → Later now q
      → Agrees now m store
      → ((serve done q store).0 ≡ (look q m).0)
        × Agrees (until now q) (look q m).1 (serve done q store).1
  unfolding serve look create_for_stream get delete count
  serve-Agrees done now (Request.create swept s) m store h a = (
    refl,
    put-Agrees swept s.session_id s m (evict_expired done swept store)
        (evict_expired-Agrees done swept m store (Agrees-later now swept m store h a)),
  )
  serve-Agrees done now (Request.access swept checked touched sid) m store (h, k) a =
      accessed-Agrees checked touched sid m (evict_expired done swept store) (
        Agrees-later swept checked m (evict_expired done swept store) k
          (evict_expired-Agrees done swept m store (Agrees-later now swept m store h a)))
  serve-Agrees done now (Request.drop sid) m store h a = (refl, pop-Agrees now sid m store a)
  serve-Agrees done now (Request.size later) m store h a =
      (refl, evict_expired-Agrees done later m store (Agrees-later now later m store h a))

  serve_all-look_all :
      (done : ℕ → Bool) (now : ℕ) (qs : List (Request R)) (m : Sessions R) (store : SessionStore R)
      → Ordered now qs
      → Agrees now m store
      → serve_all done qs store ≡ look_all qs m
  unfolding serve_all look_all
  serve_all-look_all done now [] m store h a = refl
  serve_all-look_all done now (q ∷ qs) m store (h, hs) a =
      let (same, next) = serve-Agrees done now q m store h a in
      ap₂ (λ x l. x ∷ l) same
        (serve_all-look_all done (until now q) qs (look q m).1 (serve done q store).1 hs next)

  -- From a new store on, as long as the clock does not go back, the sessions that creations and
  -- accesses return are those of a map that evicts nothing and in which a session is found for one
  -- hour after its last access: when the store evicts, and what, cannot be told from them.
  pub serve_all-refines :
      (done : ℕ → Bool) (now : ℕ) (qs : List (Request R))
      → Ordered now qs
      → serve_all done qs init ≡ look_all qs (λ sid. none)
  unfolding init
  serve_all-refines done now qs h =
      serve_all-look_all done now qs (λ sid. none) init h
        (record { unique = unfold Unique in tt; same = λ sid. unfold lookup in refl })
