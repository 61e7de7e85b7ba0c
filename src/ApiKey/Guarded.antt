-- ===== src/ApiKey/Guarded.antt =====
-- Who gets past the check of the API key (src/middleware/api_key_auth.py).
use equalify_reflow.Prelude.{
  ◌≡◌, ◌≢◌, refl, true, false, Option, none, some, List, [], ◌∷◌, ◌⊎◌, inl, inr, Text, strip,
}
use equalify_reflow.ApiKey.{
  Settings, Request, passed, Keys, Entry, parse_entry, parse_stripped, with_key, parts_of, put_key,
  label_or, add_entry, add_entries, entries_of, load_api_keys, is_ascii, match_key, answer_match,
  answer_key, dispatch, is_public_endpoint,
}
use equalify_reflow.ApiKey.Matching.{
  InKeys, HasKey, AllAscii, match_key-InKeys, add_entry-InKeys, put_key-HasKey, put_key-HasKey_self,
  match_key-HasKey,
}

-- One of the entries of the setting has this key.
abbrev pub Configured : List Text → (key : Text) → Type 0
Configured [] key = ⊥
Configured (e ∷ es) key = ((l : Text) × (parse_entry e ≡ some (l, key))) ⊎ Configured es key

-- One of the entries of the setting has this key and gives it this label.
abbrev pub Named : (fingerprint : Text → Text) → List Text → (key label : Text) → Type 0
Named fp [] key label = ⊥
Named fp (e ∷ es) key label =
    ((l : Text) × (parse_entry e ≡ some (l, key)) × (label ≡ label_or fp key l))
    ⊎ Named fp es key label

module _ (fp : Text → Text) where
  add_entries-InKeys :
      (es : List Text) (key label : Text) (keys : Keys)
      → InKeys key label (add_entries fp es keys)
      → Named fp es key label ⊎ InKeys key label keys
  unfolding add_entries
  add_entries-InKeys [] key label keys h = inr h
  add_entries-InKeys (e ∷ es) key label keys h =
      elim (add_entries-InKeys es key label (add_entry fp (parse_entry e) keys) h) [
        | inl n ↦ inl (inr n)
        | inr i ↦ elim (add_entry-InKeys fp (parse_entry e) key label keys i) [
          | inl here ↦ inl (inl here)
          | inr old ↦ inr old
        ]
      ]

  add_entry-HasKey :
      (o : Option Entry) (key : Text) (keys : Keys)
      → HasKey key keys
      → HasKey key (add_entry fp o keys)
  unfolding add_entry
  add_entry-HasKey none key keys h = h
  add_entry-HasKey (some (l, k)) key keys h = put_key-HasKey k (label_or fp k l) key keys h

  add_entries-HasKey_old :
      (es : List Text) (key : Text) (keys : Keys)
      → HasKey key keys
      → HasKey key (add_entries fp es keys)
  unfolding add_entries
  add_entries-HasKey_old [] key keys h = h
  add_entries-HasKey_old (e ∷ es) key keys h =
      add_entries-HasKey_old es key (add_entry fp (parse_entry e) keys)
        (add_entry-HasKey (parse_entry e) key keys h)

  add_entries-HasKey :
      (es : List Text) (key : Text) (keys : Keys)
      → Configured es key
      → HasKey key (add_entries fp es keys)
  unfolding add_entries add_entry
  add_entries-HasKey [] key keys h = elim h [ ]
  add_entries-HasKey (e ∷ es) key keys (inl here) = rw here.1 (
      add_entries-HasKey_old es key (put_key key (label_or fp key here.0) keys)
        (put_key-HasKey_self key (label_or fp key here.0) keys))
  add_entries-HasKey (e ∷ es) key keys (inr h) =
      add_entries-HasKey es key (add_entry fp (parse_entry e) keys) h

with_key-nonempty : (e : Entry) (l : Text) → with_key e ≢ some (l, [])
unfolding with_key
with_key-nonempty (l', []) l h = cc
with_key-nonempty (l', c ∷ k) l h = cc

parse_stripped-nonempty : (e l : Text) → parse_stripped e ≢ some (l, [])
unfolding parse_stripped
parse_stripped-nonempty [] l h = cc
parse_stripped-nonempty (c ∷ e) l h = with_key-nonempty (parts_of (c ∷ e)) l h

Configured-nonempty : (es : List Text) → ¬ Configured es []
unfolding parse_entry
Configured-nonempty [] h = h
Configured-nonempty (e ∷ es) (inl here) = parse_stripped-nonempty (strip e) here.0 here.1
Configured-nonempty (e ∷ es) (inr h) = Configured-nonempty es h

answer_match-passed :
    (m : Option (Option Text)) (who : Option Text)
    → answer_match m ≡ passed who
    → (label : Text) × (who ≡ some label) × (m ≡ some (some label))
unfolding answer_match
answer_match-passed none who h = absurd (cc)
answer_match-passed (some none) who h = absurd (cc)
answer_match-passed (some (some label)) who h = (label, cc, refl)

answer_key-passed :
    (keys : Keys) (o : Option Text) (who : Option Text)
    → answer_key keys o ≡ passed who
    → (key label : Text) × (o ≡ some key)
      × (who ≡ some label)
      × (match_key key keys ≡ some (some label))
unfolding answer_key
answer_key-passed keys none who h = absurd (cc)
answer_key-passed keys (some []) who h = absurd (cc)
answer_key-passed keys (some (c ∷ key)) who h =
    let m = answer_match-passed (match_key (c ∷ key) keys) who h in (c ∷ key, m.0, refl, m.1, m.2)

module _ (fp : Text → Text) (c : Settings) (r : Request) where
  admitted_only :
      (who : Option Text)
      → answer_key (load_api_keys fp c) r.api_key ≡ passed who
      → (key label : Text) × (r.api_key ≡ some key)
        × (who ≡ some label)
        × Named fp (entries_of c.api_keys) key label
  unfolding load_api_keys
  admitted_only who h =
      let k = answer_key-passed (load_api_keys fp c) r.api_key who h in
      let i = match_key-InKeys k.0 k.1 (load_api_keys fp c) k.4 in
      (
        k.0,
        k.1,
        k.2,
        k.3,
        elim (add_entries-InKeys fp (entries_of c.api_keys) k.0 k.1 [] i) [
          | inl named ↦ named
          | inr nothing ↦ elim nothing [ ]
        ],
      )

  admitted :
      (key : Text)
      → r.api_key ≡ some key
      → Configured (entries_of c.api_keys) key
      → is_ascii key ≡ true
      → AllAscii (load_api_keys fp c)
      → (label : Text) × (answer_key (load_api_keys fp c) r.api_key ≡ passed (some label))
  unfolding load_api_keys answer_key answer_match
  admitted [] given conf a all = absurd (Configured-nonempty (entries_of c.api_keys) conf)
  admitted (d ∷ key) given conf a all =
      let m =
        match_key-HasKey (d ∷ key) (load_api_keys fp c) a all
          (add_entries-HasKey fp (entries_of c.api_keys) (d ∷ key) [] conf) in
      (m.0, rw given (rw m.1 refl))

  -- A request that is not exempt is passed on only with a key that an entry of the setting has, for
  -- a client with the label of such an entry, or the key's fingerprint if that has no label. And it is passed on with every
  -- key of an entry if this key and all the keys that were loaded are ASCII.
  pub dispatch-Guarded :
      is_public_endpoint c r ≡ false
      → ((who : Option Text)
          → dispatch fp c r ≡ passed who
          → (key label : Text) × (r.api_key ≡ some key)
            × (who ≡ some label)
            × Named fp (entries_of c.api_keys) key label)
        × ((key : Text)
            → r.api_key ≡ some key
            → Configured (entries_of c.api_keys) key
            → is_ascii key ≡ true
            → AllAscii (load_api_keys fp c)
            → (label : Text) × (dispatch fp c r ≡ passed (some label)))
  unfolding dispatch
  dispatch-Guarded gated =
      rw gated ((λ who h. admitted_only who h), (λ key g conf a all. admitted key g conf a all))
