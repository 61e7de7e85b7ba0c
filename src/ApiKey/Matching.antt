-- ===== src/ApiKey/Matching.antt =====
-- The dictionary of the API keys, and the comparison with its keys
-- (src/middleware/api_key_auth.py).
use equalify_reflow.Prelude.{
  ◌≡◌, ◌≢◌, refl, sym, ap, ◌∙◌, true, false, not, ◌&&◌, Option, none, some, [], ◌∷◌, ◌⊎◌, inl, inr,
  Bool-cases, Text, text_eq, text_eq_iff,
}
use equalify_reflow.ApiKey.{Keys, Entry, put_key, label_or, add_entry, is_ascii, match_key}

abbrev pub InKeys : (key label : Text) → Keys → Type 0
InKeys key label [] = ⊥
InKeys key label ((k, l) ∷ keys) = ((k ≡ key) × (label ≡ l)) ⊎ InKeys key label keys

abbrev pub HasKey : (key : Text) → Keys → Type 0
HasKey key [] = ⊥
HasKey key ((k, l) ∷ keys) = (k ≡ key) ⊎ HasKey key keys

abbrev pub AllAscii : Keys → Type 0
AllAscii [] = Unit {0}
AllAscii ((k, l) ∷ keys) = (is_ascii k ≡ true) × AllAscii keys

none-ne-some : {A : Type 0} {a : A} → ◌≢◌ {A = Option A} none (some a)
none-ne-some h = cc

true-ne-false : true ≢ false
true-ne-false h = cc

some_cancel : {A : Type 0} {a b : A} → some a ≡ some b → a ≡ b
some_cancel h = cc

pub match_key-InKeys :
    (key label : Text) (keys : Keys)
    → match_key key keys ≡ some (some label)
    → InKeys key label keys
unfolding match_key
match_key-InKeys key label [] h = absurd (cc)
match_key-InKeys key label ((k, l) ∷ keys) h =
    elim (Bool-cases (not (is_ascii key && is_ascii k))) [
      | inl foreign ↦ absurd (let n = rw foreign at h in none-ne-some n)
      | inr ascii ↦
          let g = rw ascii at h in
          elim (Bool-cases (text_eq key k)) [
            | inl same ↦
                inl
                  (sym ((text_eq_iff key k).0 same), sym (some_cancel (some_cancel (rw same at g))))
            | inr other ↦ inr (match_key-InKeys key label keys (rw other at g))
          ]
    ]

put_key-InKeys :
    (k lab key label : Text) (keys : Keys)
    → InKeys key label (put_key k lab keys)
    → ((k ≡ key) × (label ≡ lab)) ⊎ InKeys key label keys
unfolding put_key
put_key-InKeys k lab key label [] (inl h) = inl h
put_key-InKeys k lab key label [] (inr h) = elim h [ ]
put_key-InKeys k lab key label ((j, l) ∷ keys) h = elim (Bool-cases (text_eq j k)) [
  | inl same ↦ elim (rw same at h) [
    | inl e ↦ inl (sym ((text_eq_iff j k).0 same) ∙ e.0, e.1)
    | inr r ↦ inr (inr r)
  ]
  | inr other ↦ elim (rw other at h) [
    | inl e ↦ inr (inl e)
    | inr r ↦ elim (put_key-InKeys k lab key label keys r) [ inl e ↦ inl e | inr s ↦ inr (inr s) ]
  ]
]

pub add_entry-InKeys :
    (fp : Text → Text) (o : Option Entry) (key label : Text) (keys : Keys)
    → InKeys key label (add_entry fp o keys)
    → ((l : Text) × (o ≡ some (l, key)) × (label ≡ label_or fp key l)) ⊎ InKeys key label keys
unfolding add_entry
add_entry-InKeys fp none key label keys h = inr h
add_entry-InKeys fp (some (l, k)) key label keys h =
    elim (put_key-InKeys k (label_or fp k l) key label keys h) [
      | inl e ↦ inl (l, ap (λ j. some (l, j)) e.0, e.1 ∙ ap (λ j. label_or fp j l) e.0)
      | inr r ↦ inr r
    ]

pub put_key-HasKey :
    (k lab key : Text) (keys : Keys) → HasKey key keys → HasKey key (put_key k lab keys)
unfolding put_key
put_key-HasKey k lab key [] h = elim h [ ]
put_key-HasKey k lab key ((j, l) ∷ keys) (inl e) = elim (Bool-cases (text_eq j k)) [
  | inl same ↦ rw same (inl e)
  | inr other ↦ rw other (inl e)
]
put_key-HasKey k lab key ((j, l) ∷ keys) (inr h) = elim (Bool-cases (text_eq j k)) [
  | inl same ↦ rw same (inr h)
  | inr other ↦ rw other (inr (put_key-HasKey k lab key keys h))
]

pub put_key-HasKey_self : (k lab : Text) (keys : Keys) → HasKey k (put_key k lab keys)
unfolding put_key
put_key-HasKey_self k lab [] = inl refl
put_key-HasKey_self k lab ((j, l) ∷ keys) = elim (Bool-cases (text_eq j k)) [
  | inl same ↦ rw same (inl ((text_eq_iff j k).0 same))
  | inr other ↦ rw other (inr (put_key-HasKey_self k lab keys))
]

pub match_key-HasKey :
    (key : Text) (keys : Keys)
    → is_ascii key ≡ true
    → AllAscii keys
    → HasKey key keys
    → (label : Text) × (match_key key keys ≡ some (some label))
unfolding match_key
match_key-HasKey key [] a all h = elim h [ ]
match_key-HasKey key ((k, l) ∷ keys) a all h = elim (Bool-cases (text_eq key k)) [
  | inl same ↦ (l, rw (a, all.0, same) refl)
  | inr other ↦
      let rest = match_key-HasKey key keys a all.1 (later h other) in
      (rest.0, rw (a, all.0, other) rest.1)
]
  where
    later : (k ≡ key) ⊎ HasKey key keys → text_eq key k ≡ false → HasKey key keys
    later (inl e) other = absurd (true-ne-false (sym ((text_eq_iff key k).1 (sym e)) ∙ other))
    later (inr r) other = r
