-- ===== src/Prelude/Texts.antt =====
-- Texts as lists of code points, with what the program uses of Python's `str`.
use Prim.Native.Nat.{ℕ, zero, suc, ◌-◌}
use Prim.Native.Char.{code}
use Prim.Native.String.{String}
use mathlib.Core.Path.{◌≡◌, refl}
use mathlib.Core.Logic.{◌↔◌}
use mathlib.Core.Bool.{Bool, true, false, ◌&&◌, ◌||◌}
use mathlib.Core.Option.{Option, none, some}
use mathlib.Core.List.{List, [], ◌∷◌, ◌++◌}
use native.Mathlib.Omega.{arith}
use equalify_reflow.Prelude.Tests.{leb, ◌==◌, if◌then◌else◌}
use equalify_reflow.Prelude.Lists.{length, drop}

abbrev pub Text : Type 0
Text = List ℕ

abbrev pub codes : String → Text
codes String.[] = []
codes (String.◌∷◌ c s) = code c ∷ codes s

abbrev pub text_eq : Text → Text → Bool
text_eq [] [] = true
text_eq [] (d ∷ t) = false
text_eq (c ∷ s) [] = false
text_eq (c ∷ s) (d ∷ t) = c == d && text_eq s t

-- t.startswith(p)
abbrev pub starts_with : (p t : Text) → Bool
starts_with [] t = true
starts_with (c ∷ p) [] = false
starts_with (c ∷ p) (d ∷ t) = c == d && starts_with p t

-- t.endswith(p)
abbrev pub ends_with : (p t : Text) → Bool
ends_with p [] = text_eq p []
ends_with p (d ∷ t) = text_eq p (d ∷ t) || ends_with p t

-- p in t
abbrev pub contains : (p t : Text) → Bool
contains p [] = starts_with p []
contains p (d ∷ t) = starts_with p (d ∷ t) || contains p t

-- t.count(s) for an `s` that is not empty: `skip` code points belong to the last match.
unfoldable pub count_from : (s : Text) (skip : ℕ) → Text → ℕ
count_from s skip [] = 0
count_from s (suc skip) (c ∷ t) = count_from s skip t
count_from s zero (c ∷ t) =
    let hit = starts_with s (c ∷ t) in
    let rest = count_from s (if hit then length s - 1 else 0) t in if hit then suc rest else rest

-- The empty text is counted before each code point and at the end.
unfoldable pub count : (s t : Text) → ℕ
count [] t = suc (length t)
count (c ∷ s) t = count_from (c ∷ s) 0 t

-- t.replace(s, new, 1)
unfoldable pub replace_first : (s new t : Text) → Text
replace_first s new [] = if starts_with s [] then new else []
replace_first s new (c ∷ t) =
    let rest = replace_first s new t in
    if starts_with s (c ∷ t) then new ++ drop (length s) (c ∷ t) else c ∷ rest

-- The white space of `str.strip`.
abbrev pub is_space : ℕ → Bool
is_space c =
    (leb 9 c && leb c 13)
    || (leb 28 c && leb c 32)
    || c == 133
    || c == 160
    || c == 5760
    || (leb 8192 c && leb c 8202)
    || c == 8232
    || c == 8233
    || c == 8239
    || c == 8287
    || c == 12288

abbrev pub is_blank : Text → Bool
is_blank [] = true
is_blank (c ∷ t) = is_space c && is_blank t

unfoldable pub lstrip : Text → Text
lstrip [] = []
lstrip (c ∷ t) = let rest = lstrip t in if is_space c then rest else c ∷ t

unfoldable pub rstrip : Text → Text
rstrip [] = []
rstrip (c ∷ t) = if is_blank (c ∷ t) then [] else c ∷ rstrip t

unfoldable pub strip : Text → Text
strip t = lstrip (rstrip t)

-- The texts between separators, the first of which is `part` and then `t` up to a separator.
unfoldable pub split_from : (sep : ℕ) (part : Text) → Text → List Text
split_from sep part [] = part ∷ []
split_from sep part (c ∷ t) =
    let rest = split_from sep (if c == sep then [] else part ++ c ∷ []) t in
    if c == sep then part ∷ rest else rest

-- t.split(sep)
unfoldable pub split : (sep : ℕ) → Text → List Text
split sep t = split_from sep [] t

-- t.partition(sep), without the separator; none if it does not occur
unfoldable pub partition : (sep : ℕ) → Text → Option (Text × Text)
partition sep [] = none
partition sep (c ∷ t) =
    let rest = partition sep t in
    if c == sep then some ([], t) else elim rest [ none ↦ none | some (a, b) ↦ some (c ∷ a, b) ]

pub text_eq_iff : (s t : Text) → (text_eq s t ≡ true) ↔ (s ≡ t)
text_eq_iff [] [] = ((λ h. refl), (λ h. refl))
text_eq_iff [] (d ∷ t) = ((λ h. cc), (λ h. cc))
text_eq_iff (c ∷ s) [] = ((λ h. cc), (λ h. cc))
text_eq_iff (c ∷ s) (d ∷ t) =
    ((λ h. ground (arith, text_eq_iff s t)), (λ h. ground (arith, text_eq_iff s t)))

pub starts_with-append : (p t : Text) → starts_with p (p ++ t) ≡ true
starts_with-append [] t = refl
starts_with-append (c ∷ p) t = ground (arith, starts_with-append p t)

pub starts_with-split : (p t : Text) → starts_with p t ≡ true → t ≡ p ++ drop (length p) t
starts_with-split [] t h = refl
starts_with-split (c ∷ p) [] h = cc
starts_with-split (c ∷ p) (d ∷ t) h = ground (arith, starts_with-split p t)
