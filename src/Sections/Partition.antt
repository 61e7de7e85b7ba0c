-- ===== src/Sections/Partition.antt =====
-- The sections make up the document.
use equalify_reflow.Prelude.{
  ℕ, zero, suc, ◌+◌, ◌-◌, ◌≤◌, String, true, false, Option, none, some, List, [], ◌∷◌, ◌++◌, ◌≡◌,
  refl, sym, ◌∙◌, ap, inl, inr, str_eq, length, take, drop, take-drop, drop-drop, take_all,
  length-drop, map, arith, ◌==◌, eq_refl, if◌then◌else◌, Bool-cases, Option-cases,
}
use mathlib.Core.List.{append-nil}
use equalify_reflow.Sections.{
  Texts, Heading, all_lines, heading_positions, with_heading, match_outline, matched, accepted,
  best_entry, take_entry, slice, end_line, sections_from, sections_of, page_line_offsets,
  build_section_map,
}

abbrev pub concat : List (List String) → List String
concat [] = []
concat (l ∷ ls) = l ++ concat ls

-- A first text that is empty is left out.
abbrev pub without_blank_head : List String → List String
without_blank_head [] = []
without_blank_head (text ∷ texts) = if str_eq text "" then texts else text ∷ texts

-- The lines of each section.
abbrev slices : List String → List (Heading × ℕ) → List (List String)
slices lines [] = []
slices lines ((h, oi) ∷ ms) = slice h.line_idx (end_line ms (length lines)) lines ∷ slices lines ms

-- The headings stand on later and later lines.
abbrev Rising : ℕ → List Heading → Type 0
Rising from [] = Unit {0}
Rising from (h ∷ hs) = (from ≤ h.line_idx) × Rising (suc h.line_idx) hs

abbrev Ordered : ℕ → List (Heading × ℕ) → Type 0
Ordered from [] = Unit {0}
Ordered from ((h, oi) ∷ ms) = (from ≤ h.line_idx) × Ordered (suc h.line_idx) ms

Rising-weaken : (a b : ℕ) (hs : List Heading) → a ≤ b → Rising b hs → Rising a hs
Rising-weaken a b [] h k = tt
Rising-weaken a b (x ∷ hs) h (k, rest) = (omega (arith, h, k), rest)

Ordered-weaken : (a b : ℕ) (ms : List (Heading × ℕ)) → a ≤ b → Ordered b ms → Ordered a ms
Ordered-weaken a b [] h k = tt
Ordered-weaken a b ((x, oi) ∷ ms) h (k, rest) = (omega (arith, h, k), rest)

heading_positions-Rising :
    (t : Texts) (from : ℕ) (lines : List String) → Rising from (heading_positions t from lines)
unfolding heading_positions with_heading
heading_positions-Rising t from [] = tt
heading_positions-Rising t from (line ∷ lines) = elim (Option-cases (t.heading line)) [
  | inl e ↦
      rw (e) (
        Rising-weaken from (suc from) _ (omega arith) (heading_positions-Rising t (suc from) lines))
  | inr ((level, text), e) ↦ rw (e) (omega arith, heading_positions-Rising t (suc from) lines)
]

matched-Ordered :
    (from : ℕ) (x : Heading) (o : Option ℕ) (ms : List (Heading × ℕ))
    → from ≤ x.line_idx
    → Ordered (suc x.line_idx) ms
    → Ordered from (matched x o ms)
unfolding matched
matched-Ordered from x none ms k r = Ordered-weaken from (suc x.line_idx) ms (omega (arith, k)) r
matched-Ordered from x (some oi) ms k r = (k, r)

match_outline-Ordered :
    (t : Texts) (outline : List String) (taken : List ℕ) (from : ℕ) (hs : List Heading)
    → Rising from hs
    → Ordered from (match_outline t outline taken hs)
unfolding match_outline
match_outline-Ordered t outline taken from [] h = tt
match_outline-Ordered t outline taken from (x ∷ hs) (k, h) =
    let found = accepted t (best_entry t x.text taken 0 outline (none, 0)) in
    let rest = match_outline-Ordered t outline (take_entry found taken) (suc x.line_idx) hs h in
    matched-Ordered from x found (match_outline t outline (take_entry found taken) hs) k rest

slice-drop : (a b : ℕ) (l : List String) → a ≤ b → slice a b l ++ drop b l ≡ drop a l
unfolding slice
slice-drop a b l h =
    let same : a + (b - a) ≡ b = omega (arith, h) in
    ap (λ n. take (b - a) (drop a l) ++ drop n l) (sym same)
    ∙ ap (λ m. take (b - a) (drop a l) ++ m) (sym (drop-drop (b - a) a l))
    ∙ take-drop (b - a) (drop a l)

slices-drop :
    (lines : List String) (from : ℕ) (ms : List (Heading × ℕ))
    → Ordered from ms
    → slice from (end_line ms (length lines)) lines ++ concat (slices lines ms) ≡ drop from lines
unfolding end_line
slices-drop lines from [] h =
    append-nil _
    ∙ unfold slice in
      take_all (length lines - from) (drop from lines) (omega (arith, length-drop from lines))
slices-drop lines from ((x, oi) ∷ ms) (k, h) =
    ap (λ l. slice from x.line_idx lines ++ l)
      (slices-drop lines x.line_idx ms
        (Ordered-weaken x.line_idx (suc x.line_idx) ms (omega arith) h))
    ∙ slice-drop from x.line_idx lines k

sections_from-markdown :
    (t : Texts) (offsets : List (ℕ × ℕ)) (lines : List String) (index : ℕ) (ms : List (Heading × ℕ))
    → map (λ e. e.markdown) (sections_from t offsets lines index ms)
      ≡ map t.joined (slices lines ms)
unfolding sections_from
sections_from-markdown t offsets lines index [] = refl
sections_from-markdown t offsets lines index ((x, oi) ∷ ms) =
    ap (λ l. t.joined (slice x.line_idx (end_line ms (length lines)) lines) ∷ l)
      (sections_from-markdown t offsets lines (suc index) ms)

-- The lines of the document, cut where the matched headings stand.
abbrev pieces : List String → List (Heading × ℕ) → List (List String)
pieces lines [] = lines ∷ []
pieces lines ((x, oi) ∷ ms) = take x.line_idx lines ∷ slices lines ((x, oi) ∷ ms)

concat-pieces :
    (lines : List String) (ms : List (Heading × ℕ))
    → Ordered 0 ms
    → concat (pieces lines ms) ≡ lines
concat-pieces lines [] h = append-nil lines
concat-pieces lines ((x, oi) ∷ ms) (k, h) =
    ap (λ l. take x.line_idx lines ++ l)
      (slices-drop lines x.line_idx ms
        (Ordered-weaken x.line_idx (suc x.line_idx) ms (omega arith) h))
    ∙ take-drop x.line_idx lines

nothing_before :
    (t : Texts) (n : ℕ) (lines : List String)
    → t.joined [] ≡ ""
    → (n == 0) ≡ true
    → str_eq (t.joined (take n lines)) "" ≡ true
nothing_before t zero lines h z = rw (h) (eq_refl "")
nothing_before t (suc n) lines h z = ground (arith, z)

sections_of-markdown :
    (t : Texts) (offsets : List (ℕ × ℕ)) (total : ℕ) (lines : List String) (ms : List (Heading × ℕ))
    → t.joined [] ≡ ""
    → map (λ e. e.markdown) (sections_of t offsets total lines ms)
      ≡ without_blank_head (map t.joined (pieces lines ms))
unfolding sections_of
sections_of-markdown t offsets total lines [] h = elim (Bool-cases (str_eq (t.joined lines) "")) [
  | inl e ↦ rw (e) refl
  | inr e ↦ rw (e) refl
]
sections_of-markdown t offsets total lines ((x, oi) ∷ ms) h =
    elim (Bool-cases (str_eq (t.joined (take x.line_idx lines)) "")) [
      | inl e ↦ elim (Bool-cases (x.line_idx == 0)) [
        | inl z ↦ rw (z, e) (sections_from-markdown t offsets lines 0 ((x, oi) ∷ ms))
        | inr z ↦ rw (z, e) (sections_from-markdown t offsets lines 0 ((x, oi) ∷ ms))
      ]
      | inr e ↦ elim (Bool-cases (x.line_idx == 0)) [
        | inl z ↦
            let blank = nothing_before t x.line_idx lines h z in
            let never : false ≡ true = sym e ∙ blank in cc
        | inr z ↦
            rw (z, e)
              (ap (λ l. t.joined (take x.line_idx lines) ∷ l)
                (sections_from-markdown t offsets lines 1 ((x, oi) ∷ ms)))
      ]
    ]

-- The sections lose no line and take none twice: the document's lines can be cut into pieces, in
-- order, whose joined texts are the sections' texts, except that a first piece without any text is
-- no section. Joining no lines gives the empty text.
pub build_section_map-pieces :
    (t : Texts) (pages outline : List String)
    → t.joined [] ≡ ""
    → (cut : List (List String)) × (concat cut ≡ all_lines t pages)
      × (map (λ e. e.markdown) (build_section_map t pages outline)
          ≡ without_blank_head (map t.joined cut))
unfolding build_section_map
build_section_map-pieces t pages outline h =
    let lines = all_lines t pages in
    let ms = match_outline t outline [] (heading_positions t 0 lines) in
    (
      pieces lines ms,
      concat-pieces lines ms
          (match_outline-Ordered t outline [] 0 _ (heading_positions-Rising t 0 lines)),
      sections_of-markdown t (page_line_offsets t 0 1 pages) (length pages) lines ms h,
    )
