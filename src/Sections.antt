-- ===== src/Sections.antt =====
-- The division of a document into sections at the headings of its outline
-- (src/services/pipeline_viewer.py, src/services/pipeline_viewer_models.py). What Python does with
-- texts (splitting into lines, the pattern of a heading, the ratio of similarity, joining and
-- stripping) and the sorted set of page numbers are arguments. The character positions, which
-- nothing reads, are left out.
pub mod Partition
use equalify_reflow.Prelude.{
  ℕ, zero, suc, ◌+◌, ◌-◌, String, Bool, true, false, not, Option, none, some, List, [], ◌∷◌, ◌++◌,
  leb, ltb, ◌==◌, ◌||◌, str_eq, length, take, drop, select, map, if◌then◌else◌,
}

pub record SectionEntry : Type 0 where
  pub index : ℕ
  pub heading_text : String
  pub heading_level : ℕ
  pub pages : List ℕ
  pub markdown : String
  -- `none` for -1
  pub outline_position : Option ℕ

pub record Texts : Type 0 where
  pub lines : String → List String
  -- the level and the stripped text of a heading
  pub heading : String → Option (ℕ × String)
  -- the ratio of the lower-case texts, and the threshold for it, on one scale
  pub ratio : String → String → ℕ
  pub section_map_match_threshold : ℕ
  -- "\n".join(lines).strip()
  pub joined : List String → String
  pub is_blank : String → Bool
  pub sorted_set : List ℕ → List ℕ

-- The pages' lines, with a blank line between two pages.
unfoldable pub all_lines : Texts → List String → List String
all_lines t [] = []
all_lines t (page ∷ []) = t.lines page
all_lines t (page ∷ next ∷ pages) = t.lines page ++ "" ∷ all_lines t (next ∷ pages)

-- The first line of each page.
unfoldable pub page_line_offsets : Texts → (offset page_num : ℕ) → List String → List (ℕ × ℕ)
page_line_offsets t offset page_num [] = []
page_line_offsets t offset page_num (page ∷ pages) =
    (offset, page_num)
    ∷ page_line_offsets t (offset + length (t.lines page) + 1) (page_num + 1) pages

unfoldable pub line_to_page : List (ℕ × ℕ) → (line_idx result_page : ℕ) → ℕ
line_to_page [] line_idx result_page = result_page
line_to_page ((start_line, page_num) ∷ l) line_idx result_page =
    let rest = line_to_page l line_idx page_num in
    if leb start_line line_idx then rest else result_page

pub record Heading : Type 0 where
  pub line_idx : ℕ
  pub text : String
  pub level : ℕ

unfoldable pub with_heading : (line_idx : ℕ) → Option (ℕ × String) → List Heading → List Heading
with_heading line_idx none rest = rest
with_heading line_idx (some (level, text)) rest =
    record { line_idx = line_idx; text = text; level = level } ∷ rest

unfoldable pub heading_positions : Texts → (line_idx : ℕ) → List String → List Heading
heading_positions t line_idx [] = []
heading_positions t line_idx (line ∷ lines) =
    with_heading line_idx (t.heading line) (heading_positions t (suc line_idx) lines)

unfoldable pub used : ℕ → List ℕ → Bool
used oi [] = false
used oi (i ∷ is) = i == oi || used oi is

-- The loop over the outline from the entry `oi` on.
unfoldable pub best_entry :
    Texts
    → (text : String) (used_outline_indices : List ℕ) (oi : ℕ) → List String
    → Option ℕ × ℕ
    → Option ℕ × ℕ
best_entry t text taken oi [] best = best
best_entry t text taken oi (entry ∷ outline) (best_idx, best_ratio) =
    best_entry t text taken (suc oi) outline (
      if used oi taken || not (ltb best_ratio (t.ratio text entry))
      then (best_idx, best_ratio)
      else (some oi, t.ratio text entry))

unfoldable pub accepted : Texts → Option ℕ × ℕ → Option ℕ
accepted t (none, ratio) = none
accepted t (some oi, ratio) = if leb t.section_map_match_threshold ratio then some oi else none

unfoldable pub take_entry : Option ℕ → List ℕ → List ℕ
take_entry none taken = taken
take_entry (some oi) taken = oi ∷ taken

unfoldable pub matched : Heading → Option ℕ → List (Heading × ℕ) → List (Heading × ℕ)
matched h none rest = rest
matched h (some oi) rest = (h, oi) ∷ rest

unfoldable pub match_outline :
    Texts
    → (outline : List String) (used_outline_indices : List ℕ) → List Heading
    → List (Heading × ℕ)
match_outline t outline taken [] = []
match_outline t outline taken (h ∷ hs) =
    let found = accepted t (best_entry t h.text taken 0 outline (none, 0)) in
    matched h found (match_outline t outline (take_entry found taken) hs)

-- lines[start:end]
unfoldable pub slice : (start end : ℕ) → List String → List String
slice start end lines = take (end - start) (drop start lines)

unfoldable pub end_line : List (Heading × ℕ) → (total : ℕ) → ℕ
end_line [] total = total
end_line ((h, oi) ∷ ms) total = h.line_idx

-- The pages of the lines that are not blank.
unfoldable pub pages_of : Texts → List (ℕ × ℕ) → (line_idx : ℕ) → List String → List ℕ
pages_of t offsets line_idx [] = []
pages_of t offsets line_idx (line ∷ lines) =
    let rest = pages_of t offsets (suc line_idx) lines in
    if t.is_blank line then rest else line_to_page offsets line_idx 1 ∷ rest

unfoldable pub pages_or : List ℕ → ℕ → List ℕ
pages_or [] page = page ∷ []
pages_or (p ∷ ps) page = p ∷ ps

unfoldable pub sections_from :
    Texts
    → List (ℕ × ℕ)
    → (lines : List String) (index : ℕ) → List (Heading × ℕ)
    → List SectionEntry
sections_from t offsets lines index [] = []
sections_from t offsets lines index ((h, oi) ∷ ms) =
    record {
      index = index;
      heading_text = h.text;
      heading_level = h.level;
      pages =
          pages_or
            (t.sorted_set
              (pages_of t offsets h.line_idx (slice h.line_idx (end_line ms (length lines)) lines)))
            (line_to_page offsets h.line_idx 1);
      markdown = t.joined (slice h.line_idx (end_line ms (length lines)) lines);
      outline_position = some oi;
    }
    ∷ sections_from t offsets lines (suc index) ms

abbrev pub preamble : (pages : List ℕ) (markdown : String) → SectionEntry
preamble pages markdown = record {
  index = 0;
  heading_text = "(Preamble)";
  heading_level = 0;
  pages = pages;
  markdown = markdown;
  outline_position = none;
}

unfoldable pub numbers : (from count : ℕ) → List ℕ
numbers from zero = []
numbers from (suc count) = from ∷ numbers (suc from) count

-- The content before the first heading is a section unless it is blank; without a heading the whole
-- document is.
unfoldable pub sections_of :
    Texts
    → List (ℕ × ℕ)
    → (total_pages : ℕ) (lines : List String) → List (Heading × ℕ)
    → List SectionEntry
sections_of t offsets total_pages lines [] =
    if str_eq (t.joined lines) ""
    then []
    else preamble (numbers 1 total_pages) (t.joined lines) ∷ []
sections_of t offsets total_pages lines ((h, oi) ∷ ms) =
    let before = take h.line_idx lines in
    if h.line_idx == 0 || str_eq (t.joined before) ""
    then sections_from t offsets lines 0 ((h, oi) ∷ ms)
    else preamble (pages_or (t.sorted_set (pages_of t offsets 0 before)) 1) (t.joined before)
      ∷ sections_from t offsets lines 1 ((h, oi) ∷ ms)

-- The pages' texts and the texts of the outline's entries.
unfoldable pub build_section_map : Texts → (pages outline : List String) → List SectionEntry
build_section_map t pages outline =
    let lines = all_lines t pages in
    sections_of t (page_line_offsets t 0 1 pages) (length pages) lines
      (match_outline t outline [] (heading_positions t 0 lines))
