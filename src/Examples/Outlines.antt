-- ===== src/Examples/Outlines.antt =====
-- The division of a document at concrete inputs. A line that starts a section is called "h".
use equalify_reflow.Prelude.{
  String, none, some, List, [], ◌∷◌, ◌≡◌, refl, str_eq, map, if◌then◌else◌,
}
use equalify_reflow.Sections.{Texts, all_lines, build_section_map}
use equalify_reflow.Sections.Partition.{concat, without_blank_head, build_section_map-pieces}

abbrev pub joined : List String → String
joined [] = ""
joined (line ∷ lines) = line

abbrev pub texts : Texts
texts = record {
  lines = λ page. page ∷ [];
  heading = λ line. if str_eq line "h" then some (1, "h") else none;
  ratio = λ text entry. if str_eq text entry then 10 else 0;
  section_map_match_threshold = 6;
  joined = joined;
  is_blank = λ line. str_eq line "";
  sorted_set = λ pages. pages;
}

build_section_map-pieces_example :
    (cut : List (List String)) × (concat cut ≡ all_lines texts ("a" ∷ "h" ∷ "b" ∷ []))
    × (map (λ e. e.markdown) (build_section_map texts ("a" ∷ "h" ∷ "b" ∷ []) ("h" ∷ []))
        ≡ without_blank_head (map joined cut))
build_section_map-pieces_example =
    build_section_map-pieces texts ("a" ∷ "h" ∷ "b" ∷ []) ("h" ∷ []) refl
