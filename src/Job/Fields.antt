-- ===== src/Job/Fields.antt =====
-- The fields that the job operations write, and the JSON fields that they decode
-- (src/services/job_service.py).
use equalify_reflow.Prelude.{
  String, Bool, true, false, Option, none, some, List, [], ◌∷◌, ◌++◌, ◌||◌, str_eq, if◌then◌else◌,
}
use equalify_reflow.Redis.{Hash}
use equalify_reflow.Job.{Mapping}

-- `if text:` is false for `None` and for the empty text.
abbrev pub given : String → Option String → Mapping
given field none = []
given field (some text) = if str_eq text "" then [] else (field, text) ∷ []

abbrev pub flag : String → Bool → Mapping
flag field true = (field, "true") ∷ []
flag field false = []

-- The arguments of `create_job` after the identifier. `max_rounds` is the number's text and
-- `ocr_languages` the codes joined by commas (`none` for no list or an empty one).
pub record NewJob : Type 0 where
  pub s3_key : String
  pub status : String
  pub original_filename : Option String
  pub pii_skipped : Bool
  pub pii_skip_reason : Option String
  pub debug_bundle_requested : Bool
  pub review_mode : Option String
  pub max_rounds : String
  pub ocr_languages : Option String

unfoldable pub skip_fields : Bool → Option String → Mapping
skip_fields true reason = ("pii_skipped", "true") ∷ given "pii_skip_reason" reason
skip_fields false reason = []

abbrev pub joined : Option String → Mapping
joined none = []
joined (some codes) = ("ocr_languages", codes) ∷ []

unfoldable pub create_mapping : (job_id created_at : String) → NewJob → Mapping
unfolding skip_fields
create_mapping job_id created_at j =
    ("job_id", job_id)
    ∷ ("s3_key", j.s3_key)
    ∷ ("status", j.status)
    ∷ ("created_at", created_at)
    ∷ ("updated_at", created_at)
    ∷ ("max_rounds", j.max_rounds)
    ∷ (given "original_filename" j.original_filename
        ++ (skip_fields j.pii_skipped j.pii_skip_reason
            ++ (flag "debug_bundle_requested" j.debug_bundle_requested
                ++ (given "review_mode" j.review_mode ++ joined j.ocr_languages))))

-- An additional field's value: a dictionary or a list has its JSON text, any other its `str`.
pub data Value : Type 0 where
  structure : (json : String) → Value
  scalar : (str : String) → Value

unfoldable pub serialize : Value → String
serialize (structure json) = json
serialize (scalar str) = str

unfoldable pub serialize_fields : List (String × Value) → Mapping
unfolding serialize
serialize_fields [] = []
serialize_fields ((k, v) ∷ fields) = (k, serialize v) ∷ serialize_fields fields

unfoldable pub update_mapping : (status now_iso : String) → List (String × Value) → Mapping
unfolding serialize_fields
update_mapping status now_iso fields =
    ("status", status) ∷ ("updated_at", now_iso) ∷ serialize_fields fields

abbrev pub json_fields : List String
json_fields =
    "pii_findings" ∷ "correction_results" ∷ "page_image_keys" ∷ "verification_summary" ∷ []

abbrev pub is_json_field : List String → String → Bool
is_json_field [] f = false
is_json_field (g ∷ gs) f = str_eq g f || is_json_field gs f

-- A value of the job that `get_job` answers.
pub data Decoded (J : Type 0) : Type 0 where
  raw : String → Decoded J
  json : J → Decoded J

module _ {J : Type 0} (loads : String → Option J) where
  -- `json.loads`, with the text kept where it raises; an empty text is left alone.
  decode_json : String → Decoded J
  decode_json text =
      if str_eq text "" then raw text else elim (loads text) [ none ↦ raw text | some j ↦ json j ]

  decode_value : String → Option String → Option (Decoded J)
  unfolding decode_json
  decode_value f none = none
  decode_value f (some text) =
      some (if is_json_field json_fields f then decode_json text else raw text)

  -- The loop of `get_job` over the JSON fields.
  unfoldable pub decode_fields : Hash → String → Option (Decoded J)
  unfolding decode_value
  decode_fields h f = decode_value f (h f)
