-- ===== src/ApiKey.antt =====
-- The middleware that asks for an API key (src/middleware/api_key_auth.py), and the endpoint that
-- starts the pipeline behind it (src/api/pipeline_viewer.py). Texts are lists of code points. The
-- fingerprint of a key is an argument, and the comparison of two texts is that of
-- `secrets.compare_digest`: it raises unless both are ASCII. The address of a client is only logged.
pub mod Matching
pub mod Guarded
pub mod Stream
use equalify_reflow.Prelude.{
  ℕ, zero, suc, ◌+◌, Bool, true, false, ◌&&◌, ◌||◌, not, Option, none, some, List, [], ◌∷◌, ◌++◌,
  length, ltb, ◌==◌, if◌then◌else◌, Text, text_eq, codes, starts_with, ends_with, strip, split,
  partition,
}

pub record Settings : Type 0 where
  pub api_keys : Option Text
  pub environment : Text
  pub auth_mode : Text

-- A label, which may be empty, and a key.
abbrev pub Entry : Type 0
Entry = Text × Text

-- An entry with its white space stripped: "label:key" or a key.
unfoldable pub parts_of : Text → Entry
parts_of entry = elim (partition b':' entry) [
  | none ↦ ([], entry)
  | some (l, k) ↦ (strip l, strip k)
]

-- An entry with no key is skipped.
unfoldable pub with_key : Entry → Option Entry
with_key (l, []) = none
with_key (l, c ∷ k) = some (l, c ∷ k)

unfoldable pub parse_stripped : Text → Option Entry
parse_stripped [] = none
parse_stripped (c ∷ entry) = with_key (parts_of (c ∷ entry))

unfoldable pub parse_entry : Text → Option Entry
parse_entry entry = parse_stripped (strip entry)

-- A dictionary from keys to labels, in the order of insertion.
abbrev pub Keys : Type 0
Keys = List (Text × Text)

-- keys[key] = label
unfoldable pub put_key : (key label : Text) → Keys → Keys
put_key key label [] = (key, label) ∷ []
put_key key label ((k, l) ∷ keys) =
    if text_eq k key then (k, label) ∷ keys else (k, l) ∷ put_key key label keys

unfoldable pub label_or : (fingerprint : Text → Text) (key : Text) → Text → Text
label_or fingerprint key [] = fingerprint key
label_or fingerprint key (c ∷ label) = c ∷ label

unfoldable pub add_entry : (fingerprint : Text → Text) → Option Entry → Keys → Keys
add_entry fingerprint none keys = keys
add_entry fingerprint (some (label, key)) keys = put_key key (label_or fingerprint key label) keys

unfoldable pub add_entries : (fingerprint : Text → Text) → List Text → Keys → Keys
add_entries fingerprint [] keys = keys
add_entries fingerprint (e ∷ es) keys =
    add_entries fingerprint es (add_entry fingerprint (parse_entry e) keys)

unfoldable pub entries_of : Option Text → List Text
entries_of none = []
entries_of (some []) = []
entries_of (some (c ∷ api_keys)) = split b',' (c ∷ api_keys)

unfoldable pub load_api_keys : (fingerprint : Text → Text) → Settings → Keys
load_api_keys fingerprint c = add_entries fingerprint (entries_of c.api_keys) []

pub record Request : Type 0 where
  pub path : Text
  -- the header with the key, and `Sec-Fetch-Site`
  pub api_key : Option Text
  pub sec_fetch_site : Option Text
  -- the query parameter `token`
  pub token : Option Text
  -- whether the session middleware found an identity
  pub has_identity : Bool

pub data Response : Type 0 where
  -- the next handler's answer, for a client with this label if a key was asked for
  passed : Option Text → Response
  missing_key invalid_key : Response
  -- the comparison raised
  raised : Response

abbrev pub is_given : Option Text → Bool
is_given none = false
is_given (some []) = false
is_given (some (c ∷ t)) = true

abbrev pub or_empty : Option Text → Text
or_empty none = []
or_empty (some t) = t

unfoldable pub is_demo_ui_request : Request → Bool
is_demo_ui_request r =
    if is_given r.api_key then false else text_eq (or_empty r.sec_fetch_site) (codes "same-origin")

unfoldable pub is_stream_token_request : Request → Bool
is_stream_token_request r =
    ends_with (codes "/stream") r.path
    && (is_given r.token && not (ltb (length (or_empty r.token)) 40))

unfoldable pub is_dev_path : Text → Bool
is_dev_path path =
    starts_with (codes "/api/dev/monitoring") path
    || (starts_with (codes "/api/dev/minimal") path
        || starts_with (codes "/api/dev/pipeline-viewer") path)

unfoldable pub is_public_endpoint : Settings → Request → Bool
is_public_endpoint c r =
    if starts_with (codes "/api/") r.path
    then r.has_identity
      || (starts_with (codes "/api/v1/auth/") r.path
          || ((text_eq c.environment (codes "dev") && is_dev_path r.path)
              || ((text_eq c.auth_mode (codes "none") && is_demo_ui_request r)
                  || is_stream_token_request r)))
    else true

unfoldable pub is_ascii : Text → Bool
is_ascii [] = true
is_ascii (c ∷ t) = ltb c 128 && is_ascii t

-- The keys are compared one after another; `none` if a comparison raises.
unfoldable pub match_key : (provided_key : Text) → Keys → Option (Option Text)
match_key provided_key [] = some none
match_key provided_key ((k, label) ∷ keys) =
    let rest = match_key provided_key keys in
    if not (is_ascii provided_key && is_ascii k)
    then none
    else (if text_eq provided_key k then some (some label) else rest)

unfoldable pub answer_match : Option (Option Text) → Response
answer_match none = raised
answer_match (some none) = invalid_key
answer_match (some (some label)) = passed (some label)

unfoldable pub answer_key : Keys → Option Text → Response
answer_key keys none = missing_key
answer_key keys (some []) = missing_key
answer_key keys (some (c ∷ key)) = answer_match (match_key (c ∷ key) keys)

-- The keys are loaded once.
unfoldable pub dispatch : (fingerprint : Text → Text) → Settings → Request → Response
dispatch fingerprint c r =
    if is_public_endpoint c r
    then passed none
    else answer_key (load_api_keys fingerprint c) r.api_key
