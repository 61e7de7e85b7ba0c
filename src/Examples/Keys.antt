-- ===== src/Examples/Keys.antt =====
-- The check of the API key at concrete inputs.
use equalify_reflow.Prelude.{
  ◌≡◌, refl, some, none, Option, arith, String, Text, codes, true, false, strip, lstrip, rstrip,
  split, split_from, partition,
}
use equalify_reflow.Session.Entries.{lookup}
use equalify_reflow.Session.{SessionStore, init}
use equalify_reflow.ApiKey.{
  Settings, Request, passed, dispatch, is_public_endpoint, is_demo_ui_request,
  is_stream_token_request, is_dev_path, load_api_keys, entries_of, add_entries, add_entry,
  parse_entry, parse_stripped, with_key, parts_of, put_key, label_or, match_key, answer_match,
  answer_key, is_ascii,
}
use equalify_reflow.ApiKey.Matching.{AllAscii}
use equalify_reflow.ApiKey.Guarded.{Configured, Named, dispatch-Guarded}
use equalify_reflow.ApiKey.Stream.{
  with_token, with_task, behind, process_pdf_stream, streaming, is_pdf, process_pdf_stream-open,
}
use equalify_reflow.Examples.Sessions.{session_at}

abbrev fingerprint : Text → Text
fingerprint key = codes "key-"

abbrev settings : Settings
settings = record {
  api_keys = some (codes "ann: k1 ,k2");
  environment = codes "production";
  auth_mode = codes "oidc";
}

abbrev request : Request
request = record {
  path = codes "/api/v1/documents/1";
  api_key = some (codes "k1");
  sec_fetch_site = none;
  token = none;
  has_identity = false;
}

ann_passes : dispatch fingerprint settings request ≡ passed (some (codes "ann"))
unfolding dispatch is_public_endpoint is_demo_ui_request is_stream_token_request is_dev_path
    load_api_keys entries_of add_entries add_entry parse_entry parse_stripped with_key parts_of
    put_key label_or match_key answer_match answer_key is_ascii strip lstrip rstrip split split_from
    partition
ann_passes = refl

gated : is_public_endpoint settings request ≡ false
unfolding is_public_endpoint is_stream_token_request is_dev_path
gated = refl

dispatch-Guarded_example :
    ((who : Option Text)
      → dispatch fingerprint settings request ≡ passed who
      → (key label : Text) × (request.api_key ≡ some key)
        × (who ≡ some label)
        × Named fingerprint (entries_of settings.api_keys) key label)
    × ((key : Text)
        → request.api_key ≡ some key
        → Configured (entries_of settings.api_keys) key
        → is_ascii key ≡ true
        → AllAscii (load_api_keys fingerprint settings)
        → (label : Text) × (dispatch fingerprint settings request ≡ passed (some label)))
dispatch-Guarded_example = dispatch-Guarded fingerprint settings request gated

abbrev token : Text
token = codes "0123456789012345678901234567890123456789"

named_like_pdf : is_pdf (λ t. t) (some (codes "a.pdf")) ≡ true
unfolding is_pdf
named_like_pdf = refl

process_pdf_stream-open_example :
    (store : SessionStore String) × (behind
        (dispatch fingerprint settings (with_token token request))
        (process_pdf_stream
          (λ t. t)
          (some (codes "a.pdf"))
          (codes "%PDF")
          (λ task. false)
          5
          (session_at "s1" 5)
          "session"
          7
          init)
      ≡ streaming (with_task "session" 7 (session_at "s1" 5)) store)
    × (lookup (session_at "s1" 5).session_id store.sessions
        ≡ some (with_task "session" 7 (session_at "s1" 5)))
    × ((with_task "session" 7 (session_at "s1" 5)).pipeline_task ≡ some 7)
process_pdf_stream-open_example =
    process_pdf_stream-open fingerprint settings request token (λ t. t) (some (codes "a.pdf")) b'%'
      (codes "PDF") (λ task. false) 5 (session_at "s1" 5) "session" 7 init (omega arith)
      named_like_pdf
