-- ===== src/ApiKey/Stream.antt =====
-- The endpoint that starts the pipeline (src/api/pipeline_viewer.py), behind the check of the API
-- key. The clamped scale, the languages and the upload to the feedback service do not decide what
-- happens and are left out; the pipeline is a task, which is a number.
use equalify_reflow.Prelude.{
  ℕ, ◌≤◌, ◌≡◌, refl, ◌∙◌, String, Bool, true, false, not, ◌&&◌, ◌||◌, Option, none, some, [], ◌∷◌,
  if◌then◌else◌, length, ltb, arith, Text, codes, ends_with, text_eq, eq_refl,
}
use equalify_reflow.Session.Entries.{put, lookup, lookup-put}
use equalify_reflow.Session.{PipelineSession, SessionStore, create_for_stream}
use equalify_reflow.ApiKey.{
  Settings, Request, Response, passed, missing_key, invalid_key, raised, dispatch, is_dev_path,
  is_demo_ui_request, is_public_endpoint, is_stream_token_request, is_given,
}

-- Status 401, an error of the server, status 400, or the session whose events are streamed.
pub data Reply (R : Type 0) : Type 0 where
  unauthorized server_error bad_request : Reply R
  streaming : PipelineSession R → SessionStore R → Reply R

unfoldable pub is_pdf : (lower : Text → Text) → Option Text → Bool
is_pdf lower none = false
is_pdf lower (some name) = is_given (some name) && ends_with (codes ".pdf") (lower name)

module _ {R : Type 0} where
  -- The first event is in the buffer, and the pipeline runs.
  unfoldable pub with_task : (event : String) (task : ℕ) → PipelineSession R → PipelineSession R
  with_task event task s = record s {
    event_buffer = event ∷ [];
    event_counter = 1;
    new_event = true;
    pipeline_task = some task;
  }

  -- The session that the store holds is changed in place.
  abbrev pub with_session : PipelineSession R → SessionStore R → SessionStore R
  with_session s store = record store { sessions = put s.session_id s store.sessions }

  unfoldable pub start_stream :
      (event : String) (task : ℕ) → PipelineSession R × SessionStore R → Reply R
  start_stream event task (s, store) =
      streaming (with_task event task s) (with_session (with_task event task s) store)

  -- `session` is the new session for the file and the identity of the request.
  unfoldable pub process_pdf_stream :
      (lower : Text → Text) (filename : Option Text) (content : Text) (done : ℕ → Bool) (swept : ℕ)
      (session : PipelineSession R) (event : String) (task : ℕ)
      → SessionStore R
      → Reply R
  process_pdf_stream lower filename content done swept session event task store =
      if not (is_pdf lower filename)
      then bad_request
      else (if is_given (some content)
          then start_stream event task (create_for_stream done swept session store)
          else bad_request)

  -- What the middleware makes of the endpoint's answer.
  unfoldable pub behind : Response → Reply R → Reply R
  behind (passed who) reply = reply
  behind missing_key reply = unauthorized
  behind invalid_key reply = unauthorized
  behind raised reply = server_error

abbrev pub process_path : Text
process_path = codes "/api/v1/pipeline/process/stream"

or_true : (b : Bool) {d : Bool} → d ≡ true → (b || d) ≡ true
or_true true h = refl
or_true false h = h

is_given_of_length : (t : Text) → 40 ≤ length t → is_given (some t) ≡ true
is_given_of_length [] h = absurd (omega arith)
is_given_of_length (c ∷ t) h = refl

long_enough : (n : ℕ) → 40 ≤ n → ltb n 40 ≡ false
long_enough n h = ground arith

-- The request, for the endpoint and with a token.
abbrev pub with_token : Text → Request → Request
with_token token r = record r { path = process_path; token = some token }

stream_token :
    (r : Request) (token : Text)
    → 40 ≤ length token
    → is_stream_token_request (with_token token r) ≡ true
unfolding is_stream_token_request
stream_token r token long = rw (is_given_of_length token long, long_enough (length token) long) refl

stream_token-public :
    (c : Settings) (r : Request) (token : Text)
    → 40 ≤ length token
    → is_public_endpoint c (with_token token r) ≡ true
unfolding is_public_endpoint
stream_token-public c r token long = or_true r.has_identity (
    or_true (text_eq c.environment (codes "dev") && is_dev_path process_path) (
      or_true (text_eq c.auth_mode (codes "none") && is_demo_ui_request (with_token token r))
        (stream_token r token long)))

module _ {R : Type 0} where
  started_in_store :
      (event : String) (task : ℕ) (s : PipelineSession R) (store : SessionStore R)
      → lookup s.session_id (put s.session_id (with_task event task s) store.sessions)
        ≡ some (with_task event task s)
  started_in_store event task s store =
      lookup-put s.session_id s.session_id (with_task event task s) store.sessions
      ∙ rw (eq_refl s.session_id) refl

  -- Whatever the settings, the keys and the other headers of a request to this endpoint are: with
  -- any token of 40 code points or more, which nothing looks up, and a file that is not empty and is named like a PDF,
  -- the answer is the stream of a new session, which the store then holds with the pipeline's task.
  pub process_pdf_stream-open :
      (fp : Text → Text) (c : Settings) (r : Request) (token : Text) (lower : Text → Text)
      (filename : Option Text) (first : ℕ) (rest : Text) (done : ℕ → Bool) (swept : ℕ)
      (session : PipelineSession R) (event : String) (task : ℕ) (store : SessionStore R)
      → 40 ≤ length token
      → is_pdf lower filename ≡ true
      → (store' : SessionStore R) × (behind
            (dispatch fp c (with_token token r))
            (process_pdf_stream lower filename (first ∷ rest) done swept session event task store)
          ≡ streaming (with_task event task session) store')
        × (lookup session.session_id store'.sessions ≡ some (with_task event task session))
        × ((with_task event task session).pipeline_task ≡ some task)
  unfolding dispatch behind process_pdf_stream start_stream create_for_stream with_task
  process_pdf_stream-open fp c r token lower filename first rest done swept session event task store
        long pdf =
      (
        with_session (with_task event task session) (create_for_stream done swept session store).1,
        rw (stream_token-public c r token long, pdf) refl,
        unfold with_task in
            started_in_store event task session (create_for_stream done swept session store).1,
        refl,
      )
