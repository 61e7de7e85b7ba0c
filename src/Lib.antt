-- ===== src/Lib.antt =====
-- Equalify Reflow: the job side of the document service, as pure functions and as actions over
-- Redis, and what holds of it.
--
-- The program keeps its jobs in Redis and its files on S3. The parts, and the file of each:
--   Breaker    the circuit breaker, src/utils/circuit_breaker.py: one function per method, from the
--              object's state to its new state (each method runs under the object's lock). Invariant
--              has the consistency of the state, Traces runs of calls.
--   Retry      error categories and retries, src/utils/retry_helpers.py: the loop over the attempts,
--              with the outcome of each attempt as an argument.
--   Storage    S3, src/services/storage_service.py: every operation asks its breaker, makes one
--              request through the retry loop and reports to the breaker. Uploads and Downloads have
--              the operations, Document the storing of an uploaded file; Rules, Balance,
--              Reads, Leak and Missing what they do with the breaker.
--   Redis      the commands that the services use, a record of operations with their documented laws,
--              and Exec, the actions over it with their exceptions: try, finally and sequences. Keys
--              has the key templates of src/shared/constants/. Concrete satisfies all the laws.
--   Job        jobs, src/services/job_service.py: the Lua scripts, the fields, the methods and the
--              tokens; Same has the actions that leave a job's fields alone.
--              Transitions has the state machine of src/shared/models/job.py.
--   Cleanup    the deletion of a temporary file, src/services/cleanup_service.py.
--   Metrics    the increments of counters, src/services/metrics_service.py.
--   Queue      queues and the timeout set, src/services/queue_service.py.
--   Approval   decisions on documents, src/services/approval_service.py and src/api/approval.py:
--              token validation, the direct path (Decision), the instant answer with the background
--              task that follows it (Decision, Background), and the lock that both take (Lock, Outcome
--              and Reapproval are about the instant answer, Direct about the direct path, Denial about
--              the denial).
--   Timeout    approvals that were not given in time, src/services/timeout_service.py, and the schedule
--              of the worker that looks for them (Worker, Punctual), src/workers/timeout_worker.py.
--   S3Cleanup  the deletion of a job's temporary files (Batches), and the sweeps over old files
--              (Expired, Swept), src/services/s3_cleanup_service.py.
--   Orphan     old and stuck jobs, src/services/orphan_service.py: the tests and actions, and the two
--              sweeps over the candidates (Sweep).
--   Pii        the scan for personal data, src/services/pii_service.py, and the worker's loop around it
--              (Worker), src/workers/pii_worker.py: Starts and Cleared say what is started, Held how a
--              document waits, Faults what a fault does. Retry.Actions is the retry loop around an
--              action.
--   Document   the processing of a document, src/services/document_processing_service.py: Updates has
--              the writes to the job, Finish how a run ends.
--   Sections   the division of a document into sections, src/services/pipeline_viewer.py; Partition says
--              that nothing is lost.
--   Classifier the classification of a PDF, src/services/pdf_classifier.py: Accepted says which
--              documents pass, Enriched what the extraction adds.
--   Docling    the breaker and the retries of a conversion, src/services/docling_serve_client.py;
--              Decides says how it ends.
--   Edits      edits by search and replace, src/utils/diff_utils.py, and the tool str_replace of the
--              agents in src/services/pipeline_viewer.py: Occurrences says what an edit changes,
--              Contexts that a context that is found can be edited, Agents and Boundaries have the
--              agents and the step for the joints between pages, Replay and Ledger their records.
--   Pages      the agent that corrects a page, with its tools, and the step over all pages (Step),
--              src/services/pipeline_viewer.py: Ledger and Whole are about the recorded changes,
--              Budget about the limits of the tools.
--   ApiKey     the check of the API key, src/middleware/api_key_auth.py: Matching and Guarded say who
--              passes. Stream has the endpoint of src/api/pipeline_viewer.py that starts the pipeline.
--   Session    the store of the viewer's sessions, src/services/session_store.py: eviction, creation,
--              access, deletion and count; Sweep has the eviction in one pass, Calls and Refinement the
--              map without eviction that the store implements.
--   RateLimit  rate limits, src/services/rate_limit_service.py, and src/middleware/rate_limit.py
--              (Middleware): Windows counts the requests of a window, Steps has one check, Bounds runs
--              of checks, Verdicts the answers, Availability the middleware. Redis.Ranges has the
--              commands on sorted sets that only this part uses.
--   Prelude, Errors and Examples have the shared names, the exceptions, and tests.
--
-- A request passes the middlewares of ApiKey and RateLimit. The stream of ApiKey.Stream makes a
-- session of Session and starts the pipeline, whose steps Classifier, Docling, Sections, Pages and
-- Edits are parts of; Docling has a breaker of Breaker of its own. The worker of Pii takes a
-- document from the Queue, scans it, and either starts its processing or makes its Job wait under a
-- new approval token. An endpoint then calls Approval, which calls Job, Cleanup and the lock, and
-- starts the processing, which is Document; the worker of Timeout looks for expired approvals with
-- Queue, Job and Cleanup, and runs Orphan, which calls Job and S3Cleanup. All of these share the
-- world of Redis.Exec: the data, which calls fail (any pattern of faults; a call that raises has
-- not changed the data), what the clock reads before each call, and a record of the files deleted,
-- the processing started and the metrics incremented. Where the code reads the clock by itself, the
-- reading is an argument. Times are whole ticks. Where an action is one sequence of calls, no other
-- client of Redis acts between them. Keys expire between actions only, and only the time of texts
-- (SET with EX) has an effect: Job.Tokens lets it pass between the callers of a stream token.
-- Session, Sections, Classifier, Edits and Pages are pure functions of a state and of a document.
-- Where the code looks into texts (Edits, Pages, ApiKey, Classifier) they are lists of code points,
-- and Prelude.Texts has what the code uses of Python's str.
--
-- Every loop of the program is a recursion on a list or on the number of attempts left. The slices of
-- S3Cleanup.batches are counted by fuel: the number of keys, which is enough since each slice has one
-- at least. The loops of the workers are runs over any number of iterations.
--
-- Not the program's, and so arguments: the S3 client, Redis, the parse and the text of times,
-- numbers and JSON, what Python does with texts (their encoding included), the extraction and the
-- analysis of a document's text, and the pipeline of language-model calls. In Edits and Pages the
-- tool calls of an agent and how its run ends are arguments, in Docling the outcome of each
-- attempt, and in Classifier what the PDF library reads. In Document and Pii the storage's answers
-- are arguments as well; Storage has the operations behind them. Logging and telemetry are left
-- out. The pages of a scan over the keys are an argument too. Not modelled are the health and depth
-- queries, the extraction from PDF files, the prompts of language models, the other steps of the
-- pipeline (the analysis of the structure, the levels of headings, code blocks and the final
-- cleanup), sign-in, and the web framework.
pub mod Prelude
pub mod Errors
pub mod Session
pub mod RateLimit
pub mod Pii
pub mod Document
pub mod ApiKey
pub mod Classifier
pub mod Docling
pub mod Edits
pub mod Pages
pub mod Sections
pub mod Breaker
pub mod Retry
pub mod Storage
pub mod Redis
pub mod Job
pub mod Cleanup
pub mod Approval
pub mod Metrics
pub mod Queue
pub mod Timeout
pub mod S3Cleanup
pub mod Orphan
pub mod Examples
