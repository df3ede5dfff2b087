-- ===== src/Lib.antt =====
-- A verification library of Context Engine, the retrieval and chat service under app/context_engine.
-- The theorems are about the Python services and some of the HTTP handlers over them; the web client,
-- the adapters of external services and the vendored LightRAG package are outside it.
--
-- Parts:
-- * Turn (app/context_engine/services/chat_turns.py, app/context_engine/models.py): a chat turn is
--   admitted by a request (Turn/Admission.antt: `start_or_replay_turn`, `claim_turn`), claimed by a
--   worker under a lease with a generation (Turn/Lease.antt: `_claim_next_turn`,
--   `_heartbeat_turn_lease`), executed (Turn/Stream.antt: `TurnOrchestrator`, `run_once`), logged as
--   numbered events (Turn/Event.antt: `_persist_event`, `_stored_events`, and Turn/Event/Tail.antt:
--   `_tail_turn_events`), ended once (Turn/Finalize.antt: `_complete_turn`, `_fail_turn`,
--   `_cancel_running_turn`), and perhaps redacted (Turn/Redact.antt: `_redact_turns`).
--   Turn/Log.antt has the steps that all these parties take, one for each database transaction.
-- * Access (login_throttle.py and auth.py in app/context_engine/services, with the login handler of
--   app/context_engine/api/routes.py and `require_current_session` of
--   app/context_engine/api/dependencies.py): Access/Throttle.antt counts the failures of a client and
--   blocks it, Access/Sessions.antt keeps the sessions, and Access/Login.antt composes the two.
-- * Idempotency (app/context_engine/services/idempotency.py): the record of a key, from
--   `begin_idempotent` to `complete_idempotent` or `abandon_idempotent`.
-- * Indexing (app/context_engine/services/indexing.py): Indexing/Requests.antt has what users ask of
--   a source's index (`retry_source_index`, `cancel_source_index`, …), Indexing/Results.antt what a
--   worker writes of its results (`mark_index_*_if_current`, the lease), Indexing/Worker.antt one run
--   of `SourceIndexWorker` with the session's copy of the row, Indexing/Changes.antt the single calls
--   of a session whose copy is the row, and Indexing/Serial.antt requests and undisturbed runs one
--   after the other.
-- * Document (app/context_engine/services/documents.py): Document.antt parses the byte range of a
--   request (`parse_byte_range`).
-- * Lifecycle (app/context_engine/services/domains.py): the operations on a domain.
--   Lifecycle/Create.antt, Lifecycle/Control.antt and Lifecycle/Removal.antt have the requests
--   (`create_domain`, `start_domain`, `stop_domain`, `enqueue_delete_domain`,
--   `assign_graph_extraction_profile`), Lifecycle/Transition.antt the fenced end of a start or a stop
--   (`_apply_fenced_state_transition`), Lifecycle/Rows.antt the writes to an operation,
--   Lifecycle/Reconcile.antt `reconcile_uncertain_lifecycle_operations`, Lifecycle/DeleteWorker.antt
--   `DomainDeleteWorker`, Lifecycle/Views.antt the actions that a page offers, and
--   Lifecycle/Steps.antt all the transactions as steps. The deletion of a domain redacts its turns
--   (Turn) and its sources leave the index (Indexing) in the same transactions.
-- * Preparation (app/context_engine/services/sources.py): Preparation/Types.antt has the rows of a
--   source, Preparation/Requests.antt its requests, Preparation/Publish.antt the publication of what a
--   parser returned, Preparation/Worker.antt and Preparation/DeleteWorker.antt the workers.
-- * Paging (app/context_engine/services/domains.py and sources.py): the lists that are read by pages
--   with a row's id as the cursor (`domain_operations`, `admin_domain_list` and the lists of sources).
-- * Api (app/context_engine/api/routes.py): the handlers with an `Idempotency-Key`. Api/Request.antt has
--   the body that they share, Api/Domains.antt and Api/Sources.antt the handlers, over the services of
--   Lifecycle and Preparation, Api/Spec.antt what a key promises.
-- * Csrf (csrf.py and request_security.py in app/context_engine/services): Csrf/Base64.antt and
--   Csrf/Token.antt have the token, Csrf/Request.antt `enforce_request_security`.
--
-- Modelling: a row is a record, a table a list of rows. Ids, hashes and labels are only compared,
-- so they are numbers; a text is a list of code points; an instant is a number, and a clock reading
-- is an argument. The writes of one database transaction are one step, and a call that raises
-- leaves what it has committed before. What a call asks of others (a domain's readiness, composer
-- references, the session, the profile resolver, the runtime controller's answer) is an argument.
-- The stream of a provider is a finite list of signals, among which stand the transactions that
-- others commit meanwhile; so every loop of a service is structural recursion and none needs fuel;
-- a client that follows cursors (Paging) has one page more than there are rows. Audit rows, logs,
-- metrics and traces are left out, as nothing modelled reads them, and so are the public and random
-- ids of rows.
--
-- One step for a transaction also where the code reads before it locks or writes: the refresh, the
-- check, the highest sequence and the insert of `_persist_event`, the refresh and the write of
-- `_heartbeat_turn_lease`, the selection and the writes of `_redact_turns`. What another session
-- commits inside these windows is not modelled.
--
-- Not modelled: `SKIP LOCKED` of `_claim_next_turn` (a turn that another session has locked counts as
-- one that is not claimable), the exceptions of the retrieval other than `ChatTurnError` and the loss
-- of the lease between its events, what others commit while a cancel, a retry or a clean-up waits for the runtime's
-- deletion, the rendering of blocks and the clients of LightRAG, the projections to response bodies
-- and the SSE text, the upload of a source, the other routes, threads, the adapters, the regular
-- expressions of chat_intent.py (a parameter), the sizes of a domain's storage, the texts of
-- cursors, JSON, the digests and the address library (parameters), the check of the security
-- settings at start-up.
pub mod Base
pub mod Access
pub mod Api
pub mod Csrf
pub mod Document
pub mod Idempotency
pub mod Indexing
pub mod Lifecycle
pub mod Paging
pub mod Preparation
pub mod Turn
