-- ===== src/Lib.antt =====
-- report-insight: cleaning reports of properties are ingested, classified by a language model,
-- searched, corrected by people and summed up in monthly reports that a branch manager approves.
--
-- The parts, and how they interact. A worker (app/worker/main.py) takes messages from a queue, reads
-- the object keys in them and has the ingestion service (app/services/ingest.py) mask, normalise,
-- classify and store each report, and notify if it is urgent. The search service
-- (app/services/search.py) finds the nearest reports that a user may see, streams an answer of
-- the language model about them and links the citations that exist. The review service
-- (app/services/admin.py) lists reports in pages and overrides classifications. The monthly service
-- (app/services/monthly.py) generates a report as a background task of the handlers in
-- app/api/routers/monthly.py, and lets a branch manager edit and approve it. All of them work on the
-- tables of app/infra/db through repositories, each use case in one transaction. The pages
-- (app/api/routers/monthly_ui.py and admin_ui.py) call the same services. The masker
-- (app/infra/masking/pii.py), the dictionary (app/infra/text/normalize.py) and the language model
-- (app/infra/llm) stand behind ports; scripts/export_corrections.py and scripts/export_eval_cases.py take
-- what people corrected back into the dictionary and the evaluation.
--
-- The files.
-- - Base: Boolean tests, signed integers, texts, lists, the string methods that are used (Str, Find), and
--   dictionaries whose keys are texts (Dict).
-- - Domain: app/domain. Values (values.py), Entities (entities.py), Errors (errors.py, and the result
--   of a computation that may raise), Labels (labels.py), Payload (JSON), Calendar (dates of `datetime`
--   and `_month_bounds`), RoundTrip (enum values as texts).
-- - Db: app/infra/db/models.py (Rows), mappers.py (Mappers), app/core/db.py (Effects: the state, the
--   monad of the use cases and `unit_of_work`), the operations on tables (Table), and the lemmas on
--   pages with a cursor (Paging, Walk).
-- - Repositories: app/infra/db/repositories.py. User, Report, Monthly, Stats and Audit are the classes;
--   Access says what `permitted_property_ids` means, RoundTrip what is read of a stored report; Totals
--   is about the figures of Stats.
-- - Ingest: app/services/ingest.py. Service (`ingest_from_key`), Chunks (`_build_chunks`), S3Event
--   (`parse_s3_event`); Privacy, Contacts, Prepared, Idempotence and Stored are proofs.
-- - Worker: `process_message` and `_handle` (Process) and `_consume_loop` (Loop); Redelivery, Deletion,
--   Liveness (of a message) and Rounds (of the loop) are proofs.
-- - Monthly: app/services/monthly.py (Service, Render) and app/api/routers/monthly.py (Jobs); Frame,
--   Approval, Versions, Lifecycle and Generation are proofs. Race has the requests whose transactions
--   overlap, as a schedule of turns; Overlap, Creates and Versions under it are proofs.
-- - Admin: app/services/admin.py (Service), the list response of app/api/schemas.py and
--   app/api/routers/reports.py (Out); Pages, Limits and Override are proofs.
-- - Search: app/services/search.py (Service, Citations), app/api/routers/search.py (`post_search` of
--   Service) and the statements of `SqlSearchRepository` (Repository); Authorised, Sound, Cited,
--   Linked and Protocol are proofs.
-- - Api: app/api/deps.py (Deps), app/api/error_handlers.py (Problem), app/api/schemas.py (Schemas),
--   app/api/routers/_ui_shared.py (UiShared), monthly_ui.py (MonthlyUi, and what its pages show in Views),
--   admin_ui.py (AdminUi), audit_ui.py (AuditUi) and reports.py (Reports); MonthlyForms, MonthlyPages,
--   AdminPages, AdminTable, AdminWalk, OverrideForm, Views/Editable and what stands under AuditUi and
--   Reports are proofs.
-- - Infra: app/infra. Masking is masking/pii.py: the two patterns as backtracking matchers (Pattern), and
--   `_mask_sync` (Masker); the rest of it are proofs. Llm is llm: anthropic_client.py (Anthropic),
--   fake_client.py (Fake) and summaries.py (Summaries); Outcomes, Forgery and Consistent are proofs.
--   TextNormalizer is text/normalize.py. Schema has what a migration does to a database's tables, with
--   db/migrations/versions/0001_initial.py (Initial) and the classes of db/models.py (Models); RoundTrip
--   and Agree are proofs. Emf is observability/emf.py, the documents of the metrics; Merged and Document
--   are proofs.
-- - Scripts: `merge` of the two export scripts (Merge), the export of the verified cases
--   (export_eval_cases.py, Verified; Feedback is a proof), the sample reports of scripts/templates.py
--   (Templates), their generator scripts/synth.py (Synth, Synth/Generate; Recovery and Total are proofs),
--   and scripts/seed_demo.py (SeedDemo; Statements, Seeded and Wait are proofs).
-- - Tests: concrete inputs.
--
-- How it is modelled. The state is a `World`: the tables as lists of rows, and what has left the process
-- (calls of the language model, notifications, metrics, deletions from the queue), the newest first. A
-- use case is a function from a world to a result, a value or an exception, and a world; a rollback
-- restores the tables and not what has left. A table's next id and the clock are parameters
-- (`Server`), and so are the components outside the services: storage, validation of messages, the
-- masker, the normaliser, the language model, the embeddings, the distance of vectors, the
-- notifier. A statement in SQL is the operation on lists that it means, and its constraints are checked
-- where it inserts. A float is its bit pattern, a date-time a number of microseconds;
-- the conversion of a float to the single precision of its column is a parameter. A port is a function of
-- its arguments: it stands for what the service behind it answers during one use case or one delivery, and
-- what is said of a later one is said for other ports. A text is a list of
-- code points where the program looks at its characters. Fuel bounds a client that pages through a list,
-- and its theorems say how much is enough: more requests than there are reports; the digits of
-- `str(n)`, for which n + 1 is enough; and the wait of the demonstration, for which two units more than
-- its seconds are enough.
--
-- What is not modelled. Commits succeed, and transactions are serial but in Monthly/Race, where each
-- statement reads what is committed, no row is locked, and a request is its checks and then its writes:
-- finer interleavings are left out, and so is the concurrency of the messages of one batch. Log lines,
-- the HTML of the pages, configuration, SSE frames, notifications, the stream of metrics, AWS clients, the
-- PDF renderer, the other scripts and the evaluation suite are left out: they are input and output, calls
-- of other libraries, or offline tools. The SDK of the language model,
-- the tokenizer of Japanese, Python's random numbers and the files of the prompts are parameters.
pub mod Base
pub mod Domain
pub mod Db
pub mod Repositories
pub mod Ingest
pub mod Worker
pub mod Monthly
pub mod Admin
pub mod Search
pub mod Api
pub mod Infra
pub mod Scripts
pub mod Tests
