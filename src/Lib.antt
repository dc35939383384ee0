-- ===== src/Lib.antt =====
-- DokTok NG: the ingestion pipeline, the feature ledger and its reconciler, the document, job and tag
-- repositories, the sums over extracted records, the agent loop, the cutting of texts, and the
-- security core.
--
-- DokTok NG ingests a tenant's documents and enriches them by features (embedding, titles,
-- entities, ...), each run by a worker and recorded in a ledger. Requests reach it with a bearer
-- credential that names a tenant. This library models, shallowly and executably, the parts of
-- core/doktok_core that decide: what becomes of a file, which feature runs next, what a run leaves
-- behind, who may ask, and how an answer is put together.
--
-- Features (core/doktok_core/features)
--   Features/Row, Keys       FeatureStatus, FeatureMetrics, DocumentFeature of
--                            contracts/doktok_contracts/schemas.py, and the key of a row
--   Features/Ledger          inmemory.py: InMemoryFeatureRepository as a record of rows, active
--                            documents and drawn ids; each method a function of the state. Below it
--                            Unique, Fewer, Ensure, Settled and Requeue hold its laws.
--   Features/Queries         the reads of inmemory.py
--   Features/Claim           claim_next of inmemory.py: crash bound, order, prerequisites, lanes and
--                            groups. Choice and Result are about what it chooses, the
--                            other modules below it about limits, prerequisites and restarts.
--   Features/Calls           any sequence of calls of the ledger
--   Features/Reconciler      reconciler.py with one worker: claim, process, drain, reconcile. It
--                            calls the ledger of Features/Ledger and Features/Claim.
--   Features/Workers         _drain_concurrent of reconciler.py: a step relation over the shared
--                            budget and the places of the workers
-- Security (core/doktok_core/security)
--   Security/Roles, Policy   roles.py and policy.py
--   Security/Registry        inmemory.py: InMemoryTenantRegistry
--   Security/Sessions        sessions.py, with PyJWT as a parameter
--   Security/Auth            auth.py: the static map, the registry and the session token, in the
--                            order of resolve_credential; hashlib.sha256 is a parameter
-- Documents (core/doktok_core/documents)
--   Documents/Document       Document of contracts/doktok_contracts/schemas.py
--   Documents/Store          inmemory.py: InMemoryDocumentRepository without its listings. Copies and
--                            Follows hold the laws of its operations, Calls those of any sequence.
--   Documents/Filters        the columns and filters of its listings
--   Documents/Listing        list_documents and list_document_ids; Order is about their order, Wanted
--                            about the filters, Pages and Shown about what a page holds
-- Text
--   Text/Windows             window_text of core/doktok_core/aggregation/windowing.py
--   Text/Chunker             core/doktok_core/indexing/chunker.py
--   In both, Cover is about which parts of the text are covered, and about sizes.
-- Tags (core/doktok_core/tags)
--   Tags                     inmemory.py: InMemoryTagRepository without find_similar and the reads
--                            that group by document; Tags/Merge is about the links after a merge.
-- Jobs (core/doktok_core/ingestion)
--   Jobs                     inmemory.py: InMemoryIngestionJobRepository; Jobs/Tenants is about the
--                            calls of one tenant and the jobs of others.
-- Ingestion (core/doktok_core/ingestion)
--   Ingestion/Files          the folders of layout.py, and the moves of
--                            storage/filesystem/doktok_storage_filesystem/storage.py; Laws is about
--                            what is at a path after them
--   Ingestion/Services       IngestionServices of pipeline.py, the state of a run and its steps,
--                            which may raise
--   Ingestion/Outcomes       how a run ends without an active document; Accounts says what a run
--                            leaves, Settles is about the outcomes
--   Ingestion/Artifacts      the move of core/doktok_core/documents/artifacts.py
--   Ingestion/Activation     _activate, after the extraction, the row and the indexing
--   Ingestion/Pipeline       process_file; Runs is about whole runs, Staged about the handoff
--   Ingestion/Recovery       recover_stale_jobs; Requeues is about one job, Runs about all
--   Ingestion/ExtractStage   extract_stage.py; Resumes is about how its runs end
--   Ingestion/Interrupted    fail_interrupted_processing; Reaps is about which documents it fails, Verdicts
--                            about the staged source and the row that decide this
--   A run reads and writes the job repository of Jobs, the document repository of Documents/Store
--   and the ledger of Features, in the order of the source, and keeps what it wrote when it raises.
--   A move fails where its source is missing, and the move of a folder where its destination holds
--   files; a disk that refuses a write otherwise is modelled for the artifacts only. That ids are new
--   and differ is assumed of uuid4.
-- Aggregation (core/doktok_core/aggregation)
--   Aggregation/Group        the dictionaries of running values; Laws and Sorting are about them
--   Aggregation/Records      inmemory.py: InMemoryRecordRepository without its rollups
--   Aggregation/Rows         the rows of the rollups, and their orders
--   Aggregation/Rollups      record_summary and aggregate; Reference has the sums by key
-- Agent (core/doktok_core/agent, core/doktok_core/tools)
--   Agent/Tools              tools/base.py: the registry and the gateway of the tools
--   Agent/Messages           messages, turns and events, and the model, a parameter
--   Agent/Loop               agent/loop.py: run_agent_stream and run_agent, as the list of the events
--                            that are yielded; Calls is about the messages, Runs about whole runs
--   The rounds are recursion on max_iterations, the source's own bound.
--
-- Modelling. A repository is a record, and a method a function from it to its result and the next
-- record; a row that Python changes in place is replaced at its place in the list. A `dict` is an
-- association list in the order of insertion (Prelude/Dict). `uuid4` is a supply of ids that the
-- state counts, and an instant is a natural number of microseconds that the caller passes in; the
-- clock of the reconciler is a function of the number of the reading, without any assumption. A
-- feature processor is whatever the environment says about its runs: it returns, with a usage or
-- without, or it raises. A stable sort is insertion sort on the same comparison. Whole numbers are
-- natural numbers, since Python's do not overflow and those of the program are not negative but for
-- the amounts of money, which are integers (Prelude/Ints); `now - lease` stops at 0. The lease and
-- the base of the backoff are durations in the unit of the clock, not seconds.
--
-- Loops are recursion on the list they run over. The drain of one worker is recursion on
-- max_per_pass, which is the source's own bound, so no fuel is added. The concurrent drain has no
-- bound of its own; its runs are finite sequences of steps.
-- The loops over positions of window_text and of the chunker take fuel: the number of lines, and of
-- characters, which is enough since each round moves the start forward.
--
-- Not modelled: passwords.py (argon2) and egress.py (urllib), the processors of the features, the
-- extraction and the indexing of a file, retrieval, the knowledge graph, the SQL
-- repositories that the in-memory ones stand in for, the HTTP API and the front ends. Logging has no
-- counterpart.
pub mod Agent
pub mod Aggregation
pub mod Prelude
pub mod Features
pub mod Security
pub mod Documents
pub mod Text
pub mod Tags
pub mod Jobs
pub mod Ingestion
