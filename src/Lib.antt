-- ===== src/Lib.antt =====
-- Semiconductor Intel: a service that collects sources, parses and indexes them, extracts claims with
-- evidence, groups them into events and writes reports. Everything but the HTTP requests runs as jobs of
-- a durable queue, which this library models first, with the rules of the domain, the chunker of the
-- search index, the parts of the HTTP layer that replay, page and stream, the scheduler and the worker
-- around the queue, the guard on outbound addresses, and the services for evolutions, reviews and
-- timelines.
--
-- Conventions: a UUID is a natural number, a time is a number of microseconds, a JSON object is the
-- list of its fields in order, a dict of Python an association list in insertion order. An exception
-- is a value, and what was written before it stays written, so an action gives the state back beside
-- the error (Prelude.Exec). What is not code of this repository is an argument.
--
-- Files and code:
--   Prelude, Prelude/*       Boolean tests, lists over native numbers, dictionaries, JSON, actions
--   Queue/Rows, Queue/Store  src/intel/repositories/jobs.py: the rows and InMemoryJobsStore, one function
--                            for each method; claim_next in the two parts that its await separates
--                            (claim_select and claim_write). SqlAlchemyJobsStore has the same
--                            predicates in SQL and is not modelled
--   Queue/Lease              src/intel/workers/leases.py
--   Queue/Retry, Queue/Rules, Queue/Service, Queue/KindSpec
--                            src/intel/services/jobs.py: classify_failure, the tables and row updates,
--                            the methods of JobService, KIND_SPECS with build_idempotency_key
--   Queue/Effects            the sources a method reads: the clock, the random numbers (k stands for
--                            k / 2^53), the UUIDs and the lease tokens, each as a sequence of answers
--   Queue/Lifecycle, Queue/Events, Queue/Claims, Queue/Retries, Queue/Fencing, Queue/Keys,
--   Queue/Backoff
--                            proofs; Queue/Lifecycle/Runs has the step relation: any method by any
--                            worker on any snapshot that was handed out, in any order;
--                            Queue/Lifecycle/Table compares each step with the service's table of
--                            state changes
--   Domain/Quotes, Domain/Validation
--                            src/intel/domain/validation.py: locate_quote, validate_claim,
--                            validate_proposal
--   Domain/Identity          src/intel/domain/identity.py
--   Domain/Times             src/intel/domain/time.py and TimeValue of src/intel/contracts/models.py
--   Domain/Urls              src/intel/domain/urlnorm.py: the filter on the query
--   Retrieval/Chunker        src/intel/retrieval/chunker.py
--   Retrieval/Recall         src/intel/retrieval/recall.py: rank_hits and recall_page
--   Api/Replay               src/intel/api/idempotency.py, src/intel/repositories/idempotency.py
--   Api/Pages                src/intel/api/pagination.py
--   Api/Stream               src/intel/api/sse.py
--   Workers/Scheduler        src/intel/workers/scheduler.py: run_once on the rows of its three queries
--   Workers/Runner           src/intel/workers/runner.py: run_once, _execute with its except clauses (settle,
--                            conclude), _finalize, _service_fail, _keep_lease and RunContext.boundary
--   Workers/Slots, Workers/Zombie, Workers/Closing
--                            proofs about the two
--   Sources/Guard            src/intel/sources/ssrf.py
--   Services/Evolution       src/intel/services/evolution.py; its children hold proofs
--   Services/Reviews         src/intel/services/reviews.py; Services/Reviews/Runs has the step relation
--   Services/Timeline        src/intel/services/timeline.py: intersects, visible_at, select_revision
--   */Samples                tests, and each theorem with conditions applied to a concrete input
--
-- Interaction: the scheduler and the worker are clients of Queue.Service and act on the store through it; a
-- handler is any action on the store that ends in an outcome, so what other workers and the reaper do
-- while it runs is part of it. JobService works on the store through Queue.Effects.store and query; the event stream reads
-- the log that append_event numbers (Api/Stream uses Queue.Events.Numbered). Assumed of the sources in
-- the runs of the queue: no UUID and no token comes twice (NoRepeats). The methods are atomic steps, as
-- each runs in a transaction; a claim is also looked at between its two parts. In a run, a job is finished
-- with any state but retry_wait, which only fail uses.
--
-- Loops: locate_quote, the windows of the chunker and the groups of table rows run on a number of rounds
-- that the length of their input gives (enough, since each round moves on by a place, a word or a row);
-- a client's walk over the pages has one round more than there are items; the search for cycles goes as
-- deep as there are names of nodes. The other loops follow a list.
--
-- Not modelled: the SQL adapters, the network, the language models and HTTP glue; the texts of messages;
-- times before 1970; the limit on the depth of recursion of Python; task cancellation inside
-- the worker's process; the pages and cursors of timelines;
-- the revision id of a build; the parsing of HTML and PDF; a Last-Event-ID below zero.
pub mod Prelude
pub mod Api
pub mod Domain
pub mod Queue
pub mod Retrieval
pub mod Services
pub mod Sources
pub mod Workers
