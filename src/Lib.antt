-- ===== src/Lib.antt =====
-- The control plane of SPLAI: its queue, its store, its policy, its scheduler and its interface.
--
-- A client submits a job, which the planner splits into tasks. The scheduler keeps jobs, tasks and
-- workers in a store and the references of the tasks that wait in a queue. A worker polls, gets
-- tasks under a lease, sends heartbeats, which extend its leases, and reports results. A report may
-- wake the tasks that depend on the reported one, may send the task back to the queue for a retry,
-- and settles the job. A sweep takes back the tasks whose leases have expired. A policy of rules
-- and quotas may deny a submission or an assignment, and an audit log keeps what was decided. The
-- HTTP server checks who calls and within which limits, turns a request into operations of the
-- scheduler, and streams the events of a job.
--
-- Files, and the code that they model (the names of Go functions in snake case):
--   Base       what the components share: Boolean tests, lists, association lists (Go maps), texts
--              (package strings), decimal numbers (package strconv)
--   State      the records of internal/state/types.go and the statuses of
--              internal/scheduler/engine.go; encodeTaskRef of internal/state/redis_queue.go
--   Queue      MemoryQueue of internal/state/memory_queue.go; Queue/Inflight: well-formedness and the
--              number of copies of a reference; Queue/Claims, Answers, Expiry, DeadLetters, Strikes:
--              Claim; Ack and Nack; RequeueExpired; RequeueDeadLetters; failures in a row
--   Store      MemoryStore of internal/state/memory_store.go; Store/Tables: reads after writes;
--              Store/Audit: the audit log
--   Policy     internal/policy/engine.go; Policy/Rules and Policy/Quotas
--   Scheduler  internal/scheduler/engine.go. Engine: the state, a store and a queue, and helpers;
--              Leases: names of leases, deadlines and heartbeats; Sweep: lemmas on loops that rewrite
--              tasks; Progress: reconcileJobStatus and requeueExpiredLeases; Report: ReportTaskResult
--              and its request of pkg/splaiapi/types.go; Lifecycle: CancelJob and ArchiveJob; Submit:
--              AddJob; Placement: bestWorkerForTask; Preemption and Assign: tryAssign; Poll:
--              PollAssignments; Workers: RegisterWorker and the listings
--   Planner    internal/planner/planner.go: the static plans, and the fallback of the plan by a provider
--              (a function here); Planner/Order: the order of a plan's tasks
--   Router     internal/models/router.go; Router/Routes: its meaning
--   Limits     submitLimiter of internal/api/rate_limit.go and adminSafety of
--              internal/api/admin_safety.go; Limits/Sorted, Windows, Bounds, Sliding: the histories, what
--              they cover, how much passes, and an abstract limiter; Limits/Admin: requeue requests; Limits/Env:
--              their configuration
--   Auth       internal/api/auth.go: principals, scopes and the authorizer; Auth/Tokens: how
--              newAuthorizerFromEnv reads its three texts; Auth/Parsing and Grants: what it lets in, and
--              with which scopes; Auth/Decisions: authorize and canTenantAction
--   Api        internal/api/server.go. Messages: of pkg/splaiapi/types.go, and the answers; Server: the
--              state and the checks that handlers share; Injects: what is added to a plan; Jobs:
--              handleJobs and handleModelPrefetch; Listing: handleJobByID; Workers: the handlers for
--              workers; Admin: handleDeadLetterQueue; Audit: handleAuditEvents; Artifacts and Compat: the
--              OpenAI-compatible handlers; Stream: streamJobEvents; Routes: Handler. Below each of them
--              are the proofs: Injects/Order and Jobs/Plans on the order of plans, Jobs/Accepted,
--              Prefetch and Targets on what an answer means, Listing/Guards and Pages, Admin/Requeues
--              and DryRuns, Compat/Waiting and Refusals, Stream/Views and Follows
--   Redis      internal/state/redis_queue.go. Wire: writeRESP and readRESP; Wire/Answers and Echoes: reading
--              ends, and reads what was written; Queue: the operations of RedisQueue as commands; Server:
--              what the commands do by the documentation of Redis, on what is held under the queue's keys;
--              Kept: copies of a payload; Runs: the small calls; Nacks and Expiry: Nack, RequeueExpired
--   Tests      sample data, and each theorem that has hypotheses at a concrete input
--
-- How the code is modelled. Each method of the queue and of the store holds its mutex from start to
-- end, so it is one step: a function from the state to the state and the result. The scheduler has
-- no lock: its operations are sequences of such steps, and the model runs each of them to its end
-- before the next one starts. `now` is an argument, one reading of the clock for each operation, in
-- nanoseconds after the zero time of package time; a method that reads the clock twice gets the
-- same instant twice. A map is an association list, and a range visits it in the list's order: Go
-- leaves the order open, and the theorems hold for every order since they hold for every list.
-- Counts and durations are natural numbers: the code treats a negative limit, timeout or quota as
-- it treats 0; a negative number of retries is outside of the model. The counter of receipts is a
-- uint64 and wraps around at 2 ^ 64; the number of the next audit event does not wrap around;
-- neither do products of the number of assignments that a poll asks for. The scheduler stands on
-- the in-memory store and queue, which return no errors of their own. Folding of case covers the
-- letters whose lower case is an ASCII letter. A float64 is kept as its bits, and the choice of a
-- worker takes the scores, their order and their distance as parameters (`Scores` for
-- computeWorkerScore): what is stated of it holds for any. Where sort.Slice leaves an order open,
-- the model keeps the order of the input; the hash of fnv.New32a is written out. The digest of an
-- audit event (JSON and SHA-256) is a parameter. Printing a number recurses on fuel, one more than
-- the number, which has fewer digits than that.
--
-- A handler of the server is a function from the request and the server to the server and the
-- answer; the body of the request is what its decoding gives, none where that fails, and answers
-- keep their fields instead of their bytes. A handler has one instant for all that it does. While
-- the OpenAI-compatible interface waits for its job other requests go on: the engine that each
-- round of the waiting finds is an argument, as is the engine at each tick of the stream of events.
-- The rounds are fuel: as many as have 200 milliseconds in the timeout, and one, are enough. What
-- the code asks of other packages is a parameter: the digest of an audit event, the hash of a list
-- of tasks (JSON and SHA-256), the printing and the parsing of an instant (RFC 3339), and what is
-- read from a file. The Redis queue runs on a server that is a parameter, with the documented
-- effect of each command as a hypothesis; there a character of a text stands for a byte, and the
-- fuel of readRESP bounds the depth of its recursion: one more than the number of characters is
-- enough. The limiters count Unix seconds from 1970, the names of leases and receipts nanoseconds
-- from 1970. An instance of the server is one process, so the counter that names its jobs starts at
-- 0.
--
-- Not modelled: metrics and traces, which no decision reads, and the wrappers that log; the
-- Postgres implementation of the store, whose steps are commands to a server; the transport of HTTP
-- and the clients; the loading of files; the workers' executor, which runs processes; generated
-- code and controllers.
pub mod Base
pub mod State
pub mod Queue
pub mod Store
pub mod Policy
pub mod Scheduler
pub mod Planner
pub mod Router
pub mod Limits
pub mod Auth
pub mod Api
pub mod Redis
pub mod Tests
