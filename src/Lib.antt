-- ===== src/Lib.antt =====
-- Larafeed is a feed reader on a serverless platform. This library models six parts of its worker:
-- the filters with which users exclude entries, the orchestrator of feed refresh jobs and the
-- repository that stores them, the policy on feed addresses, the reading of request bodies, and the
-- item identifiers of the compatibility APIs. Paths are from the repository's root.
--
-- Filter (src/worker/subscriptions/filter.ts). A user's patterns are parsed, compiled to an
-- automaton and simulated on the entry's texts. Filter.Ast holds the syntax trees; Filter.Escape
-- and Filter.Parser the class `PatternParser`, whose index into the pattern is the list of the
-- characters that are left; Filter.Nfa the class `NfaBuilder` and `compileSafePattern`;
-- Filter.Simulation `matchesSafePattern`; Filter.Matching `compileFilterRules` and
-- `matchesSubscriptionFilter`; Filter.Rules the stored form of rules, `parseStoredFilterRules`,
-- `serializeFilterRules` and `validateFilterRules`, over JSON.parse and JSON.stringify as
-- parameters. A text is the list of its code points; no surrogate stands alone in it, since only
-- then the occurrence of a literal text is the same in code points as in the source's UTF-16 units.
-- `foldCase`, the platform's toLowerCase, is a parameter. The mutual recursion of the parser runs
-- on fuel, six for each character left and five more; it never runs out, which is part of the
-- statement on parsing. The search for reachable states runs on fuel too, and what it needs is part
-- of the statement on the simulation. `Result` has the outcome that the fuel is used up, beside the
-- exceptions of the program.
--
-- Jobs (types.ts, errors.ts, orchestration.ts and repository.ts of src/worker/jobs). The
-- orchestrator creates jobs, sends their messages to a queue, and claims and runs the jobs of the
-- messages that it receives. Jobs.Types holds the data and `JobRepository`, the interface of
-- src/worker/jobs/repository.ts; Jobs.Errors the errors; Jobs.Decision the pure functions;
-- Jobs.Orchestrator the creation and dispatch of jobs; Jobs.Worker `processQueueMessage` and
-- `runCron`. The repository, the queue, the processor, the clock and the generators are parameters,
-- as in `makeJobOrchestrator`; `Effect` models their asynchronous code as functions on a world that
-- they may change, also when they throw. Numbers are natural; where the source may go below zero,
-- the place says what becomes of it.
--
-- Jobs.Store (src/worker/jobs/repository.ts, on the tables of migrations/0001_initial.sql and
-- later). A database is the lists of the rows of its tables, and each operation of
-- `makeJobRepository` a function that answers or throws, and returns the database after its
-- statements: Jobs.Store.Create has `createRefreshJob` and `listDueFeeds`; Jobs.Store.Outbox
-- `leaseOutbox`, `markDispatched` and `releaseOutbox`; Jobs.Store.Claim `claimRefreshJob` and
-- `releaseRefreshJobLease`; Jobs.Store.Recover `recoverStaleJobLeases` and
-- `reconcileStrandedRefreshJobs`; Jobs.Store.Cleanup the deletions of old rows; Jobs.Store.Failure
-- `recordRefreshFailure`. Jobs.Store.Sql holds the statements of SQL and Jobs.Store.Tables the
-- rows. A batch is one change of the database; it fails as a whole only for a key that is taken,
-- and in `recordRefreshFailure` for a feed that was deleted. Numbers in rows are taken as in range,
-- limits on attempts as positive and times as the tables ask. Jobs.Store.Valid says when tables are
-- valid, and Jobs.Store.Steps has the eleven modelled operations that write as steps, with the
-- state machine of a job; `commitRefresh`, the operation that ends a job with success, is not among
-- the steps. Each operation is one step, which no other operation comes between, also where the
-- source makes several calls of the database: the update of `claimRefreshJob` and the two reads
-- that may follow it, and the read and the batch of `reconcileStrandedRefreshJobs`.
--
-- Feeds (src/worker/feeds/policy.ts). Feeds.Ipv4 and Feeds.Ipv6 read the addresses in host names,
-- and Feeds.Policy is `validateFeedUrl`, which guards every request for a feed. The platform's URL
-- parser, its setter of host names and toLowerCase are parameters; a URL object is given by its
-- `href`.
--
-- Http (src/worker/http/request-body.ts). Http.RequestBody is the bounded reading of request
-- bodies. A stream is the list of what its reads yield. The decoding of text and JSON is the
-- platform's.
--
-- Compat (src/worker/compat/protocol.ts). Compat is the reading and the printing of the item
-- identifiers of the compatibility APIs. Safe integers have at most 14 hexadecimal digits, which is
-- the fuel of the printing.
--
-- Prelude and Result hold what the parts share. The files below a component's file hold its proofs,
-- and the Tests files run the definitions on small inputs.
--
-- Not modelled: of the job repository, `commitRefresh`, which also ingests entries, and
-- `loadFeedInput`; the other repositories, which are SQL; the routes and the user interface;
-- telemetry; and the parsers of XML and HTML, which are third-party; nor are the fetching of feeds
-- (the orchestrator's processor), favicons and authentication.
pub mod Prelude
pub mod Result
pub mod Effect
pub mod Filter
pub mod Jobs
pub mod Feeds
pub mod Http
pub mod Compat
