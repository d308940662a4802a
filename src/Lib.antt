-- ===== src/Lib.antt =====
-- Verification of Veritix, a program that audits data exports: it reads the files of a customer
-- into a database, checks them, lets a model investigate through a guarded set of tools, reports
-- findings, compares each report with the one before, and repeats this on a schedule.
--
-- The parts and their files, with paths from the root of the repository:
--
-- Finding (internal/finding/finding.go). Severity holds the severities and their texts, Model a
-- finding, its key and its id, Set the operations of `Set` by their names. A set is its `items` and
-- the map `seen` from keys to positions; an index out of range is `none`. Merge, Order, Summary,
-- Key and Verify hold what `AddAll`, `All`, `Counts` and `Max`, `key` and `Verify` promise. The
-- engine is a function from a query to a number or a failure, and SHA-256 a function on bytes.
--
-- Redact (internal/agent/redact). The guard between cell values and a model. Shape is shape.go,
-- Guard the policy, the counters and every `Guard` method for values, Quoted `EngineError`, Seal
-- `inspect`, `Seal` and `SealText`; Rows is the result of `run_sql` (internal/agent/tools/query.go),
-- whose cells `Cell` clears before `Seal` sees it. Fixed, Withheld, Ledger, Scrub and Leak hold the
-- proofs. A Go value is what `reflect` shows, and a map tells whether its keys are strings. Text is a
-- list of bytes, decoded by Base.Utf8 as Go ranges over a string. The tables of package unicode, the
-- three patterns and `json.Marshal` are parameters. The scan of quoted literals runs
-- on fuel, one more than the length of the message, and each round takes at least one byte.
--
-- Compare (internal/report/compare.go). Findings is `compareFindings`, `sortFindingDeltas` and
-- `Regressed`, Tables is `compareTables` and `columnDiff`, Whole is `Compare`;
-- Truth, Accounts, Same, Ties, Reading and Columns hold the proofs. The order in which
-- Go ranges over a map is a parameter, any rearrangement of the entries. Base.Walk is the loop that
-- the three comparisons share.
--
-- Schedule (internal/schedule/schedule.go). Spec has `Next`, `Window` and `Validate`, Names has
-- `Zone`, `LoadLocation`, `At` and `ParseAt`. Instants and durations are numbers of nanoseconds,
-- without the bounds of 64 bits; the calendar, the zones and the parsing of package time are
-- parameters. Days are called regular if a time of a later day is a later instant, which package
-- time does not promise for a time that a change of the clock at midnight skips.
--
-- Scheduler (internal/api/scheduler.go, with `ScheduleFired` of internal/store/schedules.go and
-- `removeRunFiles` of internal/api/datasets.go). Sweep is `sweep`, `blocked` and `record` on the rows
-- of the schedules; whether the database carries out the update of a dataset's schedule is a
-- parameter, and a sweep updates none twice. Firing is about the steps, Swept about the table that
-- they leave. Discard is `discard`, `tickOnce`, `needed` and the tick of `newScheduler` over what
-- they call, and `removeRunFiles` over `os.RemoveAll` and `filepath`, which are parameters. It uses
-- Schedule for the next window. The runs of the store and the start of an audit are functions on a
-- state of the server.
--
-- Agent (internal/agent). Loop is the loop of `Run`, Retry is `complete`, Written is writtencall.go,
-- Message is llm/llm.go and the steps of trace.go. The loop counts down the steps that are left
-- from `MaxSteps`, so it needs no fuel; the scan of a text for written calls has its length as
-- fuel, and the decoder reads at least one byte. The provider, the context, the tools and the
-- decoder are functions on a state of the world.
--
-- Sql (internal/engine/sql.go and analyze.go). Quote is `Ident`, `Idents`, `Literal` and `Qualify`
-- on bytes, Injection reads quoted texts as standard SQL does; Statistic is `isStatistic` of
-- analyze.go.
--
-- Store (internal/store). Model is the tables as lists of rows, Write every operation that changes
-- datasets, runs, findings, traces and proposals, Read those that read runs. Which statements the
-- database carries out is a parameter, so that each may fail. Rows are what a keyed list of rows keeps
-- when it grows or shrinks; Consistent, Invariant, Steps and Reach have the promises of the schema and
-- the relation of reachable tables, Replaced, Atomic and Succeeds are about `FinishRun`, Keeps
-- and Discarded about discarding together with the scheduler's loop, History
-- about `PreviousRun` and `MarkInterrupted`.
--
-- Runs (internal/runs/runs.go). Execute is `Execute`, `baseline`, `storeFindings` and `storeProposals`
-- on those tables; Recorded says how a run ends. The audit and the report are parameters.
--
-- Eval (internal/eval). Manifest is manifest.go, Match and Score are score.go; Valid, Ledger and
-- Aggregate hold the proofs. The findings are those of Finding.
--
-- Rules (internal/rules/rules.go, and `Merge` of internal/runs/runs.go). Glob is `matchGlob`, on bytes,
-- with `strings.ToLower` as a parameter, and Reference compares it with what a pattern means; Model
-- is the rules, `Validate`, `Load` and `Merge`, Loaded what they promise. Floats are a parameter.
--
-- Api (internal/api/runner.go and the reading loop of events.go). Stream is `activeRun`: its operations
-- hold a lock, so they are steps in some order; Channels and Delivery are about the streams in reach.
-- A buffer holds 64 events, as in the code.
--
-- Audit (internal/audit/audit.go). Pipeline is `Run` and `Result.Close`: what the stages return is a
-- parameter, what a run holds is a record, and the findings go through Finding. Released says what is
-- left and what is reported.
--
-- Config (internal/config/config.go, and one refusal of internal/cli/serve.go). Settings is `Validate`,
-- Usable what it promises, Address `IsLoopback`.
--
-- Notify (internal/notify/notify.go, and the findings of a message in internal/api/notify.go). Sink is
-- the decisions and `Send`, which counts down its two retries; Sending is about the posts, Regressed about who is told of a
-- comparison.
--
-- Base holds what these share: numbers, lists, text as bytes, maps as association lists, stable
-- insertion sorting, decimal text and the comparing loop. The Tests module of each part runs the
-- code on small inputs and applies the theorems to them.
--
-- Not modelled: log lines, spans and durations, which no property is about; the SQL, the files, the
-- network and the rendering of reports; the shares that are floating point numbers. Lengths, counts
-- and tokens are numbers without a bound.
pub mod Agent
pub mod Api
pub mod Audit
pub mod Base
pub mod Compare
pub mod Config
pub mod Eval
pub mod Finding
pub mod Notify
pub mod Redact
pub mod Rules
pub mod Runs
pub mod Schedule
pub mod Scheduler
pub mod Sql
pub mod Store
