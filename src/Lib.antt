-- ===== src/Lib.antt =====
-- The rules of the contest management system: what a participant may do and when, how submissions are
-- scored, and how a contest is ranked.
--
-- The programs (cmd) run web services for contestants and administrators, a dispatcher with workers that
-- judge submissions in a sandbox, and a public scoreboard on servers of its own. Most packages below have no
-- state and are called with what the database holds; the pusher and the scoreboard servers have state, and
-- exchange messages:
--
-- * internal/contest decides what a participant may do at an instant.
--   - Contest/Timing: `Compute` of timing.go, `compute` here, cut into the steps of its body.
--   - Contest/Limits: `Check` of limits.go, `check`; a message is a constructor.
--   - Contest/Tokens: `Tokens` and `CanPlay` of tokens.go, `tokens` and `can_play`. The loops that generate
--     tokens (`generate`) run on fuel, the distance from the start (`fuel_for`): a generation
--     takes at least a nanosecond, so that this many steps reach any instant.
-- * internal/scoring turns outcomes into scores.
--   - Scoring/ScoreTypes: scoretypes.go, the score types of a dataset: `Sum` (ScoreTypes/Sums), the groups
--     (ScoreTypes/Groups, read by `newGroup` of ScoreTypes/Members), and the short-circuit `Skippable`
--     (ScoreTypes/Skips; ScoreTypes/ShortCircuit and ScoreTypes/Settled relate it to `Compute`).
--   - Scoring/Modes: `Aggregate` of modes.go, `aggregate`, with what its modes compute in the child modules.
--   - Scoring/Icpc: `ICPC` and `ICPCPenalty` of modes.go.
--   - Scoring/Verdict: verdict.go.
-- * internal/ranking ranks a contest from the task scores.
--   - Ranking: the rows of ranking.go, `finish` (`finish_rows` before the medals), `setElapsed`,
--     `reachedTime`, `compareRows`, `sort` and `places` of medals.go; the last two number rows with one
--     pass, `number` of Ranking/Numbering. The texts of a row that are only shown are left out.
--   - Ranking/Medals: `medals` of medals.go, and `finish` whole. The loop over the tie groups (`extend`) runs
--     on fuel, the number of rows left: each step takes at least one.
--   - Ranking/Delta: `Diff` of board.go and the rows of `apply` of internal/rankingweb/board.go. JSON is an
--     argument, with what is relied on as the record `IsFaithful`.
--   - Ranking/Push: `pushContest` of internal/rankingpush/pusher.go for one contest and one server, and
--     `handlePush` of internal/rankingweb/server.go; Ranking/Push/Steps puts both together with what the
--     network loses and the server's file, as a relation of steps. The run of a pusher begins with a server
--     without the board: a board of the same number left from an earlier run is not modelled.
--   - Ranking/Board: `mergeTeam`, `rerank` and `SortRows` of board.go, and the rows of `BuildBoard` (Ranking/Board/Build); Ranking/Display: `Display` of display.go.
--   - Ranking/Replay: `FreezeAt`, `Frozen` and `Replay` of replay.go, the ranking rebuilt from the submissions before a
--     freeze (`replay`, before `finish`) and the score histories (`history`); Ranking/Replay/Current: `aggregate` of
--     internal/dispatcher/judging.go (`aggregate_row`), whose rows the live ranking reads. What is loaded of the
--     contest, its tasks and its participations (`newBuild`) is an argument.
--   - Ranking/Build: which rows `newBuild` takes, its `starts`, and the cells that `Compute` makes of the rows
--     of the database, which are arguments.
-- * internal/checkers compares outputs: Checkers has `CompareExact` and `CompareWhite` of
--   checkers.go, and Checkers/Floats `CompareFloat` with its token reader, `strconv.ParseFloat` being an
--   argument. A reader is the bytes of its stream and whether it fails after them. The blocks that `CompareExact` reads
--   are bounded by the bytes, each block but the last takes one at least.
-- * internal/plagiarism finds similar submissions. Plagiarism: the hashes of plagiarism.go (`strHash`, `kgrams`,
--   `mix`) and the tokens that a base covers; Plagiarism/Winnow: the loop of `Fingerprint` on fuel, the number
--   of k-grams, which each round but the last leaves behind. A uint64 is a natural number with its wrap-around
--   written out. The tokens come from the lexer of internal/highlight and are an argument.
-- * internal/queue has the lease that lets one replica of a service be active, and the streams that carry jobs to
--   the workers and results back. Queue/Lease: lease.go, the calls and the rounds of `Run` and `hold` as steps
--   that may fail before or after Redis carries them out. Queue/Streams: `Enqueue`, `Next`, `Complete`, `Defer`,
--   `Ack` and `Requeue` of queue.go; Queue/Streams/Steps puts them together with the loop of
--   internal/worker/service.go and `Check` of internal/monitor/monitor.go, as a relation of steps. The dispatcher's
--   reading and deletion of results is left out there, so that a result that was published stays. Redis is an argument in
--   both, with its documented behaviour as laws (Queue/Lease/Commands, Queue/Streams/Commands).
-- * internal/auditlog verifies the hash chain of the audit log. Audit: `Verify` of verify.go, the loop over the pages
--   on fuel, one more than the entries, since each page but the last holds one at least; and the trigger of
--   internal/db/migrations/0021_operations.sql that chains an entry. The hash function is an argument.
-- * internal/dispatcher takes a submission through compilation, evaluation and scoring. Dispatcher: `advance`,
--   `handleSubmissionResult` and what they call in judging.go and shortcircuit.go, for the row of one submission on
--   one dataset, with the jobs they enqueue; Dispatcher/Steps puts them together with the invalidations of reeval.go.
--   The queries of internal/db/queries/submissions.sql are read as functions on the row, and each transaction is
--   one step. The dataset does not change, and whether `loadSubmission` succeeds is an argument.
-- The files named Tests hold runs at concrete inputs.
--
-- Numbers. An instant or a duration is an integer (nanoseconds); the zero time of Go is the constant
-- `zero_time`. Overflow of a duration (292 years) is not modelled. A float64 is a value of a type F with the
-- operations of Prelude/Float; theorems that depend on order take its laws as a hypothesis, which the
-- amounts in billionths satisfy. A float is never NaN here: scores come from JSON numbers and outcomes from
-- checkers, which give none. `sort.Slice` and `sort.SliceStable` are a stable insertion sort: the order is
-- the same where the comparison is a strict weak order. That of rows is one in ICPC mode, and in IOI mode
-- where totals that differ, differ by more than the tolerance of 1e-9.
--
-- Not modelled: the web services (but for the pushes), the database and its generated code, the sweeps of the
-- dispatcher over all rows, its events, the sandbox and what the workers run in it, and the documents in and out (JSON,
-- archives, PDF), which are input and output around these rules.
pub mod Audit
pub mod Checkers
pub mod Contest
pub mod Dispatcher
pub mod Plagiarism
pub mod Prelude
pub mod Queue
pub mod Ranking
pub mod Scoring
