-- ===== src/Lib.antt =====
-- ICTT Sentinel: the pure core that decides what the bridge monitor reports.
--
-- The monitor observes an Interchain Token Transfer deployment, a home chain that holds the escrow
-- and remote chains that mint a representation, and answers whether the accounting holds. Five parts
-- of it are modelled.
--
-- The invariant core. A proof input (packages/invariant-core/src/inputs.ts, Inputs) holds what was
-- observed at pinned blocks. Gate A (gate-a.ts, GateA) checks the input contract and reconciles
-- each remote exactly: transferred balance = supply + in flight. Gate B (gate-b.ts, GateB) compares
-- the escrow with the rounded-up liabilities. The canonical ERC20 rule (engine.ts and outcome.ts,
-- Engine) runs the two in order. The aggregation (verdict.ts, Verdict) combines the contributions
-- of all rules, with reason codes (reasons.ts, Reason), into the status, the exit code and the
-- green light. Drift is the comparison with the approved baseline (drift.ts), Native the rule on a native remote
-- (native.ts), which bounds the supply from above. The lattice of
-- packages/domain/src/verdict.ts is Domain, and packages/ictt-adapters/src/scaling.ts, the port of
-- the contract's scaling, is Scaling.
--
-- The message lifecycle (packages/state-machine/src, Message). Facts decoded from logs are folded
-- into one aggregate per message (aggregate.ts, Message.Aggregate; transaction.ts,
-- Message.Transaction), from which the state, the verdict and the economic effect are derived
-- (derive.ts, Message.Derive; keys.ts, Message.Keys; states.ts, Message.States; inputs.ts,
-- Message.Inputs). A multi-chain cut is accepted only if it is causally closed (watermark.ts,
-- Message.Watermark).
--
-- The replay of history (packages/replay/src, Replay): the plan of block ranges (plan.ts), the gaps of
-- what was committed, the classification of an answer and its digest (range.ts, Replay.Range), the
-- agreement of the provider groups on it (agreement.ts, Replay.Range.Witnesses) and whether a replay
-- is complete and fresh (completeness.ts).
--
-- The quorum of RPC witnesses (packages/rpc-quorum/src, Quorum): the groups of endpoints that share a
-- trust domain or a provider group, the endpoints that turn out to be one (independence.ts, Quorum and
-- Quorum.Correlation), and what the admissible witnesses agree on at the
-- height that all of them have reached (quorum.ts, Quorum.Witness and Quorum.Evaluate).
--
-- The alerts (Alerts): the identity and the lifecycle of an alert (packages/alerts/src/dedup.ts and
-- lifecycle.ts), the table of alert rows with the fold of an incident
-- (packages/storage-postgres/src/alert-store.ts, Alerts.Outbox), and the agent's raiseAlert, which
-- composes the two (apps/agent/src/alerting.ts, Alerts.Raise). A notification is delivered once to each
-- target whose URL passes the check (notify.ts and target.ts, Alerts.Delivery and Alerts.Target), and its
-- row is settled by what the targets answered. A transaction on the table is one
-- function of it, because it holds the lock of its incident throughout.
--
-- The age of an evaluation degrades its verdict before the agent reports it (apps/agent/src/freshness.ts,
-- Freshness). Its scheduler is a state of a queue and of lanes, which submit, pump, the end of a job and
-- shutdown change (apps/agent/src/scheduler.ts, Scheduler); a run is any sequence of these.
--
-- Correspondence. A function keeps its name in snake case, and its branches their order. A bigint is
-- an integer over the native numbers, a count is a natural number, a string its sequence of UTF-16
-- code units, a Date its milliseconds, null and undefined an option. A Map or Set is the list of
-- its entries in insertion order, except the map of cuts, which is a function; Base.Grouped is the
-- map from a key to the list of its values. A sort is an insertion sort by the comparator; rows that
-- the database may return in any order, those of one time, keep the order of the table. Digests,
-- toLowerCase, localeCompare and the payload of a notification are parameters. A thrown error is a
-- value of Reduced. The loops are recursions on
-- lists, except that of planRanges, which has one unit of fuel for each height of the window, and
-- each of its rounds takes at least one height, and that of pump, which has one for each job of the
-- queue and one more, and each of its rounds takes a job. GateA.Ledger adds a model of the bridge contracts, as
-- steps that send, mint, burn and release, which states what the formulas in the comments of
-- gate-a.ts assume.
--
-- Not modelled: the digest of the proof input, hash(canonicalInputString(input)), which is an
-- argument of the rule; the engine of the replay; the attempts of a job; the sanitising
-- of notifications, the lease of their rows and the time limit of a post; the collector and the evidence package; the rest of the
-- storage, which is SQL; and the applications, which are I/O around these packages.
--
-- Base holds the shared names: numbers, lists, texts, sets, keyed lists and permutations. Examples
-- holds concrete inputs, on which each theorem is applied.
pub mod Base
pub mod Reason
pub mod Verdict
pub mod Inputs
pub mod GateA
pub mod Scaling
pub mod GateB
pub mod Engine
pub mod Drift
pub mod Domain
pub mod Freshness
pub mod Scheduler
pub mod Message
pub mod Replay
pub mod Native
pub mod Quorum
pub mod Alerts
pub mod Examples
