-- ===== src/Lib.antt =====
-- A verification library for the governed data platform: the parts of its Python code that decide who
-- is admitted, what a request may read, what is durable, what is replayed and what a human has approved.
--
-- * Traffic models agent/api/traffic.py. `TrafficGuard` is the state of `GovernedTrafficGuard`;
--   `acquire`, `release` and the helpers are its methods, `_lock` makes each call one step. Times are
--   natural numbers of nanoseconds. Traffic/Serving runs a guard on any sequence of
--   requests and releases; the other files in Traffic/ prove what such runs keep.
-- * Audit models `_ProcessDurableAuditSink` of agent/audit/writer.py. Each block under the
--   condition's lock is one function from a state to a state and to the place where the thread goes
--   on (`Pc`); Audit/Schedule interleaves any threads. Timings are left out, and what `os.write` and
--   the durable sync answer is part of a move.
-- * Recovery models orchestration/dagster/commerce_dagster: failure_classification.py in
--   Recovery/Failure and, for a run's tags, Recovery/Tags; recovery_policy.py in Recovery/Policy;
--   recovery_state_current.py and consumer_sla.py in Recovery/State; the recovery sensor of sensors.py
--   in Recovery/Sensor. Dagster's records of a partition are arguments (`Facts`).
-- * Incident models agent/incident_drilldown/contracts.py, the partition loop of
--   agent/incident_drilldown/provider_current.py (Incident/Evidence), and
--   agent/incident_response/contracts.py and planner.py (Incident/Planner for a partition,
--   Incident/Aggregate for a whole incident,
--   Incident/Drilldown for drilldown.py's gate around the provider). Evidence comes from Recovery's
--   state and policy; Incident/Followed and Incident/Covered are about all three together.
-- * Approval models agent/approval_workflow/contracts.py, workflow.py and store.py: Approval/Chain has the
--   hash chain and its check, Approval/Workflow the decisions, Approval/Prepare the opening of requests,
--   Approval/Store the JSONL file, and Approval/Eligible says when an approval counts. SHA-256 over
--   canonical JSON and the texts of points in time are the parameter `Services`, with no assumption on
--   them.
-- * Tenancy models agent/tenancy: contracts.py, the claims mapper (Tenancy/Claims), the authorizer
--   (Tenancy/Authorize) and the enforcement of mandatory filters (Tenancy/Scope). A frozen set is a
--   list of which membership is read; a warning is a constructor with the names it mentions.
-- * SemanticQuery models agent/semantic_query/contracts.py, the command lines of planner.py
--   (SemanticQuery/Commands) and executor.py (SemanticQuery/Execute), which asks Tenancy/Scope first.
--   The runner of commands may be any function of the commands run so far.
-- * SharedTraffic models agent/api/redis_traffic.py: each Lua script is one function over a server
--   (`Redis`) whose commands are parameters with the documented laws of sorted sets;
--   SharedTraffic/Backend has the calls, which may be lost before or after a script runs,
--   SharedTraffic/Serving any sequence of them, SharedTraffic/Lease a lease's heartbeat and release.
--   SharedTraffic/Memory is a server with these laws.
-- * Sessions models agent/analysis_session: contracts.py and the state of session.py in Sessions, the
--   changes of a query in Sessions/Deltas, `apply_follow_up` in Sessions/FollowUp. What a text reads
--   as and what the comparator, the breakdown and the executor answer are any functions.
-- * Prelude has the lists, texts, dictionaries and JSON values that these share. A Python dictionary
--   is an association list in insertion order.
--
-- An exception is a value: `none`, a `refused` with its message, a `rejected` with its code. The loops
-- are recursions on lists; the only fuel is that of `decimal`, which writes a number with one round
-- more than the number itself, enough because each round divides it by ten.
--
-- Not modelled: reading of policy files and of the environment, whose values are arguments;
-- `GovernedAuditWriter` and the registry of sinks; the recognisers of texts by regular expressions;
-- the HTTP layer, the language-model runtime, retrieval and the statistical analyses.
pub mod Prelude
pub mod Traffic
pub mod Audit
pub mod Recovery
pub mod Incident
pub mod Approval
pub mod Tenancy
pub mod SemanticQuery
pub mod SharedTraffic
pub mod Sessions
