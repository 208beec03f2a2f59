-- ===== src/Lib.antt =====
-- NEXARA PRIME: a runtime that takes missions through governed states. What is modelled of it is
-- the core of the Python package nexara_prime under src/nexara_prime/.
--
-- The parts and how they interact. A mission (state_machine.py, models.py) moves along a table of
-- transitions, and each transition publishes an event (events.py), which the store keeps and
-- subscribers are told of. The approval orchestrator (brain/governance/autonomous_governance.py)
-- decides which actions a mission may carry out: a policy classifies the risk, approvals are
-- requested, granted, rejected, consumed, expired or revoked, and `enforce` admits or refuses an
-- action. The program loop (program_loop.py) selects a runnable mission, leases it, runs it and
-- counts the outcome, on threads that a controller starts, pauses, resumes and stops. The repair
-- loop (repair_loop.py) analyses a failure, proposes contracts for it and reviews and applies
-- them, in at most three turns, before it escalates. An adaptive mission has a mode, a resource
-- budget that depends on it (resource_budget.py) and an engine that moves it up or down
-- (escalation.py). The token governor (cost_governor.py) counts the tokens of sessions, missions,
-- providers, models and days against limits. Triage (mission_triage.py) scores a request and
-- recommends the mode, and from its result the adaptive scheduler (adaptive_scheduler.py) plans the
-- agents of a mission. The control plane (orchestration.py) keeps queues of missions, approvals,
-- recoveries and evidence jobs, a registry of workers and the leases of writers; in each cycle it
-- resumes what a stale lease left, promotes missions that may run and hands them to workers under
-- a lease, and a mission completes through its evidence gate. Queues and missions live in one table
-- of records (db.py). The network policy (network_policy.py) decides which requests leave.
-- A session (session.py) has a life cycle of seven states.
--
-- The files.
-- Base: shared names, equality tests, lists, integers, texts, dictionaries in insertion order.
-- Events: src/nexara_prime/events.py `EventBus.publish`, with the table of events of db.py as a
--   list. Events/Publish has the laws of publishing.
-- Mission: src/nexara_prime/state_machine.py `MissionStateMachine` (`can_transition`,
--   `transition`) and its table, with the evidence that a transition adds. Mission/Transition,
--   Paths, Gates and Ends have its theorems.
-- Governance: src/nexara_prime/brain/governance/autonomous_governance.py. Governance/Orchestrator
--   has the operations of `ApprovalOrchestrator`, Governance/Policy has `PolicyRuntime`; Records,
--   Lifecycle, Pending and Enforce have the theorems.
-- Loop: src/nexara_prime/program_loop.py. Loop has the state and one cycle, Loop/Thread the steps
--   of the controller and of the loop threads; Leases, Results, Counts and Control have the
--   theorems.
-- Repair: src/nexara_prime/repair_loop.py. Repair has the records, `RootCauseAnalyzer.analyze`,
--   `PatchGenerator.generate` and `IndependentReviewer.review`; Repair/Incidents and
--   Repair/Attempt have `RepairLoop`; Hypotheses, Outcome, Ends, History, Review and Untraced have
--   the theorems.
-- Adaptive: Adaptive/Budget has src/nexara_prime/resource_budget.py `ResourceBudgetManager`,
--   Adaptive/Escalation has src/nexara_prime/escalation.py `EscalationEngine`; Checks and Modes
--   have the theorems. Adaptive/Governor has src/nexara_prime/cost_governor.py `TokenGovernor`.
-- Orchestration: src/nexara_prime/orchestration.py. Orchestration has the records and the
--   comparisons of instants; Queue has `MissionQueue`, Workers `WorkerScheduler`, Leases
--   `WriterLeaseManager`, Approvals `ApprovalQueue`, Recoveries `RecoveryQueue`, Jobs
--   `EvidenceQueue` and Control `RuntimeOrchestrator`. Calls has the abstract machine of the
--   approval queue; Views, Keyed and Expiry relate its operations to it. Newest, Held and Others
--   have what keeps a lease in place. Order, Keys, Dispatch, Conflicts, Exclusion, Refinement,
--   Consumption, Strategies, Gate, Placement, Completion and Resume have the theorems.
-- Triage: src/nexara_prime/mission_triage.py `MissionTriageEngine.triage`; Triage/Modes has the
--   theorems.
-- Agents: src/nexara_prime/adaptive_scheduler.py `AdaptiveMultiAgentScheduler`. Agents has the life
--   cycle of agents and Agents/Plan has `schedule`; Lifecycle and Limits have the theorems.
-- Records: src/nexara_prime/db.py, the table `records` of `SQLiteStore` and its operations; Atomic,
--   Anchor and Types have the theorems.
-- Network: src/nexara_prime/network_policy.py `NetworkPolicyEngine`; Network/Egress has the
--   theorems.
-- Sessions: src/nexara_prime/session.py `Session` and `SessionStore`; Sessions/Lifecycle has the
--   theorem.
-- A module Tests runs each component on concrete inputs.
--
-- How state and operations correspond. A class with state is a record of its fields; an operation
-- takes the record and gives the new one with its answer. A dictionary is an association list that
-- keeps the order of insertion. An exception is `none` or a value of a sum. New ids, the time, and
-- the answers of the store, the scheduler, the runtime, the classifier and the patch function are
-- arguments. Python's integers that count are natural numbers; the decimals that the modelled code
-- compares are natural numbers of hundredths, and fractions are compared by cross multiplication,
-- so that the rounding of floats is not modelled; where triage rounds a score to four digits, the
-- rounding is a parameter that keeps the order. The control plane reads the clock once in an
-- operation and in a cycle; priorities are integers, exit codes are natural numbers, and instants
-- stop at 0. `WriterLeaseManager.acquire` takes no lock: it is a check and a claim, each of which
-- is one step, and `acquire_writer` is the two with nothing in between. The store of the control
-- plane has one dictionary for each record type, in the order of the last save; the theorem on
-- Records says what becomes of an id that two types share.
--
-- Bounds and fuel. The one loop without a bound in the source that is modelled is the search for a
-- new hypothesis in `PatchGenerator.generate`. It gets one turn more than there are previous
-- contracts; each turn that continues has met another of them. `RepairLoop.repair` has three
-- turns, as in the source. A run of the loop is a list of steps of any length, each of which is
-- one turn of a loop thread or one call of the controller; `start` can make several threads, and a
-- step of the model says which of them is next. The loop of `RuntimeOrchestrator._execute_cycle`
-- gets two turns more than there are missions: each turn but the last processes a ready mission
-- that was not processed before, and a processed mission opens no other.
--
-- Not modelled: turns of two loop threads that overlap in time; durations, time stamps and digests
-- that nothing reads; regular expressions and hashes; the SQLite tables but for what the
-- operations use of them, and the order in which a listing of records comes;
-- `WorkerScheduler.is_writer_active_for_mission`, which nothing calls; other processes that write
-- to the queues between the steps of a cycle; persistence errors inside the store; the command
-- line, the HTTP interface, the model adapters and connectors, which pass data to and from the
-- outside; and the parts of the package that are not named above.
pub mod Base
pub mod Events
pub mod Mission
pub mod Governance
pub mod Loop
pub mod Repair
pub mod Adaptive
pub mod Orchestration
pub mod Triage
pub mod Agents
pub mod Records
pub mod Network
pub mod Sessions
