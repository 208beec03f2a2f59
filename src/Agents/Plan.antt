-- ===== src/Agents/Plan.antt =====
-- src/nexara_prime/adaptive_scheduler.py: `AdaptiveMultiAgentScheduler.schedule`. Gains, costs and the
-- threshold are in thousandths, the scores of triage in ten-thousandths, and the return on an agent is
-- compared with the threshold by cross multiplication. Whether a task type names a role, and whether a
-- capability is a generic one, are parameters.
use nexara_prime.Base.{
  ℕ, zero, suc, ◌+◌, ◌-◌, ◌*◌, ◌/◌, min, max, String, Bool, true, false, ◌&&◌, ◌||◌, List, [], ◌∷◌,
  ◌++◌, map, ltb, leb, if◌then◌else◌, ◌==◌, contains, string_eq, nat_eq, length, any,
}
use nexara_prime.Adaptive.{AdaptiveMode, s0, s1, s2, s3}
use nexara_prime.Triage.{TriageResult, is_s3}
use nexara_prime.Agents.{
  RuntimeRole, orchestrator, planner, analyst, researcher, executor, reviewer, auditor, archivist,
  runtime_role_eq, persona_by_role, Agent, AgentPool, create_role,
}

pub record SchedulerPolicy : Type 0 where
  pub roi_threshold : ℕ
  pub max_agents_default : ℕ
  pub max_agents_governed : ℕ

pub record CapabilityScore : Type 0 where
  pub capability_id : String
  pub supported_task_types : List String

pub record SchedulingPlan : Type 0 where
  pub adaptive_mode : AdaptiveMode
  pub agents : List Agent
  pub nodes : List (String × RuntimeRole)
  pub edges : List (String × String)
  pub parallelism_degree : ℕ
  pub estimated_duration_ms : ℕ
  pub max_agents : ℕ

-- What the scheduler takes from outside: ids, and the tests on texts.
pub record Outside : Type 0 where
  pub ids : ℕ → String
  pub names_role : RuntimeRole → String → Bool
  pub is_generic : String → Bool

unfoldable pub detailed_evidence : TriageResult → Bool
detailed_evidence t =
    t.required_evidence_level == "detailed" || t.required_evidence_level == "comprehensive"

abbrev pub single_agent : AdaptiveMode → Bool
single_agent s0 = true
single_agent s1 = true
single_agent s2 = false
single_agent s3 = false

unfoldable pub needs_reviewer : TriageResult → Bool
needs_reviewer t = detailed_evidence t || ltb 5000 t.risk_score

abbrev pub role_if : Bool → RuntimeRole → List RuntimeRole
role_if b r = if b then r ∷ [] else []

unfoldable pub base_roles : TriageResult → List RuntimeRole
base_roles t =
    (if single_agent t.recommended_mode
      then orchestrator ∷ role_if (detailed_evidence t) executor
      else orchestrator ∷ executor ∷ [])
    ++ role_if (ltb 4000 t.complexity_score) planner
    ++ role_if (t.data_sensitivity == "medium" || t.data_sensitivity == "high") analyst
    ++ role_if (detailed_evidence t) researcher
    ++ role_if (needs_reviewer t && single_agent t.recommended_mode) reviewer

-- Each role once, in order, but for those seen.
unfoldable pub ordered : List RuntimeRole → List RuntimeRole → List RuntimeRole
ordered seen [] = []
ordered seen (r ∷ rs) =
    let fresh = ordered (r ∷ seen) rs in
    let known = ordered seen rs in if contains seen r then known else r ∷ fresh

unfoldable pub mentioning : (String → Bool) → List CapabilityScore → List String
mentioning test [] = []
mentioning test (c ∷ cs) =
    let rest = mentioning test cs in
    if any test c.supported_task_types then c.capability_id ∷ rest else rest

unfoldable pub generic : (String → Bool) → List CapabilityScore → List String
generic test [] = []
generic test (c ∷ cs) =
    let rest = generic test cs in if test c.capability_id then c.capability_id ∷ rest else rest

abbrev pub first_three : List String → List String
first_three [] = []
first_three (a ∷ []) = a ∷ []
first_three (a ∷ b ∷ []) = a ∷ b ∷ []
first_three (a ∷ b ∷ c ∷ rest) = a ∷ b ∷ c ∷ []

abbrev pub or_generic : List String → List String → List String
or_generic [] other = other
or_generic (c ∷ cs) other = c ∷ cs

unfoldable pub select_capabilities : Outside → RuntimeRole → List CapabilityScore → List String
select_capabilities o role cs =
    or_generic (mentioning (o.names_role role) cs) (first_three (generic o.is_generic cs))

-- The pool, and the agents of the plan so far.
abbrev pub Staffing : Type 0
Staffing = AgentPool × List Agent

abbrev pub appended : List Agent → AgentPool × Agent → Staffing
appended agents (p, a) = (p, agents ++ a ∷ [])

unfoldable pub add_agent : Outside → List CapabilityScore → RuntimeRole → Staffing → Staffing
add_agent o cs role (p, agents) =
    appended agents
      (create_role o.ids p role (persona_by_role role) (select_capabilities o role cs))

unfoldable pub add_each : Outside → List CapabilityScore → List RuntimeRole → Staffing → Staffing
add_each o cs [] d = d
add_each o cs (r ∷ rs) d = add_each o cs rs (add_agent o cs r d)

unfoldable pub quality_gain : RuntimeRole → TriageResult → ℕ
quality_gain orchestrator t = 500
quality_gain planner t = if ltb 5000 t.complexity_score then 400 else 200
quality_gain analyst t = if t.data_sensitivity == "high" then 350 else 150
quality_gain researcher t = if t.required_evidence_level == "comprehensive" then 400 else 200
quality_gain executor t = 300
quality_gain reviewer t = if ltb 5000 t.risk_score then 300 else 100
quality_gain auditor t = 250
quality_gain archivist t = 100

-- A hundredth of the tokens, in thousands
unfoldable pub token_cost : RuntimeRole → ℕ
token_cost orchestrator = 80
token_cost planner = 60
token_cost analyst = 50
token_cost researcher = 70
token_cost executor = 40
token_cost reviewer = 30
token_cost auditor = 40
token_cost archivist = 20

-- A thousandth of the milliseconds
unfoldable pub latency_cost : RuntimeRole → ℕ
latency_cost orchestrator = 200
latency_cost planner = 300
latency_cost analyst = 250
latency_cost researcher = 400
latency_cost executor = 150
latency_cost reviewer = 100
latency_cost auditor = 120
latency_cost archivist = 80

unfoldable pub partners : RuntimeRole → List RuntimeRole
partners reviewer = executor ∷ orchestrator ∷ []
partners auditor = reviewer ∷ executor ∷ []
partners planner = orchestrator ∷ executor ∷ []
partners orchestrator = []
partners analyst = []
partners researcher = []
partners executor = []
partners archivist = []

unfoldable pub shared_partners : List RuntimeRole → List RuntimeRole → ℕ
shared_partners existing [] = 0
shared_partners existing (r ∷ rs) =
    let rest = shared_partners existing rs in if contains existing r then suc rest else rest

-- In tenths
unfoldable pub coupling : RuntimeRole → List RuntimeRole → ℕ
coupling role existing = min 10 (1 + 3 * shared_partners existing (partners role))

unfoldable pub passes_roi : SchedulerPolicy → TriageResult → RuntimeRole → List RuntimeRole → Bool
passes_roi policy t role existing =
    let gain =
      quality_gain role t
      + (if needs_reviewer t then 100 else 0)
      + (if single_agent t.recommended_mode then 0 else 150) in
    let cost = token_cost role + latency_cost role + 5 * coupling role existing in
    leb (10000 * cost + policy.roi_threshold * max t.risk_score 10000) (10000 * gain)

unfoldable pub scale_up :
    Outside
    → List CapabilityScore
    → SchedulerPolicy
    → TriageResult
    → ℕ
    → List RuntimeRole
    → List RuntimeRole
    → Staffing
    → Staffing
scale_up o cs policy t limit existing [] d = d
scale_up o cs policy t limit existing (r ∷ rs) d =
    let d' = if passes_roi policy t r existing then add_agent o cs r d else d in
    let rest = scale_up o cs policy t limit existing rs d' in
    if leb limit (length d.1) then d else rest

unfoldable pub without : List RuntimeRole → List RuntimeRole → List RuntimeRole
without known [] = []
without known (r ∷ rs) = let rest = without known rs in if contains known r then rest else r ∷ rest

unfoldable pub remaining_roles : TriageResult → List RuntimeRole → List RuntimeRole
remaining_roles t existing =
    without existing
      (orchestrator ∷ planner ∷ analyst ∷ researcher ∷ executor ∷ reviewer ∷ auditor ∷ [])
    ++ role_if (t.required_evidence_level == "comprehensive") archivist

unfoldable pub reviewer_count : List Agent → ℕ
reviewer_count [] = 0
reviewer_count (a ∷ xs) =
    let rest = reviewer_count xs in if a.role == reviewer then suc rest else rest

unfoldable pub add_reviewers : Outside → List CapabilityScore → ℕ → ℕ → Staffing → Staffing
add_reviewers o cs limit zero d = d
add_reviewers o cs limit (suc n) d =
    let rest = add_reviewers o cs limit n (add_agent o cs reviewer d) in
    if leb limit (length d.1) then d else rest

unfoldable pub dual_verification :
    Outside → List CapabilityScore → AdaptiveMode → ℕ → Staffing → Staffing
dual_verification o cs mode limit d =
    if is_s3 mode then add_reviewers o cs limit (2 - reviewer_count d.1) d else d

unfoldable pub chain_edges : List Agent → List (String × String)
chain_edges [] = []
chain_edges (a ∷ []) = []
chain_edges (a ∷ b ∷ rest) = (a.agent_id, b.agent_id) ∷ chain_edges (b ∷ rest)

unfoldable pub agent_limit : SchedulerPolicy → AdaptiveMode → ℕ
agent_limit policy mode =
    if is_s3 mode then policy.max_agents_governed else policy.max_agents_default

unfoldable pub draft_agents :
    Outside → SchedulerPolicy → AgentPool → TriageResult → List CapabilityScore → Staffing
draft_agents o policy p t cs =
    let roles = ordered [] (base_roles t) in
    let limit = agent_limit policy t.recommended_mode in
    dual_verification o cs t.recommended_mode limit
      (scale_up o cs policy t limit roles (remaining_roles t roles) (add_each o cs roles (p, [])))

unfoldable pub plan_of : SchedulerPolicy → TriageResult → List Agent → SchedulingPlan
plan_of policy t agents =
    let degree = min (length agents) (if ltb 5000 t.complexity_score then 3 else 2) in
    record {
      adaptive_mode = t.recommended_mode;
      agents = agents;
      nodes = map (λ a. (a.agent_id, a.role)) agents;
      edges = chain_edges agents;
      parallelism_degree = degree;
      estimated_duration_ms = t.expected_duration_ms / max degree 1;
      max_agents = agent_limit policy t.recommended_mode;
    }

unfoldable pub schedule_agents :
    Outside
    → SchedulerPolicy
    → AgentPool
    → TriageResult
    → List CapabilityScore
    → AgentPool × SchedulingPlan
schedule_agents o policy p t cs =
    let (p', agents) = draft_agents o policy p t cs in (p', plan_of policy t agents)
