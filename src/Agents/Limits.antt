-- ===== src/Agents/Limits.antt =====
-- How many agents a plan has.
use nexara_prime.Base.{
  ℕ, zero, suc, ◌+◌, ◌-◌, ◌≤◌, max, ◌≡◌, refl, ◌⊎◌, inl, Bool, ◌&&◌, ◌||◌, List, [], ◌∷◌, ◌++◌,
  arith, ltb, if◌then◌else◌, ◌==◌, string_eq, nat_eq, length, length-append,
}
use nexara_prime.Adaptive.{s3}
use nexara_prime.Triage.{TriageResult}
use nexara_prime.Agents.{
  RuntimeRole, RuntimeRole-discrete, orchestrator, planner, analyst, researcher, executor, reviewer,
  runtime_role_eq, persona_by_role, new_agent, Agent, AgentPool, create_role,
}
use nexara_prime.Agents.Plan.{
  SchedulerPolicy, CapabilityScore, Outside, single_agent, role_if, detailed_evidence,
  needs_reviewer, base_roles, ordered, select_capabilities, Staffing, add_agent, add_each, scale_up,
  remaining_roles, reviewer_count, add_reviewers, dual_verification, agent_limit, draft_agents,
  plan_of, schedule_agents,
}

add_agent-length :
    (o : Outside) (cs : List CapabilityScore) (r : RuntimeRole) (d : Staffing)
    → length (add_agent o cs r d).1 ≡ suc (length d.1)
unfolding add_agent create_role
add_agent-length o cs r (p, agents) = omega (
  arith,
  length-append agents
      (new_agent (o.ids p.agent_counter) r (persona_by_role r) (select_capabilities o r cs) ∷ []),
)

add_each-length :
    (o : Outside) (cs : List CapabilityScore) (rs : List RuntimeRole) (d : Staffing)
    → length (add_each o cs rs d).1 ≡ length rs + length d.1
unfolding add_each
add_each-length o cs [] d = omega arith
add_each-length o cs (r ∷ rs) d =
    omega (arith, add_each-length o cs rs (add_agent o cs r d), add_agent-length o cs r d)

ordered-length : (seen rs : List RuntimeRole) → length (ordered seen rs) ≤ length rs
unfolding ordered
ordered-length seen [] = omega arith
ordered-length seen (r ∷ rs) = ground (arith, ordered-length seen rs, ordered-length (r ∷ seen) rs)

role_if-length : (b : Bool) (r : RuntimeRole) → length (role_if b r) ≤ 1
role_if-length b r = ground arith

-- Adding agents never removes one, and stops at the limit.
scale_up-length :
    (o : Outside) (cs : List CapabilityScore) (policy : SchedulerPolicy) (t : TriageResult)
    (limit : ℕ) (existing rs : List RuntimeRole) (d : Staffing)
    → length (scale_up o cs policy t limit existing rs d).1 ≤ max limit (length d.1)
unfolding scale_up
scale_up-length o cs policy t limit existing [] d = ground arith
scale_up-length o cs policy t limit existing (r ∷ rs) d = ground (
  arith,
  add_agent-length o cs r d,
  scale_up-length o cs policy t limit existing rs d,
  scale_up-length o cs policy t limit existing rs (add_agent o cs r d),
)

add_reviewers-length :
    (o : Outside) (cs : List CapabilityScore) (limit n : ℕ) (d : Staffing)
    → length (add_reviewers o cs limit n d).1 ≤ max limit (length d.1)
unfolding add_reviewers
add_reviewers-length o cs limit zero d = ground arith
add_reviewers-length o cs limit (suc n) d = ground (
  arith,
  add_agent-length o cs reviewer d,
  add_reviewers-length o cs limit n (add_agent o cs reviewer d),
)

append-le :
    (xs ys : List RuntimeRole) (m n : ℕ) → length xs ≤ m → length ys ≤ n → length (xs ++ ys) ≤ m + n
append-le xs ys m n hx hy = omega (arith, length-append xs ys)

first_roles-length :
    (s b : Bool)
    → length (if s then orchestrator ∷ role_if b executor else orchestrator ∷ executor ∷ []) ≤ 2
first_roles-length s b = ground arith

base_roles-length : (t : TriageResult) → length (base_roles t) ≤ 6
unfolding base_roles
base_roles-length t =
    let detailed = detailed_evidence t in
    let first : List RuntimeRole =
      if single_agent t.recommended_mode
      then orchestrator ∷ role_if detailed executor
      else orchestrator ∷ executor ∷ [] in
    let plans = role_if (ltb 4000 t.complexity_score) planner in
    let analyses =
      role_if (t.data_sensitivity == "medium" || t.data_sensitivity == "high") analyst in
    let reads = role_if detailed researcher in
    let reviews = role_if (needs_reviewer t && single_agent t.recommended_mode) reviewer in
    append-le (first ++ plans ++ analyses ++ reads) reviews 5 1
      (append-le (first ++ plans ++ analyses) reads 4 1
        (append-le (first ++ plans) analyses 3 1
          (append-le first plans 2 1 (first_roles-length (single_agent t.recommended_mode) detailed)
            (role_if-length _ planner))
          (role_if-length _ analyst))
        (role_if-length _ researcher))
      (role_if-length _ reviewer)

reviewer_count-append :
    (xs : List Agent) (a : Agent)
    → a.role ≡ reviewer
    → reviewer_count (xs ++ a ∷ []) ≡ suc (reviewer_count xs)
unfolding reviewer_count RuntimeRole-discrete
reviewer_count-append [] a h = ground arith
reviewer_count-append (x ∷ xs) a h = ground (arith, reviewer_count-append xs a h)

add_agent-reviewers :
    (o : Outside) (cs : List CapabilityScore) (d : Staffing)
    → reviewer_count (add_agent o cs reviewer d).1 ≡ suc (reviewer_count d.1)
unfolding add_agent create_role new_agent
add_agent-reviewers o cs (p, agents) =
    reviewer_count-append agents
      (new_agent (o.ids p.agent_counter) reviewer (persona_by_role reviewer)
        (select_capabilities o reviewer cs))
      refl

add_reviewers-enough :
    (o : Outside) (cs : List CapabilityScore) (limit n : ℕ) (d : Staffing)
    → (n + reviewer_count d.1 ≤ reviewer_count (add_reviewers o cs limit n d).1)
      ⊎ (limit ≤ length (add_reviewers o cs limit n d).1)
unfolding add_reviewers
add_reviewers-enough o cs limit zero d = inl (omega arith)
add_reviewers-enough o cs limit (suc n) d = ground (
  arith,
  add_agent-reviewers o cs d,
  add_reviewers-enough o cs limit n (add_agent o cs reviewer d),
)

-- A plan never has more agents than its limit, or six if that is more: the roles that triage asks for
-- are not limited, and there are at most six.
pub schedule_agents-length :
    (o : Outside) (policy : SchedulerPolicy) (p : AgentPool) (t : TriageResult)
    (cs : List CapabilityScore)
    → length (schedule_agents o policy p t cs).1.agents
      ≤ max (agent_limit policy t.recommended_mode) 6
unfolding schedule_agents draft_agents dual_verification plan_of
schedule_agents-length o policy p t cs =
    let roles = ordered [] (base_roles t) in
    let limit = agent_limit policy t.recommended_mode in
    let d1 = add_each o cs roles (p, []) in
    let d2 = scale_up o cs policy t limit roles (remaining_roles t roles) d1 in
    ground (
      arith,
      add_each-length o cs roles (p, []),
      ordered-length [] (base_roles t),
      base_roles-length t,
      scale_up-length o cs policy t limit roles (remaining_roles t roles) d1,
      add_reviewers-length o cs limit (2 - reviewer_count d2.1) d2,
    )

-- A plan at S3 has two reviewers at least, unless its agents are as many as the policy admits.
pub schedule_agents-reviewers :
    (o : Outside) (policy : SchedulerPolicy) (p : AgentPool) (t : TriageResult)
    (cs : List CapabilityScore)
    → t.recommended_mode ≡ s3
    → (2 ≤ reviewer_count (schedule_agents o policy p t cs).1.agents)
      ⊎ (policy.max_agents_governed ≤ length (schedule_agents o policy p t cs).1.agents)
unfolding schedule_agents draft_agents dual_verification plan_of agent_limit
schedule_agents-reviewers o policy p t cs governed =
    let roles = ordered [] (base_roles t) in
    let limit = agent_limit policy t.recommended_mode in
    let d1 = add_each o cs roles (p, []) in
    let d2 = scale_up o cs policy t limit roles (remaining_roles t roles) d1 in
    ground (arith, add_reviewers-enough o cs limit (2 - reviewer_count d2.1) d2)
