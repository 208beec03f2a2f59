-- ===== src/Agents.antt =====
-- src/nexara_prime/adaptive_scheduler.py: the agents of `AdaptiveMultiAgentScheduler` and their life
-- cycle. The id of a new agent is that of a supply, by the number of agents created so far; time
-- stamps are left out.
pub mod Plan
pub mod Lifecycle
pub mod Limits
pub mod Tests
use nexara_prime.Base.{
  ℕ, zero, suc, ◌+◌, ◌-◌, ◌*◌, ◌/◌, ◌%◌, ◌≤◌, ◌<◌, min, max, String, ◌<>◌, ◌≡◌, refl, sym, ap, ◌∙◌,
  ◌≢◌, ◌↔◌, ◌⊎◌, inl, inr, Bool, true, false, not, ◌&&◌, ◌||◌, Option, none, some, List, [], ◌∷◌,
  ◌++◌, map, arith, ltb, leb, if◌then◌else◌, Bool-cases, Option-cases, Eq, ◌==◌, eq_iff, contains,
  ==-refl, string_eq, nat_eq, length, get_elem?, length-append, all, all-get_elem?, any, All,
  All-append, In, any-append, is_some, or_else,
}
use nexara_prime.Base.Dict.{Dict, get, put, values}

pub data RuntimeRole : Type 0 where
  orchestrator planner analyst researcher executor reviewer auditor archivist : RuntimeRole

unfoldable pub RuntimeRole-discrete : Discrete RuntimeRole
RuntimeRole-discrete = hlevel

instance abbrev pub runtime_role_eq : Eq RuntimeRole
runtime_role_eq = record { dec = RuntimeRole-discrete }

pub data Persona : Type 0 where
  nexara atlas nyx orion solace vertex echo lumen kairos : Persona

unfoldable pub persona_by_role : RuntimeRole → Persona
persona_by_role orchestrator = nexara
persona_by_role planner = solace
persona_by_role analyst = nyx
persona_by_role researcher = orion
persona_by_role executor = vertex
persona_by_role reviewer = lumen
persona_by_role auditor = atlas
persona_by_role archivist = echo

pub data AgentStatus : Type 0 where
  created assigned paused retired : AgentStatus

unfoldable pub AgentStatus-discrete : Discrete AgentStatus
AgentStatus-discrete = hlevel

instance abbrev pub agent_status_eq : Eq AgentStatus
agent_status_eq = record { dec = AgentStatus-discrete }

pub record Agent : Type 0 where
  pub agent_id : String
  pub role : RuntimeRole
  pub persona : Persona
  pub status : AgentStatus
  pub capabilities : List String
  pub mission_id : Option String
  pub current_step_id : Option String
  pub merged_from : Option String

pub record AgentPool : Type 0 where
  pub active_agents : Dict String Agent
  pub agent_counter : ℕ

unfoldable pub new_agent : String → RuntimeRole → Persona → List String → Agent
new_agent id role persona capabilities = record {
  agent_id = id;
  role = role;
  persona = persona;
  status = created;
  capabilities = capabilities;
  mission_id = none;
  current_step_id = none;
  merged_from = none;
}

unfoldable pub put_agent : AgentPool → String → Agent → AgentPool
put_agent p id a = record p { active_agents = put p.active_agents id a }

unfoldable pub create_role :
    (ℕ → String) → AgentPool → RuntimeRole → Persona → List String → AgentPool × Agent
create_role ids p role persona capabilities =
    let a = new_agent (ids p.agent_counter) role persona capabilities in
    (
      record p {
        active_agents = put p.active_agents a.agent_id a;
        agent_counter = p.agent_counter + 1;
      },
      a,
    )

unfoldable pub assign_role : AgentPool → String → String → Option String → AgentPool × Option Agent
assign_role p id mission step = elim (get p.active_agents id) [
  | none ↦ (p, none)
  | some a ↦
      let a' = record a { status = assigned; mission_id = some mission; current_step_id = step } in
      (put_agent p id a', some a')
]

unfoldable pub pause_role : AgentPool → String → AgentPool × Option Agent
pause_role p id = elim (get p.active_agents id) [
  | none ↦ (p, none)
  | some a ↦ let a' = record a { status = paused } in (put_agent p id a', some a')
]

unfoldable pub retire_role : AgentPool → String → AgentPool × Bool
retire_role p id = elim (get p.active_agents id) [
  | none ↦ (p, false)
  | some a ↦ (put_agent p id (record a { status = retired }), true)
]

-- The elements of a list, each once; the code leaves their order to a set.
unfoldable pub elements : List String → List String
elements [] = []
elements (x ∷ xs) = let rest = elements xs in if contains rest x then rest else x ∷ rest

unfoldable pub merged_agent : Agent → Agent → String → Agent
merged_agent a b secondary = record a {
  capabilities = elements (a.capabilities ++ b.capabilities);
  merged_from = some secondary;
}

-- The agents are objects: where both ids are one, the merged agent is the one that is retired, and
-- what is given back is the agent as it then is.
unfoldable pub merge_found :
    AgentPool → String → String → Option Agent → Option Agent → AgentPool × Option Agent
merge_found p primary secondary none b = (p, none)
merge_found p primary secondary (some a) none = (p, none)
merge_found p primary secondary (some a) (some b) =
    let p' = (retire_role (put_agent p primary (merged_agent a b secondary)) secondary).0 in
    (p', get p'.active_agents primary)

unfoldable pub merge_roles : AgentPool → String → String → AgentPool × Option Agent
merge_roles p primary secondary =
    merge_found p primary secondary (get p.active_agents primary) (get p.active_agents secondary)

abbrev pub given_or : List String → List String → List String
given_or [] old = old
given_or (c ∷ cs) old = c ∷ cs

abbrev pub created_agent : AgentPool × Agent → AgentPool × Option Agent
created_agent (p, a) = (p, some a)

unfoldable pub replace_role :
    (ℕ → String)
    → AgentPool
    → String
    → RuntimeRole
    → Persona
    → List String
    → AgentPool × Option Agent
replace_role ids p old role persona capabilities = elim (get p.active_agents old) [
  | none ↦ (p, none)
  | some a ↦
      created_agent
        (create_role ids (retire_role p old).0 role persona (given_or capabilities a.capabilities))
]

unfoldable pub active_in : List Agent → List Agent
active_in [] = []
active_in (a ∷ xs) = let rest = active_in xs in if a.status == retired then rest else a ∷ rest

unfoldable pub list_active_agents : AgentPool → List Agent
list_active_agents p = active_in (values p.active_agents)

unfoldable pub active_agent_count : AgentPool → ℕ
active_agent_count p = length (list_active_agents p)

unfoldable pub retire_each : AgentPool → List String → AgentPool
retire_each p [] = p
retire_each p (id ∷ rest) = retire_each (retire_role p id).0 rest

unfoldable pub release_all : AgentPool → AgentPool
release_all p = retire_each p (map (λ e. e.0) p.active_agents)
