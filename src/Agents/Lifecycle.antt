-- ===== src/Agents/Lifecycle.antt =====
-- What the life cycle of an agent lets through.
use nexara_prime.Base.{String, ◌≡◌, refl, ap, ◌∙◌, true, Option, some, ==-refl, string_eq, nat_eq}
use nexara_prime.Base.Dict.{get, get-put}
use nexara_prime.Agents.{
  assigned, retired, Agent, AgentPool, put_agent, assign_role, retire_role, merged_agent,
  merge_found, merge_roles,
}

put_agent-get :
    (p : AgentPool) (id : String) (a : Agent) → get (put_agent p id a).active_agents id ≡ some a
unfolding put_agent
put_agent-get p id a = rw (get-put p.active_agents id id a, ==-refl id) refl

retire_role-some :
    (p : AgentPool) (id : String) (a : Agent)
    → get p.active_agents id ≡ some a
    → retire_role p id ≡ (put_agent p id (record a { status = retired }), true)
unfolding retire_role
retire_role-some p id a found = rw (retire_role, found) refl

assign_role-some :
    (p : AgentPool) (id mission : String) (step : Option String) (a : Agent)
    → get p.active_agents id ≡ some a
    → (assign_role p id mission step).1
      ≡ some (record a { status = assigned; mission_id = some mission; current_step_id = step })
unfolding assign_role
assign_role-some p id mission step a found = rw (assign_role, found) refl

-- Retirement is not final: an agent that is retired can be assigned, and then works like any other.
pub retired_works :
    (p : AgentPool) (id mission : String) (step : Option String) (a : Agent)
    → get p.active_agents id ≡ some a
    → (assign_role (retire_role p id).0 id mission step).1
      ≡ some (record a { status = assigned; mission_id = some mission; current_step_id = step })
retired_works p id mission step a found =
    ap (λ x. (assign_role x.0 id mission step).1) (retire_role-some p id a found)
    ∙ assign_role-some (put_agent p id (record a { status = retired })) id mission step
        (record a { status = retired }) (put_agent-get p id (record a { status = retired }))

-- Merging an agent with itself retires it: what is given back as the merged agent is a retired one.
pub merge_roles_self :
    (p : AgentPool) (id : String) (a : Agent)
    → get p.active_agents id ≡ some a
    → (merge_roles p id id).1 ≡ some (record (merged_agent a a id) { status = retired })
unfolding merge_roles merge_found
merge_roles_self p id a found =
    let m : Agent = merged_agent a a id in
    ap (λ x. (merge_found p id id x x).1) found
    ∙ ap (λ x. get x.0.active_agents id)
        (retire_role-some (put_agent p id m) id m (put_agent-get p id m))
    ∙ put_agent-get (put_agent p id m) id (record m { status = retired })
