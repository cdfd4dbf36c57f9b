-- ===== src/Agents/Base/Registered.antt =====
-- What the registry holds after agents are registered.
use agent_of_record.Common.{
  String, ◌≡◌, refl, ap, inl, inr, none, some, List, [], ◌∷◌, ◌++◌, map, append-nil, append_assoc,
  arith, Option-cases, nat_eq, string_eq, list_eq, option_eq, All, key_error, ok, or_raise,
  >>=-eq-ok,
}
use agent_of_record.Common.Dict.{lookup, insert, lookup-insert, lookup-insert_self}
use agent_of_record.Agents.Base.{
  Agent, AgentRegistry, register_agent, register_agents, agent_registry, get_agent, list_agents,
  types,
}

abbrev row : Agent → String × Agent
row agent = (agent.agent_type, agent)

insert-append :
    (k : String) (agent : Agent) (r : AgentRegistry)
    → lookup k r ≡ none
    → insert k agent r ≡ r ++ (k, agent) ∷ []
unfolding lookup insert
insert-append k agent [] h = refl
insert-append k agent ((j, other) ∷ r) h = ground (arith, insert-append k agent r)

-- A registration that returns is of a new type, and is at the end.
register_agent-eq_ok :
    (agent : Agent) (r grown : AgentRegistry)
    → register_agent agent r ≡ ok grown
    → (lookup agent.agent_type r ≡ none) × (grown ≡ insert agent.agent_type agent r)
unfolding register_agent
register_agent-eq_ok agent r grown h = elim (Option-cases (lookup agent.agent_type r)) [
  | inl new ↦ (new, ground arith)
  | inr (other, held) ↦ absurd (ground arith)
]

register_agents-append :
    (agents : List Agent) (r last : AgentRegistry)
    → register_agents agents r ≡ ok last
    → last ≡ r ++ map row agents
unfolding register_agents
register_agents-append [] r last h = cc (h, append-nil r)
register_agents-append (agent ∷ agents) r last h =
    let (grown, one, rest) = >>=-eq-ok (register_agent agent r) _ h in
    let (new, same) = register_agent-eq_ok agent r grown one in
    cc (
      register_agents-append agents grown last rest,
      same,
      insert-append agent.agent_type agent r new,
      append_assoc r (row agent ∷ []) (map row agents),
    )

-- An agent that is registered stays.
register_agents-lookup :
    (agents : List Agent) (r last : AgentRegistry) (k : String) (agent : Agent)
    → register_agents agents r ≡ ok last
    → lookup k r ≡ some agent
    → lookup k last ≡ some agent
unfolding register_agents
register_agents-lookup [] r last k agent h held = ground arith
register_agents-lookup (next ∷ agents) r last k agent h held =
    let (grown, one, rest) = >>=-eq-ok (register_agent next r) _ h in
    let (new, same) = register_agent-eq_ok next r grown one in
    register_agents-lookup agents grown last k agent rest
      (ground (arith, lookup-insert next.agent_type k next r, string_eq.beq_iff next.agent_type k))

register_agents-get :
    (agents : List Agent) (r last : AgentRegistry)
    → register_agents agents r ≡ ok last
    → All (λ agent. get_agent agent.agent_type last ≡ ok agent) agents
unfolding register_agents get_agent
register_agents-get [] r last h = tt
register_agents-get (agent ∷ agents) r last h =
    let (grown, one, rest) = >>=-eq-ok (register_agent agent r) _ h in
    let (new, same) = register_agent-eq_ok agent r grown one in
    (
      ap (λ found. or_raise found key_error)
          (register_agents-lookup agents grown last agent.agent_type agent rest
            (cc (same, lookup-insert_self agent.agent_type agent r))),
      register_agents-get agents grown last rest,
    )

list_agents-rows : (agents : List Agent) → list_agents (map row agents) ≡ agents
unfolding list_agents
list_agents-rows [] = refl
list_agents-rows (agent ∷ agents) = ap (◌∷◌ agent) (list_agents-rows agents)

types-rows : (agents : List Agent) → types (map row agents) ≡ map (λ agent. agent.agent_type) agents
unfolding types
types-rows [] = refl
types-rows (agent ∷ agents) = ap (◌∷◌ agent.agent_type) (types-rows agents)

-- A registry that is made of a list of agents lists those agents and their types in their order, and
-- looks each of them up under its type.
pub agent_registry_holds :
    (agents : List Agent) (r : AgentRegistry)
    → agent_registry agents ≡ ok r
    → (list_agents r ≡ agents)
      × (types r ≡ map (λ agent. agent.agent_type) agents)
      × All (λ agent. get_agent agent.agent_type r ≡ ok agent) agents
agent_registry_holds agents r h =
    let rows = register_agents-append agents [] r h in
    (
      cc (rows, list_agents-rows agents),
      cc (rows, types-rows agents),
      register_agents-get agents [] r h,
    )
