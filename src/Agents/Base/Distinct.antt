-- ===== src/Agents/Base/Distinct.antt =====
-- When a registry can be made of a list of agents.
use agent_of_record.Common.{
  String, ◌≡◌, refl, sym, ap, ◌∙◌, ◌≢◌, ◌↔◌, inl, inr, true, none, List, [], ◌∷◌, map, arith,
  Option-cases, nat_eq, string_eq, list_eq, option_eq, All, is_ok,
}
use agent_of_record.Common.Dict.{lookup, insert, lookup-insert}
use agent_of_record.Agents.Base.{
  Agent, AgentRegistry, register_agent, register_agents, agent_registry,
}

abbrev pub IsDistinct : List String → Type 0
IsDistinct [] = Unit
IsDistinct (x ∷ xs) = All (λ y. x ≢ y) xs × IsDistinct xs

abbrev types_of : List Agent → List String
types_of agents = map (λ agent. agent.agent_type) agents

-- The types of the agents are not in the registry.
abbrev AreNew : AgentRegistry → List Agent → Type 0
AreNew r agents = All (λ agent. lookup agent.agent_type r ≡ none) agents

lookup-insert_absent :
    (k j : String) (agent : Agent) (r : AgentRegistry)
    → (lookup j (insert k agent r) ≡ none) ↔ ((lookup j r ≡ none) × (k ≢ j))
lookup-insert_absent k j agent r = ground (arith, lookup-insert k j agent r, string_eq.beq_iff k j)

AreNew-insert :
    (k : String) (agent : Agent) (r : AgentRegistry) (agents : List Agent)
    → AreNew (insert k agent r) agents ↔ (AreNew r agents × All (λ y. k ≢ y) (types_of agents))
AreNew-insert k agent r [] = (λ h. (tt, tt), λ h. tt)
AreNew-insert k agent r (next ∷ agents) =
    let (out, back) = lookup-insert_absent k next.agent_type agent r in
    let (split, together) = AreNew-insert k agent r agents in
    (
      λ (h, rest). (((out h).0, (split rest).0), ((out h).1, (split rest).1)),
      λ ((h, rest), (other, others)). (back (h, other), together (rest, others)),
    )

register_agents_new :
    (agent : Agent) (agents : List Agent) (r : AgentRegistry)
    → lookup agent.agent_type r ≡ none
    → register_agents (agent ∷ agents) r ≡ register_agents agents (insert agent.agent_type agent r)
unfolding register_agents register_agent
register_agents_new agent agents r new = ground arith

register_agents_ok_iff :
    (agents : List Agent) (r : AgentRegistry)
    → (is_ok (register_agents agents r) ≡ true) ↔ (AreNew r agents × IsDistinct (types_of agents))
unfolding register_agents register_agent
register_agents_ok_iff [] r = (λ h. (tt, tt), λ h. refl)
register_agents_ok_iff (agent ∷ agents) r = elim (Option-cases (lookup agent.agent_type r)) [
  | inl new ↦
      let grown = insert agent.agent_type agent r in
      let (split, together) = AreNew-insert agent.agent_type agent r agents in
      let (out, back) = register_agents_ok_iff agents grown in
      let step = register_agents_new agent agents r new in
      (
        λ h.
            let (fresh, distinct) = out (ap is_ok (sym step) ∙ h) in
            ((new, (split fresh).0), ((split fresh).1, distinct)),
        λ ((_, rest), (others, distinct)). ap is_ok step ∙ back (together (rest, others), distinct),
      )
  | inr (other, held) ↦ (λ h. absurd (ground arith), λ ((new, _), _). absurd (ground arith))
]

none-new : (agents : List Agent) → AreNew [] agents
unfolding lookup
none-new [] = tt
none-new (agent ∷ agents) = (refl, none-new agents)

-- A registry can be made of a list of agents exactly when no two of them have the same type.
pub agent_registry_ok_iff :
    (agents : List Agent)
    → (is_ok (agent_registry agents) ≡ true) ↔ IsDistinct (map (λ agent. agent.agent_type) agents)
agent_registry_ok_iff agents =
    let (out, back) = register_agents_ok_iff agents [] in
    (λ h. (out h).1, λ distinct. back (none-new agents, distinct))
