-- ===== src/Agents/Base.antt =====
-- aor/agents/base.py: the registry of agents. An agent is what the registry reads of it.
pub mod Registered
pub mod Distinct
use agent_of_record.Common.{
  String, string_eq, none, some, List, [], ◌∷◌, map, key_error, already_registered, Result, ok, err,
  ◌>>=◌, ◌>>◌, or_raise,
}
use agent_of_record.Common.Dict.{Dict, lookup, insert}

pub record Agent : Type 0 where
  pub agent_type : String
  pub agent_id : String
  pub capabilities : List String

-- The field `_agents`.
abbrev pub AgentRegistry : Type 0
AgentRegistry = Dict String Agent

unfoldable pub register_agent : Agent → AgentRegistry → Result AgentRegistry
register_agent agent r = elim (lookup agent.agent_type r) [
  | some other ↦ err (already_registered agent.agent_type)
  | none ↦ ok (insert agent.agent_type agent r)
]

-- The loop of `__init__`.
unfoldable pub register_agents : List Agent → AgentRegistry → Result AgentRegistry
register_agents [] r = ok r
register_agents (agent ∷ agents) r = do grown ← register_agent agent r; register_agents agents grown

abbrev pub agent_registry : List Agent → Result AgentRegistry
agent_registry agents = register_agents agents []

unfoldable pub get_agent : String → AgentRegistry → Result Agent
get_agent agent_type r = or_raise (lookup agent_type r) key_error

unfoldable pub list_agents : AgentRegistry → List Agent
list_agents r = map (λ row. row.1) r

unfoldable pub types : AgentRegistry → List String
types r = map (λ row. row.0) r
