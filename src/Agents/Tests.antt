-- ===== src/Agents/Tests.antt =====
-- A registry of two agents.
use agent_of_record.Common.{
  ◌≡◌, refl, ◌↔◌, true, [], ◌∷◌, nat_eq, string_eq, list_eq, option_eq, already_registered, ok, err,
  is_ok,
}
use agent_of_record.Common.Dict.{lookup, insert}
use agent_of_record.Agents.Base.{
  Agent, AgentRegistry, register_agent, register_agents, agent_registry,
}
use agent_of_record.Agents.Base.Distinct.{IsDistinct, agent_registry_ok_iff}

abbrev files : Agent
files = record { agent_type = "file"; agent_id = "file-agent"; capabilities = "file.read" ∷ [] }

abbrev emails : Agent
emails = record { agent_type = "email"; agent_id = "email-agent"; capabilities = "email" ∷ [] }

abbrev both : AgentRegistry
both = ("file", files) ∷ ("email", emails) ∷ []

both_registered : agent_registry (files ∷ emails ∷ []) ≡ ok both
unfolding register_agents register_agent lookup insert
both_registered = refl

second_file_refused : register_agent files both ≡ err (already_registered "file")
unfolding register_agent lookup
second_file_refused = refl

agent_registry_ok_iff_example :
    (is_ok (agent_registry (files ∷ emails ∷ [])) ≡ true) ↔ IsDistinct ("file" ∷ "email" ∷ [])
agent_registry_ok_iff_example = agent_registry_ok_iff (files ∷ emails ∷ [])
