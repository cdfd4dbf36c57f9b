-- ===== src/VerifierService/Server/Route/Outcome.antt =====
-- verifier_service/main.py: what `execute_routed_agent` records of an action, and its answer.
use agent_of_record.Common.{
  String, Bool, true, false, ◌&&◌, Option, none, some, List, [], ◌∷◌, nat_eq, string_eq, list_eq,
  option_eq, length, index_error, Result, ok, err,
}
use agent_of_record.Agents.Plan.{ActionPlan, ActionResult}
use agent_of_record.Json.{obj}
use agent_of_record.LedgerCore.{Ledger}
use agent_of_record.PoiGenerator.Models.{ProofOfIntent}
use agent_of_record.VerificationPortal.Models.{ActionEvidence}
use agent_of_record.VerifierService.Models.{SignedEnvelope}
use agent_of_record.VerifierService.Server.{KeyStore, registry, legacy}
use agent_of_record.VerifierService.Server.Route.{
  EmlFile, ExecutionRecord, Progress, system_prompt, bytes_of,
}

unfoldable pub all_succeeded : List ExecutionRecord → Bool
all_succeeded [] = true
all_succeeded (r ∷ records) = r.success && all_succeeded records

unfoldable pub completed : List ExecutionRecord → Bool
unfolding all_succeeded
completed [] = false
completed (r ∷ records) = all_succeeded (r ∷ records)

pub record Executed : Type 0 where
  pub is_completed : Bool
  pub first_plan : ActionPlan
  pub progress : Progress

-- `plans[0]`
unfoldable pub answer : List ActionPlan → Progress → Result Executed
unfolding completed
answer [] progress = err index_error
answer (plan ∷ plans) progress = ok (record {
  is_completed = completed progress.execution_records;
  first_plan = plan;
  progress = progress;
})

abbrev pub has_registry : KeyStore → Bool
has_registry (registry keys) = true
has_registry (legacy store) = false

abbrev pub last_succeeded : Option ActionResult → Bool
last_succeeded none = true
last_succeeded (some result) = result.success

-- The source keeps the service's own ledger, which has these entries and, later, others behind them.
abbrev pub evidence_for :
    String
    → SignedEnvelope
    → ActionPlan
    → ProofOfIntent
    → ActionResult
    → Option EmlFile
    → Ledger
    → ActionEvidence
evidence_for action_id envelope plan poi result eml ledger = record {
  action_id = action_id;
  user_envelope = envelope;
  system_prompt = system_prompt;
  ledger = ledger;
  ledger_entry_count_at_action = length ledger.entries;
  eml_bytes = bytes_of eml;
  poi = some poi;
  action_type = some plan.action_type;
  action_payload = some (obj plan.payload);
  observed_effect = some (obj result.observed_effect);
  timestamp_token = none;
}

abbrev pub record_of : String → ActionPlan → String → ActionResult → ExecutionRecord
record_of action_id plan agent_id result = record {
  action_id = action_id;
  agent_type = plan.agent_type;
  agent_id = agent_id;
  action_type = plan.action_type;
  success = result.success;
  details = result.details;
  observed_effect = result.observed_effect;
}
