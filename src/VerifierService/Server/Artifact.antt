-- ===== src/VerifierService/Server/Artifact.antt =====
-- verifier_service/main.py: `generate_artifact`. The planner, the address and payload of an
-- `EmailAction`, the email agent and its key are the interface `EmailDemo`.
use agent_of_record.Common.{
  String, Bool, true, false, not, Option, none, some, if◌then◌else◌, ◌==◌, nat_eq, string_eq,
  list_eq, option_eq, length, Error, value_error, attribute_error, runtime_error, Result, ok, err,
}
use agent_of_record.Common.{◌>>=◌ as bind_result}
use Prim.Native.String.{◌++◌ as text_append}
use agent_of_record.Agents.Plan.{ActionPlan, ActionResult}
use agent_of_record.Calendar.{Calendar}
use agent_of_record.CryptoCore.{Crypto, Bytes}
use agent_of_record.Json.{Json, Fields, str, obj, one_field, get_field}
use agent_of_record.LedgerCore.{Ledger}
use agent_of_record.PoiGenerator.AgentKeys.{register_agent_public_key}
use agent_of_record.PoiGenerator.Models.{ProofOfIntent}
use agent_of_record.PoiGenerator.Poi.{Claims, build_poi, sign_poi}
use agent_of_record.VerifierService.Database.{Hashlib, PublicUser}
use agent_of_record.VerificationPortal.Models.{ActionEvidence}
use agent_of_record.VerifierService.Models.{SignedEnvelope}
use agent_of_record.VerifierService.Server.{
  registry, legacy, reply, http_error, raised, H, ◌>>=◌, ◌>>◌, return, fail, lift, asks,
  log_operation,
}
use agent_of_record.VerifierService.Server.Prompts.{Clocks, match_user, admit, reject}
use agent_of_record.VerifierService.Server.Route.{
  EmlFile, AgentCalls, Agents, PlanTimes, latest_file,
}
use agent_of_record.VerifierService.Server.Route.Execute.{append_entry, run_agent, keep_evidence}

pub record EmailDemo (W : Type 0) : Type 0 where
  -- its only `RuntimeError` is `AgentRuntimeError`
  pub plan_action : String → Result ActionPlan
  pub email_action : ActionPlan → Result (String × Json)
  pub email_agent : AgentCalls W
  pub agent_private_key : Bytes
  pub name : EmlFile → String

abbrev pub demo_system_prompt : String
demo_system_prompt = "Only send approved project updates."

abbrev pub is_runtime_error : Error → Bool
is_runtime_error (runtime_error s) = true
is_runtime_error e = false

-- A text that is there and not empty.
unfoldable pub filled_at : String → Fields → Option String
filled_at key fs = elim (get_field key fs) [
  | some (str s) ↦ if s == "" then none else some s
  | _ ↦ none
]

unfoldable pub failure_detail : Fields → String
unfolding filled_at
failure_detail details = elim (filled_at "detail" details) [
  | some detail ↦ detail
  | none ↦ elim (filled_at "error" details) [
    | some error ↦ error
    | none ↦ "artifact_generation_failed"
  ]
]

abbrev pub claims_of : ActionPlan → Claims
claims_of plan = record {
  agent_type = some plan.agent_type;
  agent_id = plan.agent_id;
  action_type = some plan.action_type;
  policy_decision = some plan.policy_decision;
}

-- The identifier of a result that succeeded.
unfoldable pub made_artifact : ActionResult → Option String
made_artifact result =
    if not result.success
    then none
    else elim result.artifact_ref [ none ↦ none | some ref ↦ if ref == "" then none else some ref ]

module _ {W : Type 0} ⦃h : Hashlib⦄ ⦃c : Crypto⦄ (env : Agents W) (demo : EmailDemo W) where
  unfoldable pub planned_email : String → Result (ActionPlan × (String × Json))
  planned_email prompt =
      bind_result (demo.plan_action prompt)
        (λ plan. bind_result (demo.email_action plan) (λ action. ok (plan, action)))

  -- A planner that fails leaves an entry in the log.
  unfoldable pub plan_demo :
      (Error → String) → String → SignedEnvelope → H W (ActionPlan × (String × Json))
  unfolding planned_email
  plan_demo message_of planned_at envelope app = elim (planned_email envelope.prompt) [
    | ok planned ↦ (reply planned, app)
    | err e ↦
        if is_runtime_error e
        then (log_operation planned_at "agent_plan" "failed" (message_of e)
                (some envelope.pubkey_id)
              >> fail 502 (message_of e))
            app
        else (raised e, app)
  ]

  -- A store of the older kind has no `register_key`.
  unfoldable pub register_demo_key : PlanTimes → H W (Unit {0})
  register_demo_key at app = elim app.key_store [
    | legacy store ↦ (raised (attribute_error "register_key"), app)
    | registry keys ↦
        elim (register_agent_public_key at.key_checked at.key_from at.key_created "email-agent" keys
          demo.agent_private_key) [
            | err e ↦ (raised e, app)
            | ok (pubkey_id, keys') ↦ (reply tt, record app { key_store = registry keys' })
          ]
  ]

  unfoldable pub demo_poi : PlanTimes → SignedEnvelope → ActionPlan → Ledger → Result ProofOfIntent
  demo_poi at envelope plan ledger =
      bind_result
        (build_poi envelope.prompt demo_system_prompt ledger (obj plan.payload) "demo-model"
          (claims_of plan) at.poi_timestamp at.nonce)
        (λ poi. sign_poi poi demo.agent_private_key)

  abbrev pub demo_evidence :
      String
      → SignedEnvelope
      → ActionPlan
      → ProofOfIntent
      → ActionResult
      → EmlFile
      → Ledger
      → ActionEvidence
  demo_evidence action_id envelope plan poi result eml ledger = record {
    action_id = action_id;
    user_envelope = envelope;
    system_prompt = demo_system_prompt;
    ledger = ledger;
    ledger_entry_count_at_action = length ledger.entries;
    eml_bytes = some eml.bytes;
    poi = some poi;
    action_type = some plan.action_type;
    action_payload = some (obj plan.payload);
    observed_effect = some (obj result.observed_effect);
    timestamp_token = none;
  }

  -- From the result of the agent on; the message is the latest one of the outbox.
  unfoldable pub keep_artifact :
      PlanTimes
      → Option PublicUser
      → SignedEnvelope
      → ActionPlan
      → ProofOfIntent
      → ActionResult
      → H W (String × String)
  unfolding failure_detail made_artifact
  keep_artifact at user envelope plan poi result app = elim (made_artifact result) [
    | none ↦ (http_error 500 (failure_detail result.details), app)
    | some action_id ↦ elim (latest_file (env.outbox app.world)) [
      | none ↦ (raised (value_error "max() arg is an empty sequence"), app)
      | some eml ↦
          (do
            keep_evidence env at user
                (demo_evidence action_id envelope plan poi result eml app.ledger) (some eml)
            log_operation at.operation "generate_artifact" "artifact_generated"
                (text_append "generated " (demo.name eml)) (some envelope.pubkey_id)
            return (action_id, eml.path))
            app
    ]
  ]

  -- What follows the admission of the envelope.
  unfoldable pub generate_admitted :
      (Error → String)
      → String
      → PlanTimes
      → Option PublicUser
      → SignedEnvelope
      → H W (String × String)
  unfolding plan_demo register_demo_key demo_poi keep_artifact
  generate_admitted message_of planned_at at user envelope = do
    (plan, action) ← plan_demo message_of planned_at envelope
    append_entry env "system_prompt" (one_field "text" (str demo_system_prompt)) at.system_entry
    append_entry env "user_prompt" (one_field "text" (str envelope.prompt)) at.user_entry
    append_entry env "agent_action" action.1 at.action_entry
    log_operation planned_at "agent_plan" "planned" (text_append "planned email to " action.0)
        (some envelope.pubkey_id)
    register_demo_key at
    ledger ← asks (λ app. app.ledger)
    poi ← lift (demo_poi at envelope plan ledger)
    result ← run_agent env demo.email_agent plan poi
    keep_artifact at user envelope plan poi result

  -- `POST /api/generate-artifact`; the clock of the entries of the planning is an argument of its own.
  -- The answer is the action's identifier and the path of its message.
  unfoldable pub generate_artifact :
      Calendar
      → (Error → String)
      → Clocks
      → String
      → PlanTimes
      → String
      → SignedEnvelope
      → H W (String × String)
  generate_artifact calendar message_of at planned_at plan_times authorization envelope = do
    user ← match_user calendar at authorization envelope
    admit calendar at envelope (reject calendar at "generate_artifact" envelope)
    generate_admitted message_of planned_at plan_times user envelope
