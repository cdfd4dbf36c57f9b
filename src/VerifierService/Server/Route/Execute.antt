-- ===== src/VerifierService/Server/Route/Execute.antt =====
-- verifier_service/main.py: the loop of `execute_routed_agent`, and the endpoint.
use agent_of_record.Common.{
  ℕ, ◌+◌, String, true, false, not, ◌&&◌, Option, none, some, List, [], ◌∷◌, ◌++◌, if◌then◌else◌,
  nat_eq, string_eq, list_eq, option_eq, Error, Result, ok, err,
}
use agent_of_record.Common.{◌>>=◌ as bind_result}
use Prim.Native.String.{◌++◌ as text_append}
use agent_of_record.Agents.Plan.{ActionPlan, ActionResult}
use agent_of_record.Calendar.{Calendar}
use agent_of_record.Common.Text.{join}
use agent_of_record.CryptoCore.{Crypto, Bytes}
use agent_of_record.Json.{Json, str, obj, one_field}
use agent_of_record.LedgerCore.{Ledger, append}
use agent_of_record.PoiGenerator.AgentKeys.{register_agent_public_key}
use agent_of_record.PoiGenerator.Models.{ProofOfIntent}
use agent_of_record.PoiGenerator.Poi.{build_poi, sign_poi}
use agent_of_record.VerificationPortal.Models.{ActionEvidence}
use agent_of_record.VerificationPortal.EvidenceStore.Store.{register_durably}
use agent_of_record.VerifierService.Database.{Hashlib, PublicUser, save_prompt}
use agent_of_record.VerifierService.Models.{SignedEnvelope}
use agent_of_record.VerifierService.Server.{
  AppState, registry, legacy, reply, http_error, raised, H, ◌>>=◌, ◌>>◌, return, fail, lift,
  or_raised, refuse_if, asks, is_lookup_or_value_error, catching, log_operation,
}
use agent_of_record.VerifierService.Server.Prompts.{Clocks, match_user, admit}
use agent_of_record.VerifierService.Server.Route.{
  EmlFile, AgentCalls, Agents, PlanTimes, Progress, nothing_done, system_prompt, completed_plan,
  action_content, text_or, written_file, action_id_of, record_user, path_of, later_path,
  plan_claims,
}
use agent_of_record.VerifierService.Server.Route.Outcome.{
  Executed, answer, has_registry, last_succeeded, evidence_for, record_of,
}

module _ {W : Type 0} ⦃h : Hashlib⦄ ⦃c : Crypto⦄ (env : Agents W) where
  -- The three entries that a plan adds, as far as they go.
  unfoldable pub append_entry : String → Json → String → H W (Unit {0})
  append_entry entry_type content timestamp app =
      elim (append entry_type content timestamp app.ledger) [
        | err e ↦ (raised e, app)
        | ok (entry, ledger) ↦ (reply tt, record app { ledger = ledger })
      ]

  unfoldable pub append_entries : PlanTimes → SignedEnvelope → ActionPlan → H W (Unit {0})
  unfolding append_entry
  append_entries at envelope plan = do
    append_entry "system_prompt" (one_field "text" (str system_prompt)) at.system_entry
    append_entry "user_prompt" (one_field "text" (str envelope.prompt)) at.user_entry
    append_entry "agent_action" (action_content plan) at.action_entry

  -- The registry is the service's; a store of the other kind does not come so far.
  unfoldable pub register_agent_key : PlanTimes → String → Bytes → H W (Unit {0})
  register_agent_key at agent_id key app = elim app.key_store [
    | legacy store ↦ (http_error 500 "key_registry_not_configured_for_agents", app)
    | registry keys ↦
        elim (register_agent_public_key at.key_checked at.key_from at.key_created agent_id keys
          key) [
            | err e ↦ (raised e, app)
            | ok (pubkey_id, keys') ↦ (reply tt, record app { key_store = registry keys' })
          ]
  ]

  -- The signed proof of a plan, on a ledger.
  unfoldable pub plan_poi :
      PlanTimes → SignedEnvelope → ActionPlan → String → Bytes → Ledger → Result ProofOfIntent
  plan_poi at envelope plan agent_id key ledger =
      bind_result
        (build_poi envelope.prompt system_prompt ledger (obj plan.payload)
          "deterministic-agent-router" (plan_claims plan agent_id) at.poi_timestamp at.nonce)
        (λ poi. sign_poi poi key)

  unfoldable pub run_agent : AgentCalls W → ActionPlan → ProofOfIntent → H W ActionResult
  run_agent agent plan poi app =
      let (result, world) = agent.execute plan poi app.world in
      (or_raised result, record app { world = world })

  -- The evidence of an action and the record of its prompt.
  unfoldable pub keep_evidence :
      PlanTimes → Option PublicUser → ActionEvidence → Option EmlFile → H W (Unit {0})
  keep_evidence at user evidence eml app =
      let (store, db) =
        register_durably env.json_text evidence (app.artifact_store, app.database) in
      let kept : AppState W = record app { artifact_store = store; database = db } in
      elim (save_prompt evidence.user_envelope (record_user user evidence.user_envelope)
        (some evidence.action_id) (path_of eml) none at.saved db) [
          | err e ↦ (raised e, kept)
          | ok (id, database) ↦ (reply tt, record kept { database = database })
        ]

  -- From the agent's answer on.
  unfoldable pub record_action :
      PlanTimes
      → Option PublicUser
      → SignedEnvelope
      → ActionPlan
      → String
      → ProofOfIntent
      → List EmlFile
      → ActionResult
      → Progress
      → H W Progress
  unfolding keep_evidence
  record_action at user envelope plan agent_id poi before result progress = do
    files ← asks (λ app. env.outbox app.world)
    let eml = written_file plan before files
    let action_id = action_id_of plan result at.uuid
    ledger ← asks (λ app. app.ledger)
    keep_evidence at user (evidence_for action_id envelope plan poi result eml ledger) eml
    log_operation at.operation "agent_execute" (if result.success then "completed" else "failed")
        (join (plan.agent_type ∷ ":" ∷ plan.action_type ∷ [])) (some envelope.pubkey_id)
    return (record {
      execution_records =
          progress.execution_records ++ record_of action_id plan agent_id result ∷ [];
      previous_result = some result;
      last_action_id = some action_id;
      last_eml_path = later_path eml progress.last_eml_path;
    })

  -- A plan with its payload completed.
  unfoldable pub run_completed :
      PlanTimes → Option PublicUser → SignedEnvelope → ActionPlan → Progress → H W Progress
  unfolding append_entries register_agent_key run_agent
  run_completed at user envelope plan progress = do
    append_entries at envelope plan
    agent ← lift (env.get plan.agent_type)
    key ←
        lift (env.load_agent_keypair (text_or plan.agent_id (text_append plan.agent_type "-agent")))
    register_agent_key at agent.agent_id key
    let agent_id = text_or plan.agent_id agent.agent_id
    ledger ← asks (λ app. app.ledger)
    poi ← lift (plan_poi at envelope plan agent_id key ledger)
    before ← asks (λ app. env.outbox app.world)
    result ← run_agent agent plan poi
    record_action at user envelope plan agent_id poi before result progress

  unfoldable pub run_plan :
      PlanTimes → Option PublicUser → SignedEnvelope → ActionPlan → Progress → H W Progress
  unfolding run_completed
  run_plan at user envelope plan progress = do
    refuse_if (plan.requires_confirmation && not plan.confirmed) 409 "confirmation_required"
    run_completed at user envelope (completed_plan plan progress.previous_result) progress

  -- The first plan that fails ends the loop.
  unfoldable pub run_plans :
      (ℕ → PlanTimes)
      → ℕ
      → Option PublicUser
      → SignedEnvelope
      → List ActionPlan
      → Progress
      → H W Progress
  run_plans at n user envelope [] progress app = (reply progress, app)
  run_plans at n user envelope (plan ∷ plans) progress app =
      elim ((run_plan (at n) user envelope plan progress app).0) [
        | http_error status detail ↦
            (http_error status detail, (run_plan (at n) user envelope plan progress app).1)
        | raised e ↦ (raised e, (run_plan (at n) user envelope plan progress app).1)
        | reply next ↦ elim (last_succeeded next.previous_result) [
          | true ↦
              run_plans at (n + 1) user envelope plans next
                (run_plan (at n) user envelope plan progress app).1
          | false ↦ (reply next, (run_plan (at n) user envelope plan progress app).1)
        ]
      ]

  -- What follows the admission of the envelope.
  unfoldable pub execute_admitted :
      (Error → String) → (ℕ → PlanTimes) → Option PublicUser → SignedEnvelope → H W Executed
  execute_admitted message_of at user envelope = do
    let route = env.route envelope.prompt
    refuse_if (not route.handled) 422 (text_or route.reason "")
    plans ←
        catching is_lookup_or_value_error message_of 422
          (λ app. (or_raised (env.plan envelope.prompt app.world), app))
    keys ← asks (λ app. has_registry app.key_store)
    refuse_if (not keys) 500 "key_registry_not_configured_for_agents"
    progress ← run_plans at 0 user envelope plans nothing_done
    lift (answer plans progress)

  -- `POST /api/agent/execute`
  unfoldable pub execute_routed_agent :
      Calendar
      → (Error → String)
      → Clocks
      → (ℕ → PlanTimes)
      → String
      → SignedEnvelope
      → H W Executed
  execute_routed_agent calendar message_of at plan_times authorization envelope = do
    user ← match_user calendar at authorization envelope
    admit calendar at envelope
        (λ result. if result.valid then return tt else fail 401 "verification_failed")
    execute_admitted message_of plan_times user envelope
