-- ===== src/VerifierService/Server/Route.antt =====
-- verifier_service/main.py: `execute_routed_agent`. The router and the agents are the interface
-- `Agents`, over the state of their world; key files are an argument.
pub mod Execute
pub mod Outcome
pub mod Evidence
pub mod Loop
use agent_of_record.Common.{
  ℕ, String, Bool, false, not, ◌&&◌, Option, none, some, List, [], ◌∷◌, ◌++◌, map, ltb,
  if◌then◌else◌, ◌==◌, nat_eq, string_eq, list_eq, option_eq, Result,
}
use Prim.Native.String.{◌++◌ as text_append}
use agent_of_record.Agents.Plan.{ActionPlan, ActionResult, is_one_of}
use agent_of_record.Calendar.{Calendar}
use agent_of_record.Common.Find.{find, keep}
use agent_of_record.Common.Text.{join}
use agent_of_record.CryptoCore.{Crypto, Bytes}
use agent_of_record.Json.{Json, Fields, str, obj, opt_str, field, end, get_field, one_field}
use agent_of_record.KeyRegistry.Registry.{KeyRegistry}
use agent_of_record.LedgerCore.{LedgerEntry, Ledger, append}
use agent_of_record.PoiGenerator.AgentKeys.{register_agent_public_key}
use agent_of_record.PoiGenerator.Callback.{is_true}
use agent_of_record.PoiGenerator.Models.{ProofOfIntent}
use agent_of_record.PoiGenerator.Poi.{Claims, build_poi, sign_poi}
use agent_of_record.VerificationPortal.Models.{ActionEvidence, ActionEvidenceStore, register}
use agent_of_record.VerifierService.Database.{Hashlib, PublicUser, save_prompt}
use agent_of_record.VerificationPortal.EvidenceStore.{JsonText}
use agent_of_record.VerifierService.Models.{SignedEnvelope}
use agent_of_record.VerifierService.Verifier.{VerificationResult}
use agent_of_record.VerifierService.Server.{
  AppState, KeyStore, registry, legacy, Reply, reply, http_error, raised, H, ◌>>=◌, ◌>>◌, return,
  fail, lift, or_raised, refuse_if, asks, changes, is_lookup_or_value_error, catching,
  log_operation,
}
use agent_of_record.VerifierService.Server.Prompts.{Clocks, match_user, admit}

-- A file of the outbox.
pub record EmlFile : Type 0 where
  pub path : String
  pub bytes : Bytes
  pub mtime : ℕ

pub record AgentCalls (W : Type 0) : Type 0 where
  pub agent_id : String
  pub execute : ActionPlan → ProofOfIntent → W → Result ActionResult × W

pub record RouteResult : Type 0 where
  pub handled : Bool
  pub reason : Option String

pub record Agents (W : Type 0) : Type 0 where
  pub route : String → RouteResult
  pub plan : String → W → Result (List ActionPlan)
  pub get : String → Result (AgentCalls W)
  pub load_agent_keypair : String → Result Bytes
  pub outbox : W → List EmlFile
  pub json_text : JsonText

-- The clocks and random texts of one plan.
pub record PlanTimes : Type 0 where
  pub system_entry : String
  pub user_entry : String
  pub action_entry : String
  pub key_checked : ℕ
  pub key_from : ℕ
  pub key_created : ℕ
  pub poi_timestamp : String
  pub nonce : String
  pub uuid : String
  pub saved : ℕ
  pub operation : String

pub record ExecutionRecord : Type 0 where
  pub action_id : String
  pub agent_type : String
  pub agent_id : String
  pub action_type : String
  pub success : Bool
  pub details : Fields
  pub observed_effect : Fields

-- The variables of the loop over the plans.
pub record Progress : Type 0 where
  pub execution_records : List ExecutionRecord
  pub previous_result : Option ActionResult
  pub last_action_id : Option String
  pub last_eml_path : Option String

abbrev pub nothing_done : Progress
nothing_done = record {
  execution_records = [];
  previous_result = none;
  last_action_id = none;
  last_eml_path = none;
}

abbrev pub system_prompt : String
system_prompt = "Route the signed request to one approved deterministic specialist."

-- `d[key] = value`
unfoldable pub set_field : String → Json → Fields → Fields
set_field key value end = field key value end
set_field key value (field k v fs) =
    if k == key then field k value fs else field k v (set_field key value fs)

-- Python's truth of `d.get(key)`.
abbrev pub has_true : String → Fields → Bool
has_true key fs = elim (get_field key fs) [ none ↦ false | some v ↦ is_true v ]

-- A file takes its content from the report of the plan before, where it has none.
unfoldable pub with_report : ActionPlan → Option ActionResult → Fields → Fields
with_report plan none payload = payload
with_report plan (some previous) payload =
    if plan.action_type == "file.create" && not (has_true "content" payload)
    then elim (get_field "report_markdown" previous.details) [
      | none ↦ payload
      | some report ↦ if is_true report then set_field "content" report payload else payload
    ]
    else payload

abbrev pub audits_action : ActionPlan → Bool
audits_action plan =
    plan.agent_type == "audit"
    && is_one_of ("audit.verify_action" ∷ "audit.explain_failure" ∷ "audit.generate_report" ∷ [])
        plan.action_type

-- An audit looks at the action of the plan before, where it names none.
unfoldable pub with_action : ActionPlan → Option ActionResult → Fields → Fields
with_action plan none payload = payload
with_action plan (some previous) payload =
    if audits_action plan && not (has_true "action_id" payload)
    then elim previous.artifact_ref [
      | none ↦ payload
      | some artifact ↦
          if artifact == "" then payload else set_field "action_id" (str artifact) payload
    ]
    else payload

-- The plan as it is executed.
unfoldable pub completed_plan : ActionPlan → Option ActionResult → ActionPlan
unfolding with_report with_action
completed_plan plan previous = record plan {
  payload = with_action plan previous (with_report plan previous plan.payload);
}

abbrev pub action_content : ActionPlan → Json
action_content plan = obj (
    field "agent_type" (str plan.agent_type) (
      field "agent_id" (opt_str plan.agent_id)
        (field "action_type" (str plan.action_type) (field "payload" (obj plan.payload) end))))

-- `value or default`, on texts
abbrev pub text_or : Option String → String → String
text_or none default = default
text_or (some s) default = if s == "" then default else s

-- The latest of the files; the first of those of one time.
unfoldable pub latest_file : List EmlFile → Option EmlFile
latest_file [] = none
latest_file (f ∷ files) = elim (latest_file files) [
  | none ↦ some f
  | some g ↦ if ltb f.mtime g.mtime then some g else some f
]

-- `set(glob) - existing_eml`
unfoldable pub new_files : List EmlFile → List EmlFile → List EmlFile
new_files before after = keep (λ f. not (is_one_of (map (λ g. g.path) before) f.path)) after

-- The message that an email plan has written, if any.
unfoldable pub written_file : ActionPlan → List EmlFile → List EmlFile → Option EmlFile
unfolding latest_file new_files
written_file plan before after =
    if plan.agent_type == "email" then latest_file (new_files before after) else none

unfoldable pub action_id_of : ActionPlan → ActionResult → String → String
action_id_of plan result uuid =
    let made = join (plan.agent_type ∷ "-" ∷ uuid ∷ []) in
    if plan.agent_type == "email" then text_or result.artifact_ref made else made

abbrev pub record_user : Option PublicUser → SignedEnvelope → String
record_user none envelope = envelope.user_id
record_user (some user) envelope = user.id

abbrev pub path_of : Option EmlFile → Option String
path_of none = none
path_of (some f) = some f.path

abbrev pub bytes_of : Option EmlFile → Option Bytes
bytes_of none = none
bytes_of (some f) = some f.bytes

-- The last path stays where a plan writes none.
abbrev pub later_path : Option EmlFile → Option String → Option String
later_path none last = last
later_path (some f) last = some f.path

abbrev pub plan_claims : ActionPlan → String → Claims
plan_claims plan agent_id = record {
  agent_type = some plan.agent_type;
  agent_id = some agent_id;
  action_type = some plan.action_type;
  policy_decision = some plan.policy_decision;
}
