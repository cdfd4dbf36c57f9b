-- ===== src/ActionExecutor/Executor.antt =====
-- action_executor/jwt_action.py and executor.py. The database agent is the interface `DatabaseAgent`, over
-- a state of its own.
pub mod Mail
pub mod Guards
use agent_of_record.Common.{
  String, Bool, true, false, not, ◌&&◌, ◌||◌, Option, none, some, List, if◌then◌else◌, ◌==◌, nat_eq,
  string_eq, list_eq, option_eq, Result, ok, ◌>>=◌, ◌>>◌,
}
use agent_of_record.ActionExecutor.SmtpAction.{
  Aead, SmtpConfig, Delivery, Chance, send_email_with_proof,
}
use agent_of_record.CryptoCore.{Crypto, Bytes, hash_payload}
use agent_of_record.CryptoCore.Hex.{hex}
use agent_of_record.Json.{Json, Fields, null, bool, int, str, arr, obj, nil, field, end, get_field}
use agent_of_record.PoiGenerator.Models.{ProofOfIntent}

pub record ActionResult : Type 0 where
  pub success : Bool
  pub action_type : String
  pub action_id : Option String
  pub detail : Option String

abbrev pub refused : String → String → ActionResult
refused action_type detail = record {
  success = false;
  action_type = action_type;
  action_id = none;
  detail = some detail;
}

-- What an agent reports of an action.
pub record AgentResult : Type 0 where
  pub success : Bool
  pub artifact_ref : Option String
  pub error : Option String

-- `database_agent.execute(database_agent.plan("database query", context), poi)`
pub record DatabaseAgent (S : Type 0) : Type 0 where
  pub run_query : Json → ProofOfIntent → S → Result (AgentResult × S)

-- What the executor's calls act on.
pub record World (S : Type 0) : Type 0 where
  pub outbox : List Delivery
  pub database : S

pub record ActionExecutor (S : Type 0) : Type 0 where
  pub smtp_config : SmtpConfig
  pub encryption_key : Option Bytes
  pub database_agent : Option (DatabaseAgent S)

abbrev pub fields_of : Json → Fields
fields_of (obj fs) = fs
fields_of _ = end

-- `action_payload.get(key)` and `action_payload.get(key, default)`
abbrev pub get_or : Json → String → Fields → Json
get_or default key fs = elim (get_field key fs) [ none ↦ default | some v ↦ v ]

abbrev pub has_field : String → Fields → Bool
has_field key fs = elim (get_field key fs) [ none ↦ false | some v ↦ true ]

-- `action_type == poi.action_type or {action_type, poi.action_type} == {"db", "db.query"}`
unfoldable pub is_same_type : String → String → Bool
is_same_type action_type claimed =
    action_type == claimed
    || (action_type == "db" && claimed == "db.query")
    || (action_type == "db.query" && claimed == "db")

unfoldable pub fits_type : String → Option String → Bool
unfolding is_same_type
fits_type action_type none = true
fits_type action_type (some claimed) = is_same_type action_type claimed

unfoldable pub is_allowed : Option String → Bool
is_allowed none = true
is_allowed (some decision) = decision == "allow"

module _ {S : Type 0} where
  unfoldable pub execute_jwt_action :
      String → Fields → ProofOfIntent → Option (DatabaseAgent S) → S → Result (AgentResult × S)
  execute_jwt_action action_type payload poi none database = ok (
    record {
      success = false;
      artifact_ref = none;
      error = some (
          if action_type == "db" then "database_agent_required" else "unsupported_jwt_action_type");
    },
    database,
  )
  execute_jwt_action action_type payload poi (some agent) database =
      if not (action_type == "db")
      then ok (
        record { success = false; artifact_ref = none; error = some "unsupported_jwt_action_type" },
        database,
      )
      else agent.run_query
          (obj (
            field "database" (get_or null "database" payload) (
              field "template" (get_or null "template" payload)
                (field "params" (get_or (arr nil) "params" payload) end))))
          poi database

module _ ⦃c : Crypto⦄ (aead : Aead) {S : Type 0} (executor : ActionExecutor S) where
  unfoldable pub execute_email :
      Chance → Fields → ProofOfIntent → World S → Result (ActionResult × World S)
  execute_email chance payload poi world =
      if has_field "to" payload && has_field "subject" payload && has_field "body" payload
      then (do
        (message_id, outbox) ←
            send_email_with_proof aead chance (get_or null "to" payload)
              (get_or null "subject" payload) (get_or null "body" payload) poi executor.smtp_config
              (get_field "audit_rationale" payload) executor.encryption_key world.outbox
        ok (
          record {
            success = true;
            action_type = "email";
            action_id = some message_id;
            detail = none;
          },
          record world { outbox = outbox },
        ))
      else ok (refused "email" "missing_email_fields", world)

  unfoldable pub execute_database :
      Fields → ProofOfIntent → World S → Result (ActionResult × World S)
  execute_database payload poi world = do
    (result, database) ← execute_jwt_action "db" payload poi executor.database_agent world.database
    ok (
      record {
        success = result.success;
        action_type = "db";
        action_id = result.artifact_ref;
        detail = result.error;
      },
      record world { database = database },
    )

  -- After the guards. The result of a trade's token is dropped.
  unfoldable pub dispatch :
      Chance → String → Fields → ProofOfIntent → World S → Result (ActionResult × World S)
  dispatch chance action_type payload poi world =
      if action_type == "email"
      then execute_email chance payload poi world
      else if action_type == "db"
      then execute_database payload poi world
      else ok (refused action_type "unsupported_action_type", world)

  -- The three guards, from the payload's digest on.
  unfoldable pub execute_hashed :
      String → Chance → String → Fields → ProofOfIntent → World S → Result (ActionResult × World S)
  execute_hashed digest chance action_type payload poi world =
      let dispatched = dispatch chance action_type payload poi world in
      if not (digest == poi.action_payload_hash)
      then ok (refused action_type "action_payload_hash_mismatch", world)
      else if not (fits_type action_type poi.action_type)
      then ok (refused action_type "action_type_mismatch", world)
      else if not (is_allowed poi.policy_decision)
      then ok (refused action_type "policy_decision_rejected", world)
      else dispatched

  unfoldable pub execute_action :
      Chance → String → Json → ProofOfIntent → World S → Result (ActionResult × World S)
  execute_action chance action_type action_payload poi world = do
    digest ← hash_payload action_payload
    execute_hashed (hex digest) chance action_type (fields_of action_payload) poi world
