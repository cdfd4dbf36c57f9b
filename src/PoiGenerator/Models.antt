-- ===== src/PoiGenerator/Models.antt =====
-- poi_generator/models.py.
use agent_of_record.Common.{
  String, Bool, not, ◌&&◌, Option, some, if◌then◌else◌, ◌==◌, nat_eq, string_eq, list_eq, option_eq,
  text_length, validation_error, Result, ok, err,
}
use agent_of_record.Json.{Json, obj, str, opt_str, field, end}

pub record ProofOfIntent : Type 0 where
  pub user_prompt_hash : String
  pub system_prompt_hash : String
  pub context_root : String
  pub action_payload_hash : String
  pub model_id : String
  pub timestamp : String
  pub nonce : String
  pub agent_type : Option String
  pub agent_id : Option String
  pub action_type : Option String
  pub policy_decision : Option String
  pub agent_signature : Option String
  pub agent_pubkey_id : Option String

-- `model_dump(exclude={"agent_signature"})`
unfoldable pub signing_payload : ProofOfIntent → Json
signing_payload p = obj (
    field "user_prompt_hash" (str p.user_prompt_hash) (
      field "system_prompt_hash" (str p.system_prompt_hash) (
        field "context_root" (str p.context_root) (
          field "action_payload_hash" (str p.action_payload_hash) (
            field "model_id" (str p.model_id) (
              field "timestamp" (str p.timestamp) (
                field "nonce" (str p.nonce) (
                  field "agent_type" (opt_str p.agent_type) (
                    field "agent_id" (opt_str p.agent_id) (
                      field "action_type" (opt_str p.action_type) (
                        field "policy_decision" (opt_str p.policy_decision)
                          (field "agent_pubkey_id" (opt_str p.agent_pubkey_id) end))))))))))))

unfoldable pub is_sized : ProofOfIntent → Bool
is_sized p =
    text_length p.user_prompt_hash == 64
    && text_length p.system_prompt_hash == 64
    && text_length p.context_root == 64
    && text_length p.action_payload_hash == 64

unfoldable pub is_filled : ProofOfIntent → Bool
is_filled p =
    not (p.model_id == "")
    && not (p.timestamp == "")
    && not (p.nonce == "")
    && not (p.agent_type == some "")
    && not (p.agent_id == some "")
    && not (p.action_type == some "")
    && not (p.policy_decision == some "")

-- Pydantic's checks of the fields.
unfoldable pub validate_poi : ProofOfIntent → Result ProofOfIntent
unfolding is_sized is_filled
validate_poi p = if is_sized p && is_filled p then ok p else err (validation_error "ProofOfIntent")
