-- ===== src/VerifierService/Models.antt =====
-- verifier_service/models.py: the signed envelope, and the five fields that its signature covers.
use agent_of_record.Common.{String, nat_eq, string_eq, list_eq, option_eq}
use agent_of_record.Json.{Json, obj, str, field, end}

pub record SignedEnvelope : Type 0 where
  pub prompt : String
  pub user_id : String
  pub session_id : String
  pub timestamp : String
  pub nonce : String
  pub signature : String
  pub pubkey_id : String
  pub signature_algorithm : String

unfoldable pub signing_payload : SignedEnvelope → Json
signing_payload e = obj (
    field "prompt" (str e.prompt) (
      field "user_id" (str e.user_id) (
        field "session_id" (str e.session_id)
          (field "timestamp" (str e.timestamp) (field "nonce" (str e.nonce) end)))))
