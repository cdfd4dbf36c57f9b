-- ===== src/ActionExecutor/PoiEncoding.antt =====
-- action_executor/poi_encoding.py. pydantic's JSON reader is an argument.
use agent_of_record.Common.{
  String, Option, none, some, if◌then◌else◌, ◌==◌, nat_eq, string_eq, list_eq, option_eq,
  value_error, Result, ok, err, ◌>>=◌, or_raise,
}
use Prim.Native.Char.{code}
use agent_of_record.Common.Text.{is_whitespace}
use agent_of_record.CryptoCore.{Crypto, Bytes, canonicalize}
use agent_of_record.CryptoCore.Base64.{urlsafe, b64encode, urlsafe_b64decode}
use agent_of_record.CryptoCore.Hex.{fromhex}
use agent_of_record.Json.{Json, obj, str, opt_str, field, end}
use agent_of_record.PoiGenerator.Models.{ProofOfIntent}

-- `poi.model_dump()`
unfoldable pub model_dump : ProofOfIntent → Json
model_dump p = obj (
    field "user_prompt_hash" (str p.user_prompt_hash) (
      field "system_prompt_hash" (str p.system_prompt_hash) (
        field "context_root" (str p.context_root) (
          field "action_payload_hash" (str p.action_payload_hash) (
            field "model_id" (str p.model_id) (
              field "timestamp" (str p.timestamp) (
                field "nonce" (str p.nonce) (
                  field "agent_type" (opt_str p.agent_type) (
                    field "agent_id" (opt_str p.agent_id) (
                      field "action_type" (opt_str p.action_type) (
                        field "policy_decision" (opt_str p.policy_decision) (
                          field "agent_signature" (opt_str p.agent_signature)
                            (field "agent_pubkey_id" (opt_str p.agent_pubkey_id) end)))))))))))))

-- `"".join(value.split())`
unfoldable pub compact : String → String
unfolding is_whitespace
compact String.[] = String.[]
compact (String.◌∷◌ c s) =
    let rest = compact s in if is_whitespace (code c) then rest else String.◌∷◌ c rest

unfoldable pub decode_poi_header : (Bytes → Result ProofOfIntent) → String → Result ProofOfIntent
unfolding compact
decode_poi_header model_validate_json header_value = do
  json ← or_raise (urlsafe_b64decode (compact header_value)) (value_error "binascii.Error")
  model_validate_json json

unfoldable pub build_signature_header : ProofOfIntent → Result String
build_signature_header poi = elim poi.agent_signature [
  | none ↦ err (value_error "a signed PoI is required for an action header")
  | some text ↦ do
    signature ←
        or_raise (fromhex text) (value_error "non-hexadecimal number found in fromhex() arg")
    ok (b64encode urlsafe signature)
]

unfoldable pub build_agent_cert_header : Option String → Result String
build_agent_cert_header none = err (value_error "agent_pubkey_id is required for an action header")
build_agent_cert_header (some id) =
    if id == "" then err (value_error "agent_pubkey_id is required for an action header") else ok id

module _ ⦃c : Crypto⦄ where
  unfoldable pub encode_poi_header : ProofOfIntent → Result String
  unfolding model_dump
  encode_poi_header poi = do json ← canonicalize (model_dump poi); ok (b64encode urlsafe json)
