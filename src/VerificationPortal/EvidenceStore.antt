-- ===== src/VerificationPortal/EvidenceStore.antt =====
-- verification_portal/backend/evidence_store.py: the evidence as it is kept in the database.
-- `json.dumps` and `json.loads` are the parameter `JsonText`.
pub mod Reading
pub mod Store
pub mod RoundTrip
mod Tests
use agent_of_record.Common.{
  String, Option, none, some, List, [], ◌∷◌, nat_eq, string_eq, list_eq, option_eq, take,
}
use agent_of_record.Common.Dict.{Dict, lookup, insert}
use agent_of_record.CryptoCore.{Bytes}
use agent_of_record.CryptoCore.Hex.{hex, fromhex}
use agent_of_record.CryptoCore.Base64.{standard, b64encode, a2b_base64}
use agent_of_record.Json.{
  Json, Items, Fields, pos, null, int, str, arr, obj, nil, cons, end, field, opt_str, get_field,
}
use agent_of_record.LedgerCore.{LedgerEntry, Ledger, from_entries}
use agent_of_record.PoiGenerator.Models.{ProofOfIntent, validate_poi}
use agent_of_record.VerificationPortal.Models.{ActionEvidence, ActionEvidenceStore, register, get}
use agent_of_record.VerifierService.Database.{
  SqliteDatabase, save_action_evidence, get_action_evidence,
}
use agent_of_record.VerifierService.Models.{SignedEnvelope}

pub record JsonText : Type 0 where
  pub dumps : Json → String
  -- `none` is a `ValueError`
  pub loads : String → Option Json

abbrev pub or_null : Option Json → Json
or_null none = null
or_null (some v) = v

abbrev pub opt_base64 : Option Bytes → Json
opt_base64 none = null
opt_base64 (some b) = str (b64encode standard b)

-- `model_dump(mode="json")`
unfoldable pub envelope_json : SignedEnvelope → Json
envelope_json e = obj (
    field "prompt" (str e.prompt) (
      field "user_id" (str e.user_id) (
        field "session_id" (str e.session_id) (
          field "timestamp" (str e.timestamp) (
            field "nonce" (str e.nonce) (
              field "signature" (str e.signature) (
                field "pubkey_id" (str e.pubkey_id)
                  (field "signature_algorithm" (str e.signature_algorithm) end))))))))

unfoldable pub poi_fields : ProofOfIntent → Fields
poi_fields p = field "user_prompt_hash" (str p.user_prompt_hash) (
    field "system_prompt_hash" (str p.system_prompt_hash) (
      field "context_root" (str p.context_root) (
        field "action_payload_hash" (str p.action_payload_hash) (
          field "model_id" (str p.model_id) (
            field "timestamp" (str p.timestamp) (
              field "nonce" (str p.nonce) (
                field "agent_type" (opt_str p.agent_type) (
                  field "agent_id" (opt_str p.agent_id) (
                    field "action_type" (opt_str p.action_type) (
                      field "policy_decision" (opt_str p.policy_decision) (
                        field "agent_signature" (opt_str p.agent_signature)
                          (field "agent_pubkey_id" (opt_str p.agent_pubkey_id) end))))))))))))

abbrev pub poi_json : ProofOfIntent → Json
poi_json p = obj (poi_fields p)

abbrev pub opt_poi : Option ProofOfIntent → Json
opt_poi none = null
opt_poi (some p) = poi_json p

unfoldable pub entry_json : LedgerEntry → Json
entry_json entry = obj (
    field "entry_id" (int (pos entry.entry_id)) (
      field "entry_type" (str entry.entry_type) (
        field "content" entry.content (
          field "timestamp" (str entry.timestamp) (
            field "prev_hash" (str (hex entry.prev_hash))
              (field "leaf_hash" (str (hex entry.leaf_hash)) end))))))

unfoldable pub entry_items : List LedgerEntry → Items
entry_items [] = nil
entry_items (entry ∷ entries) = cons (entry_json entry) (entry_items entries)

-- `_serialize`, up to `json.dumps`
unfoldable pub evidence_fields : ActionEvidence → Fields
evidence_fields e =
    let entries = take e.ledger_entry_count_at_action e.ledger.entries in
    field "user_envelope" (envelope_json e.user_envelope) (
      field "system_prompt" (str e.system_prompt) (
        field "ledger_entry_count_at_action" (int (pos e.ledger_entry_count_at_action)) (
          field "ledger_entries" (arr (entry_items entries)) (
            field "eml_bytes" (opt_base64 e.eml_bytes) (
              field "poi" (opt_poi e.poi) (
                field "action_type" (opt_str e.action_type) (
                  field "action_payload" (or_null e.action_payload) (
                    field "observed_effect" (or_null e.observed_effect)
                      (field "timestamp_token" (opt_base64 e.timestamp_token) end)))))))))

abbrev pub serialize : ActionEvidence → Json
serialize e = obj (evidence_fields e)
