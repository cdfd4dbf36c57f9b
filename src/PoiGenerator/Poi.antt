-- ===== src/PoiGenerator/Poi.antt =====
-- poi_generator/poi.py. The time and the nonce of a new proof are arguments.
pub mod Signature
pub mod Commitment
use agent_of_record.Common.{
  String, Bool, false, not, ◌||◌, Option, none, some, ◌==◌, nat_eq, string_eq, list_eq, option_eq,
  value_error, type_error, Result, ok, ◌>>=◌, ◌>>◌, raise_if,
}
use agent_of_record.CryptoCore.{
  Crypto, Bytes, PublicKey, canonicalize, hash_payload, hash_sha3_256, sign, verify,
}
use agent_of_record.CryptoCore.Hex.{hex, fromhex}
use agent_of_record.Json.{Json, is_dict, str, one_field}
use agent_of_record.LedgerCore.{Ledger, all_entries}
use agent_of_record.Merkle.{MerkleTree, build_merkle_tree, root}
use agent_of_record.PoiGenerator.AgentKeys.{agent_pubkey_id}
use agent_of_record.PoiGenerator.Models.{ProofOfIntent, signing_payload, validate_poi}

-- The optional claims that a proof carries.
pub record Claims : Type 0 where
  pub agent_type : Option String
  pub agent_id : Option String
  pub action_type : Option String
  pub policy_decision : Option String

abbrev pub no_claims : Claims
no_claims = record {
  agent_type = none;
  agent_id = none;
  action_type = none;
  policy_decision = none;
}

module _ ⦃c : Crypto⦄ where
  unfoldable pub poi_signing_hash : ProofOfIntent → Result Bytes
  poi_signing_hash poi = do bytes ← canonicalize (signing_payload poi); ok (hash_sha3_256 bytes)

  unfoldable pub build_poi :
      String → String → Ledger → Json → String → Claims → String → String → Result ProofOfIntent
  build_poi user_prompt system_prompt ledger action_payload model_id claims timestamp nonce = do
    raise_if (user_prompt == "" || system_prompt == "" || model_id == "")
        (value_error "user_prompt, system_prompt, and model_id are required")
    raise_if (not (is_dict action_payload)) (type_error "action_payload must be a dictionary")
    tree ← build_merkle_tree (all_entries ledger)
    context_root ← root tree
    user_prompt_hash ← hash_payload (one_field "prompt" (str user_prompt))
    system_prompt_hash ← hash_payload (one_field "system_prompt" (str system_prompt))
    action_payload_hash ← hash_payload action_payload
    validate_poi (record {
      user_prompt_hash = hex user_prompt_hash;
      system_prompt_hash = hex system_prompt_hash;
      context_root = hex context_root;
      action_payload_hash = hex action_payload_hash;
      model_id = model_id;
      timestamp = timestamp;
      nonce = nonce;
      agent_type = claims.agent_type;
      agent_id = claims.agent_id;
      action_type = claims.action_type;
      policy_decision = claims.policy_decision;
      agent_signature = none;
      agent_pubkey_id = none;
    })

  unfoldable pub sign_poi : ProofOfIntent → Bytes → Result ProofOfIntent
  unfolding sign
  sign_poi poi agent_private_key = do
    let with_key_id : ProofOfIntent = record poi {
      agent_pubkey_id = some (agent_pubkey_id agent_private_key);
      agent_signature = none;
    }
    digest ← poi_signing_hash with_key_id
    ok (record with_key_id { agent_signature = some (hex (sign agent_private_key digest)) })

  -- With the signature's text at hand.
  unfoldable pub verify_signature_text : ProofOfIntent → PublicKey → Option Bytes → Result Bool
  verify_signature_text poi agent_public_key none = ok false
  verify_signature_text poi agent_public_key (some signature) = do
    digest ← poi_signing_hash poi
    verify agent_public_key signature digest

  unfoldable pub verify_poi_signature : ProofOfIntent → PublicKey → Result Bool
  unfolding verify_signature_text
  verify_poi_signature poi agent_public_key = elim poi.agent_signature [
    | none ↦ ok false
    | some text ↦ elim poi.agent_pubkey_id [
      | none ↦ ok false
      | some id ↦ verify_signature_text poi agent_public_key (fromhex text)
    ]
  ]
