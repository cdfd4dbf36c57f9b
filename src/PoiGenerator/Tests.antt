-- ===== src/PoiGenerator/Tests.antt =====
-- A proof of intent, signed.
use agent_of_record.Common.{
  String, false, Option, option_beq, is_ok, ◌⊎◌, ◌≡◌, refl, ◌↔◌, true, none, some, [], ◌∷◌, nat_eq,
  string_eq, list_eq, option_eq, Result, ok, err,
}
use agent_of_record.Toy.{toy, toy-IsEd25519}
use agent_of_record.CryptoCore.{hash_payload, ed25519, canonicalize, serialize_public_key_raw}
use agent_of_record.PoiGenerator.AgentKeys.{agent_pubkey_id}
use agent_of_record.PoiGenerator.Models.{
  validate_poi, is_sized, is_filled, ProofOfIntent, signing_payload,
}
use agent_of_record.PoiGenerator.Poi.{
  no_claims, build_poi, poi_signing_hash, sign_poi, verify_poi_signature,
}
use agent_of_record.Common.{text_length}
use agent_of_record.Common.Dict.{lookup, insert}
use agent_of_record.CryptoCore.Hex.{hex, hex_digit}
use agent_of_record.Json.{Json, str, end}
use agent_of_record.LedgerCore.{append, compute_leaf_hash}
use agent_of_record.LedgerCore.Tests.{two_entries, send}
use agent_of_record.Merkle.{
  build_merkle_tree, collect_leaves, build_levels, next_level, pad, pair_up, parent_hash, root,
}
use agent_of_record.PoiGenerator.Callback.{
  VerifiedSessionContext, State, Readings, action_payload, tool_name, first_true, find_session,
  make_poi, record_call, start_with, on_tool_start,
}
use agent_of_record.PoiGenerator.Callback.Start.{HasStarted, on_tool_start_outcome}
use agent_of_record.PoiGenerator.Poi.Signature.{
  unsigned, signing_payload_binds, verify_poi_signature-sign_poi,
}

abbrev poi : ProofOfIntent
poi = record {
  user_prompt_hash = "a";
  system_prompt_hash = "b";
  context_root = "c";
  action_payload_hash = "d";
  model_id = "m";
  timestamp = "t";
  nonce = "n";
  agent_type = some "email";
  agent_id = some "email-agent";
  action_type = none;
  policy_decision = none;
  agent_signature = none;
  agent_pubkey_id = none;
}

abbrev signed_or_same : Result ProofOfIntent → ProofOfIntent
signed_or_same (ok p) = p
signed_or_same (err e) = poi

abbrev signed : ProofOfIntent
signed = signed_or_same (sign_poi poi (1 ∷ 2 ∷ []))

poi_signed : sign_poi poi (1 ∷ 2 ∷ []) ≡ ok signed
unfolding sign_poi poi_signing_hash canonicalize signing_payload
poi_signed = refl

verify_poi_signature-sign_poi_example :
    (unsigned signed ≡ record poi {
      agent_signature = none;
      agent_pubkey_id = some (agent_pubkey_id (1 ∷ 2 ∷ []));
    })
    × (verify_poi_signature signed (ed25519 (serialize_public_key_raw (1 ∷ 2 ∷ []))) ≡ ok true)
verify_poi_signature-sign_poi_example =
    verify_poi_signature-sign_poi poi signed (1 ∷ 2 ∷ []) toy-IsEd25519 poi_signed

signing_payload_binds_example :
    (signing_payload poi ≡ signing_payload signed) ↔ (unsigned poi ≡ unsigned signed)
signing_payload_binds_example = signing_payload_binds poi signed

abbrev built_or_same : Result ProofOfIntent → ProofOfIntent
built_or_same (ok p) = p
built_or_same (err e) = poi

abbrev built : ProofOfIntent
built = built_or_same (build_poi "hi" "be kind" two_entries send "model" no_claims "t" "n")

poi_built : build_poi "hi" "be kind" two_entries send "model" no_claims "t" "n" ≡ ok built
unfolding append compute_leaf_hash hash_payload hex hex_digit build_merkle_tree collect_leaves
    build_levels next_level pad pair_up parent_hash root build_poi validate_poi is_sized is_filled
    text_length lookup insert option_beq
poi_built = refl

abbrev reads_none : String → Option Json
reads_none s = none

abbrev context : VerifiedSessionContext
context = record {
  session_id = "s1";
  user_prompt = "hi";
  system_prompt = "be kind";
  ledger = 0;
  model_id = "model";
}

abbrev state : State
state = record {
  handler = record {
    sessions = ("s1", context) ∷ [];
    agent_private_key = 1 ∷ 2 ∷ [];
    pois_by_run_id = [];
  };
  ledgers = (0, two_entries) ∷ [];
}

abbrev at : Readings
at = record { poi_timestamp = "t3"; nonce = "n"; entry_timestamp = "t4" }

tool_call_starts :
    (on_tool_start reads_none at end "look up" "r1" (some (str "s1")) state).0 ≡ ok tt
unfolding append compute_leaf_hash canonicalize hash_payload hex hex_digit build_merkle_tree
    collect_leaves build_levels next_level pad pair_up parent_hash root build_poi sign_poi
    poi_signing_hash signing_payload validate_poi is_sized is_filled text_length lookup insert
    on_tool_start find_session start_with make_poi record_call action_payload tool_name first_true
    option_beq
tool_call_starts = refl

on_tool_start_outcome_example :
    (((on_tool_start reads_none at end "look up" "r1" (some (str "s1")) state).0 ≡ ok tt)
      × HasStarted reads_none at end "look up" "r1"
          (some (str "s1"))
          state
          (on_tool_start reads_none at end "look up" "r1" (some (str "s1")) state).1)
    ⊎ ((is_ok (on_tool_start reads_none at end "look up" "r1" (some (str "s1")) state).0 ≡ false)
        × ((on_tool_start reads_none at end "look up" "r1" (some (str "s1")) state).1.ledgers
            ≡ state.ledgers))
on_tool_start_outcome_example =
    on_tool_start_outcome reads_none at end "look up" "r1" (some (str "s1")) state
