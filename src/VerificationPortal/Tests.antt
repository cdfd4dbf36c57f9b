-- ===== src/VerificationPortal/Tests.antt =====
-- A proved action, and an email whose action is unknown.
use agent_of_record.Common.{
  String, ◌≡◌, refl, true, false, none, some, [], ◌∷◌, nat_eq, string_eq, list_eq, option_eq,
  list_beq, option_beq, text_length, attribute_error, Result, ok, err, ◌>>=◌,
}
use agent_of_record.Toy.{toy, replicate}
use agent_of_record.Common.Dict.{lookup, insert}
use agent_of_record.CryptoCore.{
  Bytes, canonicalize, hash_payload, hash_sha3_256, sign, serialize_public_key_raw, verify,
  from_bytes_big,
}
use agent_of_record.CryptoCore.Base64.{
  standard, b64encode, b64decode, char_at, index_from, a2b_base64, from_urlsafe, urlsafe_b64decode,
}
use agent_of_record.CryptoCore.Hex.{hex, hex_digit, fromhex, digit_value, is_space}
use agent_of_record.ActionExecutor.PoiEncoding.{decode_poi_header, compact}
use agent_of_record.Common.Text.{is_whitespace}
use agent_of_record.KeyRegistry.Models.{AgentKeyRecord}
use agent_of_record.KeyRegistry.Registry.{is_active, get_pubkey, get_key_record}
use agent_of_record.KeyRegistry.Storage.{get_key_by_id}
use agent_of_record.LedgerCore.{append, compute_leaf_hash, first_invalid, first_invalid_entry_id}
use agent_of_record.LedgerCore.Tests.{two_entries, send}
use agent_of_record.Merkle.{
  root, sibling_index, direction, proof_from, get_proof, collect_leaves, pad, parent_hash, pair_up,
  next_level, build_levels, build_merkle_tree, check_proof, verify_merkle_proof,
}
use agent_of_record.PoiGenerator.AgentKeys.{agent_pubkey_id}
use agent_of_record.PoiGenerator.Models.{ProofOfIntent, validate_poi, is_sized, is_filled}
use agent_of_record.PoiGenerator.Models as PoiModels
use agent_of_record.PoiGenerator.Poi.{
  no_claims, build_poi, sign_poi, poi_signing_hash, verify_poi_signature, verify_signature_text,
}
use agent_of_record.VerificationPortal.Models.{
  Environment, Message, refused, ActionEvidence, get, parse_eml, body_from_message,
  without_line_end, text_or_empty,
}
use agent_of_record.VerificationPortal.Links.{
  intake, parse_or_link, from_header, extract_poi, mismatch, payload_mismatch, recomputed_entries,
  recompute, check_hashes, verify_timestamp_token,
}
use agent_of_record.VerificationPortal.Signatures.{
  Times, identity_errors, action_type_errors, policy_errors, load_public_key, agent_signature,
  check_agent, user_signature, check_user,
}
use agent_of_record.VerificationPortal.Pipeline.{
  VerificationPipeline, VerificationTrace, all_passed, first_proof, check_first, check_ledger,
  stored_token, check_anchor, later_links, run_verification,
}
use agent_of_record.VerificationPortal.Pipeline.Sound.{
  IsProved, overall_valid_sound, missing_evidence_raises,
}
use agent_of_record.VerifierService.Models.{SignedEnvelope, signing_payload}
use agent_of_record.VerifierService.Verifier.{load_parsed, supported}

abbrev agent_key : Bytes
agent_key = replicate 31 5

abbrev blank : ProofOfIntent
blank = record {
  user_prompt_hash = "";
  system_prompt_hash = "";
  context_root = "";
  action_payload_hash = "";
  model_id = "m";
  timestamp = "t";
  nonce = "n";
  agent_type = none;
  agent_id = none;
  action_type = some "email";
  policy_decision = none;
  agent_signature = none;
  agent_pubkey_id = some "user-key";
}

abbrev poi_of : Result ProofOfIntent → ProofOfIntent
poi_of (ok p) = p
poi_of (err e) = blank

abbrev poi : ProofOfIntent
poi = poi_of (
    build_poi "send it" "be careful" two_entries send "m" no_claims "t" "n" >>= λ p.
    sign_poi p agent_key)

abbrev envelope : SignedEnvelope
envelope = record {
  prompt = "send it";
  user_id = "u";
  session_id = "s";
  timestamp = "t";
  nonce = "n";
  signature = b64encode standard (replicate 64 7);
  pubkey_id = "user-key";
  signature_algorithm = "ECDSA-P256-SHA256";
}

abbrev evidence : ActionEvidence
evidence = record {
  action_id = "a1";
  user_envelope = envelope;
  system_prompt = "be careful";
  ledger = two_entries;
  ledger_entry_count_at_action = 2;
  eml_bytes = none;
  poi = some poi;
  action_type = some "email";
  action_payload = some send;
  observed_effect = none;
  timestamp_token = none;
}

abbrev key_record : String → Bytes → AgentKeyRecord
key_record id b = record {
  agent_id = "email-agent";
  agent_type = some "email";
  pubkey_id = id;
  public_key_bytes = b;
  algorithm = "";
  valid_from = 0;
  valid_until = none;
  revoked = false;
  created_at = 0;
}

abbrev pipeline : VerificationPipeline
pipeline = record {
  key_registry = record {
    storage =
        key_record "user-key" (48 ∷ 7 ∷ [])
        ∷ key_record (agent_pubkey_id agent_key) (serialize_public_key_raw agent_key)
        ∷ [];
  };
  evidence_store = record { evidence = ("a1", evidence) ∷ [] };
  anchor_store = none;
}

abbrev message : Message
message = record {
  to_header = some "bob";
  subject_header = none;
  message_id = some "a2";
  poi_header = some "AAAA";
  is_multipart = false;
  plain_part = none;
  content = some "hello";
}

abbrev env : Environment
env = record {
  parsebytes = λ b. ok message;
  model_validate_json = λ b. ok blank;
  verify_rfc3161_token = λ token top. refused "";
  repr = λ s. s;
  number = λ n. "";
  message_of = λ e. "";
}

abbrev at : Times
at = record { agent_key = 1; agent_record = 1; user_key = 1 }

abbrev no_trace : VerificationTrace
no_trace = record {
  action_id = none;
  agent_type = none;
  agent_id = none;
  action_type = none;
  policy_decision = none;
  overall_valid = false;
  links = [];
  timestamp_verified = false;
}

abbrev trace_of : Result VerificationTrace → VerificationTrace
trace_of (ok t) = t
trace_of (err e) = no_trace

abbrev trace : VerificationTrace
trace = trace_of (run_verification env at none (some "a1") pipeline)

traced : run_verification env at none (some "a1") pipeline ≡ ok trace
unfolding append compute_leaf_hash canonicalize hash_payload hash_sha3_256 hex hex_digit
    build_merkle_tree collect_leaves build_levels next_level pad pair_up parent_hash list_beq
    option_beq root lookup insert build_poi sign_poi poi_signing_hash PoiModels.signing_payload sign
    serialize_public_key_raw agent_pubkey_id validate_poi is_sized is_filled text_length b64encode
    b64decode char_at index_from get intake extract_poi mismatch payload_mismatch recomputed_entries
    recompute check_hashes get_pubkey get_key_record get_key_by_id is_active identity_errors
    action_type_errors policy_errors load_public_key load_parsed supported agent_signature
    verify_poi_signature verify_signature_text fromhex digit_value is_space verify from_bytes_big
    check_agent signing_payload user_signature check_user get_proof proof_from sibling_index
    direction check_proof verify_merkle_proof first_proof first_invalid first_invalid_entry_id
    check_first check_ledger stored_token verify_timestamp_token check_anchor all_passed later_links
    run_verification
traced = refl

valid : trace.overall_valid ≡ true
unfolding append compute_leaf_hash canonicalize hash_payload hash_sha3_256 hex hex_digit
    build_merkle_tree collect_leaves build_levels next_level pad pair_up parent_hash list_beq
    option_beq root lookup insert build_poi sign_poi poi_signing_hash PoiModels.signing_payload sign
    serialize_public_key_raw agent_pubkey_id validate_poi is_sized is_filled text_length b64encode
    b64decode char_at index_from get intake extract_poi mismatch payload_mismatch recomputed_entries
    recompute check_hashes get_pubkey get_key_record get_key_by_id is_active identity_errors
    action_type_errors policy_errors load_public_key load_parsed supported agent_signature
    verify_poi_signature verify_signature_text fromhex digit_value is_space verify from_bytes_big
    check_agent signing_payload user_signature check_user get_proof proof_from sibling_index
    direction check_proof verify_merkle_proof first_proof first_invalid first_invalid_entry_id
    check_first check_ledger stored_token verify_timestamp_token check_anchor all_passed later_links
    run_verification
valid = refl

email_read : (intake env (some []) none pipeline.evidence_store).poi ≡ some blank
unfolding intake parse_or_link parse_eml body_from_message extract_poi from_header decode_poi_header
    urlsafe_b64decode from_urlsafe compact a2b_base64 index_from is_whitespace without_line_end get
    lookup
email_read = refl

email_unknown : (intake env (some []) none pipeline.evidence_store).evidence ≡ none
unfolding intake parse_or_link parse_eml body_from_message extract_poi from_header decode_poi_header
    urlsafe_b64decode from_urlsafe compact a2b_base64 index_from is_whitespace without_line_end get
    lookup
email_unknown = refl

key_usable :
    get_pubkey at.agent_key (text_or_empty blank.agent_pubkey_id) pipeline.key_registry
    ≡ some (48 ∷ 7 ∷ [])
unfolding get_pubkey get_key_by_id is_active
key_usable = refl

overall_valid_sound_example :
    (q : ProofOfIntent) × (e : ActionEvidence) × ((intake env none
        (some "a1")
        pipeline.evidence_store).poi
      ≡ some q)
    × ((intake env none (some "a1") pipeline.evidence_store).evidence ≡ some e)
    × IsProved env at pipeline none (intake env none (some "a1") pipeline.evidence_store).parsed e q
overall_valid_sound_example =
    overall_valid_sound env at none (some "a1") pipeline trace traced valid

missing_evidence_raises_example :
    run_verification env at (some []) none pipeline
    ≡ err (attribute_error "'NoneType' object has no attribute 'action_type'")
missing_evidence_raises_example =
    missing_evidence_raises env at (some []) none pipeline blank "email" (48 ∷ 7 ∷ []) email_read
      email_unknown refl key_usable
