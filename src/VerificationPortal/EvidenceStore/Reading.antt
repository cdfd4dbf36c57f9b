-- ===== src/VerificationPortal/EvidenceStore/Reading.antt =====
-- verification_portal/backend/evidence_store.py: `_deserialize`, and what pydantic checks on the way.
use agent_of_record.Common.{
  ℕ, String, Option, none, some, List, [], ◌∷◌, ◌==◌, nat_eq, string_eq, list_eq, option_eq,
  value_error, type_error, validation_error, key_error, Result, ok, err, ◌>>=◌, ◌>>◌, raise_if,
  or_raise,
}
use agent_of_record.CryptoCore.{Bytes}
use agent_of_record.CryptoCore.Hex.{fromhex}
use agent_of_record.CryptoCore.Base64.{a2b_base64}
use agent_of_record.Json.{Json, Items, Fields, pos, null, int, str, arr, obj, nil, cons, get_field}
use agent_of_record.LedgerCore.{LedgerEntry, from_entries}
use agent_of_record.PoiGenerator.Models.{ProofOfIntent, validate_poi}
use agent_of_record.VerificationPortal.Models.{ActionEvidence}
use agent_of_record.VerifierService.Models.{SignedEnvelope}

-- `d[key]`
unfoldable pub item : String → Fields → Result Json
item key fs = or_raise (get_field key fs) key_error

-- Where the source takes a value of any type, the record has one type; the store holds no other.
abbrev pub as_dict : Json → Result Fields
as_dict (obj fs) = ok fs
as_dict _ = err (type_error "not a dict")

abbrev pub as_str : Json → Result String
as_str (str s) = ok s
as_str _ = err (type_error "not a text")

abbrev pub as_count : Json → Result ℕ
as_count (int (pos n)) = ok n
as_count _ = err (type_error "not a count")

abbrev pub as_items : Json → Result Items
as_items (arr items) = ok items
as_items _ = err (type_error "not a list")

-- `d.get(key)`, of a text
unfoldable pub text_at : String → Fields → Option String
text_at key fs = elim (get_field key fs) [ some (str s) ↦ some s | _ ↦ none ]

-- `d.get(key)`, of any value
unfoldable pub value_at : String → Fields → Option Json
value_at key fs = elim (get_field key fs) [ none ↦ none | some null ↦ none | some v ↦ some v ]

abbrev pub hex_bytes : Json → Result Bytes
hex_bytes v = do
  s ← as_str v
  or_raise (fromhex s) (value_error "non-hexadecimal number found in fromhex() arg")

-- `base64.b64decode(v) if v is not None else None`
unfoldable pub opt_bytes : Json → Result (Option Bytes)
opt_bytes null = ok none
opt_bytes v = do
  s ← as_str v
  b ← or_raise (a2b_base64 0 0 0 s) (value_error "Incorrect padding")
  ok (some b)

-- Pydantic's checks: a text, and one that is not empty.
abbrev pub plain_text : String → Fields → Result String
plain_text key fs = or_raise (text_at key fs) (validation_error key)

unfoldable pub filled_text : String → Fields → Result String
filled_text key fs = do s ← plain_text key fs; raise_if (s == "") (validation_error key); ok s

unfoldable pub optional_text : String → Fields → Result (Option String)
optional_text key fs = elim (get_field key fs) [
  | none ↦ ok none
  | some null ↦ ok none
  | some (str s) ↦ ok (some s)
  | _ ↦ err (validation_error key)
]

-- The algorithm has a default.
unfoldable pub algorithm_text : Fields → Result String
algorithm_text fs = elim (get_field "signature_algorithm" fs) [
  | none ↦ ok "ECDSA-P256-SHA256"
  | some (str s) ↦ ok s
  | _ ↦ err (validation_error "signature_algorithm")
]

-- `SignedEnvelope.model_validate`
unfoldable pub validate_envelope : Json → Result SignedEnvelope
unfolding filled_text algorithm_text
validate_envelope v = do
  fs ← as_dict v
  prompt ← filled_text "prompt" fs
  user_id ← filled_text "user_id" fs
  session_id ← filled_text "session_id" fs
  timestamp ← filled_text "timestamp" fs
  nonce ← filled_text "nonce" fs
  signature ← filled_text "signature" fs
  pubkey_id ← filled_text "pubkey_id" fs
  signature_algorithm ← algorithm_text fs
  ok (record {
    prompt = prompt;
    user_id = user_id;
    session_id = session_id;
    timestamp = timestamp;
    nonce = nonce;
    signature = signature;
    pubkey_id = pubkey_id;
    signature_algorithm = signature_algorithm;
  })

-- `ProofOfIntent.model_validate`
unfoldable pub validate_poi_json : Json → Result ProofOfIntent
unfolding optional_text
validate_poi_json v = do
  fs ← as_dict v
  user_prompt_hash ← plain_text "user_prompt_hash" fs
  system_prompt_hash ← plain_text "system_prompt_hash" fs
  context_root ← plain_text "context_root" fs
  action_payload_hash ← plain_text "action_payload_hash" fs
  model_id ← plain_text "model_id" fs
  timestamp ← plain_text "timestamp" fs
  nonce ← plain_text "nonce" fs
  agent_type ← optional_text "agent_type" fs
  agent_id ← optional_text "agent_id" fs
  action_type ← optional_text "action_type" fs
  policy_decision ← optional_text "policy_decision" fs
  agent_signature ← optional_text "agent_signature" fs
  agent_pubkey_id ← optional_text "agent_pubkey_id" fs
  validate_poi (record {
    user_prompt_hash = user_prompt_hash;
    system_prompt_hash = system_prompt_hash;
    context_root = context_root;
    action_payload_hash = action_payload_hash;
    model_id = model_id;
    timestamp = timestamp;
    nonce = nonce;
    agent_type = agent_type;
    agent_id = agent_id;
    action_type = action_type;
    policy_decision = policy_decision;
    agent_signature = agent_signature;
    agent_pubkey_id = agent_pubkey_id;
  })

unfoldable pub opt_poi_of : Option Json → Result (Option ProofOfIntent)
opt_poi_of none = ok none
opt_poi_of (some v) = do p ← validate_poi_json v; ok (some p)

unfoldable pub read_entry : Json → Result LedgerEntry
unfolding item
read_entry v = do
  fs ← as_dict v
  id_ ← item "entry_id" fs
  entry_id ← as_count id_
  type_ ← item "entry_type" fs
  entry_type ← as_str type_
  content ← item "content" fs
  at ← item "timestamp" fs
  timestamp ← as_str at
  prev ← item "prev_hash" fs
  prev_hash ← hex_bytes prev
  leaf ← item "leaf_hash" fs
  leaf_hash ← hex_bytes leaf
  ok (record {
    entry_id = entry_id;
    entry_type = entry_type;
    content = content;
    timestamp = timestamp;
    prev_hash = prev_hash;
    leaf_hash = leaf_hash;
  })

unfoldable pub read_entries : Items → Result (List LedgerEntry)
read_entries nil = ok []
read_entries (cons v items) =
    let rest = read_entries items in do entry ← read_entry v; entries ← rest; ok (entry ∷ entries)

-- `_deserialize`, from `json.loads` on
unfoldable pub deserialize : String → Json → Result ActionEvidence
unfolding item text_at value_at
deserialize action_id v = do
  fs ← as_dict v
  listed ← item "ledger_entries" fs
  items ← as_items listed
  entries ← read_entries items
  signed ← item "user_envelope" fs
  user_envelope ← validate_envelope signed
  prompt ← item "system_prompt" fs
  system_prompt ← as_str prompt
  counted ← item "ledger_entry_count_at_action" fs
  count ← as_count counted
  eml ← item "eml_bytes" fs
  eml_bytes ← opt_bytes eml
  poi ← opt_poi_of (value_at "poi" fs)
  token ← item "timestamp_token" fs
  timestamp_token ← opt_bytes token
  ok (record {
    action_id = action_id;
    user_envelope = user_envelope;
    system_prompt = system_prompt;
    ledger = from_entries entries;
    ledger_entry_count_at_action = count;
    eml_bytes = eml_bytes;
    poi = poi;
    action_type = text_at "action_type" fs;
    action_payload = value_at "action_payload" fs;
    observed_effect = value_at "observed_effect" fs;
    timestamp_token = timestamp_token;
  })
