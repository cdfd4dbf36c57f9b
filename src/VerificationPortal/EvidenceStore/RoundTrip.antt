-- ===== src/VerificationPortal/EvidenceStore/RoundTrip.antt =====
-- Evidence that is stored comes back from the database.
use agent_of_record.Common.{
  ℕ, zero, suc, String, ◌≡◌, refl, ap, ◌≢◌, false, Option, none, some, List, [], ◌∷◌, ◌==◌, nat_eq,
  string_eq, list_eq, option_eq, take, All, ok,
}
use agent_of_record.Common.Dict.{lookup, insert, lookup-insert_self}
use agent_of_record.CryptoCore.{Bytes}
use agent_of_record.CryptoCore.Hex.{IsBytes, fromhex-hex}
use agent_of_record.CryptoCore.Base64.Lenient.{a2b_base64-b64encode}
use agent_of_record.Json.{Json, Fields, null, bool, int, str, arr, obj, opt_str, get_field}
use agent_of_record.LedgerCore.{LedgerEntry, Ledger, from_entries}
use agent_of_record.PoiGenerator.Models.{ProofOfIntent, validate_poi}
use agent_of_record.VerificationPortal.Models.{ActionEvidence, ActionEvidenceStore, register, get}
use agent_of_record.VerificationPortal.EvidenceStore.{
  JsonText, or_null, opt_base64, envelope_json, poi_json, poi_fields, evidence_fields, opt_poi,
  entry_json, entry_items, serialize,
}
use agent_of_record.VerificationPortal.EvidenceStore.Reading.{
  item, text_at, value_at, opt_bytes, filled_text, optional_text, algorithm_text, validate_envelope,
  validate_poi_json, opt_poi_of, read_entry, read_entries, deserialize,
}
use agent_of_record.VerificationPortal.EvidenceStore.Store.{register_durably, get_durably}
use agent_of_record.VerifierService.Database.{
  SqliteDatabase, save_action_evidence, get_action_evidence,
}
use agent_of_record.VerifierService.Models.{SignedEnvelope}

-- What pydantic asks of an envelope.
pub record IsFilled (e : SignedEnvelope) : Type 0 where
  pub prompt : (e.prompt == "") ≡ false
  pub user_id : (e.user_id == "") ≡ false
  pub session_id : (e.session_id == "") ≡ false
  pub timestamp : (e.timestamp == "") ≡ false
  pub nonce : (e.nonce == "") ≡ false
  pub signature : (e.signature == "") ≡ false
  pub pubkey_id : (e.pubkey_id == "") ≡ false

abbrev pub IsOptBytes : Option Bytes → Type 0
IsOptBytes none = Unit {0}
IsOptBytes (some b) = IsBytes b

abbrev pub IsOptDict : Option Json → Type 0
IsOptDict none = Unit {0}
IsOptDict (some v) = v ≢ null

abbrev pub IsOptValid : Option ProofOfIntent → Type 0
IsOptValid none = Unit {0}
IsOptValid (some p) = validate_poi p ≡ ok p

abbrev pub HasBytes : LedgerEntry → Type 0
HasBytes entry = IsBytes entry.prev_hash × IsBytes entry.leaf_hash

-- What the program stores: byte strings, a valid envelope and proof, and dicts.
pub record IsStorable (e : ActionEvidence) : Type 0 where
  pub envelope : IsFilled e.user_envelope
  pub entries : All HasBytes e.ledger.entries
  pub eml : IsOptBytes e.eml_bytes
  pub poi : IsOptValid e.poi
  pub payload : IsOptDict e.action_payload
  pub effect : IsOptDict e.observed_effect
  pub token : IsOptBytes e.timestamp_token

-- The part of the evidence that is kept: the ledger up to the action.
abbrev pub snapshot : ActionEvidence → ActionEvidence
snapshot e = record e {
  ledger = record { entries = take e.ledger_entry_count_at_action e.ledger.entries };
}

from_entries_lem :
    (entries : List LedgerEntry) → from_entries entries ≡ record { entries = entries }
unfolding from_entries
from_entries_lem [] = refl
from_entries_lem (entry ∷ entries) =
    ap (λ (l : Ledger). record { entries = entry ∷ l.entries }) (from_entries_lem entries)

read_entry-entry_json :
    (entry : LedgerEntry) → HasBytes entry → read_entry (entry_json entry) ≡ ok entry
unfolding read_entry entry_json item get_field
read_entry-entry_json entry good =
    rw (fromhex-hex entry.prev_hash good.0, fromhex-hex entry.leaf_hash good.1) refl

read_entries-entry_items :
    (n : ℕ) (entries : List LedgerEntry)
    → All HasBytes entries
    → read_entries (entry_items (take n entries)) ≡ ok (take n entries)
unfolding read_entries entry_items
read_entries-entry_items zero entries good = refl
read_entries-entry_items (suc n) [] good = refl
read_entries-entry_items (suc n) (entry ∷ entries) good =
    rw (read_entry-entry_json entry good.0, read_entries-entry_items n entries good.1) refl

validate_envelope-envelope_json :
    (e : SignedEnvelope) → IsFilled e → validate_envelope (envelope_json e) ≡ ok e
unfolding validate_envelope envelope_json filled_text algorithm_text text_at get_field
validate_envelope-envelope_json e good =
    rw
      (
        good.prompt, good.user_id, good.session_id, good.timestamp, good.nonce, good.signature,
        good.pubkey_id,
      )
      refl

opt_bytes-opt_base64 : (b : Option Bytes) → IsOptBytes b → opt_bytes (opt_base64 b) ≡ ok b
unfolding opt_bytes
opt_bytes-opt_base64 none good = refl
opt_bytes-opt_base64 (some b) good = rw (a2b_base64-b64encode b good) refl

text_at-opt_str :
    (key : String) (fs : Fields) (s : Option String)
    → get_field key fs ≡ some (opt_str s)
    → text_at key fs ≡ s
unfolding text_at
text_at-opt_str key fs none at = rw (at, text_at) refl
text_at-opt_str key fs (some s) at = rw (at, text_at) refl

optional_text-opt_str :
    (key : String) (fs : Fields) (s : Option String)
    → get_field key fs ≡ some (opt_str s)
    → optional_text key fs ≡ ok s
unfolding optional_text
optional_text-opt_str key fs none at = rw (at, optional_text) refl
optional_text-opt_str key fs (some s) at = rw (at, optional_text) refl

validate_poi_json-poi_json :
    (p : ProofOfIntent) → validate_poi p ≡ ok p → validate_poi_json (poi_json p) ≡ ok p
unfolding validate_poi_json poi_fields text_at get_field
validate_poi_json-poi_json p good =
    let fs = poi_fields p in
    rw
      (
        optional_text-opt_str "agent_type" fs p.agent_type refl,
        optional_text-opt_str "agent_id" fs p.agent_id refl,
        optional_text-opt_str "action_type" fs p.action_type refl,
        optional_text-opt_str "policy_decision" fs p.policy_decision refl,
        optional_text-opt_str "agent_signature" fs p.agent_signature refl,
        optional_text-opt_str "agent_pubkey_id" fs p.agent_pubkey_id refl,
      )
      good

opt_poi_of-opt_poi :
    (fs : Fields) (p : Option ProofOfIntent)
    → get_field "poi" fs ≡ some (opt_poi p)
    → IsOptValid p
    → opt_poi_of (value_at "poi" fs) ≡ ok p
unfolding opt_poi_of value_at
opt_poi_of-opt_poi fs none at good = rw (at, value_at) refl
opt_poi_of-opt_poi fs (some p) at good = rw (at, value_at, validate_poi_json-poi_json p good) refl

value_at-or_null :
    (key : String) (fs : Fields) (v : Option Json)
    → get_field key fs ≡ some (or_null v)
    → IsOptDict v
    → value_at key fs ≡ v
unfolding value_at
value_at-or_null key fs none at good = rw (at, value_at) refl
value_at-or_null key fs (some null) at good = absurd (good refl)
value_at-or_null key fs (some (bool b)) at good = rw (at, value_at) refl
value_at-or_null key fs (some (int n)) at good = rw (at, value_at) refl
value_at-or_null key fs (some (str s)) at good = rw (at, value_at) refl
value_at-or_null key fs (some (arr xs)) at good = rw (at, value_at) refl
value_at-or_null key fs (some (obj d)) at good = rw (at, value_at) refl

-- Evidence that is written and read is the evidence, with the ledger as it was at the action.
deserialize-serialize :
    (e : ActionEvidence) → IsStorable e → deserialize e.action_id (serialize e) ≡ ok (snapshot e)
unfolding deserialize evidence_fields item text_at get_field
deserialize-serialize e good =
    let fs = evidence_fields e in
    rw
      (
        read_entries-entry_items e.ledger_entry_count_at_action e.ledger.entries good.entries,
        from_entries_lem (take e.ledger_entry_count_at_action e.ledger.entries),
        validate_envelope-envelope_json e.user_envelope good.envelope,
        opt_bytes-opt_base64 e.eml_bytes good.eml,
        opt_bytes-opt_base64 e.timestamp_token good.token,
        opt_poi_of-opt_poi fs e.poi refl good.poi,
        value_at-or_null "action_payload" fs e.action_payload refl good.payload,
        value_at-or_null "observed_effect" fs e.observed_effect refl good.effect,
        text_at-opt_str "action_type" fs e.action_type refl,
      )
      refl

-- Evidence that is registered is there: in the same process as it is, and in one that starts with an
-- empty memory on the same database with the ledger as it was at the action, and in memory from then on.
pub get_durably-register_durably :
    (text : JsonText) (e : ActionEvidence) (store : ActionEvidenceStore) (db : SqliteDatabase)
    → IsStorable e
    → text.loads (text.dumps (serialize e)) ≡ some (serialize e)
    → ((get_durably text e.action_id (register_durably text e (store, db))).0 ≡ ok (some e))
      × (get_durably text e.action_id
            (record { evidence = [] }, (register_durably text e (store, db)).1)
          ≡ (
            ok (some (snapshot e)),
            (
              record { evidence = (e.action_id, snapshot e) ∷ [] },
              (register_durably text e (store, db)).1,
            ),
          ))
unfolding get_durably register_durably register get get_action_evidence save_action_evidence lookup
    insert
get_durably-register_durably text e store db good reads = (
  rw (get_durably, lookup-insert_self e.action_id e store.evidence) refl,
  rw
      (
        get_durably,
        lookup-insert_self e.action_id (text.dumps (serialize e)) db.action_evidence,
        reads,
        deserialize-serialize e good,
      )
      refl,
)
