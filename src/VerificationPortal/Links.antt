-- ===== src/VerificationPortal/Links.antt =====
-- verification_portal/backend/verify_pipeline.py, the six steps one by one.
use agent_of_record.Common.{
  String, Bool, true, false, Option, none, some, List, [], ◌∷◌, ◌++◌, if◌then◌else◌, ◌==◌, nat_eq,
  string_eq, list_eq, option_eq, take, key_error, Result, ok, err, ◌>>=◌, or_raise,
}
use Prim.Native.String.{◌++◌ as text_append}
use agent_of_record.ActionExecutor.PoiEncoding.{decode_poi_header}
use agent_of_record.CryptoCore.{Crypto, Bytes, hash_payload}
use agent_of_record.CryptoCore.Hex.{hex}
use agent_of_record.Json.{Json, is_dict, str, one_field}
use agent_of_record.LedgerCore.{LedgerEntry, compute_leaf_hash, all_entries}
use agent_of_record.Merkle.{MerkleTree, build_merkle_tree, root}
use agent_of_record.PoiGenerator.Models.{ProofOfIntent}
use agent_of_record.VerificationPortal.Models.{
  Environment, unavailable, refused, anchored_at, LinkResult, ActionEvidence, ActionEvidenceStore,
  get, filled, Parsed, nothing_parsed, parse_eml, TimestampAnchorResult,
}

abbrev pub link : String → Bool → String → String → LinkResult
link link_name passed status detail = record {
  link_name = link_name;
  passed = passed;
  status = status;
  detail = detail;
}

abbrev pub passed_link : String → String → LinkResult
passed_link link_name detail = link link_name true "passed" detail

abbrev pub failed_link : String → String → LinkResult
failed_link link_name detail = link link_name false "failed" detail

abbrev pub unavailable_link : String → String → LinkResult
unavailable_link link_name detail = link link_name false "unavailable" detail

-- What the first step has found.
pub record Intake : Type 0 where
  pub links : List LinkResult
  pub parsed : Parsed
  pub poi : Option ProofOfIntent
  pub evidence : Option ActionEvidence
  pub action_id : Option String

-- `separator.join(texts)`
unfoldable pub join : String → List String → String
join separator [] = ""
join separator (t ∷ []) = t
join separator (t ∷ u ∷ texts) = text_append t (text_append separator (join separator (u ∷ texts)))

-- The evidence of an action's identifier, if it has one.
abbrev pub evidence_of : Option String → ActionEvidenceStore → Option ActionEvidence
evidence_of none store = none
evidence_of (some id) store = get id store

-- `verify_timestamp_token` of tsa_verify.py
unfoldable pub verify_timestamp_token : Environment → Option Bytes → Bytes → TimestampAnchorResult
verify_timestamp_token env none ledger_root = record {
  verified = false;
  pending = true;
  detail = "pending: no RFC 3161 timestamp token recorded";
}
verify_timestamp_token env (some token) ledger_root =
    elim (env.verify_rfc3161_token token ledger_root) [
      | unavailable text ↦ record {
        verified = false;
        pending = false;
        detail = text_append "RFC 3161 verification unavailable: " text;
      }
      | refused text ↦ record { verified = false; pending = false; detail = text }
      | anchored_at time ↦ record {
        verified = true;
        pending = false;
        detail = text_append "verified, anchored at " time;
      }
    ]

-- What the second step keeps of the ledger.
pub record Recomputed : Type 0 where
  pub entries : List LedgerEntry
  pub tree : MerkleTree
  pub top : Bytes

-- The stored proof, which is taken where no email was sent and the stored one parses.
abbrev pub stored_poi : Option Bytes → Option ActionEvidence → Option ProofOfIntent
stored_poi (some b) evidence = none
stored_poi none none = none
stored_poi none (some e) = e.poi

-- The email that is parsed: the one sent, or else the stored one.
abbrev pub stored_eml : Option ActionEvidence → Option Bytes
stored_eml none = none
stored_eml (some e) = e.eml_bytes

-- `action_id or parsed.get("action_id")`, where the email parses.
abbrev pub id_after : List LinkResult → Option String → Option String → Option String
id_after (l ∷ links) given read = given
id_after [] given read = elim (filled given) [ none ↦ read | some id ↦ some id ]

-- The same under `try`.
abbrev pub caught : String → Result (List String) → List String
caught name (ok names) = names
caught name (err e) = name ∷ []

abbrev pub hash_link : List String → LinkResult
hash_link [] =
    passed_link "hash_recomputation" "user, system, context, and action hashes all match PoI"
hash_link (m ∷ mismatches) =
    failed_link "hash_recomputation" (text_append "mismatched: " (join ", " (m ∷ mismatches)))

module _ ⦃c : Crypto⦄ where
  -- `[name] if hash_payload(v).hex() != text else []`
  unfoldable pub mismatch : String → Json → String → Result (List String)
  mismatch name v text = do
    digest ← hash_payload v
    ok (if hex digest == text then [] else name ∷ [])

  -- `_recomputed_entries`, from the previous hash.
  unfoldable pub recomputed_entries : Bytes → List LedgerEntry → Result (List LedgerEntry)
  recomputed_entries previous [] = ok []
  recomputed_entries previous (entry ∷ entries) = do
    leaf_hash ← compute_leaf_hash entry.content previous
    rest ← recomputed_entries leaf_hash entries
    ok (record entry { prev_hash = previous; leaf_hash = leaf_hash } ∷ rest)

  unfoldable pub recompute : ActionEvidence → Result Recomputed
  recompute e = do
    entries ← recomputed_entries [] (take e.ledger_entry_count_at_action (all_entries e.ledger))
    tree ← build_merkle_tree entries
    top ← root tree
    ok (record { entries = entries; tree = tree; top = top })

module _ (env : Environment) where
  -- The email at hand, with a failed link where it does not parse.
  unfoldable pub parse_or_link : String → Bytes → Parsed × List LinkResult
  parse_or_link prefix b = elim (parse_eml env b) [
    | ok parsed ↦ (parsed, [])
    | err e ↦
        (nothing_parsed, failed_link "poi_extraction" (text_append prefix (env.message_of e)) ∷ [])
  ]

  -- The proof in the header.
  unfoldable pub from_header : Option String → Option ProofOfIntent × LinkResult
  from_header none = (none, failed_link "poi_extraction" "X-AoR-Proof-of-Intent header is missing")
  from_header (some header) = elim (decode_poi_header env.model_validate_json header) [
    | ok poi ↦ (some poi, passed_link "poi_extraction" "signed PoI decoded from email header")
    | err e ↦ (
      none,
      failed_link "poi_extraction" (text_append "malformed PoI header: " (env.message_of e)),
    )
  ]

  -- The end of the first step, from the links so far.
  unfoldable pub extract_poi :
      Option Bytes
      → List LinkResult
      → Parsed
      → Option ActionEvidence
      → Option ProofOfIntent × List LinkResult
  extract_poi eml_bytes (l ∷ links) parsed evidence = (none, l ∷ links)
  extract_poi eml_bytes [] parsed evidence = elim (stored_poi eml_bytes evidence) [
    | some poi ↦ (
      some poi,
      passed_link "poi_extraction" "signed PoI loaded from structured action evidence" ∷ [],
    )
    | none ↦ (let (poi, l) = from_header (filled parsed.poi_header) in (poi, l ∷ []))
  ]

  abbrev pub parse_stored : Option Bytes → Parsed × List LinkResult
  parse_stored none = (nothing_parsed, [])
  parse_stored (some b) = parse_or_link "stored .eml is invalid: " b

  -- The first step.
  unfoldable pub intake : Option Bytes → Option String → ActionEvidenceStore → Intake
  intake (some b) action_id store =
      let (parsed, links) = parse_or_link "invalid .eml: " b in
      let id = id_after links action_id parsed.action_id in
      let evidence = evidence_of (filled id) store in
      let (poi, found) = extract_poi (some b) links parsed evidence in
      record { links = found; parsed = parsed; poi = poi; evidence = evidence; action_id = id }
  intake none action_id store =
      let evidence = evidence_of (filled action_id) store in
      let (parsed, links) = parse_stored (stored_eml evidence) in
      let (poi, found) = extract_poi none links parsed evidence in
      record {
        links = found;
        parsed = parsed;
        poi = poi;
        evidence = evidence;
        action_id = action_id;
      }

  abbrev pub root_mismatch : Result Recomputed → ProofOfIntent → List String
  root_mismatch (ok r) poi = if hex r.top == poi.context_root then [] else "context_root" ∷ []
  root_mismatch (err x) poi = text_append "context_root (" (text_append (env.message_of x) ")") ∷ []

module _ ⦃c : Crypto⦄ (env : Environment) where
  -- The check of the action's payload.
  unfoldable pub payload_mismatch :
      Option Bytes → Parsed → ActionEvidence → ProofOfIntent → Result (List String)
  payload_mismatch (some b) parsed e poi = elim parsed.action_payload [
    | none ↦ ok ("action_payload_hash" ∷ [])
    | some payload ↦
        (let compared = mismatch "action_payload_hash" payload poi.action_payload_hash in
          if is_dict payload then compared else ok ("action_payload_hash" ∷ []))
  ]
  payload_mismatch none parsed e poi = elim e.action_payload [
    | some payload ↦ mismatch "action_payload_hash" payload poi.action_payload_hash
    | none ↦ elim e.eml_bytes [
      | none ↦ ok ("action_payload_hash (no stored .eml)" ∷ [])
      | some stored ↦ ok (
          caught "action_payload_hash" (do
            p ← parse_eml env stored
            payload ← or_raise p.action_payload key_error
            mismatch "action_payload_hash" payload poi.action_payload_hash))
    ]
  ]

  -- The second step, with proof and evidence at hand.
  unfoldable pub check_hashes :
      Option Bytes
      → Parsed
      → ActionEvidence
      → ProofOfIntent
      → Result (LinkResult × Result Recomputed)
  check_hashes eml_bytes parsed e poi = do
    prompts ←
        mismatch "user_prompt_hash" (one_field "prompt" (str e.user_envelope.prompt))
          poi.user_prompt_hash
    systems ←
        mismatch "system_prompt_hash" (one_field "system_prompt" (str e.system_prompt))
          poi.system_prompt_hash
    payloads ← payload_mismatch eml_bytes parsed e poi
    ok (
      hash_link (prompts ++ systems ++ payloads ++ root_mismatch env (recompute e) poi),
      recompute e,
    )
