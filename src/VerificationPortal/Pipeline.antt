-- ===== src/VerificationPortal/Pipeline.antt =====
-- verification_portal/backend/verify_pipeline.py: the ledger and timestamp steps, and the run of all six.
pub mod Hashes
pub mod Sound
use agent_of_record.Common.{
  ℕ, String, Bool, true, false, ◌&&◌, ◌||◌, Option, none, some, List, [], ◌∷◌, ◌++◌, if◌then◌else◌,
  ◌==◌, nat_eq, string_eq, list_eq, option_eq, get_last?, Result, ok, err, ◌>>=◌,
}
use Prim.Native.String.{◌++◌ as text_append}
use agent_of_record.CryptoCore.{Crypto, Bytes}
use agent_of_record.VerificationPortal.Links.{
  link, failed_link, unavailable_link, verify_timestamp_token, intake, Recomputed, check_hashes,
}
use agent_of_record.LedgerCore.{LedgerEntry, Ledger, first_invalid_entry_id}
use agent_of_record.Merkle.{MerkleTree, get_proof, verify_merkle_proof}
use agent_of_record.TsaAnchor.{AnchorStore, latest_anchored}
use agent_of_record.KeyRegistry.Registry.{KeyRegistry}
use agent_of_record.CryptoCore.Hex.{hex, fromhex}
use agent_of_record.VerificationPortal.Models.{
  Environment, LinkResult, ActionEvidence, ActionEvidenceStore, Parsed, TimestampAnchorResult,
}
use agent_of_record.PoiGenerator.Models.{ProofOfIntent}
use agent_of_record.VerificationPortal.Signatures.{Times, tested_link, check_agent, check_user}

pub record VerificationPipeline : Type 0 where
  pub key_registry : KeyRegistry
  pub evidence_store : ActionEvidenceStore
  pub anchor_store : Option AnchorStore

pub record VerificationTrace : Type 0 where
  pub action_id : Option String
  pub agent_type : Option String
  pub agent_id : Option String
  pub action_type : Option String
  pub policy_decision : Option String
  pub overall_valid : Bool
  pub links : List LinkResult
  pub timestamp_verified : Bool

-- `all(link.passed for link in links)`
unfoldable pub all_passed : List LinkResult → Bool
all_passed [] = true
all_passed (l ∷ links) = l.passed && all_passed links

abbrev pub is_none : Option ℕ → Bool
is_none none = true
is_none (some n) = false

-- The token that the store has for the signed root.
unfoldable pub stored_token : Option AnchorStore → ProofOfIntent → Option Bytes
stored_token none poi = none
stored_token (some anchors) poi = elim (fromhex poi.context_root) [
  | none ↦ none
  | some signed_root ↦ elim (latest_anchored signed_root anchors) [
    | none ↦ none
    | some anchor ↦ anchor.token_bytes
  ]
]

abbrev pub token_for : Option AnchorStore → ActionEvidence → ProofOfIntent → Option Bytes
token_for anchors e poi = elim e.timestamp_token [
  | some token ↦ some token
  | none ↦ stored_token anchors poi
]

abbrev pub anchor_link : TimestampAnchorResult → LinkResult
anchor_link r =
    link "timestamp_anchor" (r.pending || r.verified)
      (if r.pending then "pending" else if r.verified then "passed" else "failed") r.detail

abbrev pub claim : (ProofOfIntent → Option String) → Option ProofOfIntent → Option String
claim of none = none
claim of (some poi) = of poi

-- `links[-1].status == "passed"`
abbrev pub last_status_passed : List LinkResult → Bool
last_status_passed links = elim (get_last? links) [ none ↦ false | some l ↦ l.status == "passed" ]

module _ ⦃c : Crypto⦄ where
  -- The first entry's proof against the rebuilt root, under `try`.
  unfoldable pub first_proof : LedgerEntry → MerkleTree → Bytes → Result Bool
  first_proof entry tree top = do
    proof ← get_proof entry.entry_id tree
    ok (verify_merkle_proof entry.leaf_hash proof top)

module _ (env : Environment) where
  abbrev pub ledger_detail : Bool → Bool → String → String → Option ℕ → String
  ledger_detail true same recomputed signed broken =
      "recomputed root matches signed PoI and ledger chain"
  ledger_detail false true recomputed signed broken =
      text_append "ledger hash chain invalid at entry_id "
        (elim broken [ none ↦ "None" | some id ↦ env.number id ])
  ledger_detail false false recomputed signed broken =
      text_append "recomputed context root "
        (text_append recomputed (text_append " != signed root " signed))

  -- The sixth step.
  unfoldable pub check_anchor :
      Option AnchorStore → Result Recomputed → ActionEvidence → ProofOfIntent → LinkResult
  check_anchor anchors (err x) e poi =
      unavailable_link "timestamp_anchor" "unable to check: ledger root unavailable"
  check_anchor anchors (ok r) e poi =
      anchor_link (verify_timestamp_token env (token_for anchors e poi) r.top)

module _ ⦃c : Crypto⦄ (env : Environment) where
  -- The fifth step on the first of the entries.
  unfoldable pub check_first : LedgerEntry → Recomputed → Ledger → ProofOfIntent → Result LinkResult
  check_first entry r ledger poi = do
    proof_valid ← first_proof entry r.tree r.top
    chain_break ← first_invalid_entry_id ledger
    let same = hex r.top == poi.context_root
    let good = proof_valid && is_none chain_break && same
    ok (
        tested_link "merkle_root_match" good
          (ledger_detail env good same (hex r.top) poi.context_root chain_break))

  -- The fifth step, with what the second has kept.
  unfoldable pub check_ledger : Result Recomputed → ActionEvidence → ProofOfIntent → LinkResult
  check_ledger (err x) e poi =
      unavailable_link "merkle_root_match" "unable to check: ledger evidence unavailable"
  check_ledger (ok r) e poi = elim r.entries [
    | [] ↦ unavailable_link "merkle_root_match" "unable to check: ledger evidence unavailable"
    | entry ∷ entries ↦ elim (check_first entry r e.ledger poi) [
      | ok checked ↦ checked
      | err x ↦
          failed_link "merkle_root_match"
            (text_append "unable to verify Merkle proof: " (env.message_of x))
    ]
  ]

  -- The links after the first: with proof and evidence, and without.
  unfoldable pub later_links :
      Times
      → VerificationPipeline
      → Option Bytes
      → Parsed
      → Option ProofOfIntent
      → Option ActionEvidence
      → Result (List LinkResult)
  later_links at p eml_bytes parsed none evidence = ok (
      unavailable_link "hash_recomputation" "unable to recompute hashes: PoI unavailable"
      ∷ unavailable_link "agent_signature" "unable to check: PoI unavailable"
      ∷ unavailable_link "user_signature" "unable to check: original signed envelope unavailable"
      ∷ unavailable_link "merkle_root_match" "unable to check: ledger evidence unavailable"
      ∷ unavailable_link "timestamp_anchor" "unable to check: ledger root unavailable"
      ∷ [])
  later_links at p eml_bytes parsed (some poi) none = do
    agent ← check_agent env eml_bytes none at p.key_registry poi
    ok (
        unavailable_link "hash_recomputation"
          "unable to recompute hashes: captured action evidence unavailable"
        ∷ agent
        ∷ unavailable_link "user_signature" "unable to check: original signed envelope unavailable"
        ∷ unavailable_link "merkle_root_match" "unable to check: ledger evidence unavailable"
        ∷ unavailable_link "timestamp_anchor" "unable to check: ledger root unavailable"
        ∷ [])
  later_links at p eml_bytes parsed (some poi) (some e) = do
    (hashes, kept) ← check_hashes env eml_bytes parsed e poi
    agent ← check_agent env eml_bytes (some e) at p.key_registry poi
    ok (
        hashes
        ∷ agent
        ∷ check_user at p.key_registry e
        ∷ check_ledger kept e poi
        ∷ check_anchor env p.anchor_store kept e poi
        ∷ [])

  unfoldable pub run_verification :
      Times → Option Bytes → Option String → VerificationPipeline → Result VerificationTrace
  run_verification at eml_bytes action_id p = do
    let found = intake env eml_bytes action_id p.evidence_store
    later ← later_links at p eml_bytes found.parsed found.poi found.evidence
    let links = found.links ++ later
    ok (record {
      action_id = found.action_id;
      agent_type = claim (λ poi. poi.agent_type) found.poi;
      agent_id = claim (λ poi. poi.agent_id) found.poi;
      action_type = claim (λ poi. poi.action_type) found.poi;
      policy_decision = claim (λ poi. poi.policy_decision) found.poi;
      overall_valid = all_passed links;
      links = links;
      timestamp_verified = last_status_passed links;
    })
