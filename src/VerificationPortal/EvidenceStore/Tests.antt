-- ===== src/VerificationPortal/EvidenceStore/Tests.antt =====
-- Evidence that is stored and read again.
use agent_of_record.Common.{
  ℕ, String, ◌≡◌, refl, none, some, [], ◌∷◌, arith, nat_eq, string_eq, list_eq, option_eq,
  option_beq, text_length, ok,
}
use agent_of_record.Json.{str, one_field}
use agent_of_record.LedgerCore.{LedgerEntry}
use agent_of_record.PoiGenerator.Models.{ProofOfIntent, validate_poi, is_sized, is_filled}
use agent_of_record.VerificationPortal.Models.{ActionEvidence, ActionEvidenceStore}
use agent_of_record.VerificationPortal.EvidenceStore.{JsonText, serialize}
use agent_of_record.VerificationPortal.EvidenceStore.Store.{register_durably, get_durably}
use agent_of_record.VerificationPortal.EvidenceStore.RoundTrip.{
  IsStorable, snapshot, get_durably-register_durably,
}
use agent_of_record.VerifierService.Database.{empty_tables}

abbrev digest : String
digest = "0123456789abcdef0123456789abcdef0123456789abcdef0123456789abcdef"

abbrev proof : ProofOfIntent
proof = record {
  user_prompt_hash = digest;
  system_prompt_hash = digest;
  context_root = digest;
  action_payload_hash = digest;
  model_id = "m";
  timestamp = "t";
  nonce = "n";
  agent_type = some "email";
  agent_id = none;
  action_type = some "email.send";
  policy_decision = some "allow";
  agent_signature = some "ab";
  agent_pubkey_id = some "k";
}

proof_valid : validate_poi proof ≡ ok proof
unfolding validate_poi is_sized is_filled text_length option_beq
proof_valid = refl

abbrev entry : ℕ → LedgerEntry
entry n = record {
  entry_id = n;
  entry_type = "user_prompt";
  content = one_field "text" (str "hi");
  timestamp = "t";
  prev_hash = [];
  leaf_hash = 255 ∷ 16 ∷ [];
}

-- The ledger has grown by an entry since the action.
abbrev evidence : ActionEvidence
evidence = record {
  action_id = "<m1>";
  user_envelope = record {
    prompt = "hi";
    user_id = "al";
    session_id = "s";
    timestamp = "t";
    nonce = "n";
    signature = "g";
    pubkey_id = "k";
    signature_algorithm = "Ed25519";
  };
  system_prompt = "be kind";
  ledger = record { entries = entry 1 ∷ entry 2 ∷ [] };
  ledger_entry_count_at_action = 1;
  eml_bytes = some (77 ∷ 200 ∷ 10 ∷ 13 ∷ []);
  poi = some proof;
  action_type = some "email.send";
  action_payload = some (one_field "to" (str "bo"));
  observed_effect = none;
  timestamp_token = none;
}

evidence-IsStorable : IsStorable evidence
evidence-IsStorable = record {
  envelope = record {
    prompt = refl;
    user_id = refl;
    session_id = refl;
    timestamp = refl;
    nonce = refl;
    signature = refl;
    pubkey_id = refl;
  };
  entries = ((tt, (omega arith, (omega arith, tt))), ((tt, (omega arith, (omega arith, tt))), tt));
  eml = (omega arith, (omega arith, (omega arith, (omega arith, tt))));
  poi = proof_valid;
  payload = λ p. cc p;
  effect = tt;
  token = tt;
}

abbrev text : JsonText
text = record { dumps = λ v. "evidence"; loads = λ s. some (serialize evidence) }

abbrev empty_memory : ActionEvidenceStore
empty_memory = record { evidence = [] }

get_durably-register_durably_example :
    ((get_durably text "<m1>" (register_durably text evidence (empty_memory, empty_tables))).0
      ≡ ok (some evidence))
    × (get_durably text "<m1>"
          (empty_memory, (register_durably text evidence (empty_memory, empty_tables)).1)
        ≡ (
          ok (some (snapshot evidence)),
          (
            record { evidence = ("<m1>", snapshot evidence) ∷ [] },
            (register_durably text evidence (empty_memory, empty_tables)).1,
          ),
        ))
get_durably-register_durably_example =
    get_durably-register_durably text evidence empty_memory empty_tables evidence-IsStorable refl
