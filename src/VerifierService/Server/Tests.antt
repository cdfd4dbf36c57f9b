-- ===== src/VerifierService/Server/Tests.antt =====
-- The endpoint that routes a signed prompt, on a small service.
use agent_of_record.Common.{
  ℕ, ◌≡◌, refl, ◌⊎◌, true, false, none, some, List, [], ◌∷◌, ◌++◌, nat_eq, string_eq, list_eq,
  option_eq, list_beq, option_beq, text_length, All, ok,
}
use agent_of_record.Common.Dict.{lookup, insert}
use agent_of_record.Common.Find.{find}
use agent_of_record.Calendar.{Calendar}
use agent_of_record.Json.{obj, str, field, end}
use agent_of_record.LedgerCore.{append}
use agent_of_record.PoiGenerator.Poi.{build_poi, sign_poi}
use agent_of_record.Agents.Plan.{ActionPlan}
use agent_of_record.VerificationPortal.Models.{register}
use agent_of_record.VerifierService.Database.{Hashlib, takes_action, save_prompt}
use agent_of_record.VerificationPortal.EvidenceStore.Store.{register_durably}
use agent_of_record.VerifierService.Database.{save_action_evidence}
use agent_of_record.VerifierService.Models.{SignedEnvelope}
use agent_of_record.VerifierService.Server.{
  AppState, registry, Reply, reply, ◌>>=◌, catching, log_operation,
}
use agent_of_record.VerifierService.Server.Prompts.{Clocks, match_user, admit}
use agent_of_record.VerifierService.Server.Route.Outcome.{
  Executed, answer, completed, all_succeeded,
}
use agent_of_record.VerifierService.Server.Route.{
  EmlFile, AgentCalls, Agents, PlanTimes, nothing_done, completed_plan, written_file, action_id_of,
}
use agent_of_record.VerifierService.Server.Route.Execute.{
  append_entry, append_entries, register_agent_key, plan_poi, run_agent, keep_evidence,
  record_action, run_completed, run_plan, run_plans, execute_admitted, execute_routed_agent,
}
use agent_of_record.VerifierService.Server.Route.Execute.{execute_admitted}
use agent_of_record.VerifierService.Server.Route.Evidence.{HasEvidence}
use agent_of_record.Toy.{toy, replicate, codes}
use agent_of_record.Calendar.{aware}
use agent_of_record.KeyRegistry.Registry.{empty}
use agent_of_record.VerifierService.Database.{empty_tables}
use agent_of_record.VerifierService.Server.Artifact.{EmailDemo, generate_artifact}
use agent_of_record.VerifierService.Server.Gate.{
  IsAdmitted, IsRefused, IsRejected, execute_routed_agent_admits, generate_artifact_admits,
}
use agent_of_record.VerifierService.Server.Route.Loop.{execute_routed_agent-HasEvidence}
use agent_of_record.VerifierService.Database.{user_from_token, session_user}
use agent_of_record.VerifierService.Server.Accounts.{request_user}
use agent_of_record.VerifierService.Server.Prompts.{same_envelope, any_same}
use agent_of_record.VerifierService.Server.Route.{with_report, with_action, new_files, latest_file}
use agent_of_record.KeyRegistry.Models.{
  as_utc, optional_as_utc, has_min_lengths, validity_window_is_ordered, validate_record,
}
use agent_of_record.KeyRegistry.Storage.{get_key_by_id, insert_key}
use agent_of_record.KeyRegistry.Registry.{
  load_supported, load_supported_public_key, algorithm_name, algorithm_for_key,
  is_accepted_algorithm, before_agent, agent_type_for_id, agent_type_or_inferred, make_record,
  register_key, get_pubkey,
}
use agent_of_record.PoiGenerator.AgentKeys.{agent_pubkey_id, settle, register_agent_public_key}
use agent_of_record.CryptoCore.{canonicalize, hash_payload, hash_sha3_256, serialize_public_key_raw}
use agent_of_record.CryptoCore.Hex.{hex, hex_digit}
use agent_of_record.LedgerCore.{compute_leaf_hash}
use agent_of_record.Merkle.{
  build_merkle_tree, collect_leaves, build_levels, next_level, pad, pair_up, parent_hash, root,
}
use agent_of_record.PoiGenerator.Models.{validate_poi, is_sized, is_filled, signing_payload}
use agent_of_record.PoiGenerator.Poi.{poi_signing_hash}
use agent_of_record.Common.Find.{keep}
use agent_of_record.Common.Text.{strip}
use agent_of_record.Agents.Plan.{is_one_of}

instance abbrev plain : Hashlib
plain = record {
  pbkdf2_hmac = λ password salt. codes password ++ salt;
  sha256 = λ token. token;
  lower = λ text. text;
}

abbrev calendar : Calendar
calendar = record { fromisoformat = λ s. some (aware 0) }

-- An agent that writes one message to the outbox.
abbrev email_agent : AgentCalls (List EmlFile)
email_agent = record {
  agent_id = "email-agent";
  execute = λ plan poi files. (
    ok (record {
      success = true;
      artifact_ref = some "<m1>";
      details = end;
      observed_effect = field "to" (str "bo") end;
    }),
    record { path = "m1.eml"; bytes = 1 ∷ []; mtime = 3 } ∷ files,
  );
}

abbrev send_mail : ActionPlan
send_mail = record {
  agent_type = "email";
  agent_id = some "email-agent";
  action_type = "email.send";
  payload = field "to" (str "bo") end;
  requires_confirmation = false;
  confirmed = false;
  policy_decision = "allow";
}

abbrev agents : Agents (List EmlFile)
agents = record {
  route = λ prompt. record { handled = true; reason = none };
  plan = λ prompt files. ok (send_mail ∷ []);
  get = λ agent_type. ok email_agent;
  load_agent_keypair = λ agent_id. ok (replicate 31 5);
  outbox = λ files. files;
  json_text = record { dumps = λ v. "evidence"; loads = λ s. none };
}

abbrev note : SignedEnvelope
note = record {
  prompt = "mail bo";
  user_id = "al";
  session_id = "s";
  timestamp = "t";
  nonce = "n";
  signature = "g";
  pubkey_id = "k";
  signature_algorithm = "Ed25519";
}

abbrev at : Clocks
at = record {
  session = 1;
  verifier = record { wall = 1; seen_sweep = 1; mark_sweep = 1; mark = 1 };
  key = 1;
  operation = "o";
}

abbrev plan_times : ℕ → PlanTimes
plan_times n = record {
  system_entry = "t1";
  user_entry = "t2";
  action_entry = "t3";
  key_checked = 1;
  key_from = 1;
  key_created = 1;
  poi_timestamp = "t4";
  nonce = "n";
  uuid = "u";
  saved = 2;
  operation = "o";
}

abbrev service : List SignedEnvelope → AppState (List EmlFile)
service verified = record {
  database = empty_tables;
  key_store = registry empty;
  nonce_store = record { ttl_seconds = 60; seen = [] };
  operations = [];
  ledger = record { entries = [] };
  verified_envelopes = verified;
  artifact_store = record { evidence = [] };
  anchor_store = record { records = [] };
  world = [];
}

abbrev execute : List SignedEnvelope → Reply Executed × AppState (List EmlFile)
execute verified =
    execute_routed_agent agents calendar (λ e. "error") at plan_times "" note (service verified)

execute_routed_agent_admits_example :
    IsAdmitted calendar at "" note (service []) ⊎ IsRefused (service []) (execute [])
execute_routed_agent_admits_example =
    execute_routed_agent_admits agents calendar (λ e. "error") at plan_times "" note (service [])

abbrev demo : EmailDemo (List EmlFile)
demo = record {
  plan_action = λ prompt. ok send_mail;
  email_action = λ plan. ok ("bo", obj plan.payload);
  email_agent = email_agent;
  agent_private_key = replicate 31 5;
  name = λ file. file.path;
}

generate_artifact_admits_example :
    IsAdmitted calendar at "" note (service [])
    ⊎ IsRejected (service []) (
        generate_artifact agents demo calendar
          (λ e. "error")
          at
          "t0"
          (plan_times 0)
          ""
          note
          (service []))
generate_artifact_admits_example =
    generate_artifact_admits agents demo calendar (λ e. "error") at "t0" (plan_times 0) "" note
      (service [])

abbrev executed_or_none : Reply Executed → Executed
executed_or_none (reply executed) = executed
executed_or_none _ = record {
  is_completed = false;
  first_plan = send_mail;
  progress = nothing_done;
}

note_executed :
    execute (note ∷ [])
    ≡ (reply (executed_or_none (execute (note ∷ [])).0), (execute (note ∷ [])).1)
unfolding execute_routed_agent ◌>>=◌ match_user request_user user_from_token session_user find admit
    any_same same_envelope execute_admitted catching run_plans run_plan completed_plan with_report
    with_action run_completed append_entries append_entry append compute_leaf_hash hash_payload hex
    hex_digit register_agent_key register_agent_public_key agent_pubkey_id hash_sha3_256
    serialize_public_key_raw settle register_key make_record algorithm_for_key
    load_supported_public_key load_supported algorithm_name is_accepted_algorithm
    agent_type_or_inferred agent_type_for_id before_agent as_utc optional_as_utc validate_record
    has_min_lengths validity_window_is_ordered insert_key get_key_by_id get_pubkey option_beq
    list_beq plan_poi build_poi build_merkle_tree collect_leaves build_levels next_level pad pair_up
    parent_hash root validate_poi is_sized is_filled text_length lookup insert sign_poi
    poi_signing_hash canonicalize signing_payload run_agent record_action written_file new_files
    keep latest_file action_id_of keep_evidence register save_prompt takes_action log_operation
    answer completed all_succeeded strip is_one_of register_durably save_action_evidence
note_executed = refl

execute_routed_agent-HasEvidence_example :
    All
      (HasEvidence agents note (execute (note ∷ [])).1)
      (executed_or_none (execute (note ∷ [])).0).progress.execution_records
execute_routed_agent-HasEvidence_example =
    execute_routed_agent-HasEvidence agents calendar (λ e. "error") at plan_times "" note
      (executed_or_none (execute (note ∷ [])).0) (service (note ∷ [])) (execute (note ∷ [])).1
      note_executed
