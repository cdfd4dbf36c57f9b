-- ===== src/ActionExecutor/Tests.antt =====
-- An email that the guards let pass.
use agent_of_record.Common.{
  ℕ, String, ◌≡◌, refl, ◌⊎◌, true, none, some, [], nat_eq, string_eq, list_eq, option_eq, length,
  Result, ok, err,
}
use agent_of_record.Toy.{toy}
use agent_of_record.CryptoCore.{Bytes, canonicalize, hash_payload}
use agent_of_record.CryptoCore.Base64.{b64encode, char_at}
use agent_of_record.CryptoCore.Hex.{hex, hex_digit, fromhex, digit_value, is_space}
use agent_of_record.Json.{Json, obj, str, field, end, get_field}
use agent_of_record.PoiGenerator.Models.{ProofOfIntent}
use agent_of_record.ActionExecutor.PoiEncoding.{
  model_dump, encode_poi_header, build_signature_header, build_agent_cert_header,
}
use agent_of_record.Common.Text.{is_line_break}
use agent_of_record.ActionExecutor.SmtpAction.{
  Aead, Chance, is_one_line, header, header_of, address_headers, proof_headers, reasoning_header,
  build_email, send_email_with_proof,
}
use agent_of_record.ActionExecutor.Executor.{
  ActionResult, refused, World, ActionExecutor, is_same_type, fits_type, is_allowed, execute_email,
  dispatch, execute_hashed, execute_action,
}
use agent_of_record.ActionExecutor.Executor.Guards.{
  IsAuthorized, HasActed, IsIdle, execute_action_guarded,
}

abbrev payload : Json
payload = obj (field "to" (str "bob") (field "subject" (str "hi") (field "body" (str "hello") end)))

abbrev hash_text : Result Bytes → String
hash_text (ok b) = hex b
hash_text (err e) = ""

abbrev poi : ProofOfIntent
poi = record {
  user_prompt_hash = "";
  system_prompt_hash = "";
  context_root = "";
  action_payload_hash = hash_text (hash_payload payload);
  model_id = "m";
  timestamp = "t";
  nonce = "n";
  agent_type = none;
  agent_id = none;
  action_type = some "email";
  policy_decision = some "allow";
  agent_signature = some "0aff";
  agent_pubkey_id = some "k";
}

abbrev aead : Aead
aead = record { encrypt = λ key nonce data_. (data_, key) }

-- The database's state is a number.
abbrev executor : ActionExecutor ℕ
executor = record {
  smtp_config = record { from_address = "aor@example.test"; host = none; dry_run = true };
  encryption_key = none;
  database_agent = none;
}

abbrev world : World ℕ
world = record { outbox = []; database = 0 }

abbrev chance : Chance
chance = record { nonce = []; message_id = "<1@aor.local>"; failure = none }

abbrev outcome : Result (ActionResult × World ℕ) → ActionResult × World ℕ
outcome (ok r) = r
outcome (err e) = (refused "" "", world)

abbrev mailed : ActionResult × World ℕ
mailed = outcome (execute_action aead executor chance "email" payload poi world)

email_executed :
    execute_action aead executor chance "email" payload poi world ≡ ok (mailed.0, mailed.1)
unfolding execute_action execute_hashed dispatch execute_email is_same_type fits_type is_allowed
    send_email_with_proof build_email address_headers proof_headers reasoning_header header_of
    header is_one_line is_line_break encode_poi_header build_signature_header
    build_agent_cert_header model_dump canonicalize hash_payload hex hex_digit fromhex digit_value
    is_space b64encode char_at get_field
email_executed = refl

email_left : length mailed.1.outbox ≡ 1
unfolding execute_action execute_hashed dispatch execute_email is_same_type fits_type is_allowed
    send_email_with_proof build_email address_headers proof_headers reasoning_header header_of
    header is_one_line is_line_break encode_poi_header build_signature_header
    build_agent_cert_header model_dump canonicalize hash_payload hex hex_digit fromhex digit_value
    is_space b64encode char_at get_field
email_left = refl

execute_action_guarded_example :
    IsIdle aead executor world mailed.1 mailed.0
    ⊎ (IsAuthorized aead executor "email" payload poi
        × HasActed aead executor "email" payload poi world mailed.1 mailed.0)
execute_action_guarded_example =
    execute_action_guarded aead executor chance "email" payload poi world mailed.1 mailed.0
      email_executed
