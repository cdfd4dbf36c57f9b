-- ===== src/KeyRegistry/Tests.antt =====
-- A registry with one agent's key, and the theorems at it.
use agent_of_record.Common.{
  ◌≡◌, refl, ◌↔◌, true, false, none, some, List, [], ◌∷◌, nat_eq, string_eq, list_eq, option_eq,
}
use agent_of_record.Toy.{toy}
use agent_of_record.Calendar.{aware}
use agent_of_record.KeyRegistry.Models.{AgentKeyRecord}
use agent_of_record.KeyRegistry.Storage.{get_key_by_id, revoke_row}
use agent_of_record.KeyRegistry.Registry.{KeyRegistry, empty, Registration, get_pubkey, revoke_key}
use agent_of_record.KeyRegistry.Registry.Lookup.{IsActive, get_pubkey_iff}
use agent_of_record.KeyRegistry.Registry.Revocation.{
  Operation, register, register_bytes, revoke, run, revoked_for_good,
}
use agent_of_record.KeyRegistry.Registry.Sound.{IsSound, run-IsSound}

abbrev mail_registration : Registration
mail_registration = record {
  agent_id = "mail-agent";
  pubkey_id = "k1";
  public_key_bytes = 48 ∷ 7 ∷ [];
  algorithm = "ES256";
  valid_from = aware 10;
  valid_until = some (aware 90);
  agent_type = none;
}

abbrev mail_record : AgentKeyRecord
mail_record = record {
  agent_id = "mail-agent";
  agent_type = some "mail";
  pubkey_id = "k1";
  public_key_bytes = 48 ∷ 7 ∷ [];
  algorithm = "ECDSA-P256-SHA256";
  valid_from = 10;
  valid_until = some 90;
  revoked = false;
  created_at = 5;
}

abbrev with_mail : KeyRegistry
with_mail = record { storage = mail_record ∷ [] }

get_pubkey_iff_example : (get_pubkey 20 "k1" with_mail ≡ some (48 ∷ 7 ∷ [])) ↔ (
    (r : AgentKeyRecord) × (get_key_by_id "k1" with_mail.storage ≡ some r)
    × IsActive r 20
    × (r.public_key_bytes ≡ 48 ∷ 7 ∷ []))
get_pubkey_iff_example = get_pubkey_iff 20 "k1" with_mail (48 ∷ 7 ∷ [])

revocation_found : (revoke_key "k1" with_mail).0 ≡ true
unfolding revoke_key revoke_row get_key_by_id
revocation_found = refl

abbrev later : List Operation
later = register 30 mail_registration ∷ register_bytes 31 32 33 "k1" (48 ∷ 7 ∷ []) ∷ []

revoked_for_good_example : get_pubkey 40 "k1" (run later (revoke_key "k1" with_mail).1) ≡ none
revoked_for_good_example = revoked_for_good "k1" with_mail later 40 revocation_found

run-IsSound_example : IsSound (run (register 5 mail_registration ∷ revoke "k1" ∷ []) empty).storage
run-IsSound_example = run-IsSound (register 5 mail_registration ∷ revoke "k1" ∷ [])
