-- ===== src/VerifierService/Database/Tests.antt =====
-- A small history of the database.
use agent_of_record.Common.{
  ◌+◌, ◌*◌, ◌≡◌, refl, true, none, some, List, [], ◌∷◌, ◌++◌, map, arith, eq_iff, leb,
  if◌then◌else◌, nat_eq, string_eq, list_eq, option_eq, list_beq, option_beq, text_length,
  integrity_error, Result, ok, err, is_some,
}
use Prim.Native.String.{◌++◌ as text_append}
use agent_of_record.Common.Find.{find, keep}
use agent_of_record.Common.Text.{
  codes, strip, lstrip, rstrip, put_stripped, is_whitespace, contains_code,
}
use agent_of_record.VerifierService.Models.{SignedEnvelope}
use agent_of_record.VerifierService.Database.{
  Hashlib, SqliteDatabase, PublicUser, Fresh, nocase, normalized, public_user, insert_user,
  empty_tables, authenticate, user_by_id, user_from_token, create_user, create_session,
  revoke_session, save_prompt, list_prompts,
}
use agent_of_record.VerifierService.Database.Calls.{
  Call, creates_session, revokes_session, saves_prompt, saves_action_evidence, step, run,
}
use agent_of_record.VerifierService.Database.Sessions.{
  user_from_token_until_expiry, user_from_token_after_revoke,
}
use agent_of_record.VerifierService.Database.Accounts.{authenticate-create_user}
use agent_of_record.VerifierService.Database.Consistent.{IsConsistent}
use agent_of_record.VerifierService.Database.Consistent.Steps.{run-IsConsistent}

instance abbrev plain : Hashlib
plain = record {
  pbkdf2_hmac = λ password salt. codes password ++ salt;
  sha256 = λ token. text_append "#" token;
  lower = λ text. text;
}

abbrev at : Fresh
at = record { token = "a"; salt = 7 ∷ []; now = 5 }

abbrev alex : PublicUser
alex = record { id = "usr_a"; name = "Alex"; email = "alex@x"; role = "Member"; created_at = 5 }

abbrev or_empty : {A : Type 0} → Result (A × SqliteDatabase) → SqliteDatabase
or_empty (ok (a, db)) = db
or_empty (err e) = empty_tables

abbrev with_alex : SqliteDatabase
with_alex = or_empty (create_user " Alex " "alex@x " "secret1" at empty_tables)

alex_created : create_user " Alex " "alex@x " "secret1" at empty_tables ≡ ok (alex, with_alex)
unfolding create_user insert_user public_user find strip lstrip rstrip put_stripped is_whitespace
    contains_code text_length nocase list_beq
alex_created = refl

abbrev with_session : SqliteDatabase
with_session = or_empty (create_session "usr_a" 7 "t1" 10 with_alex)

session_created : create_session "usr_a" 7 "t1" 10 with_alex ≡ ok ("t1", with_session)
unfolding create_session create_user insert_user public_user find strip lstrip rstrip put_stripped
    is_whitespace contains_code text_length nocase list_beq
session_created = refl

abbrev others : List Call
others =
    creates_session "usr_a" 1 "t2" 12
    ∷ revokes_session (some "t2")
    ∷ saves_action_evidence "a1" "{}"
    ∷ []

user_from_token_until_expiry_example :
    (user_from_token (some "t1") 20 (run others with_session)
      ≡ (if leb (10 + 7 * 86400000000) 20 then none else user_by_id "usr_a" with_alex))
    × (is_some (user_by_id "usr_a" with_alex) ≡ true)
user_from_token_until_expiry_example =
    user_from_token_until_expiry "usr_a" 7 "t1" 10 20 with_alex with_session "t1" others
      (λ same. ground (arith, eq_iff "t1" "")) session_created (refl, (refl, (refl, tt)))

user_from_token_after_revoke_example :
    user_from_token (some "t1") 20 (run others (revoke_session (some "t1") with_session)) ≡ none
user_from_token_after_revoke_example =
    user_from_token_after_revoke "t1" 20 with_session others (refl, (refl, (refl, tt)))

same_address : normalized " alex@x" ≡ normalized "alex@x "
unfolding strip
same_address = refl

authenticate-create_user_example :
    authenticate " alex@x" "secret2" (run others with_alex)
    ≡ (if list_beq (codes "secret2" ++ 7 ∷ []) (codes "secret1" ++ 7 ∷ []) then some alex else none)
authenticate-create_user_example =
    authenticate-create_user " Alex " "alex@x " "secret1" " alex@x" "secret2" at empty_tables alex
      with_alex others alex_created same_address

run-IsConsistent_example : IsConsistent (run others empty_tables)
run-IsConsistent_example = run-IsConsistent others

abbrev note : SignedEnvelope
note = record {
  prompt = "send";
  user_id = "usr_a";
  session_id = "s";
  timestamp = "t";
  nonce = "n";
  signature = "";
  pubkey_id = "k";
  signature_algorithm = "";
}

-- Two prompts cannot have one action.
second_action_refused :
    save_prompt note "usr_a"
      (some "a1")
      none
      none
      9
      (or_empty (save_prompt note "usr_a" (some "a1") none none 8 empty_tables))
    ≡ err (integrity_error "UNIQUE constraint failed: prompt_records.action_id")
unfolding save_prompt find option_beq
second_action_refused = refl

latest_prompt_first :
    map
      (λ row. row.id)
      (list_prompts "usr_a" 1 (
        run
          (saves_prompt note "usr_a" none none none 8
            ∷ saves_prompt note "usr_a" none none none 9
            ∷ [])
          empty_tables))
    ≡ 2 ∷ []
unfolding list_prompts run step save_prompt keep
latest_prompt_first = refl
