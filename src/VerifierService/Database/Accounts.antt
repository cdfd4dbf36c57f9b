-- ===== src/VerifierService/Database/Accounts.antt =====
-- Who can log in.
use agent_of_record.Common.{
  String, ◌≡◌, refl, sym, not, ◌||◌, none, some, List, [], ◌∷◌, ◌++◌, arith, ltb, if◌then◌else◌,
  ◌==◌, nat_eq, string_eq, list_eq, option_eq, list_beq_iff, text_length, ok, raise_if, >>=-eq-ok,
}
use mathlib.Core.Path.{subst}
use agent_of_record.Common.Find.{find, find-append_last}
use agent_of_record.Common.Text.{strip, contains_code}
use agent_of_record.VerifierService.Database.{
  Hashlib, SqliteDatabase, UserRow, PublicUser, Fresh, nocase, has_id, has_email, public_user,
  insert_user, new_user, normalized, authenticate, create_user,
}
use agent_of_record.VerifierService.Database.Calls.{Call, run}
use agent_of_record.VerifierService.Database.Sessions.{run-users}

module _ ⦃h : Hashlib⦄ where
  -- What an account that is created has.
  pub record HasAccount (name email password : String) (at : Fresh) (db : SqliteDatabase)
      (user : PublicUser) (after : SqliteDatabase) : Type 0 where
    pub public : user ≡ public_user (new_user name email password at)
    pub new_id : find (has_id (new_user name email password at).id) db.users ≡ none
    pub new_email : find (has_email (normalized email)) db.users ≡ none
    pub added : after ≡ record db { users = db.users ++ new_user name email password at ∷ [] }

  pub insert_user-eq_ok :
      (row : UserRow) (rows : List UserRow) {after : List UserRow}
      → insert_user row rows ≡ ok after
      → (find (has_id row.id) rows ≡ none)
        × (find (has_email row.email) rows ≡ none)
        × (after ≡ rows ++ row ∷ [])
  unfolding insert_user
  insert_user-eq_ok row rows e = (ground arith, ground arith, ground arith)

  pub create_user-HasAccount :
      (name email password : String) (at : Fresh) (db : SqliteDatabase) (user : PublicUser)
      (after : SqliteDatabase)
      → create_user name email password at db ≡ ok (user, after)
      → HasAccount name email password at db user after
  unfolding create_user
  create_user-HasAccount name email password at db user after e =
      let row = new_user name email password at in
      let (_, _, r1) =
        >>=-eq-ok (raise_if (strip name == "" || not (contains_code 64 (normalized email))) _) _
          e in
      let (_, _, r2) = >>=-eq-ok (raise_if (ltb (text_length password) 6) _) _ r1 in
      let (users, inserted, r3) = >>=-eq-ok (insert_user row db.users) _ r2 in
      let (new_id, new_email, all) = insert_user-eq_ok row db.users inserted in
      let found =
        find-append_last (has_id row.id) db.users row new_id
          ((string_eq.beq_iff row.id row.id).1 refl) in
      record { public = ground arith; new_id = new_id; new_email = new_email; added = ground arith }

  authenticate_row :
      (email password : String) (db : SqliteDatabase) (row : UserRow)
      → find (has_email (normalized email)) db.users ≡ some row
      → authenticate email password db ≡ (
          if h.pbkdf2_hmac password row.password_salt == row.password_hash
          then some (public_user row)
          else none)
  unfolding authenticate
  authenticate_row email password db row e = ground arith

  -- An account that is created can log in from then on, whatever is called meanwhile: under any
  -- spelling of the address that strips and lowers to the same text, with a password whose digest is
  -- that of the account's, and with no other.
  pub authenticate-create_user :
      (name email password spelling attempt : String) (at : Fresh) (db : SqliteDatabase)
      (user : PublicUser) (after : SqliteDatabase) (calls : List Call)
      → create_user name email password at db ≡ ok (user, after)
      → normalized spelling ≡ normalized email
      → authenticate spelling attempt (run calls after) ≡ (
          if h.pbkdf2_hmac attempt at.salt == h.pbkdf2_hmac password at.salt
          then some user
          else none)
  authenticate-create_user name email password spelling attempt at db user after calls e same =
      let row = new_user name email password at in
      let account = create_user-HasAccount name email password at db user after e in
      let found =
        find-append_last (has_email (normalized email)) db.users row account.new_email
          ((list_beq_iff (nocase row.email) (nocase row.email)).1 refl) in
      let held =
        run-users calls after (has_email (normalized email)) row (rw (account.added) found) in
      rw (account.public) (
        authenticate_row spelling attempt (run calls after) row (
          subst (λ address. find (has_email address) (run calls after).users ≡ some row) (sym same)
            held))
