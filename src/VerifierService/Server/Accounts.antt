-- ===== src/VerifierService/Server/Accounts.antt =====
-- verifier_service/main.py: the endpoints of accounts and sessions, and the list of prompts.
use agent_of_record.Common.{
  ℕ, String, not, ◌&&◌, Option, none, some, List, if◌then◌else◌, ◌==◌, nat_eq, string_eq, list_eq,
  option_eq, Error, Result, ok, err,
}
use Prim.Native.Char.{code}
use agent_of_record.Common.Text.{strip}
use agent_of_record.VerifierService.Database.{
  Hashlib, SqliteDatabase, PublicUser, PromptItem, Fresh, create_user, create_session, authenticate,
  user_from_token, revoke_session, list_prompts,
}
use agent_of_record.VerifierService.Server.{
  reply, http_error, raised, H, ◌>>=◌, return, asks, changes, is_lookup_or_value_error, catching,
}

-- `value.partition(" ")`, without the separator
unfoldable pub partition_space : String → String × String
partition_space String.[] = (String.[], String.[])
partition_space (String.◌∷◌ c s) =
    let (before, after) = partition_space s in
    if code c == 32 then (String.[], s) else (String.◌∷◌ c before, after)

module _ ⦃h : Hashlib⦄ where
  -- The argument is the header, or the empty text.
  unfoldable pub bearer_token : String → Option String
  unfolding partition_space
  bearer_token value =
      let (scheme, token) = partition_space value in
      if h.lower scheme == "bearer" && not (strip token == "") then some (strip token) else none

  module _ {W : Type 0} where
    unfoldable pub request_user : ℕ → String → H W (Option PublicUser)
    unfolding bearer_token
    request_user now authorization =
        asks (λ app. user_from_token (bearer_token authorization) now app.database)

    -- `required=True`
    unfoldable pub required_user : ℕ → String → H W PublicUser
    unfolding request_user
    required_user now authorization app = elim ((request_user now authorization app).0) [
      | reply (some user) ↦ (reply user, app)
      | _ ↦ (http_error 401 "authentication_required", app)
    ]

    -- A call of the database that may raise, and that changes nothing then.
    abbrev pub on_database : {A : Type 0} → (SqliteDatabase → Result (A × SqliteDatabase)) → H W A
    on_database call app = elim (call app.database) [
      | err e ↦ (raised e, app)
      | ok (a, db) ↦ (reply a, record app { database = db })
    ]

    unfoldable pub auth_signup :
        (Error → String) → String → String → String → Fresh → String → ℕ → H W (PublicUser × String)
    auth_signup message_of name email password at token now =
        catching is_lookup_or_value_error message_of 400 (do
          user ← on_database (create_user name email password at)
          token ← on_database (create_session user.id 7 token now)
          return (user, token))

    unfoldable pub auth_login : String → String → String → ℕ → H W (PublicUser × String)
    auth_login email password token now app = elim (authenticate email password app.database) [
      | none ↦ (http_error 401 "Invalid email or password.", app)
      | some user ↦
          (do token ← on_database (create_session user.id 7 token now); return (user, token)) app
    ]

    unfoldable pub auth_me : ℕ → String → H W PublicUser
    auth_me now authorization = required_user now authorization

    unfoldable pub auth_logout : String → H W (Unit {0})
    auth_logout authorization =
        changes (λ app. record app {
          database = revoke_session (bearer_token authorization) app.database;
        })

    unfoldable pub list_prompt_records : ℕ → String → H W (List PromptItem)
    list_prompt_records now authorization = do
      user ← required_user now authorization
      asks (λ app. list_prompts user.id 50 app.database)
