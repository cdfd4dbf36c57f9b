-- ===== src/VerifierService/Database/Sessions.antt =====
-- How long a session lives.
use agent_of_record.Common.{
  ℕ, ◌+◌, ◌*◌, String, ◌≡◌, refl, ◌≢◌, inl, inr, Bool, true, false, not, none, some, List, [], ◌∷◌,
  arith, leb, if◌then◌else◌, Bool-cases, Option-cases, ◌==◌, nat_eq, string_eq, list_eq, option_eq,
  All, ok, is_some,
}
use agent_of_record.Common.Find.{
  find, keep, find-append_some, find-append_none, find-keep, find-keep_unwanted,
}
use agent_of_record.VerifierService.Database.{
  Hashlib, SqliteDatabase, UserRow, SessionRow, has_id, has_hash, insert_user, new_user, user_by_id,
  session_user, user_from_token, create_user, create_session, revoke_session, save_prompt,
  update_prompt_action, update_verification, save_action_evidence,
}
use agent_of_record.VerifierService.Database.Calls.{
  Call, creates_user, creates_session, revokes_session, saves_prompt, updates_prompt_action,
  updates_verification, saves_action_evidence, step, run,
}

module _ ⦃h : Hashlib⦄ where
  -- The tests of the users that find somebody find the same after a call.
  step-users :
      (call : Call) (db : SqliteDatabase) (test : UserRow → Bool) (row : UserRow)
      → find test db.users ≡ some row
      → find test (step call db).users ≡ some row
  unfolding step create_user insert_user create_session revoke_session save_prompt
      update_prompt_action update_verification save_action_evidence
  step-users (creates_user name email password at) db test row e =
      ground (arith, find-append_some test db.users (new_user name email password at ∷ []) row)
  step-users (creates_session user_id ttl_days token now) db test row e = ground arith
  step-users (revokes_session none) db test row e = e
  step-users (revokes_session (some token)) db test row e = ground arith
  step-users (saves_prompt envelope user_id action_id eml_path verification now) db test row e =
      ground arith
  step-users (updates_prompt_action action_id eml_path verification) db test row e = e
  step-users (updates_verification action_id verification) db test row e = e
  step-users (saves_action_evidence action_id evidence) db test row e = e

  -- Whether a call ends the session with a hash, or can begin one.
  abbrev pub revokes : String → Call → Bool
  revokes token_hash (revokes_session (some token)) = h.sha256 token == token_hash
  revokes token_hash _ = false

  abbrev pub begins : String → Call → Bool
  begins token_hash (creates_session user_id ttl_days token now) = h.sha256 token == token_hash
  begins token_hash _ = false

  -- Deleting the rows of another hash keeps the row of this one.
  other_hash_kept :
      (token_hash other : String) (rows : List SessionRow)
      → other == token_hash ≡ false
      → find (has_hash token_hash) (keep (λ row. not (has_hash other row)) rows)
        ≡ find (has_hash token_hash) rows
  other_hash_kept token_hash other rows ne =
      find-keep (has_hash token_hash) (λ row. not (has_hash other row)) rows
        (λ row same. ground (
          arith,
          string_eq.beq_iff row.token_hash token_hash,
          string_eq.beq_iff row.token_hash other,
          string_eq.beq_iff other token_hash,
        ))

  same_hash_gone :
      (token_hash other : String) (rows : List SessionRow)
      → other == token_hash ≡ true
      → find (has_hash token_hash) (keep (λ row. not (has_hash other row)) rows) ≡ none
  same_hash_gone token_hash other rows same =
      find-keep_unwanted (has_hash token_hash) (λ row. not (has_hash other row)) rows
        (λ row found. ground (
          arith,
          string_eq.beq_iff row.token_hash token_hash,
          string_eq.beq_iff row.token_hash other,
          string_eq.beq_iff other token_hash,
        ))

  step-session_kept :
      (call : Call) (db : SqliteDatabase) (token_hash : String) (session : SessionRow)
      → find (has_hash token_hash) db.sessions ≡ some session
      → revokes token_hash call ≡ false
      → find (has_hash token_hash) (step call db).sessions ≡ some session
  unfolding step create_user create_session revoke_session save_prompt update_prompt_action
      update_verification save_action_evidence
  step-session_kept (creates_user name email password at) db token_hash session e r = ground arith
  step-session_kept (creates_session user_id ttl_days token now) db token_hash session e r =
      ground (
        arith,
        find-append_some (has_hash token_hash) db.sessions
            (record {
              token_hash = h.sha256 token;
              user_id = user_id;
              created_at = now;
              expires_at = now + ttl_days * 86400000000;
            }
              ∷ [])
            session,
      )
  step-session_kept (revokes_session none) db token_hash session e r = e
  step-session_kept (revokes_session (some token)) db token_hash session e r =
      ground (arith, other_hash_kept token_hash (h.sha256 token) db.sessions r)
  step-session_kept (saves_prompt envelope user_id action_id eml_path verification now) db
        token_hash session e r =
      ground arith
  step-session_kept (updates_prompt_action action_id eml_path verification) db token_hash session e
        r =
      e
  step-session_kept (updates_verification action_id verification) db token_hash session e r = e
  step-session_kept (saves_action_evidence action_id evidence) db token_hash session e r = e

  step-session_gone :
      (call : Call) (db : SqliteDatabase) (token_hash : String)
      → find (has_hash token_hash) db.sessions ≡ none
      → begins token_hash call ≡ false
      → find (has_hash token_hash) (step call db).sessions ≡ none
  unfolding step create_user create_session revoke_session save_prompt find update_prompt_action
      update_verification save_action_evidence
  step-session_gone (creates_user name email password at) db token_hash e r = ground arith
  step-session_gone (creates_session user_id ttl_days token now) db token_hash e r = ground (
    arith,
    find-append_none (has_hash token_hash) db.sessions (
        record {
          token_hash = h.sha256 token;
          user_id = user_id;
          created_at = now;
          expires_at = now + ttl_days * 86400000000;
        }
        ∷ []),
  )
  step-session_gone (revokes_session none) db token_hash e r = e
  step-session_gone (revokes_session (some token)) db token_hash e r =
      elim (Bool-cases (h.sha256 token == token_hash)) [
        | inl same ↦ ground (arith, same_hash_gone token_hash (h.sha256 token) db.sessions same)
        | inr other ↦ ground (arith, other_hash_kept token_hash (h.sha256 token) db.sessions other)
      ]
  step-session_gone (saves_prompt envelope user_id action_id eml_path verification now) db
        token_hash e r =
      ground arith
  step-session_gone (updates_prompt_action action_id eml_path verification) db token_hash e r = e
  step-session_gone (updates_verification action_id verification) db token_hash e r = e
  step-session_gone (saves_action_evidence action_id evidence) db token_hash e r = e

  pub run-users :
      (calls : List Call) (db : SqliteDatabase) (test : UserRow → Bool) (row : UserRow)
      → find test db.users ≡ some row
      → find test (run calls db).users ≡ some row
  unfolding run
  run-users [] db test row e = e
  run-users (call ∷ calls) db test row e =
      run-users calls (step call db) test row (step-users call db test row e)

  run-session_kept :
      (calls : List Call) (db : SqliteDatabase) (token_hash : String) (session : SessionRow)
      → find (has_hash token_hash) db.sessions ≡ some session
      → All (λ call. revokes token_hash call ≡ false) calls
      → find (has_hash token_hash) (run calls db).sessions ≡ some session
  unfolding run
  run-session_kept [] db token_hash session e r = e
  run-session_kept (call ∷ calls) db token_hash session e r =
      run-session_kept calls (step call db) token_hash session
        (step-session_kept call db token_hash session e r.0) r.1

  run-session_gone :
      (calls : List Call) (db : SqliteDatabase) (token_hash : String)
      → find (has_hash token_hash) db.sessions ≡ none
      → All (λ call. begins token_hash call ≡ false) calls
      → find (has_hash token_hash) (run calls db).sessions ≡ none
  unfolding run
  run-session_gone [] db token_hash e r = e
  run-session_gone (call ∷ calls) db token_hash e r =
      run-session_gone calls (step call db) token_hash (step-session_gone call db token_hash e r.0)
        r.1

  -- What a session that is created has: its row, and its user.
  create_session-eq_ok :
      (user_id : String) (ttl_days : ℕ) (token : String) (now : ℕ) (db : SqliteDatabase)
      {given : String} {after : SqliteDatabase}
      → create_session user_id ttl_days token now db ≡ ok (given, after)
      → (row : SessionRow) × (user : UserRow) × (given ≡ token)
        × (find (has_hash (h.sha256 token)) after.sessions ≡ some row)
        × (row.user_id ≡ user_id)
        × (row.expires_at ≡ now + ttl_days * 86400000000)
        × (find (has_id user_id) after.users ≡ some user)
        × (find (has_id user_id) db.users ≡ some user)
  unfolding create_session find
  create_session-eq_ok user_id ttl_days token now db e =
      let row : SessionRow = record {
        token_hash = h.sha256 token;
        user_id = user_id;
        created_at = now;
        expires_at = now + ttl_days * 86400000000;
      } in
      elim (Option-cases (find (has_id user_id) db.users)) [
        | inl missing ↦ absurd (ground arith)
        | inr (user, known) ↦ (
          row,
          user,
          ground arith,
          ground (
            arith,
            find-append_none (has_hash (h.sha256 token)) db.sessions (row ∷ []),
            string_eq.beq_iff (h.sha256 token) (h.sha256 token),
          ),
          refl,
          refl,
          ground arith,
          known,
        )
      ]

  -- A token that `create_session` gives, and that no later call revokes, gives its user until the
  -- session's days are over, whatever else is called meanwhile, and nobody from then on.
  pub user_from_token_until_expiry :
      (user_id : String) (ttl_days : ℕ) (token : String) (now later : ℕ) (db after : SqliteDatabase)
      (given : String) (calls : List Call)
      → token ≢ ""
      → create_session user_id ttl_days token now db ≡ ok (given, after)
      → All (λ call. revokes (h.sha256 token) call ≡ false) calls
      → (user_from_token (some given) later (run calls after)
          ≡ (if leb (now + ttl_days * 86400000000) later then none else user_by_id user_id db))
        × (is_some (user_by_id user_id db) ≡ true)
  unfolding user_from_token session_user user_by_id
  user_from_token_until_expiry user_id ttl_days token now later db after given calls filled e r =
      let (row, user, same, found, owner, expiry, present, before) =
        create_session-eq_ok user_id ttl_days token now db e in
      let kept = run-session_kept calls after (h.sha256 token) row found r in
      let still = run-users calls after (has_id user_id) user present in
      (ground (arith, string_eq.beq_iff token ""), ground arith)

  user_from_token_unknown :
      (token : String) (later : ℕ) (db : SqliteDatabase)
      → find (has_hash (h.sha256 token)) db.sessions ≡ none
      → user_from_token (some token) later db ≡ none
  unfolding user_from_token session_user
  user_from_token_unknown token later db gone = ground arith

  revoke_session_gone :
      (token : String) (db : SqliteDatabase)
      → token == "" ≡ false
      → find (has_hash (h.sha256 token)) (revoke_session (some token) db).sessions ≡ none
  unfolding revoke_session
  revoke_session_gone token db filled = ground (
    arith,
    same_hash_gone (h.sha256 token) (h.sha256 token) db.sessions,
    string_eq.beq_iff (h.sha256 token) (h.sha256 token),
  )

  -- A token that is revoked gives nobody, whatever is called and however late, unless a session
  -- with a token of the same hash is created.
  pub user_from_token_after_revoke :
      (token : String) (later : ℕ) (db : SqliteDatabase) (calls : List Call)
      → All (λ call. begins (h.sha256 token) call ≡ false) calls
      → user_from_token (some token) later (run calls (revoke_session (some token) db)) ≡ none
  unfolding user_from_token
  user_from_token_after_revoke token later db calls r = elim (Bool-cases (token == "")) [
    | inl blank ↦ ground arith
    | inr filled ↦
        user_from_token_unknown token later (run calls (revoke_session (some token) db)) (
          run-session_gone calls (revoke_session (some token) db) (h.sha256 token)
            (revoke_session_gone token db filled) r)
  ]
