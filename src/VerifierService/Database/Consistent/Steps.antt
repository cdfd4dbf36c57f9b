-- ===== src/VerifierService/Database/Consistent/Steps.antt =====
-- The constraints of the tables hold after every history.
use agent_of_record.Common.{
  ℕ, ◌+◌, ◌<◌, String, ◌≡◌, refl, inl, inr, Bool, true, not, Option, none, some, List, [], ◌∷◌,
  ◌++◌, map, arith, Bool-cases, Option-cases, ◌==◌, nat_eq, string_eq, list_eq, option_eq,
  Result-cases,
}
use agent_of_record.Common.Find.{find, keep, find-append_some, All-append, All-keep, All-imp}
use agent_of_record.VerifierService.Database.{
  Hashlib, SqliteDatabase, UserRow, SessionRow, PromptRow, Fresh, has_id, has_hash, has_email,
  takes_action, new_user, create_user, create_session, revoke_session, save_prompt,
  update_prompt_action, update_verification, save_action_evidence, empty_tables,
}
use agent_of_record.Json.{Json}
use agent_of_record.VerifierService.Models.{SignedEnvelope}
use agent_of_record.VerifierService.Database.Calls.{
  Call, creates_user, creates_session, revokes_session, saves_prompt, updates_prompt_action,
  updates_verification, saves_action_evidence, step, run,
}
use agent_of_record.VerifierService.Database.Accounts.{create_user-HasAccount}
use agent_of_record.VerifierService.Database.Consistent.{
  AreApart-append, AreApart-keep, AreApart-map, All-map, ApartUsers, ApartSessions, ApartPrompts,
  IsConsistent, new_user_apart, new_session_apart, new_prompt_apart,
}

module _ ⦃h : Hashlib⦄ where
  user-IsConsistent :
      (db : SqliteDatabase) (row : UserRow)
      → IsConsistent db
      → find (has_id row.id) db.users ≡ none
      → find (has_email row.email) db.users ≡ none
      → IsConsistent (record db { users = db.users ++ row ∷ [] })
  user-IsConsistent db row v p q = record {
    users = AreApart-append ApartUsers db.users row v.users (new_user_apart row db.users p q);
    sessions = v.sessions;
    owners =
        All-imp _ _ db.sessions
          (λ session (user, known).
            (user, find-append_some (has_id session.user_id) db.users (row ∷ []) user known))
          v.owners;
    prompts = v.prompts;
    identifiers = v.identifiers;
  }

  session-IsConsistent :
      (db : SqliteDatabase) (row : SessionRow) (user : UserRow)
      → IsConsistent db
      → find (has_hash row.token_hash) db.sessions ≡ none
      → find (has_id row.user_id) db.users ≡ some user
      → IsConsistent (record db { sessions = db.sessions ++ row ∷ [] })
  session-IsConsistent db row user v p q = record {
    users = v.users;
    sessions =
        AreApart-append ApartSessions db.sessions row v.sessions
          (new_session_apart row db.sessions p);
    owners = All-append _ db.sessions (row ∷ []) v.owners ((user, q), tt);
    prompts = v.prompts;
    identifiers = v.identifiers;
  }

  prompt-IsConsistent :
      (db : SqliteDatabase) (row : PromptRow)
      → IsConsistent db
      → takes_action row.action_id db.prompt_records ≡ true
      → row.id ≡ db.next_prompt_id
      → IsConsistent (record db {
        prompt_records = db.prompt_records ++ row ∷ [];
        next_prompt_id = db.next_prompt_id + 1;
      })
  prompt-IsConsistent db row v p q = record {
    users = v.users;
    sessions = v.sessions;
    owners = v.owners;
    prompts =
        AreApart-append ApartPrompts db.prompt_records row v.prompts
          (new_prompt_apart row db.prompt_records p (rw q v.identifiers));
    identifiers =
        All-append _ db.prompt_records (row ∷ [])
          (All-imp _ _ db.prompt_records (λ x (before : x.id < db.next_prompt_id). omega arith)
            v.identifiers)
          (omega arith, tt);
  }

  -- A rewriting of the prompts that keeps their identifiers and actions.
  rewrite-IsConsistent :
      (db : SqliteDatabase) (f : PromptRow → PromptRow)
      → IsConsistent db
      → ((x : PromptRow) → ((f x).id ≡ x.id) × ((f x).action_id ≡ x.action_id))
      → IsConsistent (record db { prompt_records = map f db.prompt_records })
  rewrite-IsConsistent db f v keeps = record {
    users = v.users;
    sessions = v.sessions;
    owners = v.owners;
    prompts =
        AreApart-map ApartPrompts f db.prompt_records
          (λ a b apart. ground (arith, keeps a, keeps b)) v.prompts;
    identifiers =
        All-map (λ x. x.id < db.next_prompt_id) f _ db.prompt_records
          (λ x before. rw ((keeps x).0) before) v.identifiers;
  }

  keep-IsConsistent :
      (db : SqliteDatabase) (kept : SessionRow → Bool)
      → IsConsistent db
      → IsConsistent (record db { sessions = keep kept db.sessions })
  keep-IsConsistent db kept v = record {
    users = v.users;
    sessions = AreApart-keep ApartSessions kept db.sessions v.sessions;
    owners = All-keep _ kept db.sessions v.owners;
    prompts = v.prompts;
    identifiers = v.identifiers;
  }

  create_user-step :
      (name email password : String) (at : Fresh) (db : SqliteDatabase)
      → IsConsistent db
      → IsConsistent (step (creates_user name email password at) db)
  unfolding step
  create_user-step name email password at db v =
      elim (Result-cases (create_user name email password at db)) [
        | inl (e, bad) ↦ rw bad v
        | inr ((user, after), good) ↦
            let account = create_user-HasAccount name email password at db user after good in
            rw good (
              rw (account.added) (
                user-IsConsistent db (new_user name email password at) v account.new_id
                  account.new_email))
      ]

  create_session-step :
      (user_id : String) (ttl_days : ℕ) (token : String) (now : ℕ) (db : SqliteDatabase)
      → IsConsistent db
      → IsConsistent (step (creates_session user_id ttl_days token now) db)
  unfolding step create_session
  create_session-step user_id ttl_days token now db v =
      elim (Option-cases (find (has_hash (h.sha256 token)) db.sessions)) [
        | inr (old, used) ↦ rw used v
        | inl unused ↦ elim (Option-cases (find (has_id user_id) db.users)) [
          | inl missing ↦ rw (unused, missing) v
          | inr (user, known) ↦ rw (unused, known) (session-IsConsistent db _ user v unused known)
        ]
      ]

  revoke_session-step :
      (token : Option String) (db : SqliteDatabase)
      → IsConsistent db
      → IsConsistent (revoke_session token db)
  unfolding revoke_session
  revoke_session-step none db v = v
  revoke_session-step (some token) db v = elim (Bool-cases (token == "")) [
    | inl blank ↦ rw blank v
    | inr filled ↦ rw filled (keep-IsConsistent db (λ row. not (has_hash (h.sha256 token) row)) v)
  ]

  save_prompt-step :
      (envelope : SignedEnvelope) (user_id : String) (action_id eml_path : Option String)
      (verification : Option Json) (now : ℕ) (db : SqliteDatabase)
      → IsConsistent db
      → IsConsistent (step (saves_prompt envelope user_id action_id eml_path verification now) db)
  unfolding step save_prompt
  save_prompt-step envelope user_id action_id eml_path verification now db v =
      elim (Bool-cases (takes_action action_id db.prompt_records)) [
        | inl free ↦ rw free (prompt-IsConsistent db _ v free refl)
        | inr used ↦ rw used v
      ]

  step-IsConsistent :
      (call : Call) (db : SqliteDatabase) → IsConsistent db → IsConsistent (step call db)
  unfolding step update_prompt_action update_verification save_action_evidence
  step-IsConsistent (creates_user name email password at) db v =
      create_user-step name email password at db v
  step-IsConsistent (creates_session user_id ttl_days token now) db v =
      create_session-step user_id ttl_days token now db v
  step-IsConsistent (revokes_session token) db v = revoke_session-step token db v
  step-IsConsistent (saves_prompt envelope user_id action_id eml_path verification now) db v =
      save_prompt-step envelope user_id action_id eml_path verification now db v
  step-IsConsistent (updates_prompt_action action_id eml_path verification) db v =
      rewrite-IsConsistent db _ v (λ x. ground arith)
  step-IsConsistent (updates_verification action_id verification) db v =
      rewrite-IsConsistent db _ v (λ x. ground arith)
  step-IsConsistent (saves_action_evidence action_id evidence) db v = record {
    users = v.users;
    sessions = v.sessions;
    owners = v.owners;
    prompts = v.prompts;
    identifiers = v.identifiers;
  }

  run_on-IsConsistent :
      (calls : List Call) (db : SqliteDatabase) → IsConsistent db → IsConsistent (run calls db)
  unfolding run
  run_on-IsConsistent [] db v = v
  run_on-IsConsistent (call ∷ calls) db v =
      run_on-IsConsistent calls (step call db) (step-IsConsistent call db v)

  -- After every history of calls on empty tables the users' identifiers and addresses, the hashes of
  -- the sessions' tokens and the prompts' identifiers and actions are distinct, each session has its
  -- user, and each prompt's identifier is below the next one.
  pub run-IsConsistent : (calls : List Call) → IsConsistent (run calls empty_tables)
  run-IsConsistent calls =
      run_on-IsConsistent calls empty_tables
        (record { users = tt; sessions = tt; owners = tt; prompts = tt; identifiers = tt })
