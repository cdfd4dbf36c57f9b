-- ===== src/VerifierService/Database/Consistent.antt =====
-- The constraints of the tables, and what a new row keeps of them.
pub mod Steps
use agent_of_record.Common.{
  string_eq, nat_eq, list_eq, option_eq, ◌<◌, ◌≡◌, ◌≢◌, ◌⊎◌, inl, inr, Bool, true, false, Option,
  none, some, List, [], ◌∷◌, ◌++◌, map, arith, Bool-cases, Option-cases, list_beq_iff,
  option_beq_iff, All,
}
use agent_of_record.Common.Find.{
  find, keep, find-append_last, find-append_none, find-append_some, All-append, All-keep, All-imp,
}
use agent_of_record.VerifierService.Database.{
  Hashlib, SqliteDatabase, UserRow, SessionRow, PromptRow, Fresh, nocase, has_id, has_hash,
  has_email, has_action, takes_action, insert_user, new_user, create_user, create_session,
  revoke_session, save_prompt, update_prompt_action, update_verification, save_action_evidence,
  coalesce, empty_tables,
}
use agent_of_record.Json.{Json}
use agent_of_record.VerifierService.Models.{SignedEnvelope}
use agent_of_record.VerifierService.Database.Calls.{
  Call, creates_user, creates_session, revokes_session, saves_prompt, updates_prompt_action,
  updates_verification, saves_action_evidence, step, run,
}
use agent_of_record.VerifierService.Database.Accounts.{HasAccount, create_user-HasAccount}

-- No two rows in the relation, in either order.
abbrev pub AreApart {ℓ} : {A : Type ℓ} → (A → A → Type 0) → List A → Type 0
AreApart Apart [] = Unit
AreApart Apart (x ∷ xs) = All (Apart x) xs × AreApart Apart xs

AreApart-append {ℓ} :
    {A : Type ℓ} (Apart : A → A → Type 0) (xs : List A) (a : A)
    → AreApart Apart xs
    → All (λ x. Apart x a) xs
    → AreApart Apart (xs ++ a ∷ [])
AreApart-append Apart [] a h new = (tt, tt)
AreApart-append Apart (x ∷ xs) a h new =
    (All-append (Apart x) xs (a ∷ []) h.0 (new.0, tt), AreApart-append Apart xs a h.1 new.1)

AreApart-keep {ℓ} :
    {A : Type ℓ} (Apart : A → A → Type 0) (kept : A → Bool) (xs : List A)
    → AreApart Apart xs
    → AreApart Apart (keep kept xs)
unfolding keep
AreApart-keep Apart kept [] h = tt
AreApart-keep Apart kept (x ∷ xs) h =
    ground (arith, All-keep (Apart x) kept xs h.0, AreApart-keep Apart kept xs h.1)

-- What a search that fails says of the rows.
find_fails {ℓ} :
    {A : Type ℓ} (test : A → Bool) (xs : List A)
    → find test xs ≡ none
    → All (λ x. test x ≡ false) xs
unfolding find
find_fails test [] h = tt
find_fails test (x ∷ xs) h = elim (Bool-cases (test x)) [
  | inl hit ↦ absurd (ground arith)
  | inr miss ↦ (miss, find_fails test xs (ground arith))
]

abbrev pub ApartUsers : UserRow → UserRow → Type 0
ApartUsers a b = (a.id ≢ b.id) × (nocase a.email ≢ nocase b.email)

abbrev pub ApartSessions : SessionRow → SessionRow → Type 0
ApartSessions a b = a.token_hash ≢ b.token_hash

abbrev pub ApartPrompts : PromptRow → PromptRow → Type 0
ApartPrompts a b = (a.id ≢ b.id) × ((a.action_id ≡ none) ⊎ (a.action_id ≢ b.action_id))

-- The constraints: the primary keys, the unique columns and the foreign key, and that AUTOINCREMENT
-- has not given out the next identifier.
pub record IsConsistent (db : SqliteDatabase) : Type 0 where
  pub users : AreApart ApartUsers db.users
  pub sessions : AreApart ApartSessions db.sessions
  pub owners :
      All (λ row. (user : UserRow) × (find (has_id row.user_id) db.users ≡ some user)) db.sessions
  pub prompts : AreApart ApartPrompts db.prompt_records
  pub identifiers : All (λ row. row.id < db.next_prompt_id) db.prompt_records

All-map {ℓ κ μ} :
    {A : Type ℓ} (P : A → Type κ) (f : A → A) (Q : A → Type μ) (xs : List A)
    → ((x : A) → P x → Q (f x))
    → All P xs
    → All Q (map f xs)
All-map P f Q [] keeps h = tt
All-map P f Q (x ∷ xs) keeps h = (keeps x h.0, All-map P f Q xs keeps h.1)

AreApart-map {ℓ} :
    {A : Type ℓ} (Apart : A → A → Type 0) (f : A → A) (xs : List A)
    → ((a b : A) → Apart a b → Apart (f a) (f b))
    → AreApart Apart xs
    → AreApart Apart (map f xs)
AreApart-map Apart f [] keeps h = tt
AreApart-map Apart f (x ∷ xs) keeps h =
    (All-map (Apart x) f (Apart (f x)) xs (keeps x) h.0, AreApart-map Apart f xs keeps h.1)

new_user_apart :
    (row : UserRow) (rows : List UserRow)
    → find (has_id row.id) rows ≡ none
    → find (has_email row.email) rows ≡ none
    → All (λ x. ApartUsers x row) rows
unfolding find
new_user_apart row [] p q = tt
new_user_apart row (x ∷ rows) p q =
    let ids = string_eq.beq_iff x.id row.id in
    let emails = list_beq_iff (nocase x.email) (nocase row.email) in
    (
      (λ same. ground (arith, ids), λ same. ground (arith, emails)),
      new_user_apart row rows (ground arith) (ground arith),
    )

new_session_apart :
    (row : SessionRow) (rows : List SessionRow)
    → find (has_hash row.token_hash) rows ≡ none
    → All (λ x. ApartSessions x row) rows
unfolding find
new_session_apart row [] p = tt
new_session_apart row (x ∷ rows) p = (
  λ same. ground (arith, string_eq.beq_iff x.token_hash row.token_hash),
  new_session_apart row rows (ground arith),
)

new_prompt_apart :
    (row : PromptRow) (rows : List PromptRow)
    → takes_action row.action_id rows ≡ true
    → All (λ x. x.id < row.id) rows
    → All (λ x. ApartPrompts x row) rows
unfolding takes_action find
new_prompt_apart row [] p q = tt
new_prompt_apart row (x ∷ rows) p q = (
  (
    λ same. omega (arith, same, q.0),
    elim (Option-cases x.action_id) [
      | inl blank ↦ inl blank
      | inr (a, named) ↦ inr (λ same. ground (arith, option_beq_iff x.action_id (some a)))
    ],
  ),
  new_prompt_apart row rows
      (elim (Option-cases row.action_id) [
        | inl blank ↦ ground arith
        | inr (a, named) ↦ ground arith
      ])
      q.1,
)
