-- ===== src/VerifierService/Server.antt =====
-- verifier_service/main.py: the state of the service, and its endpoints. The state of the agents' world
-- (outbox and workspace) is a type of its own; clocks and random texts are arguments.
pub mod Accounts
pub mod Artifact
pub mod Gate
pub mod Keys
pub mod Prompts
pub mod Replies
pub mod Route
mod Tests
use agent_of_record.Common.{
  ℕ, String, Bool, true, false, Option, none, some, List, ◌∷◌, if◌then◌else◌, ◌==◌, nat_eq,
  string_eq, list_eq, option_eq, length, take, Error, runtime_error, attribute_error, key_error,
  index_error, integrity_error, os_error, Result, ok, err,
}
use agent_of_record.KeyRegistry.Registry.{KeyRegistry, get_pubkey}
use agent_of_record.LedgerCore.{Ledger}
use agent_of_record.TsaAnchor.{AnchorStore}
use agent_of_record.VerificationPortal.Models.{ActionEvidence, ActionEvidenceStore}
use agent_of_record.VerifierService.Database.{SqliteDatabase}
use agent_of_record.VerifierService.Models.{SignedEnvelope}
use agent_of_record.VerifierService.NonceStore.{NonceStore}
use agent_of_record.VerifierService.PubkeyStore.{PubkeyStore, key_lookup}
use agent_of_record.VerifierService.Verifier.{StoredKey, key_bytes, PublicKeyLookup}

-- `key_registry or pubkey_store`
pub data KeyStore : Type 0 where
  registry : KeyRegistry → KeyStore
  legacy : PubkeyStore → KeyStore

pub record Operation : Type 0 where
  pub timestamp : String
  pub operation : String
  pub status : String
  pub detail : String
  pub pubkey_id : Option String

pub record AppState (W : Type 0) : Type 0 where
  pub database : SqliteDatabase
  pub key_store : KeyStore
  pub nonce_store : NonceStore
  pub operations : List Operation
  pub ledger : Ledger
  pub verified_envelopes : List SignedEnvelope
  pub artifact_store : ActionEvidenceStore
  pub anchor_store : AnchorStore
  pub world : W

-- What a handler answers: a value, an `HTTPException`, or another exception, which the server turns
-- into an answer of its own.
pub data Reply (A : Type 0) : Type 0 where
  reply : A → Reply A
  http_error : ℕ → String → Reply A
  raised : Error → Reply A

abbrev pub H : Type 0 → Type 0 → Type 0
H W A = AppState W → Reply A × AppState W

infixl 5 ◌>>=◌ ◌>>◌
unfoldable pub ◌>>=◌ : {W A B : Type 0} → H W A → (A → H W B) → H W B
◌>>=◌ m next app = elim ((m app).0) [
  | reply a ↦ next a (m app).1
  | http_error status detail ↦ (http_error status detail, (m app).1)
  | raised e ↦ (raised e, (m app).1)
]

abbrev pub ◌>>◌ : {W B : Type 0} → H W (Unit {0}) → H W B → H W B
m >> next = m >>= λ done. next

abbrev pub return : {W A : Type 0} → A → H W A
return a app = (reply a, app)

abbrev pub fail : {W A : Type 0} → ℕ → String → H W A
fail status detail app = (http_error status detail, app)

-- An exception that the handler does not catch.
abbrev pub or_raised : {A : Type 0} → Result A → Reply A
or_raised (ok a) = reply a
or_raised (err e) = raised e

abbrev pub lift : {W A : Type 0} → Result A → H W A
lift r app = (or_raised r, app)

abbrev pub refuse_if : {W : Type 0} → Bool → ℕ → String → H W (Unit {0})
refuse_if test status detail app = (if test then http_error status detail else reply tt, app)

abbrev pub asks : {W A : Type 0} → (AppState W → A) → H W A
asks question app = (reply (question app), app)

abbrev pub changes : {W : Type 0} → (AppState W → AppState W) → H W (Unit {0})
changes change app = (reply tt, change app)

-- `(TypeError, ValueError)`: which exceptions a handler catches, and their text.
unfoldable pub is_value_error : Error → Bool
is_value_error key_error = false
is_value_error index_error = false
is_value_error (attribute_error s) = false
is_value_error (runtime_error s) = false
is_value_error (integrity_error s) = false
is_value_error os_error = false
is_value_error e = true

-- The same with `KeyError`.
abbrev pub is_lookup_or_value_error : Error → Bool
is_lookup_or_value_error key_error = true
is_lookup_or_value_error e = is_value_error e

abbrev pub key_lookup_at : ℕ → KeyStore → PublicKeyLookup
key_lookup_at now (registry r) = record {
  get_pubkey =
      λ id. elim (get_pubkey now id r) [ none ↦ none | some bytes ↦ some (key_bytes bytes) ];
}
key_lookup_at now (legacy store) = key_lookup store

-- `pubkey_id` where it is given and not empty
abbrev pub named_key : Option String → Option String
named_key none = none
named_key (some id) = if id == "" then none else some id

-- `operations.insert(0, _operation_entry(...))`, of which the latest 50 are kept
unfoldable pub log_operation :
    {W : Type 0} → String → String → String → String → Option String → H W (Unit {0})
log_operation timestamp operation status detail pubkey_id app =
    let entry : Operation = record {
      timestamp = timestamp;
      operation = operation;
      status = status;
      detail = detail;
      pubkey_id = named_key pubkey_id;
    } in
    (reply tt, record app { operations = take 50 (entry ∷ app.operations) })

-- `GET /api/operations`
unfoldable pub list_operations : {W : Type 0} → H W (ℕ × List Operation)
list_operations app = (reply (length app.operations, app.operations), app)

-- `except …: raise HTTPException(status, detail=str(exc))`
unfoldable pub catching : {W A : Type 0} → (Error → Bool) → (Error → String) → ℕ → H W A → H W A
catching is_caught message_of status m app = elim ((m app).0) [
  | reply a ↦ (reply a, (m app).1)
  | http_error code detail ↦ (http_error code detail, (m app).1)
  | raised e ↦ (if is_caught e then http_error status (message_of e) else raised e, (m app).1)
]
