-- ===== src/KeyRegistry/Registry.antt =====
-- key_registry/registry.py. Each reading of `_now` is an argument.
pub mod Lookup
pub mod Revocation
pub mod Sound
use agent_of_record.Common.{
  ℕ, String, Bool, true, false, not, ◌&&◌, ◌||◌, Option, none, some, [], ◌∷◌, map, leb,
  if◌then◌else◌, ◌==◌, nat_eq, string_eq, list_eq, option_eq, length, value_error,
  already_registered, wrong_algorithm, Result, ok, err, ◌>>=◌, ◌>>◌, raise_if,
}
use mathlib.Core.Option
use agent_of_record.Calendar.{Moment, aware}
use agent_of_record.CryptoCore.{
  Crypto, Bytes, PublicKey, ed25519, elliptic, other_key, secp256r1, other_curve,
}
use agent_of_record.KeyRegistry.Models.{AgentKeyRecord, as_utc, optional_as_utc, validate_record}
use agent_of_record.KeyRegistry.Storage.{
  Rows, get_key_by_id, insert_key, get_keys_by_agent, all_keys, revoke_row,
}

pub record KeyRegistry : Type 0 where
  pub storage : Rows

abbrev pub empty : KeyRegistry
empty = record { storage = [] }

-- key_registry/jwks.py: `_load_supported_public_key`
unfoldable pub load_supported : Bytes → Option PublicKey → Result PublicKey
load_supported public_key_bytes none =
    if length public_key_bytes == 32
    then ok (ed25519 public_key_bytes)
    else err (value_error "public key must be DER SPKI or raw 32-byte Ed25519")
load_supported public_key_bytes (some other_key) = err (value_error "unsupported public key type")
load_supported public_key_bytes (some key) = ok key

unfoldable pub algorithm_name : PublicKey → Result String
algorithm_name (ed25519 raw) = ok "Ed25519"
algorithm_name (elliptic secp256r1 x y) = ok "ECDSA-P256-SHA256"
algorithm_name _ = err (value_error "unsupported public key algorithm")

-- `algorithm in accepted_algorithm_ids[expected]`
unfoldable pub is_accepted_algorithm : String → String → Bool
is_accepted_algorithm expected algorithm =
    if expected == "Ed25519"
    then algorithm == "Ed25519" || algorithm == "EdDSA"
    else algorithm == "ECDSA-P256-SHA256" || algorithm == "ES256"

unfoldable pub is_active : AgentKeyRecord → ℕ → Bool
is_active r now =
    not r.revoked
    && leb r.valid_from now
    && elim r.valid_until [ none ↦ true | some until ↦ leb now until ]

-- What stands before a last `-agent`.
unfoldable pub before_agent : String → Option String
before_agent String.[] = none
before_agent (String.◌∷◌ ch s) =
    let rest = before_agent s in
    if String.◌∷◌ ch s == "-agent" then some "" else Option.map (String.◌∷◌ ch) rest

unfoldable pub agent_type_for_id : String → Option String
unfolding before_agent
agent_type_for_id agent_id = elim (before_agent agent_id) [
  | none ↦ none
  | some prefix ↦ if prefix == "" then none else some prefix
]

-- `agent_type or self._agent_type_for_id(agent_id)`
unfoldable pub agent_type_or_inferred : Option String → String → Option String
unfolding agent_type_for_id
agent_type_or_inferred none agent_id = agent_type_for_id agent_id
agent_type_or_inferred (some t) agent_id = if t == "" then agent_type_for_id agent_id else some t

-- The arguments of `register_key`.
pub record Registration : Type 0 where
  pub agent_id : String
  pub pubkey_id : String
  pub public_key_bytes : Bytes
  pub algorithm : String
  pub valid_from : Moment
  pub valid_until : Option Moment
  pub agent_type : Option String

module _ ⦃c : Crypto⦄ where
  unfoldable pub load_supported_public_key : Bytes → Result PublicKey
  unfolding load_supported
  load_supported_public_key public_key_bytes =
      load_supported public_key_bytes (c.load_der_public_key public_key_bytes)

  unfoldable pub algorithm_for_key : Bytes → Result String
  unfolding algorithm_name load_supported_public_key
  algorithm_for_key public_key_bytes = do
    key ← load_supported_public_key public_key_bytes
    algorithm_name key

  -- The record of a registration, checked but not stored.
  unfoldable pub make_record : ℕ → Registration → Result AgentKeyRecord
  unfolding agent_type_or_inferred is_accepted_algorithm
  make_record now r = do
    expected ← algorithm_for_key r.public_key_bytes
    raise_if (not (is_accepted_algorithm expected r.algorithm)) (wrong_algorithm expected)
    valid_from ← as_utc r.valid_from
    valid_until ← optional_as_utc r.valid_until
    validate_record (record {
      agent_id = r.agent_id;
      agent_type = agent_type_or_inferred r.agent_type r.agent_id;
      pubkey_id = r.pubkey_id;
      public_key_bytes = r.public_key_bytes;
      algorithm = expected;
      valid_from = valid_from;
      valid_until = valid_until;
      revoked = false;
      created_at = now;
    })

  unfoldable pub register_key :
      ℕ → Registration → KeyRegistry → Result (AgentKeyRecord × KeyRegistry)
  register_key now r registry = do
    row ← make_record now r
    rows ← insert_key row registry.storage
    ok (row, record { storage = rows })

  -- The readings of `_now`: for an existing record, for `valid_from`, and for `created_at`.
  unfoldable pub register_pubkey : ℕ → ℕ → ℕ → String → Bytes → KeyRegistry → Result KeyRegistry
  register_pubkey checked from created pubkey_id public_key_bytes registry =
      elim (get_key_by_id pubkey_id registry.storage) [
        | some existing ↦
            if existing.public_key_bytes == public_key_bytes && is_active existing checked
            then ok registry
            else err (already_registered pubkey_id)
        | none ↦ do
          algorithm ← algorithm_for_key public_key_bytes
          (row, registry') ←
              register_key created
                (record {
                  agent_id = "unassigned";
                  pubkey_id = pubkey_id;
                  public_key_bytes = public_key_bytes;
                  algorithm = algorithm;
                  valid_from = aware from;
                  valid_until = none;
                  agent_type = none;
                })
                registry
          ok registry'
      ]

unfoldable pub get_key_record : ℕ → String → KeyRegistry → Option AgentKeyRecord
get_key_record now pubkey_id registry = elim (get_key_by_id pubkey_id registry.storage) [
  | none ↦ none
  | some r ↦ if is_active r now then some r else none
]

unfoldable pub get_pubkey : ℕ → String → KeyRegistry → Option Bytes
get_pubkey now pubkey_id registry = elim (get_key_by_id pubkey_id registry.storage) [
  | none ↦ none
  | some r ↦ if not (is_active r now) then none else some r.public_key_bytes
]

unfoldable pub revoke_key : String → KeyRegistry → Bool × KeyRegistry
revoke_key pubkey_id registry =
    let (found, rows) = revoke_row pubkey_id registry.storage in (found, record { storage = rows })

-- `[record for record in rows if self._is_active(record, now)]`
unfoldable pub where_active : ℕ → Rows → Rows
where_active now [] = []
where_active now (row ∷ rows) =
    let rest = where_active now rows in if is_active row now then row ∷ rest else rest

unfoldable pub list_active_keys : ℕ → String → KeyRegistry → Rows
unfolding where_active
list_active_keys now agent_id registry =
    where_active now (get_keys_by_agent agent_id registry.storage)
