-- ===== src/VerifierService/Server/Keys.antt =====
-- verifier_service/main.py: the endpoints of keys and of anchors. What `import_jwk` makes of a JWK is
-- an argument.
use agent_of_record.Common.{
  ℕ, String, not, Option, none, some, List, nat_eq, string_eq, list_eq, option_eq, length, Error,
  value_error, Result, ok, err, or_raise,
}
use agent_of_record.Common.{◌>>=◌ as bind_result}
use Prim.Native.String.{◌++◌ as text_append}
use agent_of_record.Calendar.{Moment, aware}
use agent_of_record.CryptoCore.{Crypto, Bytes}
use agent_of_record.CryptoCore.Base64.{standard, b64decode}
use agent_of_record.Json.{Json}
use agent_of_record.KeyRegistry.Models.{AgentKeyRecord}
use agent_of_record.KeyRegistry.Registry
use agent_of_record.KeyRegistry.Registry.{KeyRegistry, Registration}
use agent_of_record.TsaAnchor.{AnchorRecord, TimestampToken, anchor_current_root}
use agent_of_record.VerifierService.PubkeyStore
use agent_of_record.VerifierService.Server.{
  KeyStore, registry, legacy, reply, http_error, raised, H, ◌>>=◌, ◌>>◌, return, refuse_if, changes,
  is_value_error, catching, log_operation,
}

-- `_registration_key_bytes` and `_registry_registration_key_bytes`, which differ in the message
unfoldable pub registration_key_bytes :
    String → (Json → Result Bytes) → Option Json → Option String → Result Bytes
registration_key_bytes message import_jwk (some jwk) b64 = import_jwk jwk
registration_key_bytes message import_jwk none none =
    or_raise (b64decode standard "") (value_error message)
registration_key_bytes message import_jwk none (some b64) =
    or_raise (b64decode standard b64) (value_error message)

-- `valid_from or datetime.now(timezone.utc)`
abbrev pub or_now : ℕ → Option Moment → Moment
or_now now none = aware now
or_now now (some moment) = moment

module _ ⦃c : Crypto⦄ where
  -- The clock is read three times by a registry, as in `register_pubkey` there.
  unfoldable pub register_with : ℕ → ℕ → ℕ → String → Bytes → KeyStore → Result KeyStore
  register_with checked from created pubkey_id bytes (registry r) =
      bind_result (Registry.register_pubkey checked from created pubkey_id bytes r)
        (λ r'. ok (registry r'))
  register_with checked from created pubkey_id bytes (legacy store) =
      bind_result (PubkeyStore.register_pubkey pubkey_id bytes store) (λ store'. ok (legacy store'))

module _ {W : Type 0} (message_of : Error → String) (import_jwk : Json → Result Bytes) where
  module _ ⦃c : Crypto⦄ where
    unfoldable pub store_key : ℕ → ℕ → ℕ → String → Result Bytes → H W (Unit {0})
    unfolding register_with
    store_key checked from created pubkey_id bytes app =
        elim (bind_result bytes
          (λ key. register_with checked from created pubkey_id key app.key_store)) [
            | err e ↦ (raised e, app)
            | ok keys ↦ (reply tt, record app { key_store = keys })
          ]

    -- `POST /register-pubkey`
    unfoldable pub register_pubkey :
        ℕ → ℕ → ℕ → String → String → Option Json → Option String → H W String
    unfolding store_key
    register_pubkey checked from created timestamp pubkey_id jwk b64 = do
      catching is_value_error message_of 422 (
          store_key checked from created pubkey_id
            (registration_key_bytes "public_key_b64 must be valid base64 DER" import_jwk jwk b64))
      log_operation timestamp "register_pubkey" "registered" (text_append "registered " pubkey_id)
          (some pubkey_id)
      return pubkey_id

    unfoldable pub add_key : ℕ → Registration → Result Bytes → KeyRegistry → H W AgentKeyRecord
    add_key created r bytes keys app =
        elim (bind_result bytes
          (λ key. Registry.register_key created (record r { public_key_bytes = key }) keys)) [
            | err e ↦ (raised e, app)
            | ok (row, keys') ↦ (reply row, record app { key_store = registry keys' })
          ]

    -- `POST /register-key`; the registration's key bytes are those that are decoded.
    unfoldable pub register_key :
        ℕ
        → ℕ
        → String
        → Registration
        → Option Moment
        → Option Json
        → Option String
        → H W (String × String)
    register_key now created timestamp r valid_from jwk b64 app = elim app.key_store [
      | legacy store ↦ (http_error 500 "key_registry_not_configured", app)
      | registry keys ↦
          (do
            row ← catching is_value_error message_of 422 (
                add_key created (record r { valid_from = or_now now valid_from })
                  (registration_key_bytes "public_key_b64 must be valid base64 key material"
                    import_jwk jwk b64)
                  keys)
            log_operation timestamp "register_key" "registered"
                (text_append "registered " row.pubkey_id) (some row.pubkey_id)
            return (row.agent_id, row.pubkey_id))
            app
    ]

  -- `POST /revoke-key`
  unfoldable pub revoke_key : String → String → H W String
  revoke_key timestamp pubkey_id app = elim app.key_store [
    | legacy store ↦ (http_error 500 "key_registry_not_configured", app)
    | registry keys ↦
        let (found, keys') = Registry.revoke_key pubkey_id keys in
        (do
          changes (λ a. record a { key_store = registry keys' })
          refuse_if (not found) 404 "key_not_found"
          log_operation timestamp "revoke_key" "revoked" (text_append "revoked " pubkey_id)
              (some pubkey_id)
          return pubkey_id)
          app
  ]

-- `POST /api/anchor`
unfoldable pub anchor_ledger :
    {W : Type 0} ⦃c : Crypto⦄ → ℕ → (Bytes → Option TimestampToken) → String → H W AnchorRecord
anchor_ledger now authority detail app =
    let (row, store) = anchor_current_root now authority detail app.ledger app.anchor_store in
    (reply row, record app { anchor_store = store })

-- `GET /api/anchors`
unfoldable pub list_anchors : {W : Type 0} → H W (ℕ × List AnchorRecord)
list_anchors app = (reply (length app.anchor_store.records, app.anchor_store.records), app)
