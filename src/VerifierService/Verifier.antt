-- ===== src/VerifierService/Verifier.antt =====
-- verifier_service/verifier.py. The readings of the clocks that one call makes are a record.
pub mod Accept
pub mod Replay
mod Tests
use agent_of_record.Common.{
  ℕ, ◌+◌, ◌-◌, ◌*◌, String, Bool, true, false, not, Option, none, some, leb, if◌then◌else◌, ◌==◌,
  nat_eq, string_eq, list_eq, option_eq, length, value_error, type_error, Result, ok, err, ◌>>=◌,
}
use Prim.Native.Char.{code}
use Prim.Native.String.{◌++◌ as text_append}
use agent_of_record.CryptoCore.{
  Crypto, Bytes, PublicKey, ed25519, elliptic, other_key, hash_payload, verify,
}
use agent_of_record.CryptoCore.Base64.{standard, b64decode}
use agent_of_record.Calendar.{Calendar, aware, naive}
use agent_of_record.VerifierService.Models.{SignedEnvelope, signing_payload}
use agent_of_record.VerifierService.NonceStore.{NonceStore, has_seen, mark_seen}

-- What a key store hands out: key bytes, or a key that is parsed already.
pub data StoredKey : Type 0 where
  key_bytes : Bytes → StoredKey
  parsed_key : PublicKey → StoredKey

-- The interface `PublicKeyLookup`, at the time of one call.
pub record PublicKeyLookup : Type 0 where
  pub get_pubkey : String → Option StoredKey

pub record VerificationResult : Type 0 where
  pub valid : Bool
  pub reason : Option String

abbrev pub rejected : String → VerificationResult
rejected reason = record { valid = false; reason = some reason }

abbrev pub accepted : VerificationResult
accepted = record { valid = true; reason = none }

pub record SignatureVerifier : Type 0 where
  pub pubkey_store : PublicKeyLookup
  pub nonce_store : NonceStore
  pub freshness_seconds : ℕ

-- The clocks as one call of `verify_envelope` reads them, in order.
pub record Readings : Type 0 where
  pub wall : ℕ
  pub seen_sweep : ℕ
  pub mark_sweep : ℕ
  pub mark : ℕ

-- `timestamp.replace("Z", "+00:00")`
unfoldable pub replace_z : String → String
replace_z String.[] = String.[]
replace_z (String.◌∷◌ c s) =
    let rest = replace_z s in if code c == 90 then text_append "+00:00" rest else String.◌∷◌ c rest

unfoldable pub supported : PublicKey → Bool
supported (ed25519 raw) = true
supported (elliptic curve x y) = true
supported other_key = false

-- The answer's key for what `load_der_public_key` made of the bytes.
unfoldable pub load_parsed : Bytes → Option PublicKey → Result PublicKey
unfolding supported
load_parsed stored none =
    if length stored == 32
    then ok (ed25519 stored)
    else err (value_error "could not deserialize key data")
load_parsed stored (some key) =
    if supported key then ok key else err (value_error "unsupported registered public key")

module _ ⦃c : Crypto⦄ where
  unfoldable pub load_registered_public_key : StoredKey → Result PublicKey
  unfolding supported load_parsed
  load_registered_public_key (parsed_key key) =
      if supported key then ok key else err (type_error "a bytes-like object is required")
  load_registered_public_key (key_bytes stored) = load_parsed stored (c.load_der_public_key stored)

-- An instant that is out of the range of `datetime` once it is in UTC, an `OverflowError`, does not occur.
unfoldable pub parse_timestamp : Calendar → String → Option ℕ
unfolding replace_z
parse_timestamp calendar timestamp = elim (calendar.fromisoformat (replace_z timestamp)) [
  | none ↦ none
  | some naive ↦ none
  | some (aware instant) ↦ some instant
]

-- `abs((now - parsed).total_seconds()) <= self._freshness_seconds`
unfoldable pub timestamp_is_fresh : Calendar → ℕ → ℕ → String → Bool
timestamp_is_fresh calendar freshness_seconds now timestamp =
    elim (parse_timestamp calendar timestamp) [
      | none ↦ false
      | some parsed ↦ leb (now - parsed + (parsed - now)) (freshness_seconds * 1000000)
    ]

module _ ⦃c : Crypto⦄ where
  -- From the signature algorithm on, with the key at hand.
  unfoldable pub check_signature : SignedEnvelope → PublicKey → Result VerificationResult
  check_signature envelope public_key =
      if not (envelope.signature_algorithm == "ECDSA-P256-SHA256")
      then ok (rejected "signature_mismatch")
      else elim (b64decode standard envelope.signature) [
        | none ↦ ok (rejected "signature_mismatch")
        | some signature ↦ do
          payload_hash ← hash_payload (signing_payload envelope)
          good ← verify public_key signature payload_hash
          ok (if good then accepted else rejected "signature_mismatch")
      ]

  -- From the key lookup on.
  unfoldable pub check_key : SignedEnvelope → Option StoredKey → Result VerificationResult
  check_key envelope none = ok (rejected "unknown_pubkey")
  check_key envelope (some stored) = elim (load_registered_public_key stored) [
    | err e ↦ ok (rejected "unknown_pubkey")
    | ok public_key ↦ check_signature envelope public_key
  ]

  unfoldable pub verify_envelope :
      Calendar
      → Readings
      → SignedEnvelope
      → SignatureVerifier
      → Result VerificationResult × SignatureVerifier
  verify_envelope calendar at envelope v =
      if not (timestamp_is_fresh calendar v.freshness_seconds at.wall envelope.timestamp)
      then (ok (rejected "timestamp_stale"), v)
      else (let (seen, nonces) = has_seen at.seen_sweep envelope.nonce v.nonce_store in
          let marked = mark_seen at.mark_sweep at.mark envelope.nonce nonces in
          if seen then (ok (rejected "nonce_reused"), record v { nonce_store = nonces }) else (
            check_key envelope (v.pubkey_store.get_pubkey envelope.pubkey_id),
            record v { nonce_store = marked },
          ))
