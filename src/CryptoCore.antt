-- ===== src/CryptoCore.antt =====
-- crypto_core/canonical.py, hashing.py and signing.py. What the third-party packages do (rfc8785,
-- the SHA3 digest of hashlib's C code, and the keys of `cryptography`) is the parameter `Crypto`.
pub mod Hex
pub mod Base64
pub mod Laws
pub mod Binding
mod Tests
use agent_of_record.Common.{
  ℕ, ◌+◌, ◌*◌, Bool, false, Option, List, [], ◌∷◌, if◌then◌else◌, ◌==◌, nat_eq, string_eq, list_eq,
  option_eq, length, take, drop, value_error, type_error, Result, ok, err, ◌>>=◌, ◌>>◌, or_raise,
}
use agent_of_record.Json.{Json, is_dict}

-- A byte is a number; `IsBytes` below says that each is less than 256.
abbrev pub Bytes : Type 0
Bytes = List ℕ

-- What `cryptography` parses a public key to: an Ed25519 key by its raw bytes, a point of an
-- elliptic curve, or a key of another kind.
pub data Curve : Type 0 where
  secp256r1 other_curve : Curve

pub data PublicKey : Type 0 where
  ed25519 : Bytes → PublicKey
  elliptic : Curve → ℕ → ℕ → PublicKey
  other_key : PublicKey

pub record Crypto : Type 0 where
  -- `rfc8785.dumps`; `none` is a `CanonicalizationError`, which is a `ValueError`
  pub dumps : Json → Option Bytes
  -- `hashlib.sha3_256(data).digest()`
  pub sha3_256 : Bytes → Bytes
  -- `serialization.load_der_public_key`; `none` is a `ValueError`. Keys for which it raises
  -- `UnsupportedAlgorithm` do not occur.
  pub load_der_public_key : Bytes → Option PublicKey
  -- the raw public key of an Ed25519 private key, which is its seed
  pub public_bytes : Bytes → Bytes
  pub ed25519_sign : Bytes → Bytes → Bytes
  -- `public_key.verify(signature, data)`; `false` is an `InvalidSignature`
  pub ed25519_verify : Bytes → Bytes → Bytes → Bool
  -- the same with `encode_dss_signature(r, s)` and ECDSA over SHA-256, for the point (x, y)
  pub ecdsa_verify : ℕ → ℕ → ℕ → ℕ → Bytes → Bool

-- `int.from_bytes(b, "big")`
unfoldable pub from_bytes_big : ℕ → Bytes → ℕ
from_bytes_big acc [] = acc
from_bytes_big acc (b ∷ bs) = from_bytes_big (acc * 256 + b) bs

module _ ⦃c : Crypto⦄ where
  unfoldable pub canonicalize : Json → Result Bytes
  canonicalize data_ =
      if is_dict data_
      then or_raise (c.dumps data_) (value_error "CanonicalizationError")
      else err (type_error "data must be a dictionary")

  unfoldable pub hash_sha3_256 : Bytes → Bytes
  hash_sha3_256 bytes = c.sha3_256 bytes

  unfoldable pub hash_payload : Json → Result Bytes
  unfolding canonicalize hash_sha3_256
  hash_payload data_ = do bytes ← canonicalize data_; ok (hash_sha3_256 bytes)

  unfoldable pub sign : Bytes → Bytes → Bytes
  sign private_key bytes = c.ed25519_sign private_key bytes

  unfoldable pub serialize_public_key_raw : Bytes → Bytes
  serialize_public_key_raw private_key = c.public_bytes private_key

  -- A key of another kind is a `TypeError`.
  unfoldable pub verify : PublicKey → Bytes → Bytes → Result Bool
  unfolding from_bytes_big
  verify (ed25519 raw) signature bytes = ok (c.ed25519_verify raw signature bytes)
  verify (elliptic secp256r1 x y) signature bytes = ok (
      if length signature == 64
      then (let r = from_bytes_big 0 (take 32 signature) in
          let s = from_bytes_big 0 (drop 32 signature) in c.ecdsa_verify x y r s bytes)
      else false)
  verify (elliptic other_curve x y) signature bytes = ok false
  verify other_key signature bytes =
      err (type_error "public_key must be an Ed25519PublicKey or P-256 public key")
