-- ===== src/CryptoCore/Laws.antt =====
-- What the proofs may assume of the third-party code: the size of a SHA3-256 digest, and that RFC
-- 8785 keeps apart what a ledger leaf holds. That digests differ is never assumed: a theorem gives
-- two byte strings that collide instead, and says which inputs of the digest they are.
use agent_of_record.Common.{
  String, ◌≡◌, ◌⊎◌, inl, inr, true, some, nat_eq, string_eq, list_eq, option_eq, eq-or-ne, length,
}
use agent_of_record.CryptoCore.Hex.{IsBytes}
use agent_of_record.CryptoCore.{Crypto, Bytes}
use agent_of_record.Json.{Json, str, two_fields}

-- A SHA3-256 digest has 32 bytes.
pub record IsSha3 (c : Crypto) : Type 0 where
  pub size : (b : Bytes) → length (c.sha3_256 b) ≡ 32
  pub bytes : (b : Bytes) → IsBytes (c.sha3_256 b)

-- Canonical forms of two objects with these two keys are equal only if the parts' are.
pub record IsJcs (c : Crypto) : Type 0 where
  pub leaf_parts :
      (v w : Json) (s t : String) (b : Bytes)
      → c.dumps (two_fields "content" v "prev_hash" (str s)) ≡ some b
      → c.dumps (two_fields "content" w "prev_hash" (str t)) ≡ some b
      → (c.dumps v ≡ c.dumps w) × (s ≡ t)

-- Two byte strings with one digest, one from those that `P` picks out and one from those that `Q`
-- picks out.
pub record Collision (c : Crypto) (P Q : Bytes → Type 0) : Type 0 where
  pub left : Bytes
  pub right : Bytes
  pub left_from : P left
  pub right_from : Q right
  pub differ : ¬ (left ≡ right)
  pub same : c.sha3_256 left ≡ c.sha3_256 right

-- Equal digests come from equal bytes, or are a collision.
pub eq-or-Collision :
    (c : Crypto) (P Q : Bytes → Type 0) (a b : Bytes)
    → P a
    → Q b
    → c.sha3_256 a ≡ c.sha3_256 b
    → (a ≡ b) ⊎ Collision c P Q
eq-or-Collision c P Q a b pa qb h = elim (eq-or-ne a b) [
  | inl same ↦ inl same
  | inr other ↦
      inr
        (record { left = a; right = b; left_from = pa; right_from = qb; differ = other; same = h })
]

pub Collision-map :
    {c : Crypto} {P Q P' Q' : Bytes → Type 0}
    → ((b : Bytes) → P b → P' b)
    → ((b : Bytes) → Q b → Q' b)
    → Collision c P Q
    → Collision c P' Q'
Collision-map f g k = record {
  left = k.left;
  right = k.right;
  left_from = f k.left k.left_from;
  right_from = g k.right k.right_from;
  differ = k.differ;
  same = k.same;
}

-- An Ed25519 signature verifies under the signer's public key, and is a byte string.
pub record IsEd25519 (c : Crypto) : Type 0 where
  pub verifies : (k m : Bytes) → c.ed25519_verify (c.public_bytes k) (c.ed25519_sign k m) m ≡ true
  pub bytes : (k m : Bytes) → IsBytes (c.ed25519_sign k m)
