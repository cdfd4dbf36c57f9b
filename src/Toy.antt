-- ===== src/Toy.antt =====
-- A small stand-in for the third-party code, on which the theorems are run. It meets the laws that
-- the theorems assume.
use agent_of_record.Common.{
  ℕ, zero, suc, ◌+◌, ◌*◌, ◌/◌, ◌%◌, ◌<◌, String, ◌≡◌, refl, sym, ap, ◌∙◌, true, Option, none, some,
  [], ◌∷◌, ◌++◌, append-nil, arith, if◌then◌else◌, ◌==◌, nat_eq, string_eq, list_eq, option_eq,
  list_beq, list_beq_iff, length, append_inj,
}
use text.Mathlib.TextEquality.{Char-path}
use Prim.Native.Char.{code}
use agent_of_record.CryptoCore.{Crypto, Bytes, PublicKey, elliptic, secp256r1}
use agent_of_record.CryptoCore.Hex.{IsBytes}
use agent_of_record.CryptoCore.Laws.{IsSha3, IsJcs, IsEd25519}
use agent_of_record.Json.{
  Json, Items, Fields, pos, negsuc, null, bool, int, str, arr, obj, nil, cons, end, field,
  two_fields,
}

abbrev pub codes : String → Bytes
codes String.[] = []
codes (String.◌∷◌ ch s) = code ch ∷ codes s

-- Each part of an object is written behind its length.
abbrev mutual
  pub encode : Json → Bytes
  encode null = 0 ∷ []
  encode (bool b) = 1 ∷ (if b then 1 else 0) ∷ []
  encode (int (pos n)) = 2 ∷ n ∷ []
  encode (int (negsuc n)) = 3 ∷ n ∷ []
  encode (str s) = 4 ∷ codes s
  encode (arr xs) = 5 ∷ encode_items xs
  encode (obj fs) = 6 ∷ encode_fields fs

  pub encode_items : Items → Bytes
  encode_items nil = []
  encode_items (cons x xs) = length (encode x) ∷ (encode x ++ encode_items xs)

  pub encode_fields : Fields → Bytes
  encode_fields end = []
  encode_fields (field k v fs) = length (encode v) ∷ (encode v ++ encode_fields fs)

abbrev pub checksum : ℕ → Bytes → ℕ
checksum acc [] = acc
checksum acc (b ∷ bs) = checksum ((acc * 31 + b + 7) % 65521) bs

abbrev pub replicate : ℕ → ℕ → Bytes
replicate zero b = []
replicate (suc n) b = b ∷ replicate n b

-- The digest's bytes are those of the checksum, in turns.
abbrev pub toy_digest : Bytes → Bytes
toy_digest b = let n = checksum 1 b in (n / 256) % 256 ∷ replicate 31 (n % 256)

abbrev pub toy_signature : Bytes → Bytes → Bytes
toy_signature k m = replicate 64 (checksum 3 (k ++ m) % 256)

abbrev pub toy_load : Bytes → Option PublicKey
toy_load [] = none
toy_load (b ∷ bs) = if b == 48 then some (elliptic secp256r1 1 (length bs)) else none

instance abbrev pub toy : Crypto
toy = record {
  dumps = λ v. some (encode v);
  sha3_256 = toy_digest;
  load_der_public_key = toy_load;
  public_bytes = λ k. 9 ∷ k;
  ed25519_sign = λ k m. toy_signature (9 ∷ k) m;
  ed25519_verify = λ raw s m. list_beq s (toy_signature raw m);
  ecdsa_verify = λ x y r s m. true;
}

length-replicate : (n b : ℕ) → length (replicate n b) ≡ n
length-replicate zero b = refl
length-replicate (suc n) b = ap suc (length-replicate n b)

replicate-IsBytes : (n b : ℕ) → b < 256 → IsBytes (replicate n b)
replicate-IsBytes zero b h = tt
replicate-IsBytes (suc n) b h = (h, replicate-IsBytes n b h)

pub toy-IsSha3 : IsSha3 toy
toy-IsSha3 = record {
  size = λ b. ap suc (length-replicate 31 (checksum 1 b % 256));
  bytes = λ b. (omega arith, replicate-IsBytes 31 (checksum 1 b % 256) (omega arith));
}

pub toy-IsEd25519 : IsEd25519 toy
toy-IsEd25519 = record {
  verifies = λ k m. (list_beq_iff (toy_signature (9 ∷ k) m) (toy_signature (9 ∷ k) m)).1 refl;
  bytes = λ k m. replicate-IsBytes 64 (checksum 3 ((9 ∷ k) ++ m) % 256) (omega arith);
}

append_cancel : (xs ys : Bytes) → xs ++ [] ≡ ys ++ [] → xs ≡ ys
append_cancel xs ys h = sym (append-nil xs) ∙ h ∙ append-nil ys

codes-injective : (s t : String) → codes s ≡ codes t → s ≡ t
codes-injective String.[] String.[] h = refl
codes-injective String.[] (String.◌∷◌ d t) h = cc h
codes-injective (String.◌∷◌ ch s) String.[] h = cc h
codes-injective (String.◌∷◌ ch s) (String.◌∷◌ d t) h =
    cc (Char-path ch d (cc h), codes-injective s t (cc h))

toy_parts :
    (v w : Json) (s t : String) (b : Bytes)
    → some (encode (two_fields "content" v "prev_hash" (str s))) ≡ some b
    → some (encode (two_fields "content" w "prev_hash" (str t))) ≡ some b
    → (some (encode v) ≡ some (encode w)) × (s ≡ t)
toy_parts v w s t b p q =
    let same : encode (two_fields "content" v "prev_hash" (str s))
        ≡ encode (two_fields "content" w "prev_hash" (str t)) =
      cc (p, q) in
    let n : length (encode v) ≡ length (encode w) = cc same in
    let (front, back) =
      append_inj (encode v) (encode_fields (field "prev_hash" (str s) end)) (encode w)
        (encode_fields (field "prev_hash" (str t) end)) n (cc same) in
    (ap some front, codes-injective s t (append_cancel (codes s) (codes t) (cc back)))

pub toy-IsJcs : IsJcs toy
toy-IsJcs = record { leaf_parts = toy_parts }
