-- ===== src/PoiGenerator/Poi/Signature.antt =====
-- What a signed proof binds, and that it verifies.
use agent_of_record.Common.{
  String, ◌≡◌, refl, ap, ◌∙◌, ◌↔◌, true, Option, none, some, arith, nat_eq, string_eq, list_eq,
  option_eq, ok, >>=-eq-ok,
}
use agent_of_record.CryptoCore.{
  Crypto, Bytes, PublicKey, ed25519, serialize_public_key_raw, sign, verify,
}
use agent_of_record.CryptoCore.Hex.{hex, IsBytes, fromhex-hex}
use agent_of_record.CryptoCore.Laws.{IsEd25519}
use agent_of_record.PoiGenerator.AgentKeys.{agent_pubkey_id}
use agent_of_record.PoiGenerator.Models.{ProofOfIntent, signing_payload}
use agent_of_record.PoiGenerator.Poi.{poi_signing_hash, sign_poi, verify_poi_signature}
use agent_of_record.Json.{opt_str}

abbrev pub unsigned : ProofOfIntent → ProofOfIntent
unsigned p = record p { agent_signature = none }

opt_str-injective : (x y : Option String) → opt_str x ≡ opt_str y → x ≡ y
opt_str-injective none none h = refl
opt_str-injective none (some y) h = cc h
opt_str-injective (some x) none h = cc h
opt_str-injective (some x) (some y) h = cc h

-- Two proofs have the same signed payload exactly when they agree on every field but the signature.
pub signing_payload_binds :
    (p q : ProofOfIntent) → (signing_payload p ≡ signing_payload q) ↔ (unsigned p ≡ unsigned q)
unfolding signing_payload
signing_payload_binds p q = (
  λ h. ground (
    arith,
    opt_str-injective p.agent_type q.agent_type,
    opt_str-injective p.agent_id q.agent_id,
    opt_str-injective p.action_type q.action_type,
    opt_str-injective p.policy_decision q.policy_decision,
    opt_str-injective p.agent_pubkey_id q.agent_pubkey_id,
  ),
  λ h. ap signing_payload h,
)

module _ ⦃c : Crypto⦄ where
  -- The proof as it is signed.
  abbrev pub keyed : ProofOfIntent → Bytes → ProofOfIntent
  keyed poi key = record poi {
    agent_pubkey_id = some (agent_pubkey_id key);
    agent_signature = none;
  }

  poi_signing_hash-unsigned :
      (p : ProofOfIntent) → poi_signing_hash p ≡ poi_signing_hash (unsigned p)
  unfolding poi_signing_hash signing_payload
  poi_signing_hash-unsigned p = refl

  verify_poi_signature-hex :
      (q : ProofOfIntent) (key : PublicKey) (signature digest : Bytes) {id : String}
      → IsBytes signature
      → q.agent_signature ≡ some (hex signature)
      → q.agent_pubkey_id ≡ some id
      → poi_signing_hash q ≡ ok digest
      → verify_poi_signature q key ≡ verify key signature digest
  unfolding verify_poi_signature
  verify_poi_signature-hex q key signature digest bytes text id_ hashed =
      ground (arith, fromhex-hex signature bytes)

  signed_bytes : IsEd25519 c → (k m : Bytes) → IsBytes (sign k m)
  unfolding sign
  signed_bytes ed = ed.bytes

  signed_verifies :
      IsEd25519 c
      → (k m : Bytes) → verify (ed25519 (serialize_public_key_raw k)) (sign k m) m ≡ ok true
  unfolding sign verify serialize_public_key_raw
  signed_verifies ed k m = ap ok (ed.verifies k m)

  -- A proof that `sign_poi` returns keeps every other field, names the signer's key, and verifies
  -- under the signer's public key.
  pub verify_poi_signature-sign_poi :
      (poi signed : ProofOfIntent) (key : Bytes)
      → IsEd25519 c
      → sign_poi poi key ≡ ok signed
      → (unsigned signed
          ≡ record poi { agent_signature = none; agent_pubkey_id = some (agent_pubkey_id key) })
        × (verify_poi_signature signed (ed25519 (serialize_public_key_raw key)) ≡ ok true)
  unfolding sign_poi
  verify_poi_signature-sign_poi poi signed key ed h =
      let (digest, ed_, last) = >>=-eq-ok (poi_signing_hash (keyed poi key)) _ h in
      let same : record (keyed poi key) { agent_signature = some (hex (sign key digest)) }
          ≡ signed =
        cc last in
      rw (← same) (
        refl,
        verify_poi_signature-hex _ (ed25519 (serialize_public_key_raw key)) (sign key digest) digest
              (signed_bytes ed key digest) refl refl
              (poi_signing_hash-unsigned
                  (record (keyed poi key) { agent_signature = some (hex (sign key digest)) })
                ∙ ed_)
            ∙ signed_verifies ed key digest,
      )
