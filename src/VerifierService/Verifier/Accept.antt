-- ===== src/VerifierService/Verifier/Accept.antt =====
-- Exactly when an envelope is accepted.
use agent_of_record.Common.{
  ℕ, ◌+◌, ◌*◌, ◌≤◌, String, ◌≡◌, refl, ◌↔◌, inl, inr, true, false, Option, none, some, arith,
  eq_iff, Bool-cases, Option-cases, ◌==◌, nat_eq, string_eq, list_eq, option_eq, ok, >>=-eq-ok,
  Result-cases,
}
use agent_of_record.CryptoCore.{Crypto, Bytes, PublicKey, hash_payload, verify}
use agent_of_record.VerifierService.Models.{SignedEnvelope, signing_payload}
use agent_of_record.VerifierService.NonceStore.{has_seen}
use agent_of_record.CryptoCore.Base64.{standard, b64decode}
use agent_of_record.Calendar.{Calendar}
use agent_of_record.VerifierService.Verifier.{
  Readings, StoredKey, SignatureVerifier, accepted, load_registered_public_key, parse_timestamp,
  timestamp_is_fresh, check_signature, check_key, verify_envelope,
}

-- The timestamp has a time zone, and is at most the freshness away from the wall clock.
pub record IsFresh (calendar : Calendar) (seconds now : ℕ) (timestamp : String) : Type 0 where
  pub instant : ℕ
  pub parsed : parse_timestamp calendar timestamp ≡ some instant
  pub not_old : now ≤ instant + seconds * 1000000
  pub not_early : instant ≤ now + seconds * 1000000

pub timestamp_is_fresh_iff :
    (calendar : Calendar) (seconds now : ℕ) (timestamp : String)
    → (timestamp_is_fresh calendar seconds now timestamp ≡ true)
      ↔ IsFresh calendar seconds now timestamp
unfolding timestamp_is_fresh
timestamp_is_fresh_iff calendar seconds now timestamp = (
  λ h. elim (Option-cases (parse_timestamp calendar timestamp)) [
    | inl missing ↦ absurd (ground arith)
    | inr (t, e) ↦ record {
      instant = t;
      parsed = e;
      not_old = ground arith;
      not_early = ground arith;
    }
  ],
  λ f. rw (f.parsed, timestamp_is_fresh) (let a = f.not_old in let b = f.not_early in ground arith),
)

module _ ⦃c : Crypto⦄ where
  -- The signature is the key's over the SHA3-256 digest of the five signed fields.
  pub record IsSigned (envelope : SignedEnvelope) (key : PublicKey) : Type 0 where
    pub algorithm : envelope.signature_algorithm ≡ "ECDSA-P256-SHA256"
    pub signature : Bytes
    pub decoded : b64decode standard envelope.signature ≡ some signature
    pub digest : Bytes
    pub hashed : hash_payload (signing_payload envelope) ≡ ok digest
    pub verified : verify key signature digest ≡ ok true

  check_signature_iff :
      (envelope : SignedEnvelope) (key : PublicKey)
      → (check_signature envelope key ≡ ok accepted) ↔ IsSigned envelope key
  unfolding check_signature
  check_signature_iff envelope key = (
    λ h. elim (Bool-cases (envelope.signature_algorithm == "ECDSA-P256-SHA256")) [
      | inr other ↦ absurd (ground arith)
      | inl same ↦ elim (Option-cases (b64decode standard envelope.signature)) [
        | inl missing ↦ absurd (ground arith)
        | inr (sig, e) ↦
            (let chain = rw (same, e) at h in
              let (d, hd, rest) = >>=-eq-ok (hash_payload (signing_payload envelope)) _ chain in
              let (b, hb, last) = >>=-eq-ok (verify key sig d) _ rest in
              record {
                algorithm = (eq_iff envelope.signature_algorithm "ECDSA-P256-SHA256").0 same;
                signature = sig;
                decoded = e;
                digest = d;
                hashed = hd;
                verified = ground arith;
              })
      ]
    ],
    λ s.
        rw
          (
            (eq_iff envelope.signature_algorithm "ECDSA-P256-SHA256").1 s.algorithm,
            s.decoded,
            s.hashed,
            s.verified,
          )
          refl,
  )

  -- The key that an identifier stands for has signed the envelope.
  abbrev HasKey : SignedEnvelope → Option StoredKey → Type 0
  HasKey envelope o =
      (stored : StoredKey) × (o ≡ some stored)
      × (key : PublicKey) × (load_registered_public_key stored ≡ ok key)
      × IsSigned envelope key

  check_key-HasKey :
      (envelope : SignedEnvelope) (o : Option StoredKey)
      → check_key envelope o ≡ ok accepted
      → HasKey envelope o
  unfolding check_key
  check_key-HasKey envelope none h = absurd (ground arith)
  check_key-HasKey envelope (some stored) h =
      elim (Result-cases (load_registered_public_key stored)) [
        | inl (e, failed) ↦ absurd (ground arith)
        | inr (key, loaded) ↦
            (stored, refl, key, loaded, (check_signature_iff envelope key).0 (ground arith))
      ]

  HasKey-check_key :
      (envelope : SignedEnvelope) (o : Option StoredKey)
      → HasKey envelope o
      → check_key envelope o ≡ ok accepted
  unfolding check_key
  HasKey-check_key envelope o (stored, known, key, loaded, signed) =
      let good = (check_signature_iff envelope key).1 signed in ground (arith, good)

  -- What an accepted envelope has passed.
  pub record IsAcceptable (calendar : Calendar) (at : Readings) (envelope : SignedEnvelope)
      (v : SignatureVerifier) : Type 0 where
    pub fresh : IsFresh calendar v.freshness_seconds at.wall envelope.timestamp
    pub unseen : (has_seen at.seen_sweep envelope.nonce v.nonce_store).0 ≡ false
    pub stored : StoredKey
    pub known : v.pubkey_store.get_pubkey envelope.pubkey_id ≡ some stored
    pub key : PublicKey
    pub loaded : load_registered_public_key stored ≡ ok key
    pub signed : IsSigned envelope key

  -- `verify_envelope` accepts an envelope exactly when its timestamp is fresh, its nonce is not
  -- remembered, its key is known and loads, and its signature is that key's over the five signed
  -- fields.
  pub verify_envelope_accepts_iff :
      (calendar : Calendar) (at : Readings) (envelope : SignedEnvelope) (v : SignatureVerifier)
      → ((verify_envelope calendar at envelope v).0 ≡ ok accepted)
        ↔ IsAcceptable calendar at envelope v
  unfolding verify_envelope
  verify_envelope_accepts_iff calendar at envelope v = (
    λ h.
        let fresh : timestamp_is_fresh calendar v.freshness_seconds at.wall envelope.timestamp
            ≡ true =
          ground arith in
        let unseen : (has_seen at.seen_sweep envelope.nonce v.nonce_store).0 ≡ false =
          ground arith in
        let (stored, known, key, loaded, signed) =
          check_key-HasKey envelope (v.pubkey_store.get_pubkey envelope.pubkey_id) (ground arith) in
        record {
          fresh =
              (timestamp_is_fresh_iff calendar v.freshness_seconds at.wall envelope.timestamp).0
                fresh;
          unseen = unseen;
          stored = stored;
          known = known;
          key = key;
          loaded = loaded;
          signed = signed;
        },
    λ a.
        let fresh =
          (timestamp_is_fresh_iff calendar v.freshness_seconds at.wall envelope.timestamp).1
            a.fresh in
        let good =
          HasKey-check_key envelope (v.pubkey_store.get_pubkey envelope.pubkey_id)
            (a.stored, a.known, a.key, a.loaded, a.signed) in
        let unseen = a.unseen in ground (arith, fresh, unseen, good),
  )
