-- ===== src/VerifierService/Verifier/Replay.antt =====
-- No envelope is accepted twice: inside the TTL the nonce is remembered, and after it the timestamp
-- is stale.
use agent_of_record.Common.{
  ℕ, ◌+◌, ◌*◌, ◌≤◌, ◌<◌, String, ◌≡◌, refl, sym, ap, ◌∙◌, inl, inr, Bool, false, not, List, [], ◌∷◌,
  arith, leb, leb→le, if◌then◌else◌, Bool-cases, nat_eq, string_eq, list_eq, option_eq, All, Result,
  ok,
}
use mathlib.Core.Path.{subst}
use agent_of_record.CryptoCore.{Crypto}
use agent_of_record.VerifierService.Models.{SignedEnvelope}
use agent_of_record.VerifierService.NonceStore.{NonceStore, sweep_expired, has_seen, mark_seen}
use agent_of_record.VerifierService.NonceStore.Window.{
  Remembers, mark_seen-Remembers, sweep_expired-Remembers, mark_seen-keeps, has_seen-Remembers,
}
use agent_of_record.Calendar.{Calendar}
use agent_of_record.VerifierService.Verifier.{
  Readings, PublicKeyLookup, SignatureVerifier, VerificationResult, accepted, timestamp_is_fresh,
  verify_envelope,
}
use agent_of_record.VerifierService.Verifier.Accept.{
  timestamp_is_fresh_iff, verify_envelope_accepts_iff,
}

-- One call: what the clocks read, the keys that the registry has then, and the envelope.
pub record Call : Type 0 where
  pub at : Readings
  pub keys : PublicKeyLookup
  pub envelope : SignedEnvelope

leb-false : (a b : ℕ) → leb a b ≡ false → b < a
leb-false a b h = ground arith

module _ ⦃c : Crypto⦄ (calendar : Calendar) where
  abbrev pub answer : Call → SignatureVerifier → Result VerificationResult
  answer k v = (verify_envelope calendar k.at k.envelope (record v { pubkey_store = k.keys })).0

  abbrev pub after : Call → SignatureVerifier → SignatureVerifier
  after k v = (verify_envelope calendar k.at k.envelope (record v { pubkey_store = k.keys })).1

  unfoldable pub serve : List Call → SignatureVerifier → SignatureVerifier
  serve [] v = v
  serve (k ∷ calls) v = serve calls (after k v)

  -- The two settings never change.
  settings-after :
      (k : Call) (v : SignatureVerifier)
      → ((after k v).nonce_store.ttl_seconds ≡ v.nonce_store.ttl_seconds)
        × ((after k v).freshness_seconds ≡ v.freshness_seconds)
  unfolding verify_envelope has_seen mark_seen
  settings-after k v = ground arith

  settings-serve :
      (calls : List Call) (v : SignatureVerifier)
      → ((serve calls v).nonce_store.ttl_seconds ≡ v.nonce_store.ttl_seconds)
        × ((serve calls v).freshness_seconds ≡ v.freshness_seconds)
  unfolding serve
  settings-serve [] v = (refl, refl)
  settings-serve (k ∷ calls) v =
      let (a, b) = settings-serve calls (after k v) in
      let (d, e) = settings-after k v in (a ∙ d, b ∙ e)

  -- The clock readings of a call lie between two times.
  abbrev pub IsBetween : ℕ → ℕ → Call → Type 0
  IsBetween since until k =
      (since ≤ k.at.mark) × (k.at.seen_sweep ≤ until) × (k.at.mark_sweep ≤ until)

  abbrev is_fresh : Call → SignatureVerifier → Bool
  is_fresh k v = timestamp_is_fresh calendar v.freshness_seconds k.at.wall k.envelope.timestamp

  abbrev looked_up : Call → SignatureVerifier → Bool × NonceStore
  looked_up k v = has_seen k.at.seen_sweep k.envelope.nonce v.nonce_store

  -- What a call leaves in the nonce store, by how far it came.
  nonce_store-after :
      (k : Call) (v : SignatureVerifier)
      → (after k v).nonce_store ≡ (
          if not (is_fresh k v)
          then v.nonce_store
          else if (looked_up k v).0
          then (looked_up k v).1
          else mark_seen k.at.mark_sweep k.at.mark k.envelope.nonce (looked_up k v).1)
  unfolding verify_envelope
  nonce_store-after k v = ground arith

  after-Remembers :
      (since until : ℕ) (nonce : String) (k : Call) (v : SignatureVerifier)
      → until ≤ since + v.nonce_store.ttl_seconds * 1000000
      → IsBetween since until k
      → Remembers since nonce v.nonce_store
      → Remembers since nonce (after k v).nonce_store
  unfolding verify_envelope
  after-Remembers since until nonce k v inside (a, b, d) r =
      let swept =
        sweep_expired-Remembers since k.at.seen_sweep nonce v.nonce_store (omega arith) r in
      let marked =
        mark_seen-keeps since k.at.mark_sweep k.at.mark nonce k.envelope.nonce
          (sweep_expired k.at.seen_sweep v.nonce_store) (unfold sweep_expired in omega arith) a
          swept in
      let nonces = (has_seen k.at.seen_sweep k.envelope.nonce v.nonce_store).1 in
      let swept' : Remembers since nonce nonces = unfold has_seen in swept in
      let marked' : Remembers since nonce
          (mark_seen k.at.mark_sweep k.at.mark k.envelope.nonce nonces) =
        unfold has_seen in marked in
      subst (Remembers since nonce) (sym (nonce_store-after k v))
        (elim (Bool-cases (is_fresh k v)) [
          | inr stale ↦ rw stale r
          | inl fresh ↦ elim (Bool-cases (looked_up k v).0) [
            | inl seen ↦ rw (fresh, seen) swept'
            | inr new ↦ rw (fresh, new) marked'
          ]
        ])

  serve-Remembers :
      (since until : ℕ) (nonce : String) (calls : List Call) (v : SignatureVerifier)
      → until ≤ since + v.nonce_store.ttl_seconds * 1000000
      → All (IsBetween since until) calls
      → Remembers since nonce v.nonce_store
      → Remembers since nonce (serve calls v).nonce_store
  unfolding serve
  serve-Remembers since until nonce [] v inside h r = r
  serve-Remembers since until nonce (k ∷ calls) v inside h r =
      serve-Remembers since until nonce calls (after k v) (rw (settings-after k v).0 inside) h.1
        (after-Remembers since until nonce k v inside h.0 r)

  -- An accepted call has marked its nonce.
  accepted-Remembers :
      (k : Call) (v : SignatureVerifier)
      → answer k v ≡ ok accepted
      → Remembers k.at.mark k.envelope.nonce (after k v).nonce_store
  unfolding verify_envelope
  accepted-Remembers k v h =
      let a =
        (verify_envelope_accepts_iff calendar k.at k.envelope
            (record v { pubkey_store = k.keys })).0
          h in
      subst (Remembers k.at.mark k.envelope.nonce) (sym (nonce_store-after k v)) (
        rw
          (
            (timestamp_is_fresh_iff calendar v.freshness_seconds k.at.wall k.envelope.timestamp).1
                a.fresh,
            a.unseen,
          )
          (mark_seen-Remembers k.at.mark_sweep k.at.mark k.envelope.nonce
            (has_seen k.at.seen_sweep k.envelope.nonce v.nonce_store).1))

  -- After an accepted call, and any calls up to the next one with that nonce, inside the TTL that
  -- next one is not accepted, whoever signed it.
  pub nonce_not_accepted_again :
      (first second : Call) (calls : List Call) (v : SignatureVerifier)
      → answer first v ≡ ok accepted
      → first.envelope.nonce ≡ second.envelope.nonce
      → All (IsBetween first.at.mark second.at.seen_sweep) calls
      → second.at.seen_sweep ≤ first.at.mark + v.nonce_store.ttl_seconds * 1000000
      → ¬ (answer second (serve calls (after first v)) ≡ ok accepted)
  nonce_not_accepted_again first second calls v good same ordered inside again =
      let ttl = (settings-after first v).0 in
      let now = serve calls (after first v) in
      let kept =
        serve-Remembers first.at.mark second.at.seen_sweep first.envelope.nonce calls
          (after first v) (rw ttl inside) ordered (accepted-Remembers first v good) in
      let seen =
        has_seen-Remembers first.at.mark second.at.seen_sweep first.envelope.nonce now.nonce_store
          (rw ((settings-serve calls (after first v)).0, ttl) inside) kept in
      let a =
        (verify_envelope_accepts_iff calendar second.at second.envelope
            (record now { pubkey_store = second.keys })).0
          again in
      cc (seen, a.unseen, same)

  -- A fresh timestamp stays fresh for no more than twice the freshness.
  pub envelope_not_accepted_again :
      (first second : Call) (calls : List Call) (v : SignatureVerifier)
      → answer first v ≡ ok accepted
      → first.envelope ≡ second.envelope
      → All (IsBetween first.at.mark second.at.seen_sweep) calls
      → 2 * v.freshness_seconds ≤ v.nonce_store.ttl_seconds
      → first.at.wall + second.at.seen_sweep ≤ second.at.wall + first.at.mark
      → ¬ (answer second (serve calls (after first v)) ≡ ok accepted)
  envelope_not_accepted_again first second calls v good same ordered longer in_step again =
      elim (Bool-cases
        (leb second.at.seen_sweep (first.at.mark + v.nonce_store.ttl_seconds * 1000000))) [
          | inl inside ↦
              nonce_not_accepted_again first second calls v good (ap (λ e. e.nonce) same) ordered
                (leb→le _ _ inside) again
          | inr outside ↦
              (let now = serve calls (after first v) in
                let a =
                  (verify_envelope_accepts_iff calendar first.at first.envelope
                      (record v { pubkey_store = first.keys })).0
                    good in
                let b =
                  (verify_envelope_accepts_iff calendar second.at second.envelope
                      (record now { pubkey_store = second.keys })).0
                    again in
                let one : a.fresh.instant ≡ b.fresh.instant =
                  cc (a.fresh.parsed, b.fresh.parsed, same) in
                let fixed = (settings-serve calls (after first v)).1 ∙ (settings-after first v).1 in
                absurd (
                  omega
                    (arith, one, fixed, a.fresh.not_early, b.fresh.not_old, leb-false _ _ outside)))
        ]
