-- ===== src/VerifierService/Server/Prompts.antt =====
-- verifier_service/main.py: the verification of a signed prompt.
use agent_of_record.Common.{
  ℕ, String, Bool, false, not, ◌&&◌, ◌||◌, Option, none, some, List, [], ◌∷◌, if◌then◌else◌, ◌==◌,
  nat_eq, string_eq, list_eq, option_eq, take,
}
use Prim.Native.String.{◌++◌ as text_append}
use agent_of_record.Calendar.{Calendar}
use agent_of_record.CryptoCore.{Crypto}
use agent_of_record.Json.{Fields}
use agent_of_record.VerifierService.Database.{Hashlib, PublicUser}
use agent_of_record.VerifierService.Models.{SignedEnvelope}
use agent_of_record.VerifierService.Verifier
use agent_of_record.VerifierService.Verifier.{
  VerificationResult, SignatureVerifier, verify_envelope,
}
use agent_of_record.VerifierService.Server.{
  AppState, reply, H, ◌>>=◌, ◌>>◌, return, fail, or_raised, refuse_if, changes, key_lookup_at,
  log_operation,
}
use agent_of_record.VerifierService.Server.Accounts.{request_user}

-- The clocks of one verification: of the session, of the verifier, and of the key's lookup.
pub record Clocks : Type 0 where
  pub session : ℕ
  pub verifier : Verifier.Readings
  pub key : ℕ
  pub operation : String

-- `envelope.model_dump() == item`
unfoldable pub same_envelope : SignedEnvelope → SignedEnvelope → Bool
same_envelope a b =
    a.prompt == b.prompt
    && a.user_id == b.user_id
    && a.session_id == b.session_id
    && a.timestamp == b.timestamp
    && a.nonce == b.nonce
    && a.signature == b.signature
    && a.pubkey_id == b.pubkey_id
    && a.signature_algorithm == b.signature_algorithm

unfoldable pub any_same : SignedEnvelope → List SignedEnvelope → Bool
unfolding same_envelope
any_same envelope [] = false
any_same envelope (item ∷ items) = same_envelope item envelope || any_same envelope items

abbrev pub is_other_user : SignedEnvelope → Option PublicUser → Bool
is_other_user envelope none = false
is_other_user envelope (some user) = not (envelope.user_id == user.id)

abbrev pub reason_of : VerificationResult → String
reason_of result = elim result.reason [
  | none ↦ "verification_failed"
  | some reason ↦ if reason == "" then "verification_failed" else reason
]

module _ {W : Type 0} ⦃h : Hashlib⦄ ⦃c : Crypto⦄ (calendar : Calendar) where
  abbrev pub verifier_of : ℕ → AppState W → SignatureVerifier
  verifier_of key_time app = record {
    pubkey_store = key_lookup_at key_time app.key_store;
    nonce_store = app.nonce_store;
    freshness_seconds = 60;
  }

  -- `verifier.verify_envelope(envelope)`: the nonces are the service's.
  unfoldable pub verify_signed : Clocks → SignedEnvelope → H W VerificationResult
  verify_signed at envelope app =
      let (result, v) = verify_envelope calendar at.verifier envelope (verifier_of at.key app) in
      (or_raised result, record app { nonce_store = v.nonce_store })

  -- The user of the session, if there is one, has to be the envelope's.
  unfoldable pub match_user : Clocks → String → SignedEnvelope → H W (Option PublicUser)
  match_user at authorization envelope = do
    user ← request_user at.session authorization
    refuse_if (is_other_user envelope user) 403 "prompt_user_mismatch"
    return user

  -- What a refused envelope leaves in the log.
  unfoldable pub reject : Clocks → String → SignedEnvelope → VerificationResult → H W (Unit {0})
  reject at operation envelope result =
      if result.valid
      then return tt
      else (log_operation at.operation operation "rejected" (reason_of result)
            (some envelope.pubkey_id)
          >> fail 401 "verification_failed")

  -- `POST /api/prompt`: the status and the fields that the handler for verified prompts adds.
  unfoldable pub verify_prompt :
      (SignedEnvelope → H W Fields) → Clocks → String → SignedEnvelope → H W (String × Fields)
  verify_prompt on_verified at authorization envelope = do
    user ← match_user at authorization envelope
    result ← verify_signed at envelope
    reject at "verify_prompt" envelope result
    downstream ← on_verified envelope
    changes (λ app. record app { verified_envelopes = take 50 (envelope ∷ app.verified_envelopes) })
    log_operation at.operation "verify_prompt" "verified"
        (text_append "accepted " envelope.pubkey_id) (some envelope.pubkey_id)
    return ("verified", downstream)

  -- The gate of the endpoints that act: the envelope was verified before, or is verified now.
  unfoldable pub admit :
      Clocks → SignedEnvelope → (VerificationResult → H W (Unit {0})) → H W (Unit {0})
  admit at envelope rejects app =
      if any_same envelope app.verified_envelopes
      then (reply tt, app)
      else (verify_signed at envelope >>= rejects) app
