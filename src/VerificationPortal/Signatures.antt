-- ===== src/VerificationPortal/Signatures.antt =====
-- verification_portal/backend/verify_pipeline.py: the signature steps. Each call of the registry reads
-- the clock; the readings are arguments.
use agent_of_record.Common.{
  ℕ, String, Bool, true, false, not, ◌&&◌, Option, none, some, List, [], ◌∷◌, ◌++◌, if◌then◌else◌,
  ◌==◌, nat_eq, string_eq, list_eq, option_eq, value_error, attribute_error, Result, ok, err, ◌>>=◌,
  or_raise,
}
use Prim.Native.String.{◌++◌ as text_append}
use agent_of_record.Common.Text.{strip}
use agent_of_record.CryptoCore.{Crypto, Bytes, PublicKey, hash_payload, verify}
use agent_of_record.VerificationPortal.Links.{link, failed_link, join}
use agent_of_record.KeyRegistry.Registry.{KeyRegistry, get_pubkey, get_key_record}
use agent_of_record.KeyRegistry.Models.{AgentKeyRecord}
use agent_of_record.PoiGenerator.Poi.{verify_poi_signature}
use agent_of_record.CryptoCore.Base64.{standard, b64decode}
use agent_of_record.VerifierService.Models.{signing_payload}
use agent_of_record.VerifierService.Verifier.{load_parsed}
use agent_of_record.VerificationPortal.Models.{
  Environment, LinkResult, ActionEvidence, text_or_empty,
}
use agent_of_record.PoiGenerator.Models.{ProofOfIntent}

-- The clock's readings, in order: two lookups of the agent's key, and one of the user's.
pub record Times : Type 0 where
  pub agent_key : ℕ
  pub agent_record : ℕ
  pub user_key : ℕ

-- A link from the outcome of a test.
abbrev pub tested_link : String → Bool → String → LinkResult
tested_link link_name good detail = link link_name good (if good then "passed" else "failed") detail

module _ (env : Environment) where
  -- What differs between a claim of the proof and the key's record.
  abbrev pub claim_error : String → Option String → Option String → List String
  claim_error name none owned = []
  claim_error name (some claimed) owned =
      if owned == some claimed
      then []
      else text_append name (
          text_append "_mismatch (PoI claims " (
            text_append (env.repr claimed) (
              text_append ", key belongs to "
                (text_append (elim owned [ none ↦ "None" | some o ↦ env.repr o ]) ")"))))
        ∷ []

  unfoldable pub identity_errors : Option AgentKeyRecord → ProofOfIntent → List String
  identity_errors none poi = []
  identity_errors (some r) poi =
      claim_error "agent_id" poi.agent_id (some r.agent_id)
      ++ claim_error "agent_type" poi.agent_type r.agent_type

  -- Whether the artifact is an email.
  abbrev pub is_email : Option Bytes → ActionEvidence → Bool
  is_email (some b) e = true
  is_email none e = elim e.eml_bytes [ none ↦ false | some b ↦ true ]

  -- The proof's type of action against the evidence's; evidence that is `None` has no attributes.
  unfoldable pub action_type_errors :
      Option Bytes → Option ActionEvidence → Option String → Result (List String)
  action_type_errors eml_bytes evidence none = ok []
  action_type_errors eml_bytes none (some claimed) =
      err (attribute_error "'NoneType' object has no attribute 'action_type'")
  action_type_errors eml_bytes (some e) (some claimed) = ok (elim e.action_type [
    | some t ↦
        if claimed == t
        then []
        else text_append "action_type_mismatch (PoI claims " (
            text_append (env.repr claimed)
              (text_append ", evidence claims " (text_append (env.repr t) ")")))
          ∷ []
    | none ↦
        if is_email eml_bytes e && not (claimed == "email")
        then text_append "action_type_mismatch (email artifact cannot claim "
            (text_append (env.repr claimed) ")")
          ∷ []
        else []
  ])

  unfoldable pub policy_errors : Option String → List String
  policy_errors none = []
  policy_errors (some decision) =
      if decision == "allow"
      then []
      else text_append "policy_decision_rejected (PoI contains "
          (text_append (env.repr decision) ")")
        ∷ []

module _ ⦃c : Crypto⦄ where
  unfoldable pub load_public_key : Bytes → Result PublicKey
  unfolding load_parsed
  load_public_key key_bytes = load_parsed key_bytes (c.load_der_public_key key_bytes)

unfoldable pub agent_detail : List String → Bool → String → String
unfolding strip
agent_detail (e ∷ errors) good text = join "; " (e ∷ errors)
agent_detail [] true text = "agent signature and identity binding verified"
agent_detail [] false text = strip (text_append "agent signature did not verify " text)

abbrev pub none_of : List String → Bool
none_of [] = true
none_of (e ∷ errors) = false

abbrev pub true_or_false : Result Bool → Bool
true_or_false (ok b) = b
true_or_false (err e) = false

module _ ⦃c : Crypto⦄ where
  -- The user's signature, under `try`.
  unfoldable pub user_signature : ActionEvidence → Bytes → Result Bool
  user_signature e key_bytes = do
    signature ←
        or_raise (b64decode standard e.user_envelope.signature) (value_error "binascii.Error")
    key ← load_public_key key_bytes
    digest ← hash_payload (signing_payload e.user_envelope)
    verify key signature digest

  -- The fourth step, with the evidence at hand.
  unfoldable pub check_user : Times → KeyRegistry → ActionEvidence → LinkResult
  check_user at registry e = elim (get_pubkey at.user_key e.user_envelope.pubkey_id registry) [
    | none ↦ failed_link "user_signature" "user public key is unknown, expired, or revoked"
    | some key_bytes ↦
        (let good = true_or_false (user_signature e key_bytes) in
          tested_link "user_signature" good (
            if good
            then "original user prompt signature verified"
            else "original user prompt signature did not verify"))
  ]

module _ ⦃c : Crypto⦄ (env : Environment) where
  -- `verify_poi_signature` under `try`, with the error's text.
  unfoldable pub agent_signature : ProofOfIntent → Bytes → Bool × String
  agent_signature poi agent_bytes =
      elim (load_public_key agent_bytes >>= λ key. verify_poi_signature poi key) [
        | ok good ↦ (good, "")
        | err e ↦ (false, env.message_of e)
      ]

  -- The third step, with the proof at hand.
  unfoldable pub check_agent :
      Option Bytes → Option ActionEvidence → Times → KeyRegistry → ProofOfIntent → Result LinkResult
  check_agent eml_bytes evidence at registry poi =
      elim (get_pubkey at.agent_key (text_or_empty poi.agent_pubkey_id) registry) [
        | none ↦ ok (
            failed_link "agent_signature"
              "agent public key is unknown, expired, or currently revoked; this current trust failure alone does not prove the historical action was fraudulent")
        | some agent_bytes ↦ do
          types ← action_type_errors env eml_bytes evidence poi.action_type
          let (good, text) = agent_signature poi agent_bytes
          let errors : List String =
              identity_errors env
                (get_key_record at.agent_record (text_or_empty poi.agent_pubkey_id) registry) poi
              ++ types
              ++ policy_errors env poi.policy_decision
          ok (
              tested_link "agent_signature" (good && none_of errors)
                (agent_detail errors good text))
      ]
