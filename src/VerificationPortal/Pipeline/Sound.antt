-- ===== src/VerificationPortal/Pipeline/Sound.antt =====
-- What a valid trace shows.
use agent_of_record.Common.{
  String, ◌≡◌, refl, ap, ◌∙◌, ◌⊎◌, inl, inr, Bool, true, false, ◌&&◌, Option, none, some, List, [],
  ◌∷◌, ◌++◌, arith, Option-cases, nat_eq, string_eq, list_eq, option_eq, attribute_error, Result,
  ok, err, >>=-eq-ok, Result-cases,
}
use agent_of_record.CryptoCore.{Crypto, Bytes, PublicKey}
use agent_of_record.KeyRegistry.Registry.{KeyRegistry, get_pubkey, get_key_record}
use agent_of_record.LedgerCore.{LedgerEntry, Ledger, first_invalid_entry_id, verify_chain}
use agent_of_record.PoiGenerator.Models.{ProofOfIntent}
use agent_of_record.PoiGenerator.Poi.{verify_poi_signature}
use agent_of_record.VerificationPortal.Models.{
  Environment, LinkResult, ActionEvidence, Parsed, text_or_empty,
}
use agent_of_record.VerificationPortal.Links.{intake, Recomputed, check_hashes}
use agent_of_record.VerificationPortal.Signatures.{
  Times, identity_errors, action_type_errors, policy_errors, load_public_key, agent_signature,
  none_of, check_agent, user_signature, check_user,
}
use agent_of_record.VerificationPortal.Pipeline.{
  VerificationPipeline, VerificationTrace, all_passed, first_proof, check_first, check_ledger,
  check_anchor, later_links, run_verification,
}
use agent_of_record.VerificationPortal.Pipeline.Hashes.{
  all_passed-append, no_names, none_of-eq, AreHashesRight, check_hashes-AreHashesRight,
}

ok-eq : {A : Type 0} {x y : A} → ok x ≡ ok y → x ≡ y
ok-eq h = cc h

list-cases : {A : Type 0} (xs : List A) → (xs ≡ []) ⊎ ((x : A) × (ys : List A) × (xs ≡ x ∷ ys))
list-cases [] = inl refl
list-cases (x ∷ xs) = inr (x, xs, refl)

module _ ⦃c : Crypto⦄ (env : Environment) where
  -- The agent's key is usable and its own, it signed the proof, and the proof's claims fit.
  pub record IsSignedByAgent (at : Times) (registry : KeyRegistry) (eml : Option Bytes)
      (e : ActionEvidence) (poi : ProofOfIntent) : Type 0 where
    pub bytes : Bytes
    pub known : get_pubkey at.agent_key (text_or_empty poi.agent_pubkey_id) registry ≡ some bytes
    pub key : PublicKey
    pub loaded : load_public_key bytes ≡ ok key
    pub signed : verify_poi_signature poi key ≡ ok true
    pub identity :
        identity_errors env
          (get_key_record at.agent_record (text_or_empty poi.agent_pubkey_id) registry)
          poi
        ≡ []
    pub action : action_type_errors env eml (some e) poi.action_type ≡ ok []
    pub policy : policy_errors env poi.policy_decision ≡ []

  agent_signature-true :
      (poi : ProofOfIntent) (b : Bytes)
      → (agent_signature env poi b).0 ≡ true
      → (key : PublicKey) × (load_public_key b ≡ ok key) × (verify_poi_signature poi key ≡ ok true)
  unfolding agent_signature
  agent_signature-true poi b h = elim (Result-cases (load_public_key b)) [
    | inl (x, bad) ↦ absurd (ground arith)
    | inr (key, good) ↦ elim (Result-cases (verify_poi_signature poi key)) [
      | inl (x, bad) ↦ absurd (ground arith)
      | inr (v, e) ↦ (key, good, e ∙ ap ok (ground arith))
    ]
  ]

  and_parts : (a b : Bool) → a && b ≡ true → (a ≡ true) × (b ≡ true)
  and_parts true b h = (refl, h)
  and_parts false b h = cc h

  abbrev record_at : Times → KeyRegistry → ProofOfIntent → List String
  record_at at registry poi =
      identity_errors env
        (get_key_record at.agent_record (text_or_empty poi.agent_pubkey_id) registry) poi

  check_agent-IsSignedByAgent :
      (at : Times) (registry : KeyRegistry) (eml : Option Bytes) (e : ActionEvidence)
      (poi : ProofOfIntent) (l : LinkResult)
      → check_agent env eml (some e) at registry poi ≡ ok l
      → l.passed ≡ true
      → IsSignedByAgent at registry eml e poi
  unfolding check_agent
  check_agent-IsSignedByAgent at registry eml e poi l h good =
      elim (Option-cases (get_pubkey at.agent_key (text_or_empty poi.agent_pubkey_id) registry)) [
        | inl missing ↦ absurd (ground arith)
        | inr (b, known) ↦
            (let (types, et, last) =
                >>=-eq-ok (action_type_errors env eml (some e) poi.action_type) _
                  (rw (known, check_agent) at h) in
              let errors : List String =
                record_at at registry poi ++ types ++ policy_errors env poi.policy_decision in
              let both : (agent_signature env poi b).0 && none_of errors ≡ true = ground arith in
              let (signed, clean) = and_parts (agent_signature env poi b).0 (none_of errors) both in
              let (front, policy) =
                no_names (record_at at registry poi ++ types)
                  (policy_errors env poi.policy_decision) (none_of-eq errors clean) in
              let (identity, typed) = no_names (record_at at registry poi) types front in
              let (key, loaded, verified) = agent_signature-true poi b signed in
              record {
                bytes = b;
                known = known;
                key = key;
                loaded = loaded;
                signed = verified;
                identity = identity;
                action = et ∙ ap ok typed;
                policy = policy;
              })
      ]

  -- The user's key is usable, and the browser's signature is the key's over the envelope.
  pub record IsSignedByUser (at : Times) (registry : KeyRegistry) (e : ActionEvidence)
      : Type 0 where
    pub bytes : Bytes
    pub known : get_pubkey at.user_key e.user_envelope.pubkey_id registry ≡ some bytes
    pub signed : user_signature e bytes ≡ ok true

  check_user-IsSignedByUser :
      (at : Times) (registry : KeyRegistry) (e : ActionEvidence)
      → (check_user at registry e).passed ≡ true
      → IsSignedByUser at registry e
  unfolding check_user
  check_user-IsSignedByUser at registry e h =
      elim (Option-cases (get_pubkey at.user_key e.user_envelope.pubkey_id registry)) [
        | inl missing ↦ absurd (ground arith)
        | inr (b, known) ↦ elim (Result-cases (user_signature e b)) [
          | inl (x, bad) ↦ absurd (ground arith)
          | inr (v, e') ↦ record { bytes = b; known = known; signed = e' ∙ ap ok (ground arith) }
        ]
      ]

  check_first-chain :
      (entry : LedgerEntry) (r : Recomputed) (ledger : Ledger) (poi : ProofOfIntent)
      (l : LinkResult)
      → check_first env entry r ledger poi ≡ ok l
      → l.passed ≡ true
      → verify_chain ledger ≡ ok true
  unfolding check_first verify_chain
  check_first-chain entry r ledger poi l h good =
      let (valid, ev, r1) = >>=-eq-ok (first_proof entry r.tree r.top) _ h in
      let (broken, eb, r2) = >>=-eq-ok (first_invalid_entry_id ledger) _ r1 in ground arith

  check_ledger-chain :
      (kept : Result Recomputed) (e : ActionEvidence) (poi : ProofOfIntent)
      → (check_ledger env kept e poi).passed ≡ true
      → verify_chain e.ledger ≡ ok true
  unfolding check_ledger
  check_ledger-chain (err x) e poi h = cc h
  check_ledger-chain (ok r) e poi h = elim (list-cases r.entries) [
    | inl missing ↦ absurd (ground arith)
    | inr (entry, entries, at) ↦ elim (Result-cases (check_first env entry r e.ledger poi)) [
      | inl (x, bad) ↦ absurd (ground arith)
      | inr (l, done) ↦ check_first-chain entry r e.ledger poi l done (ground arith)
    ]
  ]

  -- What a valid trace rests on.
  pub record IsProved (at : Times) (p : VerificationPipeline) (eml : Option Bytes) (parsed : Parsed)
      (e : ActionEvidence) (poi : ProofOfIntent) : Type 0 where
    pub hashes : AreHashesRight env eml parsed e poi
    pub agent : IsSignedByAgent at p.key_registry eml e poi
    pub user : IsSignedByUser at p.key_registry e
    pub chain : verify_chain e.ledger ≡ ok true

  later_links-IsProved :
      (at : Times) (p : VerificationPipeline) (eml : Option Bytes) (parsed : Parsed)
      (poi : Option ProofOfIntent) (evidence : Option ActionEvidence) (ls : List LinkResult)
      → later_links env at p eml parsed poi evidence ≡ ok ls
      → all_passed ls ≡ true
      → (q : ProofOfIntent) × (e : ActionEvidence) × (poi ≡ some q)
        × (evidence ≡ some e)
        × IsProved at p eml parsed e q
  unfolding later_links all_passed
  later_links-IsProved at p eml parsed none evidence ls h good = absurd (ground arith)
  later_links-IsProved at p eml parsed (some q) none ls h good =
      let (agent, ea, last) = >>=-eq-ok (check_agent env eml none at p.key_registry q) _ h in
      absurd (ground arith)
  later_links-IsProved at p eml parsed (some q) (some e) ls h good =
      let ((hashes, kept), eh, r1) = >>=-eq-ok (check_hashes env eml parsed e q) _ h in
      let (agent, ea, r2) = >>=-eq-ok (check_agent env eml (some e) at p.key_registry q) _ r1 in
      let made : hashes
            ∷ agent
            ∷ check_user at p.key_registry e
            ∷ check_ledger env kept e q
            ∷ check_anchor env p.anchor_store kept e q
            ∷ []
          ≡ ls =
        cc r2 in
      let all : all_passed (
            hashes
            ∷ agent
            ∷ check_user at p.key_registry e
            ∷ check_ledger env kept e q
            ∷ check_anchor env p.anchor_store kept e q
            ∷ [])
          ≡ true =
        ap all_passed made ∙ good in
      let (h1, t1) = and_parts hashes.passed _ all in
      let (h2, t2) = and_parts agent.passed _ t1 in
      let (h3, t3) = and_parts (check_user at p.key_registry e).passed _ t2 in
      let (h4, t4) = and_parts (check_ledger env kept e q).passed _ t3 in
      (
        q,
        e,
        refl,
        refl,
        record {
          hashes = check_hashes-AreHashesRight env eml parsed e q hashes kept eh h1;
          agent = check_agent-IsSignedByAgent at p.key_registry eml e q agent ea h2;
          user = check_user-IsSignedByUser at p.key_registry e h3;
          chain = check_ledger-chain kept e q h4;
        },
      )

  -- A trace that `run_verification` returns with `overall_valid` has a proof of intent and evidence:
  -- the proof's four digests are those of the prompt, the system prompt, the action and the rebuilt
  -- ledger, the agent's usable key signed it and its claims fit the key's record, the evidence and the
  -- policy, the user's usable key signed the envelope, and the ledger is an unbroken chain.
  pub overall_valid_sound :
      (at : Times) (eml : Option Bytes) (action_id : Option String) (p : VerificationPipeline)
      (trace : VerificationTrace)
      → run_verification env at eml action_id p ≡ ok trace
      → trace.overall_valid ≡ true
      → (q : ProofOfIntent) × (e : ActionEvidence) × ((intake env eml action_id
            p.evidence_store).poi
          ≡ some q)
        × ((intake env eml action_id p.evidence_store).evidence ≡ some e)
        × IsProved at p eml (intake env eml action_id p.evidence_store).parsed e q
  unfolding run_verification
  overall_valid_sound at eml action_id p trace h good =
      let found = intake env eml action_id p.evidence_store in
      let (later, el, last) =
        >>=-eq-ok (later_links env at p eml found.parsed found.poi found.evidence) _ h in
      let valid : all_passed (found.links ++ later) ≡ true =
        ap (λ t. t.overall_valid) (ok-eq last) ∙ good in
      later_links-IsProved at p eml found.parsed found.poi found.evidence later el
        (all_passed-append found.links later valid)

  -- `run_verification` raises an exception and returns no trace, where a proof that names its type of
  -- action is extracted, its agent's key is usable, and no evidence is found.
  pub missing_evidence_raises :
      (at : Times) (eml : Option Bytes) (action_id : Option String) (p : VerificationPipeline)
      (q : ProofOfIntent) (claimed : String) (key : Bytes)
      → (intake env eml action_id p.evidence_store).poi ≡ some q
      → (intake env eml action_id p.evidence_store).evidence ≡ none
      → q.action_type ≡ some claimed
      → get_pubkey at.agent_key (text_or_empty q.agent_pubkey_id) p.key_registry ≡ some key
      → run_verification env at eml action_id p
        ≡ err (attribute_error "'NoneType' object has no attribute 'action_type'")
  unfolding run_verification later_links check_agent action_type_errors
  missing_evidence_raises at eml action_id p q claimed key has no_evidence typed known =
      ground (arith, has, no_evidence, typed, known)
