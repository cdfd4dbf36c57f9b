-- ===== src/VerificationPortal/Pipeline/Hashes.antt =====
-- What a passed second link shows: the four digests of the proof are those of what the portal holds.
use agent_of_record.Common.{
  String, ◌≡◌, refl, ap, ◌∙◌, inl, inr, true, Option, none, some, List, [], ◌∷◌, ◌++◌, arith,
  eq_iff, Bool-cases, Option-cases, ◌==◌, nat_eq, string_eq, list_eq, option_eq, Error, key_error,
  Result, ok, err, ◌>>=◌, or_raise, >>=-eq-ok,
}
use agent_of_record.CryptoCore.{Crypto, Bytes, hash_payload}
use agent_of_record.CryptoCore.Hex.{hex}
use agent_of_record.Json.{Json, str, one_field, is_dict}
use agent_of_record.PoiGenerator.Models.{ProofOfIntent}
use agent_of_record.VerificationPortal.Models.{
  Environment, LinkResult, ActionEvidence, Parsed, parse_eml,
}
use agent_of_record.VerificationPortal.Links.{
  mismatch, caught, payload_mismatch, Recomputed, recompute, root_mismatch, hash_link, check_hashes,
}
use agent_of_record.VerificationPortal.Signatures.{none_of}
use agent_of_record.VerificationPortal.Pipeline.{all_passed}

pub all_passed-append :
    (xs ys : List LinkResult) → all_passed (xs ++ ys) ≡ true → all_passed ys ≡ true
unfolding all_passed
all_passed-append [] ys h = h
all_passed-append (x ∷ xs) ys h = all_passed-append xs ys (ground arith)

ok-injective : {A : Type 0} {x y : A} → ok x ≡ ok y → x ≡ y
ok-injective h = cc h

pub no_names : (xs ys : List String) → xs ++ ys ≡ [] → (xs ≡ []) × (ys ≡ [])
no_names [] ys h = (refl, h)
no_names (x ∷ xs) ys h = cc h

or_raise-eq : {A : Type 0} (o : Option A) (e : Error) {a : A} → or_raise o e ≡ ok a → o ≡ some a
or_raise-eq none e h = cc h
or_raise-eq (some a) e h = cc h

pub none_of-eq : (xs : List String) → none_of xs ≡ true → xs ≡ []
none_of-eq [] h = refl
none_of-eq (x ∷ xs) h = cc h

module _ ⦃c : Crypto⦄ where
  -- The payload hashes to the text.
  abbrev pub HasHash : Json → String → Type 0
  HasHash v text = (d : Bytes) × (hash_payload v ≡ ok d) × (hex d ≡ text)

  mismatch-HasHash :
      (name : String) (v : Json) (text : String) → mismatch name v text ≡ ok [] → HasHash v text
  unfolding mismatch
  mismatch-HasHash name v text h =
      let (d, e, last) = >>=-eq-ok (hash_payload v) _ h in
      elim (Bool-cases (hex d == text)) [
        | inl same ↦ (d, e, (eq_iff (hex d) text).0 same)
        | inr other ↦ cc (rw other at last)
      ]

module _ ⦃c : Crypto⦄ (env : Environment) where
  abbrev pub payload_in : Result Parsed → Option Json
  payload_in (ok p) = p.action_payload
  payload_in (err e) = none

  -- The action that the portal holds against the proof: the email's, or else the stored one.
  abbrev pub held_payload : Option Bytes → Parsed → ActionEvidence → Option Json
  held_payload (some b) parsed e = parsed.action_payload
  held_payload none parsed e = elim e.action_payload [
    | some payload ↦ some payload
    | none ↦ elim e.eml_bytes [ none ↦ none | some stored ↦ payload_in (parse_eml env stored) ]
  ]

  caught-eq : (name : String) (r : Result (List String)) → caught name r ≡ [] → r ≡ ok []
  caught-eq name (ok xs) h = ap ok h
  caught-eq name (err e) h = cc h

  sent_payload :
      (b : Bytes) (parsed : Parsed) (e : ActionEvidence) (poi : ProofOfIntent) (v : Json)
      → parsed.action_payload ≡ some v
      → payload_mismatch env (some b) parsed e poi ≡ ok []
      → HasHash v poi.action_payload_hash
  unfolding payload_mismatch
  sent_payload b parsed e poi v at h = elim (Bool-cases (is_dict v)) [
    | inl dict ↦
        mismatch-HasHash "action_payload_hash" v poi.action_payload_hash (rw (at, dict) at h)
    | inr other ↦ cc (rw (at, other) at h)
  ]

  abbrev stored_mismatch : Bytes → ProofOfIntent → Result (List String)
  stored_mismatch stored poi = do
    p ← parse_eml env stored
    payload ← or_raise p.action_payload key_error
    mismatch "action_payload_hash" payload poi.action_payload_hash

  stored_payload :
      (parsed : Parsed) (e : ActionEvidence) (poi : ProofOfIntent) (stored : Bytes)
      → e.action_payload ≡ none
      → e.eml_bytes ≡ some stored
      → payload_mismatch env none parsed e poi ≡ ok []
      → (v : Json) × (payload_in (parse_eml env stored) ≡ some v)
        × HasHash v poi.action_payload_hash
  unfolding payload_mismatch
  stored_payload parsed e poi stored missing at h =
      let taken =
        caught-eq "action_payload_hash" (stored_mismatch stored poi)
          (ok-injective (rw (missing, at) at h)) in
      let (p, ep, r1) = >>=-eq-ok (parse_eml env stored) _ taken in
      let (v, ev, r2) = >>=-eq-ok (or_raise p.action_payload key_error) _ r1 in
      (
        v,
        rw ep (or_raise-eq p.action_payload key_error ev),
        mismatch-HasHash "action_payload_hash" v poi.action_payload_hash r2,
      )

  payload_mismatch-HasHash :
      (eml : Option Bytes) (parsed : Parsed) (e : ActionEvidence) (poi : ProofOfIntent)
      → payload_mismatch env eml parsed e poi ≡ ok []
      → (v : Json) × (held_payload eml parsed e ≡ some v) × HasHash v poi.action_payload_hash
  unfolding payload_mismatch
  payload_mismatch-HasHash (some b) parsed e poi h = elim (Option-cases parsed.action_payload) [
    | inl missing ↦ cc (rw missing at h)
    | inr (v, at) ↦ (v, at, sent_payload b parsed e poi v at h)
  ]
  payload_mismatch-HasHash none parsed e poi h = elim (Option-cases e.action_payload) [
    | inr (v, at) ↦ (
      v,
      rw at refl,
      mismatch-HasHash "action_payload_hash" v poi.action_payload_hash (rw at at h),
    )
    | inl missing ↦ elim (Option-cases e.eml_bytes) [
      | inl none_stored ↦ cc (rw (missing, none_stored) at h)
      | inr (stored, at) ↦
          (let (v, read, has) = stored_payload parsed e poi stored missing at h in
            (v, rw (missing, at) read, has))
    ]
  ]

  hash_link-eq : (xs : List String) → (hash_link xs).passed ≡ true → xs ≡ []
  hash_link-eq [] h = refl
  hash_link-eq (x ∷ xs) h = cc h

  root_mismatch-eq :
      (r : Result Recomputed) (poi : ProofOfIntent)
      → root_mismatch env r poi ≡ []
      → (k : Recomputed) × (r ≡ ok k) × (hex k.top ≡ poi.context_root)
  root_mismatch-eq (err x) poi h = cc h
  root_mismatch-eq (ok k) poi h = elim (Bool-cases (hex k.top == poi.context_root)) [
    | inl same ↦ (k, refl, (eq_iff (hex k.top) poi.context_root).0 same)
    | inr other ↦ cc (rw other at h)
  ]

  -- The four digests of the proof are those of what the portal holds.
  pub record AreHashesRight (eml : Option Bytes) (parsed : Parsed) (e : ActionEvidence)
      (poi : ProofOfIntent) : Type 0 where
    pub prompt : HasHash (one_field "prompt" (str e.user_envelope.prompt)) poi.user_prompt_hash
    pub system : HasHash (one_field "system_prompt" (str e.system_prompt)) poi.system_prompt_hash
    pub payload : Json
    pub held : held_payload eml parsed e ≡ some payload
    pub action : HasHash payload poi.action_payload_hash
    pub recomputed : Recomputed
    pub rebuilt : recompute e ≡ ok recomputed
    pub context : hex recomputed.top ≡ poi.context_root

  pub check_hashes-AreHashesRight :
      (eml : Option Bytes) (parsed : Parsed) (e : ActionEvidence) (poi : ProofOfIntent)
      (l : LinkResult) (kept : Result Recomputed)
      → check_hashes env eml parsed e poi ≡ ok (l, kept)
      → l.passed ≡ true
      → AreHashesRight eml parsed e poi
  unfolding check_hashes
  check_hashes-AreHashesRight eml parsed e poi l kept h good =
      let (us, ea, r1) =
        >>=-eq-ok
          (mismatch "user_prompt_hash" (one_field "prompt" (str e.user_envelope.prompt))
            poi.user_prompt_hash)
          _ h in
      let (bs, eb, r2) =
        >>=-eq-ok
          (mismatch "system_prompt_hash" (one_field "system_prompt" (str e.system_prompt))
            poi.system_prompt_hash)
          _ r1 in
      let (ds, ed, r3) = >>=-eq-ok (payload_mismatch env eml parsed e poi) _ r2 in
      let made : hash_link (us ++ bs ++ ds ++ root_mismatch env (recompute e) poi) ≡ l = cc r3 in
      let empty =
        hash_link-eq (us ++ bs ++ ds ++ root_mismatch env (recompute e) poi) (rw made good) in
      let roots = root_mismatch env (recompute e) poi in
      let (three, no_roots) = no_names (us ++ bs ++ ds) roots empty in
      let (two, no_ds) = no_names (us ++ bs) ds three in
      let (no_us, no_bs) = no_names us bs two in
      let (k, ek, same) = root_mismatch-eq (recompute e) poi no_roots in
      let (v, held, has) = payload_mismatch-HasHash eml parsed e poi (ed ∙ ap ok no_ds) in
      record {
        prompt = mismatch-HasHash "user_prompt_hash" _ poi.user_prompt_hash (ea ∙ ap ok no_us);
        system = mismatch-HasHash "system_prompt_hash" _ poi.system_prompt_hash (eb ∙ ap ok no_bs);
        payload = v;
        held = held;
        action = has;
        recomputed = k;
        rebuilt = ek;
        context = same;
      }
