-- ===== src/ActionExecutor/Executor/Mail.antt =====
-- What a message that is built and sent carries.
use agent_of_record.Common.{
  String, ◌≡◌, sym, ap, ◌∙◌, inl, inr, not, ◌&&◌, Option, List, [], ◌∷◌, ◌++◌, arith, Bool-cases,
  nat_eq, string_eq, list_eq, option_eq, value_error, Result, ok, raise_if, >>=-eq-ok,
}
use agent_of_record.ActionExecutor.PoiEncoding.{
  encode_poi_header, build_signature_header, build_agent_cert_header,
}
use agent_of_record.ActionExecutor.SmtpAction.{
  Aead, SmtpConfig, EmailMessage, Delivery, written, sent, Chance, as_text, as_body, header,
  header_of, address_headers, proof_headers, reasoning_header, has_host, raise_failure, build_email,
  send_email_with_proof,
}
use agent_of_record.CryptoCore.{Crypto, Bytes}
use agent_of_record.Json.{Json, null, bool, int, str, arr, obj}
use agent_of_record.PoiGenerator.Models.{ProofOfIntent}

abbrev pub message_in : Delivery → EmailMessage
message_in (written m) = m
message_in (sent m) = m

as_text-eq : (v : Json) {s : String} → as_text v ≡ ok s → v ≡ str s
as_text-eq null h = cc h
as_text-eq (bool b) h = cc h
as_text-eq (int n) h = cc h
as_text-eq (str s) h = cc h
as_text-eq (arr xs) h = cc h
as_text-eq (obj fs) h = cc h

as_body-eq : (v : Json) {s : String} → as_body v ≡ ok s → v ≡ str s
as_body-eq null h = cc h
as_body-eq (bool b) h = cc h
as_body-eq (int n) h = cc h
as_body-eq (str s) h = cc h
as_body-eq (arr xs) h = cc h
as_body-eq (obj fs) h = cc h

pub made-eq : {A : Type 0} {x y : A} → ok x ≡ ok y → x ≡ y
made-eq h = cc h

header-eq : (s : String) {t : String} → header s ≡ ok t → s ≡ t
unfolding header
header-eq s h = ground arith

header_of-eq : (r : Result String) {t : String} → header_of r ≡ ok t → r ≡ ok t
unfolding header_of
header_of-eq r h = let (s, e, last) = >>=-eq-ok r _ h in e ∙ ap ok (header-eq s last)

address_headers-eq :
    (chance : Chance) (to subject : Json) (config : SmtpConfig)
    (hs : String × String × String × String)
    → address_headers chance to subject config ≡ ok hs
    → (to ≡ str hs.0) × (subject ≡ str hs.2)
unfolding address_headers
address_headers-eq chance to subject config hs h =
    let (t, e1, r1) = >>=-eq-ok (header_of (as_text to)) _ h in
    let (f, e2, r2) = >>=-eq-ok (header config.from_address) _ r1 in
    let (s, e3, r3) = >>=-eq-ok (header_of (as_text subject)) _ r2 in
    let (i, e4, r4) = >>=-eq-ok (header chance.message_id) _ r3 in
    let last = made-eq r4 in
    (
      as_text-eq to (header_of-eq (as_text to) e1) ∙ ap (λ x. str x.0) last,
      as_text-eq subject (header_of-eq (as_text subject) e3) ∙ ap (λ x. str x.2) last,
    )

proof_headers-eq :
    ⦃c : Crypto⦄ (poi : ProofOfIntent) (hs : String × String × String)
    → proof_headers poi ≡ ok hs
    → encode_poi_header poi ≡ ok hs.0
unfolding proof_headers
proof_headers-eq poi hs h =
    let (p, e1, r1) = >>=-eq-ok (header_of (encode_poi_header poi)) _ h in
    let (s, e2, r2) = >>=-eq-ok (header_of (build_signature_header poi)) _ r1 in
    let (a, e3, r3) = >>=-eq-ok (header_of (build_agent_cert_header poi.agent_pubkey_id)) _ r2 in
    header_of-eq (encode_poi_header poi) e1 ∙ ap (λ x. ok x.0) (made-eq r3)

module _ ⦃c : Crypto⦄ (aead : Aead) where
  -- A message holds the three parts and the proof.
  pub record Carries (m : EmailMessage) (to subject body : Json) (poi : ProofOfIntent)
      : Type 0 where
    pub to_text : to ≡ str m.to
    pub subject_text : subject ≡ str m.subject
    pub body_text : body ≡ str m.body
    pub proof_text : encode_poi_header poi ≡ ok m.proof

  build_email-Carries :
      (chance : Chance) (to subject body : Json) (poi : ProofOfIntent) (config : SmtpConfig)
      (reasoning : Option Json) (key : Option Bytes) (m : EmailMessage)
      → build_email aead chance to subject body poi config reasoning key ≡ ok m
      → Carries m to subject body poi
  unfolding build_email
  build_email-Carries chance to subject body poi config reasoning key m h =
      let (four, e1, r1) = >>=-eq-ok (address_headers chance to subject config) _ h in
      let (three, e2, r2) = >>=-eq-ok (proof_headers poi) _ r1 in
      let (shown, e3, r3) = >>=-eq-ok (reasoning_header aead chance.nonce reasoning key) _ r2 in
      let (content, e4, r4) = >>=-eq-ok (as_body body) _ r3 in
      let (to_is, subject_is) = address_headers-eq chance to subject config four e1 in
      let last = made-eq r4 in
      record {
        to_text = to_is ∙ ap (λ x. str x.to) last;
        subject_text = subject_is ∙ ap (λ x. str x.subject) last;
        body_text = as_body-eq body e4 ∙ ap (λ x. str x.body) last;
        proof_text = proof_headers-eq poi three e2 ∙ ap (λ x. ok x.proof) last;
      }

  pub send_email-Carries :
      (chance : Chance) (to subject body : Json) (poi : ProofOfIntent) (config : SmtpConfig)
      (reasoning : Option Json) (key : Option Bytes) (outbox : List Delivery) (id : String)
      (after : List Delivery)
      → send_email_with_proof aead chance to subject body poi config reasoning key outbox
        ≡ ok (id, after)
      → (d : Delivery) × (after ≡ outbox ++ d ∷ []) × Carries (message_in d) to subject body poi
  unfolding send_email_with_proof
  send_email-Carries chance to subject body poi config reasoning key outbox id after h =
      let (m, em, r1) =
        >>=-eq-ok (build_email aead chance to subject body poi config reasoning key) _ h in
      let (_, _, r2) =
        >>=-eq-ok
          (raise_if (not config.dry_run && not (has_host config.host))
            (value_error "host is required for real SMTP delivery"))
          _ r1 in
      let (_, _, r3) = >>=-eq-ok (raise_failure chance.failure) _ r2 in
      let carries = build_email-Carries chance to subject body poi config reasoning key m em in
      let left = sym (ap (λ x. x.1) (made-eq r3)) in
      elim (Bool-cases config.dry_run) [
        | inl dry ↦ (written m, rw dry at left, carries)
        | inr real ↦ (sent m, rw real at left, carries)
      ]
