-- ===== src/ActionExecutor/SmtpAction.antt =====
-- action_executor/cot_encryption.py (the encryption) and smtp_action.py. The random bytes, the new
-- message's identifier and the outcome of writing or sending are arguments; AES-GCM is `Aead`.
use agent_of_record.Common.{
  ℕ, ◌+◌, ◌/◌, ◌%◌, String, Bool, true, false, not, ◌&&◌, Option, none, some, List, [], ◌∷◌, ◌++◌,
  ltb, if◌then◌else◌, ◌==◌, nat_eq, string_eq, list_eq, option_eq, length, Error, value_error,
  attribute_error, key_error, Result, ok, err, ◌>>=◌, ◌>>◌, raise_if,
}
use Prim.Native.Char.{code}
use agent_of_record.ActionExecutor.PoiEncoding.{
  encode_poi_header, build_signature_header, build_agent_cert_header,
}
use agent_of_record.Common.Text.{is_line_break}
use agent_of_record.CryptoCore.{Crypto, Bytes, canonicalize}
use agent_of_record.CryptoCore.Base64.{standard, urlsafe, b64encode}
use agent_of_record.Json.{Json, null, str, obj, field, end}
use agent_of_record.PoiGenerator.Models.{ProofOfIntent}

-- `AESGCM(key).encrypt(nonce, data, None)`: the ciphertext and the 16 bytes of the tag.
pub record Aead : Type 0 where
  pub encrypt : Bytes → Bytes → Bytes → Bytes × Bytes

pub record SmtpConfig : Type 0 where
  pub from_address : String
  pub host : Option String
  pub dry_run : Bool

-- The body is the text that `set_content` is given; the line endings and the line end behind it that
-- the email package makes of it are not modelled.
pub record EmailMessage : Type 0 where
  pub to : String
  pub from_address : String
  pub subject : String
  pub message_id : String
  pub proof : String
  pub signature : String
  pub agent_cert : String
  pub encrypted_reasoning : Option String
  pub body : String

pub data Delivery : Type 0 where
  written : EmailMessage → Delivery
  sent : EmailMessage → Delivery

-- What one call draws and meets: random bytes, an identifier, and an exception of the file system or
-- the server, if there is one.
pub record Chance : Type 0 where
  pub nonce : Bytes
  pub message_id : String
  pub failure : Option Error

-- `s.encode("utf-8")`
unfoldable pub utf8 : String → Bytes
utf8 String.[] = []
utf8 (String.◌∷◌ ch s) =
    let n = code ch in
    let rest = utf8 s in
    if ltb n 128
    then n ∷ rest
    else if ltb n 2048
    then (192 + n / 64) ∷ (128 + n % 64) ∷ rest
    else if ltb n 65536
    then (224 + n / 4096) ∷ (128 + n / 64 % 64) ∷ (128 + n % 64) ∷ rest
    else (240 + n / 262144) ∷ (128 + n / 4096 % 64) ∷ (128 + n / 64 % 64) ∷ (128 + n % 64) ∷ rest

-- The attributes of a text that is none.
abbrev pub as_text : Json → Result String
as_text (str s) = ok s
as_text _ = err (attribute_error "str")

unfoldable pub encrypt_cot : Aead → Bytes → Json → Bytes → Result Json
unfolding utf8
encrypt_cot aead nonce reasoning_text key = do
  raise_if (not (length key == 32)) (value_error "AES-256-GCM requires a 32-byte key")
  text ← as_text reasoning_text
  let (ciphertext, tag) = aead.encrypt key nonce (utf8 text)
  ok (
      obj (
        field "ciphertext" (str (b64encode standard ciphertext)) (
          field "nonce" (str (b64encode standard nonce))
            (field "tag" (str (b64encode standard tag)) end))))

abbrev pub is_empty : String → Bool
is_empty String.[] = true
is_empty (String.◌∷◌ ch s) = false

-- Nothing follows a break; "\r\n" is one break.
abbrev pub ends_after : ℕ → String → Bool
ends_after n String.[] = true
ends_after n (String.◌∷◌ ch s) = n == 13 && code ch == 10 && is_empty s

-- `len(value.splitlines()) <= 1`
unfoldable pub is_one_line : String → Bool
unfolding is_line_break
is_one_line String.[] = true
is_one_line (String.◌∷◌ ch s) =
    let rest = is_one_line s in if is_line_break (code ch) then ends_after (code ch) s else rest

-- `message[name] = value`
unfoldable pub header : String → Result String
unfolding is_one_line
header value =
    if is_one_line value
    then ok value
    else err (value_error "Header values may not contain linefeed or carriage return characters")

-- What `set_content` takes.
abbrev pub as_body : Json → Result String
as_body (str s) = ok s
as_body _ = err key_error

-- `message[name] = value` for a value that may raise, and for one of a dict.
unfoldable pub header_of : Result String → Result String
header_of value = do text ← value; header text

abbrev pub has_host : Option String → Bool
has_host none = false
has_host (some host) = not (host == "")

abbrev pub raise_failure : Option Error → Result (Unit {0})
raise_failure none = ok tt
raise_failure (some e) = err e

-- The first four headers.
unfoldable pub address_headers :
    Chance → Json → Json → SmtpConfig → Result (String × String × String × String)
address_headers chance to subject smtp_config = do
  to_header ← header_of (as_text to)
  from_header ← header smtp_config.from_address
  subject_header ← header_of (as_text subject)
  id_header ← header chance.message_id
  ok (to_header, from_header, subject_header, id_header)

-- The three headers of the proof.
module _ ⦃c : Crypto⦄ where
  unfoldable pub proof_headers : ProofOfIntent → Result (String × String × String)
  proof_headers poi = do
    proof ← header_of (encode_poi_header poi)
    signature ← header_of (build_signature_header poi)
    agent_cert ← header_of (build_agent_cert_header poi.agent_pubkey_id)
    ok (proof, signature, agent_cert)

module _ ⦃c : Crypto⦄ (aead : Aead) where
  unfoldable pub encrypted_reasoning_header : Bytes → Json → Bytes → Result String
  encrypted_reasoning_header nonce reasoning_text encryption_key = do
    encrypted ← encrypt_cot aead nonce reasoning_text encryption_key
    bytes ← canonicalize encrypted
    ok (b64encode urlsafe bytes)

  -- The optional header; a rationale of `None` is none.
  unfoldable pub reasoning_header : Bytes → Option Json → Option Bytes → Result (Option String)
  reasoning_header nonce none encryption_key = ok none
  reasoning_header nonce (some null) encryption_key = ok none
  reasoning_header nonce (some reasoning_text) none =
      err (value_error "encryption_key is required when adding encrypted reasoning")
  reasoning_header nonce (some reasoning_text) (some key) = do
    value ← encrypted_reasoning_header nonce reasoning_text key
    checked ← header value
    ok (some checked)

  unfoldable pub build_email :
      Chance
      → Json
      → Json
      → Json
      → ProofOfIntent
      → SmtpConfig
      → Option Json
      → Option Bytes
      → Result EmailMessage
  build_email chance to subject body poi smtp_config reasoning_text encryption_key = do
    (to_header, from_header, subject_header, id_header) ←
        address_headers chance to subject smtp_config
    (proof, signature, agent_cert) ← proof_headers poi
    reasoning ← reasoning_header chance.nonce reasoning_text encryption_key
    content ← as_body body
    ok (record {
      to = to_header;
      from_address = from_header;
      subject = subject_header;
      message_id = id_header;
      proof = proof;
      signature = signature;
      agent_cert = agent_cert;
      encrypted_reasoning = reasoning;
      body = content;
    })

  -- The message leaves as the last step, so that an exception leaves the outbox as it was.
  unfoldable pub send_email_with_proof :
      Chance
      → Json
      → Json
      → Json
      → ProofOfIntent
      → SmtpConfig
      → Option Json
      → Option Bytes
      → List Delivery
      → Result (String × List Delivery)
  send_email_with_proof chance to subject body poi smtp_config reasoning_text encryption_key
        outbox =
      do
        message ← build_email chance to subject body poi smtp_config reasoning_text encryption_key
        raise_if (not smtp_config.dry_run && not (has_host smtp_config.host))
            (value_error "host is required for real SMTP delivery")
        raise_failure chance.failure
        ok (
          message.message_id,
          outbox ++ (if smtp_config.dry_run then written message else sent message) ∷ [],
        )
