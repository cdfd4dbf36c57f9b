-- ===== src/VerificationPortal/Models.antt =====
-- verification_portal/backend/models.py, evidence_store.py (the store in memory), eml_parser.py and
-- tsa_verify.py.
use agent_of_record.Common.{
  ℕ, String, Bool, Option, none, some, if◌then◌else◌, ◌==◌, nat_eq, string_eq, list_eq, option_eq,
  Error, key_error, Result, ok, ◌>>=◌, or_raise,
}
use Prim.Native.Char.{code}
use agent_of_record.Common.Dict.{Dict, lookup, insert}
use agent_of_record.CryptoCore.{Bytes}
use agent_of_record.Json.{Json, obj, str, field, end}
use agent_of_record.LedgerCore.{Ledger}
use agent_of_record.PoiGenerator.Models.{ProofOfIntent}
use agent_of_record.VerifierService.Models.{SignedEnvelope}

-- An email as the parser returns it; `none` for content is an exception.
pub record Message : Type 0 where
  pub to_header : Option String
  pub subject_header : Option String
  pub message_id : Option String
  pub poi_header : Option String
  pub is_multipart : Bool
  pub plain_part : Option (Option String)
  pub content : Option String

-- What the verifier of RFC 3161 tokens makes of a token and a root: an exception's text, a refusal, or
-- the time, as ISO text.
pub data Rfc3161 : Type 0 where
  unavailable : String → Rfc3161
  refused : String → Rfc3161
  anchored_at : String → Rfc3161

pub record Environment : Type 0 where
  pub parsebytes : Bytes → Result Message
  pub model_validate_json : Bytes → Result ProofOfIntent
  pub verify_rfc3161_token : Bytes → Bytes → Rfc3161
  pub repr : String → String
  pub number : ℕ → String
  pub message_of : Error → String

pub record LinkResult : Type 0 where
  pub link_name : String
  pub passed : Bool
  pub status : String
  pub detail : String

pub record ActionEvidence : Type 0 where
  pub action_id : String
  pub user_envelope : SignedEnvelope
  pub system_prompt : String
  pub ledger : Ledger
  pub ledger_entry_count_at_action : ℕ
  pub eml_bytes : Option Bytes
  pub poi : Option ProofOfIntent
  pub action_type : Option String
  pub action_payload : Option Json
  pub observed_effect : Option Json
  pub timestamp_token : Option Bytes

pub record ActionEvidenceStore : Type 0 where
  pub evidence : Dict String ActionEvidence

unfoldable pub register : ActionEvidence → ActionEvidenceStore → ActionEvidenceStore
register e store = record { evidence = insert e.action_id e store.evidence }

unfoldable pub get : String → ActionEvidenceStore → Option ActionEvidence
get action_id store = lookup action_id store.evidence

-- `body[:-2]` after "\r\n", `body[:-1]` after "\n"
unfoldable pub without_line_end : String → String
without_line_end String.[] = String.[]
without_line_end (String.◌∷◌ a String.[]) =
    if code a == 10 then String.[] else String.◌∷◌ a String.[]
without_line_end (String.◌∷◌ a (String.◌∷◌ b String.[])) =
    if code b == 10
    then (if code a == 13 then String.[] else String.◌∷◌ a String.[])
    else String.◌∷◌ a (String.◌∷◌ b String.[])
without_line_end (String.◌∷◌ a (String.◌∷◌ b (String.◌∷◌ d s))) =
    String.◌∷◌ a (without_line_end (String.◌∷◌ b (String.◌∷◌ d s)))

unfoldable pub body_from_message : Message → Result String
unfolding without_line_end
body_from_message m =
    if m.is_multipart
    then elim m.plain_part [
      | none ↦ ok ""
      | some part ↦ do body ← or_raise part key_error; ok (without_line_end body)
    ]
    else do body ← or_raise m.content key_error; ok (without_line_end body)

abbrev pub text_or_empty : Option String → String
text_or_empty none = ""
text_or_empty (some s) = s

-- A Python text that is absent or empty is false.
abbrev pub filled : Option String → Option String
filled none = none
filled (some s) = if s == "" then none else some s

-- The keys of the parser's answer that the pipeline reads; `{}` has none.
pub record Parsed : Type 0 where
  pub action_id : Option String
  pub poi_header : Option String
  pub action_payload : Option Json

abbrev pub nothing_parsed : Parsed
nothing_parsed = record { action_id = none; poi_header = none; action_payload = none }

abbrev pub email_payload : String → String → String → Json
email_payload to subject body =
    obj (field "to" (str to) (field "subject" (str subject) (field "body" (str body) end)))

module _ (env : Environment) where
  unfoldable pub parse_eml : Bytes → Result Parsed
  unfolding body_from_message
  parse_eml file_bytes = do
    message ← env.parsebytes file_bytes
    body ← body_from_message message
    ok (record {
      action_id = filled message.message_id;
      poi_header = message.poi_header;
      action_payload = some (
          email_payload (text_or_empty message.to_header) (text_or_empty message.subject_header)
            body);
    })

pub record TimestampAnchorResult : Type 0 where
  pub verified : Bool
  pub pending : Bool
  pub detail : String
