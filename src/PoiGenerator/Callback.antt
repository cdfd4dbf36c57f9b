-- ===== src/PoiGenerator/Callback.antt =====
-- poi_generator/callback_handler.py: the hook before each tool call. A session holds its ledger by
-- reference, so the ledgers are a heap. `json.loads`, the clock and the nonce are arguments.
pub mod Start
use agent_of_record.Common.{
  ℕ, String, Bool, true, false, not, Option, none, some, if◌then◌else◌, ◌==◌, nat_eq, string_eq,
  list_eq, option_eq, Error, runtime_error, key_error, Result, ok, err, ◌>>=◌, ◌>>◌, or_raise,
}
use agent_of_record.Common.Dict.{Dict, lookup, insert}
use agent_of_record.CryptoCore.{Crypto, Bytes}
use agent_of_record.Json.{
  Json, Items, Fields, ℤ, pos, negsuc, null, bool, int, str, arr, obj, nil, cons, field, end,
  get_field, is_dict, one_field,
}
use agent_of_record.LedgerCore.{LedgerEntry, Ledger, append}
use agent_of_record.PoiGenerator.Models.{ProofOfIntent}
use agent_of_record.PoiGenerator.Poi.{no_claims, build_poi, sign_poi}

-- `ledger` is a place in the heap; Python's references never dangle, so that a place without a ledger,
-- which blocks a call as a missing session does, does not arise.
pub record VerifiedSessionContext : Type 0 where
  pub session_id : String
  pub user_prompt : String
  pub system_prompt : String
  pub ledger : ℕ
  pub model_id : String

pub record PoiCallbackHandler : Type 0 where
  pub sessions : Dict String VerifiedSessionContext
  pub agent_private_key : Bytes
  pub pois_by_run_id : Dict String ProofOfIntent

pub record State : Type 0 where
  pub handler : PoiCallbackHandler
  pub ledgers : Dict ℕ Ledger

-- The clock and the nonce as one call reads them.
pub record Readings : Type 0 where
  pub poi_timestamp : String
  pub nonce : String
  pub entry_timestamp : String

unfoldable pub register_verified_session :
    VerifiedSessionContext → PoiCallbackHandler → PoiCallbackHandler
register_verified_session context h = record h {
  sessions = insert context.session_id context h.sessions;
}

unfoldable pub get_poi : String → PoiCallbackHandler → Result ProofOfIntent
get_poi run_id h = or_raise (lookup run_id h.pois_by_run_id) key_error

-- `json.loads`; `none` is a `JSONDecodeError`
unfoldable pub action_payload : (String → Option Json) → String → Json
action_payload loads input_str = elim (loads input_str) [
  | none ↦ one_field "input" (str input_str)
  | some decoded ↦ if is_dict decoded then decoded else one_field "input" (str input_str)
]

-- Python's truth of a value.
unfoldable pub is_true : Json → Bool
is_true null = false
is_true (bool b) = b
is_true (int (pos n)) = not (n == 0)
is_true (int (negsuc n)) = true
is_true (str s) = not (s == "")
is_true (arr nil) = false
is_true (arr (cons x xs)) = true
is_true (obj end) = false
is_true (obj (field k v fs)) = true

-- `serialized.get("name") or serialized.get("id") or "unknown_tool"`
unfoldable pub first_true : Option Json → Json → Json
unfolding is_true
first_true none other = other
first_true (some v) other = if is_true v then v else other

unfoldable pub tool_name : Fields → Json
unfolding first_true
tool_name serialized =
    first_true (get_field "name" serialized)
      (first_true (get_field "id" serialized) (str "unknown_tool"))

abbrev pub tool_call : Json → Json → String → Json
tool_call name input run_id =
    obj (field "tool_name" name (field "input" input (field "run_id" (str run_id) end)))

abbrev pub missing_context : Error
missing_context =
    runtime_error "tool execution blocked: no verified session context in callback metadata"

-- The session of the metadata, if its identifier is a text that is registered.
unfoldable pub find_session : Option Json → PoiCallbackHandler → Option VerifiedSessionContext
find_session (some (str session_id)) h = lookup session_id h.sessions
find_session _ h = none

module _ ⦃c : Crypto⦄ (loads : String → Option Json) where
  -- The signed proof of the call.
  unfoldable pub make_poi :
      Readings → VerifiedSessionContext → Bytes → Ledger → Json → Result ProofOfIntent
  make_poi at context key ledger payload = do
    poi ←
        build_poi context.user_prompt context.system_prompt ledger payload context.model_id
          no_claims at.poi_timestamp at.nonce
    sign_poi poi key

  -- The proof is kept before the call is appended, so that it stays if that raises.
  unfoldable pub record_call :
      ℕ
      → Ledger
      → ProofOfIntent
      → String
      → State
      → Result (LedgerEntry × Ledger)
      → Result (Unit {0}) × State
  record_call place ledger poi run_id state appended =
      let kept : State = record state {
        handler = record state.handler {
          pois_by_run_id = insert run_id poi state.handler.pois_by_run_id;
        };
      } in
      elim appended [
        | err e ↦ (err e, kept)
        | ok grown ↦ (ok tt, record kept { ledgers = insert place grown.1 state.ledgers })
      ]

  unfoldable pub start_with :
      Readings
      → Fields
      → Json
      → String
      → VerifiedSessionContext
      → Ledger
      → State
      → Result (Unit {0}) × State
  start_with at serialized payload run_id context ledger state =
      elim (make_poi at context state.handler.agent_private_key ledger payload) [
        | err e ↦ (err e, state)
        | ok poi ↦ record_call context.ledger ledger poi run_id state (
            append "tool_call" (tool_call (tool_name serialized) payload run_id) at.entry_timestamp
              ledger)
      ]

  unfoldable pub on_tool_start :
      Readings → Fields → String → String → Option Json → State → Result (Unit {0}) × State
  on_tool_start at serialized input_str run_id session_id state =
      elim (find_session session_id state.handler) [
        | none ↦ (err missing_context, state)
        | some context ↦ elim (lookup context.ledger state.ledgers) [
          | none ↦ (err missing_context, state)
          | some ledger ↦
              start_with at serialized (action_payload loads input_str) run_id context ledger state
        ]
      ]
