-- ===== src/Agents/Plan.antt =====
-- aor/agents/base.py: the plans that agents make and the results they report, and the guards that the
-- agents' `execute` begins with.
use agent_of_record.Common.{
  String, Bool, false, not, ◌||◌, Option, none, some, List, [], ◌∷◌, if◌then◌else◌, ◌==◌, nat_eq,
  string_eq, list_eq, option_eq, validation_error, agent_error, Result, ok, err, ◌>>◌, raise_if,
}
use Prim.Native.String.{◌++◌ as text_append}
use agent_of_record.Common.Text.{strip}
use agent_of_record.Json.{Fields, str, field, end, get_field}

pub record ActionPlan : Type 0 where
  pub agent_type : String
  pub agent_id : Option String
  pub action_type : String
  pub payload : Fields
  pub requires_confirmation : Bool
  pub confirmed : Bool
  pub policy_decision : String

pub record ActionResult : Type 0 where
  pub success : Bool
  pub artifact_ref : Option String
  pub details : Fields
  pub observed_effect : Fields

-- What pydantic checks of a plan, and what it makes of the policy decision.
unfoldable pub validate_plan : ActionPlan → Result ActionPlan
validate_plan plan = do
  raise_if (plan.agent_type == "" || plan.agent_id == some "" || plan.action_type == "")
      (validation_error "String should have at least 1 character")
  raise_if (strip plan.policy_decision == "") (validation_error "policy_decision cannot be empty")
  ok (record plan { policy_decision = strip plan.policy_decision })

-- `_failure`
abbrev pub failure : String → ActionResult
failure detail = record {
  success = false;
  artifact_ref = none;
  details = field "error" (str detail) end;
  observed_effect = end;
}

-- `action_type in self.capabilities`
unfoldable pub is_one_of : List String → String → Bool
is_one_of [] s = false
is_one_of (t ∷ texts) s = s == t || is_one_of texts s

abbrev pub is_other : Option String → String → Bool
is_other none s = false
is_other (some t) s = not (t == s)

-- The first guard that a plan does not pass, in the order of the tests.
unfoldable pub plan_error : String → String → List String → ActionPlan → Option String
unfolding is_one_of
plan_error agent_type agent_id capabilities plan =
    if not (plan.agent_type == agent_type)
    then some "agent_type_mismatch"
    else if is_other plan.agent_id agent_id
    then some "agent_id_mismatch"
    else if not (is_one_of capabilities plan.action_type)
    then some "unsupported_action_type"
    else if not (plan.policy_decision == "allow")
    then some "policy_decision_rejected"
    else none

-- `_required_string`
unfoldable pub required_string : Fields → String → Result String
required_string payload key = elim (get_field key payload) [
  | some (str s) ↦ if s == "" then err (agent_error (text_append key "_required")) else ok s
  | _ ↦ err (agent_error (text_append key "_required"))
]
