-- ===== src/Json.antt =====
-- JSON values: what a Python `dict[str, Any]` of this program holds. Floats do not occur: the program
-- builds none, and inputs that are read with `json.loads` are taken to have none.
use agent_of_record.Common.{
  ℕ, String, Bool, true, false, Option, none, some, if◌then◌else◌, ◌==◌, nat_eq, string_eq, list_eq,
  option_eq,
}

-- `negsuc n` is -(n + 1).
pub data ℤ : Type 0 where
  pos : ℕ → ℤ
  negsuc : ℕ → ℤ

mutual
  pub data Json : Type 0 where
    null : Json
    bool : Bool → Json
    int : ℤ → Json
    str : String → Json
    arr : Items → Json
    obj : Fields → Json

  pub data Items : Type 0 where
    nil : Items
    cons : Json → Items → Items

  pub data Fields : Type 0 where
    end : Fields
    field : String → Json → Fields → Fields

-- `isinstance(value, dict)`
abbrev pub is_dict : Json → Bool
is_dict (obj fs) = true
is_dict _ = false

-- `null` for an absent optional text
abbrev pub opt_str : Option String → Json
opt_str none = null
opt_str (some s) = str s

-- `d.get(key)`
unfoldable pub get_field : String → Fields → Option Json
get_field k end = none
get_field k (field j v fs) = if j == k then some v else get_field k fs

-- A dict with one and with two keys.
abbrev pub one_field : String → Json → Json
one_field k v = obj (field k v end)

abbrev pub two_fields : String → Json → String → Json → Json
two_fields k v j w = obj (field k v (field j w end))
