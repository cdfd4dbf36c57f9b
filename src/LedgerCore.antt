-- ===== src/LedgerCore.antt =====
-- ledger_core/ledger.py: the append-only hash chain. The time of `append` is an argument, and
-- `deepcopy` of an immutable value is the value.
pub mod Tests
pub mod Chain
pub mod Tamper
use agent_of_record.Common.{
  ℕ, ◌+◌, ◌-◌, String, Bool, true, false, not, ◌||◌, Option, none, some, List, [], ◌∷◌, ◌++◌, map,
  ltb, if◌then◌else◌, ◌==◌, nat_eq, string_eq, list_eq, option_eq, length, get_elem?, get_last?,
  value_error, type_error, key_error, Result, ok, err, ◌>>=◌, ◌>>◌, raise_if, or_raise,
}
use agent_of_record.CryptoCore.{Crypto, Bytes, hash_payload}
use agent_of_record.CryptoCore.Hex.{hex}
use agent_of_record.Json.{Json, ℤ, pos, negsuc, str, is_dict, two_fields}

pub record LedgerEntry : Type 0 where
  pub entry_id : ℕ
  pub entry_type : String
  pub content : Json
  pub timestamp : String
  pub prev_hash : Bytes
  pub leaf_hash : Bytes

pub record Ledger : Type 0 where
  pub entries : List LedgerEntry

abbrev pub empty : Ledger
empty = record { entries = [] }

copy_entry : LedgerEntry → LedgerEntry
copy_entry entry = record {
  entry_id = entry.entry_id;
  entry_type = entry.entry_type;
  content = entry.content;
  timestamp = entry.timestamp;
  prev_hash = entry.prev_hash;
  leaf_hash = entry.leaf_hash;
}

unfoldable pub from_entries : List LedgerEntry → Ledger
unfolding copy_entry
from_entries entries = record { entries = map copy_entry entries }

abbrev pub leaf_material : Json → Bytes → Json
leaf_material content prev_hash = two_fields "content" content "prev_hash" (str (hex prev_hash))

-- `self._entries[-1].leaf_hash if self._entries else b""`
abbrev pub last_hash : List LedgerEntry → Bytes
last_hash entries = elim (get_last? entries) [ none ↦ [] | some entry ↦ entry.leaf_hash ]

module _ ⦃c : Crypto⦄ where
  unfoldable pub compute_leaf_hash : Json → Bytes → Result Bytes
  compute_leaf_hash content prev_hash = hash_payload (leaf_material content prev_hash)

  unfoldable pub append : String → Json → String → Ledger → Result (LedgerEntry × Ledger)
  append entry_type content timestamp ledger = do
    raise_if (entry_type == "") (value_error "entry_type must be a non-empty string")
    raise_if (not (is_dict content)) (type_error "content must be a dictionary")
    let prev_hash = last_hash ledger.entries
    leaf_hash ← compute_leaf_hash content prev_hash
    let entry : LedgerEntry = record {
      entry_id = length ledger.entries + 1;
      entry_type = entry_type;
      content = content;
      timestamp = timestamp;
      prev_hash = prev_hash;
      leaf_hash = leaf_hash;
    }
    ok (entry, record { entries = ledger.entries ++ entry ∷ [] })

  -- The loop of `first_invalid_entry_id`, from the expected previous hash.
  unfoldable pub first_invalid : Bytes → List LedgerEntry → Result (Option ℕ)
  first_invalid expected_prev_hash [] = ok none
  first_invalid expected_prev_hash (entry ∷ entries) =
      let rest = first_invalid entry.leaf_hash entries in
      do
        expected_leaf_hash ← compute_leaf_hash entry.content expected_prev_hash
        if not (entry.prev_hash == expected_prev_hash)
              || not (entry.leaf_hash == expected_leaf_hash)
            then ok (some entry.entry_id)
            else rest

  unfoldable pub first_invalid_entry_id : Ledger → Result (Option ℕ)
  first_invalid_entry_id ledger = first_invalid [] ledger.entries

  unfoldable pub verify_chain : Ledger → Result Bool
  verify_chain ledger = do
    invalid ← first_invalid_entry_id ledger
    ok (elim invalid [ none ↦ true | some _ ↦ false ])

unfoldable pub get_entry : ℤ → Ledger → Result LedgerEntry
get_entry (negsuc n) ledger = err key_error
get_entry (pos n) ledger =
    if ltb n 1 then err key_error else or_raise (get_elem? ledger.entries (n - 1)) key_error

abbrev pub all_entries : Ledger → List LedgerEntry
all_entries ledger = ledger.entries
