-- ===== src/LedgerCore/Tests.antt =====
-- Ledgers to run, and the theorems at them.
use agent_of_record.Common.{
  ◌+◌, ◌≤◌, ◌<◌, String, ◌≡◌, refl, ◌↔◌, ◌⊎◌, true, false, none, some, [], ◌∷◌, ◌++◌, nat_eq,
  string_eq, list_eq, option_eq, list_beq, option_beq, option_beq_iff, length, get_elem?, key_error,
  Result, ok, err, is_ok,
}
use agent_of_record.Toy.{toy, toy-IsSha3, toy-IsJcs, encode}
use agent_of_record.CryptoCore.Binding.{AreBytesOf}
use agent_of_record.CryptoCore.Laws.{Collision}
use agent_of_record.CryptoCore.Hex.{hex, hex_digit}
use agent_of_record.CryptoCore.{hash_payload}
use agent_of_record.Json.{Json, one_field, str, pos, negsuc, null, is_dict}
use agent_of_record.LedgerCore.{
  LedgerEntry, Ledger, empty, append, verify_chain, get_entry, leaf_material, last_hash,
  compute_leaf_hash, first_invalid, first_invalid_entry_id,
}
use agent_of_record.LedgerCore.Chain.{
  IsChain, IsValid, verify_chain_iff, append-IsValid, append_fails_iff, get_entry_total,
}
use agent_of_record.LedgerCore.Tamper.{
  IsLeafInput, set_content, set_content_detected, SameContents, last_hash_binds_history,
}

abbrev pub hello : Json
hello = one_field "text" (str "hello")

abbrev pub send : Json
send = one_field "to" (str "bob")

abbrev pub entry_of : Result (LedgerEntry × Ledger) → LedgerEntry
entry_of (ok (e, l)) = e
entry_of (err x) = record {
  entry_id = 0;
  entry_type = "";
  content = null;
  timestamp = "";
  prev_hash = [];
  leaf_hash = [];
}

abbrev pub ledger_of : Result (LedgerEntry × Ledger) → Ledger
ledger_of (ok (e, l)) = l
ledger_of (err x) = empty

abbrev pub one_entry : Ledger
one_entry = ledger_of (append "user_prompt" hello "t1" empty)

abbrev pub two_entries : Ledger
two_entries = ledger_of (append "agent_action" send "t2" one_entry)

abbrev pub second : LedgerEntry
second = entry_of (append "agent_action" send "t2" one_entry)

two_appended : append "agent_action" send "t2" one_entry ≡ ok (second, two_entries)
unfolding append compute_leaf_hash hash_payload
two_appended = refl

chain_of_two : verify_chain two_entries ≡ ok true
unfolding verify_chain first_invalid_entry_id first_invalid append compute_leaf_hash hash_payload
    hex hex_digit list_beq
chain_of_two = refl

verify_chain_iff_example : (verify_chain two_entries ≡ ok true) ↔ IsChain [] two_entries.entries
verify_chain_iff_example = verify_chain_iff two_entries

one_appended :
    append "user_prompt" hello "t1" empty
    ≡ ok (entry_of (append "user_prompt" hello "t1" empty), one_entry)
unfolding append compute_leaf_hash hash_payload
one_appended = refl

empty-IsValid : IsValid empty
empty-IsValid = record { chain = tt; numbered = tt }

one-IsValid : IsValid one_entry
one-IsValid = (append-IsValid "user_prompt" hello "t1" empty empty-IsValid one_appended).0

append-IsValid_example :
    IsValid two_entries × (two_entries.entries ≡ one_entry.entries ++ second ∷ [])
append-IsValid_example = append-IsValid "agent_action" send "t2" one_entry one-IsValid two_appended

append_fails_iff_example : (is_ok (append "" send "t" one_entry) ≡ false) ↔ (
    (◌≡◌ {A = String} "" "")
    ⊎ (is_dict send ≡ false)
    ⊎ (toy.dumps (leaf_material send (last_hash one_entry.entries)) ≡ none))
append_fails_iff_example = append_fails_iff "" send "t" one_entry

two-IsValid : IsValid two_entries
two-IsValid = (append-IsValid "agent_action" send "t2" one_entry one-IsValid two_appended).0

get_entry_total_example :
    (1 < length two_entries.entries
      → (e : LedgerEntry) × (get_entry (pos (1 + 1)) two_entries ≡ ok e) × (e.entry_id ≡ 1 + 1))
    × (length two_entries.entries ≤ 1 → get_entry (pos (1 + 1)) two_entries ≡ err key_error)
    × (get_entry (pos 0) two_entries ≡ err key_error)
    × (get_entry (negsuc 1) two_entries ≡ err key_error)
get_entry_total_example = get_entry_total two_entries 1 two-IsValid

abbrev forged : Json
forged = one_field "to" (str "eve")

second_there : get_elem? two_entries.entries 1 ≡ some second
unfolding append compute_leaf_hash hash_payload
second_there = refl

forged_differs : ¬ (
    toy.dumps (leaf_material second.content second.prev_hash)
    ≡ some (encode (leaf_material forged second.prev_hash)))
unfolding append compute_leaf_hash hash_payload hex hex_digit option_beq list_beq
forged_differs h =
    let no : option_beq (toy.dumps (leaf_material second.content second.prev_hash))
          (some (encode (leaf_material forged second.prev_hash)))
        ≡ false =
      refl in
    cc (no, (option_beq_iff _ _).1 h)

set_content_detected_example :
    (first_invalid_entry_id (record { entries = set_content 1 forged two_entries.entries })
      ≡ ok (some second.entry_id))
    ⊎ Collision toy
        (AreBytesOf (leaf_material second.content second.prev_hash))
        (λ r. r ≡ encode (leaf_material forged second.prev_hash))
set_content_detected_example =
    set_content_detected two_entries 1 second forged
      (encode (leaf_material forged second.prev_hash)) chain_of_two second_there refl forged_differs

last_hash_binds_history_example :
    SameContents two_entries.entries two_entries.entries
    ⊎ Collision toy (IsLeafInput two_entries.entries) (IsLeafInput two_entries.entries)
last_hash_binds_history_example =
    last_hash_binds_history two_entries two_entries toy-IsSha3 toy-IsJcs chain_of_two chain_of_two
      refl refl

abbrev pub three_entries : Ledger
three_entries = ledger_of (append "agent_result" hello "t3" two_entries)
