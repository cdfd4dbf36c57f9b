-- ===== src/TsaAnchor/Tests.antt =====
-- Two runs of the scheduler on one ledger.
use agent_of_record.Common.{
  ◌≡◌, refl, Option, none, some, [], ◌∷◌, nat_eq, string_eq, list_eq, option_eq, list_beq, Result,
  ok, err, duplicate_entry,
}
use agent_of_record.Toy.{toy}
use agent_of_record.CryptoCore.{Bytes, hash_payload}
use agent_of_record.CryptoCore.Hex.{hex, hex_digit}
use agent_of_record.LedgerCore.{append, compute_leaf_hash}
use agent_of_record.LedgerCore.Tests.{two_entries}
use agent_of_record.Merkle.{
  root, collect_leaves, pad, parent_hash, pair_up, next_level, build_levels, build_merkle_tree,
}
use agent_of_record.Common.Dict.{lookup, insert}
use agent_of_record.TsaAnchor.{
  text_of, decimal, decimal_from, TimestampToken, AnchorStore, anchored, add, with_root,
  last_anchored, for_root, latest_anchored, current_root, request_anchor, anchor_current_root,
}
use agent_of_record.TsaAnchor.Anchoring.{
  IsExtended, anchor_current_root-IsExtended, anchor_current_root_again,
}

duplicate_text : text_of (duplicate_entry 1042) ≡ "duplicate entry_id: 1042"
unfolding text_of decimal decimal_from hex_digit
duplicate_text = refl

abbrev grants : Bytes → Option TimestampToken
grants b = some (record { response_bytes = 1 ∷ b; gen_time = 7 })

abbrev refuses : Bytes → Option TimestampToken
refuses b = none

abbrev store : AnchorStore
store = record { records = [] }

abbrev bytes_of : Result Bytes → Bytes
bytes_of (ok b) = b
bytes_of (err e) = []

abbrev top : Bytes
top = bytes_of (current_root two_entries)

top_is_root : current_root two_entries ≡ ok top
unfolding append compute_leaf_hash hash_payload hex hex_digit current_root build_merkle_tree
    collect_leaves build_levels next_level pad pair_up parent_hash list_beq root lookup insert
top_is_root = refl

first_run : (anchor_current_root 8 grants "" two_entries store).0.status ≡ anchored
unfolding append compute_leaf_hash hash_payload hex hex_digit current_root build_merkle_tree
    collect_leaves build_levels next_level pad pair_up parent_hash list_beq root lookup insert
    anchor_current_root request_anchor add with_root last_anchored for_root latest_anchored
first_run = refl

anchor_current_root-IsExtended_example :
    IsExtended store
      (anchor_current_root 8 grants "" two_entries store).1
      (anchor_current_root 8 grants "" two_entries store).0
anchor_current_root-IsExtended_example =
    anchor_current_root-IsExtended 8 grants "" two_entries store

anchor_current_root_again_example :
    anchor_current_root 9 refuses "down" two_entries
      (anchor_current_root 8 grants "" two_entries store).1
    ≡ anchor_current_root 8 grants "" two_entries store
anchor_current_root_again_example =
    anchor_current_root_again 8 9 grants refuses "" "down" two_entries two_entries store top
      top_is_root top_is_root first_run
