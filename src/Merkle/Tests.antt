-- ===== src/Merkle/Tests.antt =====
-- A tree over three entries, whose last leaf is doubled, and the theorems at it.
use agent_of_record.Common.{
  ◌∷◌, arith, ℕ, ◌+◌, ◌≡◌, refl, ◌⊎◌, true, some, List, [], nat_eq, string_eq, list_eq, option_eq,
  list_beq, length, get_elem?, Result, ok, err,
}
use agent_of_record.Common.Dict.{lookup, insert}
use agent_of_record.Toy.{toy, toy-IsSha3}
use agent_of_record.CryptoCore.{Bytes, hash_payload}
use agent_of_record.CryptoCore.Hex.{hex, hex_digit}
use agent_of_record.CryptoCore.Laws.{Collision}
use agent_of_record.LedgerCore.{LedgerEntry, append, compute_leaf_hash}
use agent_of_record.LedgerCore.Tests.{three_entries, second}
use agent_of_record.Merkle.{
  MerkleTree, root, sibling_index, direction, proof_from, get_proof, collect_leaves, pad,
  parent_hash, pair_up, next_level, build_levels, build_merkle_tree, check_proof,
  verify_merkle_proof,
}
use agent_of_record.Merkle.Collect.{leaf_hashes}
use agent_of_record.Merkle.Tower.{IsTreeInput, IsProofInput, IsTower, build_levels-IsTower}
use agent_of_record.Merkle.Inclusion.{
  get_proof_accepted, verify_merkle_proof_sound, root_binds_leaves,
}

abbrev tree_of : Result MerkleTree → MerkleTree
tree_of (ok t) = t
tree_of (err e) = record { levels = []; entry_positions = [] }

abbrev bytes_of : Result Bytes → Bytes
bytes_of (ok b) = b
bytes_of (err e) = []

abbrev proof_of : Result (List Bytes) → List Bytes
proof_of (ok p) = p
proof_of (err e) = []

abbrev tree : MerkleTree
tree = tree_of (build_merkle_tree three_entries.entries)

abbrev top : Bytes
top = bytes_of (root tree)

abbrev proof_of_second : List Bytes
proof_of_second = proof_of (get_proof 2 tree)

tree_built : build_merkle_tree three_entries.entries ≡ ok tree
unfolding append compute_leaf_hash hash_payload hex hex_digit build_merkle_tree collect_leaves
    build_levels next_level pad pair_up parent_hash list_beq lookup insert
tree_built = refl

root_read : root tree ≡ ok top
unfolding append compute_leaf_hash hash_payload hex hex_digit build_merkle_tree collect_leaves
    build_levels next_level pad pair_up parent_hash list_beq lookup insert root
root_read = refl

second_there : get_elem? three_entries.entries 1 ≡ some second
unfolding append compute_leaf_hash hash_payload hex hex_digit list_beq
second_there = refl

second_accepted : verify_merkle_proof second.leaf_hash proof_of_second top ≡ true
unfolding append compute_leaf_hash hash_payload hex hex_digit build_merkle_tree collect_leaves
    build_levels next_level pad pair_up parent_hash list_beq lookup insert root get_proof proof_from
    sibling_index direction check_proof verify_merkle_proof
second_accepted = refl

height : length proof_of_second + 1 ≡ length tree.levels
unfolding append compute_leaf_hash hash_payload hex hex_digit build_merkle_tree collect_leaves
    build_levels next_level pad pair_up parent_hash list_beq lookup insert root get_proof proof_from
    sibling_index direction
height = refl

get_proof_accepted_example :
    (proof : List Bytes) × (t : Bytes) × (get_proof second.entry_id tree ≡ ok proof)
    × (root tree ≡ ok t)
    × (verify_merkle_proof second.leaf_hash proof t ≡ true)
get_proof_accepted_example =
    get_proof_accepted three_entries.entries tree 1 second toy-IsSha3 tree_built second_there

verify_merkle_proof_sound_example :
    ((i : ℕ) × (e : LedgerEntry) × (get_elem? three_entries.entries i ≡ some e)
      × (e.leaf_hash ≡ second.leaf_hash))
    ⊎ Collision toy (IsProofInput second.leaf_hash proof_of_second) (IsTreeInput tree.levels)
verify_merkle_proof_sound_example =
    verify_merkle_proof_sound three_entries.entries tree second.leaf_hash top proof_of_second
      toy-IsSha3 tree_built root_read height second_accepted

root_binds_leaves_example :
    (leaf_hashes three_entries.entries ≡ leaf_hashes three_entries.entries)
    ⊎ Collision toy (IsTreeInput tree.levels) (IsTreeInput tree.levels)
root_binds_leaves_example =
    root_binds_leaves three_entries.entries three_entries.entries tree tree top toy-IsSha3
      tree_built tree_built refl root_read root_read

three_leaves : length (leaf_hashes three_entries.entries) ≡ 3
unfolding append compute_leaf_hash hash_payload hex hex_digit list_beq
three_leaves = refl

build_levels-IsTower_example :
    (above : List (List Bytes)) × (build_levels 3 (leaf_hashes three_entries.entries)
      ≡ leaf_hashes three_entries.entries ∷ above)
    × IsTower (leaf_hashes three_entries.entries) above
build_levels-IsTower_example =
    build_levels-IsTower 3 (leaf_hashes three_entries.entries) (omega (arith, three_leaves))
      (omega (arith, three_leaves))
