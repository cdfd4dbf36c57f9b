-- ===== src/Merkle.antt =====
-- ledger_core/merkle.py: trees over leaf hashes, inclusion proofs and their verification.
mod Levels
mod Tower
mod Collect
pub mod Inclusion
mod Tests
use agent_of_record.Common.{
  ℕ, zero, suc, ◌+◌, ◌-◌, ◌/◌, ◌%◌, Bool, false, not, ◌||◌, none, some, List, [], ◌∷◌, ◌++◌, ltb,
  if◌then◌else◌, ◌==◌, nat_eq, string_eq, list_eq, option_eq, length, get_elem?, take, drop,
  get_last?, value_error, key_error, index_error, duplicate_entry, Result, ok, err, ◌>>=◌, ◌>>◌,
  raise_if, or_raise,
}
use agent_of_record.Common.Dict.{Dict, lookup, contains, insert}
use agent_of_record.CryptoCore.{Crypto, Bytes, hash_sha3_256}
use agent_of_record.LedgerCore.{LedgerEntry}

abbrev pub left_sibling : ℕ
left_sibling = 0

abbrev pub right_sibling : ℕ
right_sibling = 1

abbrev pub hash_size : ℕ
hash_size = 32

pub record MerkleTree : Type 0 where
  pub levels : List (List Bytes)
  pub entry_positions : Dict ℕ ℕ

-- `xs[:-1]`
abbrev pub drop_last {ℓ} : {A : Type ℓ} → List A → List A
drop_last [] = []
drop_last (x ∷ []) = []
drop_last (x ∷ y ∷ xs) = x ∷ drop_last (y ∷ xs)

-- `self._levels[-1][0]`
abbrev pub root_of : List (List Bytes) → Result Bytes
root_of levels = do
  level ← or_raise (get_last? levels) index_error
  or_raise (get_elem? level 0) index_error

unfoldable pub root : MerkleTree → Result Bytes
root tree = root_of tree.levels

unfoldable pub sibling_index : List Bytes → ℕ → ℕ
sibling_index level index =
    if index % 2 == 0
    then (if ltb (index + 1) (length level) then index + 1 else index)
    else index - 1

unfoldable pub direction : ℕ → ℕ
direction index = if index % 2 == 0 then right_sibling else left_sibling

-- The loop of `get_proof` over all levels but the last.
unfoldable pub proof_from : List (List Bytes) → ℕ → Result (List Bytes)
proof_from [] index = ok []
proof_from (level ∷ levels) index = do
  sibling ← or_raise (get_elem? level (sibling_index level index)) index_error
  proof ← proof_from levels (index / 2)
  ok ((direction index ∷ sibling) ∷ proof)

unfoldable pub get_proof : ℕ → MerkleTree → Result (List Bytes)
get_proof entry_id tree = do
  index ← or_raise (lookup entry_id tree.entry_positions) key_error
  proof_from (drop_last tree.levels) index

-- The first loop of `build_merkle_tree`: the positions and the leaves so far.
unfoldable pub collect_leaves :
    ℕ → Dict ℕ ℕ → List Bytes → List LedgerEntry → Result (Dict ℕ ℕ × List Bytes)
collect_leaves position positions leaves [] = ok (positions, leaves)
collect_leaves position positions leaves (entry ∷ entries) =
    let rest =
      collect_leaves (position + 1) (insert entry.entry_id position positions)
        (leaves ++ entry.leaf_hash ∷ []) entries in
    do
      raise_if (contains entry.entry_id positions) (duplicate_entry entry.entry_id)
      raise_if (not (length entry.leaf_hash == hash_size))
          (value_error "each entry leaf_hash must be a 32-byte SHA3-256 digest")
      rest

-- `current_level + [current_level[-1]]` for a level of odd size
unfoldable pub pad : List Bytes → List Bytes
pad level =
    if length level % 2 == 0
    then level
    else elim (get_last? level) [ none ↦ level | some last ↦ level ++ last ∷ [] ]

module _ ⦃c : Crypto⦄ where
  unfoldable pub parent_hash : Bytes → Bytes → Bytes
  unfolding hash_sha3_256
  parent_hash left right = hash_sha3_256 (left ++ right)

  -- The parents of the pairs at 0, 2, 4, ….
  unfoldable pub pair_up : List Bytes → List Bytes
  pair_up [] = []
  pair_up (left ∷ []) = []
  pair_up (left ∷ right ∷ rest) = parent_hash left right ∷ pair_up rest

  unfoldable pub next_level : List Bytes → List Bytes
  next_level level = pair_up (pad level)

  -- The `while` loop, with fuel; a level of `n` hashes needs less than `n` rounds.
  unfoldable pub build_levels : ℕ → List Bytes → List (List Bytes)
  build_levels zero level = level ∷ []
  build_levels (suc fuel) level =
      let rest = build_levels fuel (next_level level) in
      if ltb 1 (length level) then level ∷ rest else level ∷ []

  unfoldable pub build_merkle_tree : List LedgerEntry → Result MerkleTree
  build_merkle_tree [] = err (value_error "cannot build a Merkle tree with no entries")
  build_merkle_tree (entry ∷ entries) = do
    (positions, leaves) ← collect_leaves 0 [] [] (entry ∷ entries)
    ok (record { levels = build_levels (length leaves) leaves; entry_positions = positions })

  -- The loop of `verify_merkle_proof`.
  unfoldable pub check_proof : Bytes → List Bytes → Bytes → Bool
  check_proof current_hash [] top = current_hash == top
  check_proof current_hash (item ∷ proof) top =
      let sibling_hash = drop 1 item in
      let on_left = check_proof (parent_hash sibling_hash current_hash) proof top in
      let on_right = check_proof (parent_hash current_hash sibling_hash) proof top in
      if not (length item == hash_size + 1)
      then false
      else if take 1 item == left_sibling ∷ []
      then on_left
      else if take 1 item == right_sibling ∷ []
      then on_right
      else false

  unfoldable pub verify_merkle_proof : Bytes → List Bytes → Bytes → Bool
  verify_merkle_proof leaf_hash proof top =
      if not (length leaf_hash == hash_size) || not (length top == hash_size)
      then false
      else check_proof leaf_hash proof top
