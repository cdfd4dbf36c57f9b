-- ===== src/Merkle/Inclusion.antt =====
-- Inclusion proofs: a built tree proves each of its entries, a proof shows nothing else, and the root
-- binds the leaves.
use agent_of_record.Common.{
  ℕ, zero, suc, ◌+◌, ◌≡◌, refl, sym, ap, ◌∙◌, ◌⊎◌, inl, inr, true, some, List, [], ◌∷◌, arith,
  nat_eq, string_eq, list_eq, option_eq, length, get_elem?, length-map, ok, >>=-eq-ok,
  All-get_elem?,
}
use agent_of_record.Common.Dict.{lookup}
use agent_of_record.CryptoCore.{Crypto, Bytes}
use agent_of_record.CryptoCore.Laws.{IsSha3, Collision}
use agent_of_record.LedgerCore.{LedgerEntry}
use agent_of_record.Merkle.{
  MerkleTree, root, get_proof, build_levels, build_merkle_tree, collect_leaves, verify_merkle_proof,
  hash_size,
}
use agent_of_record.Merkle.Levels.{AreHashes}
use agent_of_record.Merkle.Tower.{
  IsTower, build_levels-IsTower, IsTower-complete, IsTower-sound, IsTower-root, IsTower-binds,
  length-IsTower, IsTreeInput, IsProofInput,
}
use agent_of_record.Merkle.Collect.{leaf_hashes, collect_leaves-leaves, collect_leaves-positions}

module _ ⦃c : Crypto⦄ where
  -- What `build_merkle_tree` makes of the entries.
  pub record IsBuilt (es : List LedgerEntry) (tree : MerkleTree) : Type 0 where
    pub above : List (List Bytes)
    pub levels : tree.levels ≡ leaf_hashes es ∷ above
    pub tower : IsTower (leaf_hashes es) above
    pub sizes : AreHashes (leaf_hashes es)
    pub positions :
        (i : ℕ) (e : LedgerEntry)
        → get_elem? es i ≡ some e
        → lookup e.entry_id tree.entry_positions ≡ some i

  pub build_merkle_tree-IsBuilt :
      (es : List LedgerEntry) {tree : MerkleTree} → build_merkle_tree es ≡ ok tree → IsBuilt es tree
  unfolding build_merkle_tree
  build_merkle_tree-IsBuilt [] h = absurd (ground arith)
  build_merkle_tree-IsBuilt (f ∷ es) {tree} h =
      let (r, er, et) = >>=-eq-ok (collect_leaves 0 [] [] (f ∷ es)) _ h in
      let (same, sizes) = collect_leaves-leaves 0 [] [] (f ∷ es) {r = r} er in
      let (above, el, t) =
        build_levels-IsTower (length r.1) (leaf_hashes (f ∷ es)) (omega arith)
          (rw same (omega arith)) in
      record {
        above = above;
        levels =
            (let made : tree.levels ≡ build_levels (length r.1) r.1 = cc et in
              made ∙ ap (build_levels (length r.1)) same ∙ el);
        tower = t;
        sizes = sizes;
        positions = λ i e at.
            (let made : r.0 ≡ tree.entry_positions = cc et in
              rw (← made) (
                collect_leaves-positions 0 [] [] (f ∷ es) i {e = e} {r = r} er at
                ∙ ap some (omega arith)));
      }

  get_elem?-leaf_hashes :
      (es : List LedgerEntry) (i : ℕ) {e : LedgerEntry}
      → get_elem? es i ≡ some e
      → get_elem? (leaf_hashes es) i ≡ some e.leaf_hash
  get_elem?-leaf_hashes [] i h = absurd (ground arith)
  get_elem?-leaf_hashes (f ∷ es) zero h = cc h
  get_elem?-leaf_hashes (f ∷ es) (suc i) {e} h = get_elem?-leaf_hashes es i {e = e} h

  leaf_hashes-entry :
      (es : List LedgerEntry) (i : ℕ) {x : Bytes}
      → get_elem? (leaf_hashes es) i ≡ some x
      → (e : LedgerEntry) × (get_elem? es i ≡ some e) × (e.leaf_hash ≡ x)
  leaf_hashes-entry [] i h = absurd (ground arith)
  leaf_hashes-entry (f ∷ es) zero h = (f, refl, cc h)
  leaf_hashes-entry (f ∷ es) (suc i) {x} h = leaf_hashes-entry es i {x = x} h

  -- For every entry of a built tree, `get_proof` returns a proof, `root` a root, and
  -- `verify_merkle_proof` accepts the entry's leaf hash with them.
  pub get_proof_accepted :
      (es : List LedgerEntry) (tree : MerkleTree) (i : ℕ) (e : LedgerEntry)
      → IsSha3 c
      → build_merkle_tree es ≡ ok tree
      → get_elem? es i ≡ some e
      → (proof : List Bytes) × (top : Bytes) × (get_proof e.entry_id tree ≡ ok proof)
        × (root tree ≡ ok top)
        × (verify_merkle_proof e.leaf_hash proof top ≡ true)
  unfolding get_proof root verify_merkle_proof
  get_proof_accepted es tree i e sha built at =
      let b = build_merkle_tree-IsBuilt es {tree = tree} built in
      let leaves = leaf_hashes es in
      let at' = get_elem?-leaf_hashes es i {e = e} at in
      let (top, r, size) = IsTower-root leaves b.above sha b.tower b.sizes in
      let (proof, p, ch) =
        IsTower-complete leaves b.above i {x = e.leaf_hash} {top = top} sha b.tower b.sizes r at' in
      let fits = All-get_elem? (λ h. length h ≡ hash_size) leaves i {a = e.leaf_hash} b.sizes at' in
      (proof, top, rw (b.positions i e at, b.levels) p, rw b.levels r, ground arith)

  -- A leaf hash that `verify_merkle_proof` accepts against a built tree's root, with a proof of the
  -- tree's height, is that of an entry of the tree, or two different byte strings, one hashed for the
  -- proof and one for the tree, have one digest.
  pub verify_merkle_proof_sound :
      (es : List LedgerEntry) (tree : MerkleTree) (leaf top : Bytes) (proof : List Bytes)
      → IsSha3 c
      → build_merkle_tree es ≡ ok tree
      → root tree ≡ ok top
      → length proof + 1 ≡ length tree.levels
      → verify_merkle_proof leaf proof top ≡ true
      → ((i : ℕ) × (e : LedgerEntry) × (get_elem? es i ≡ some e) × (e.leaf_hash ≡ leaf))
        ⊎ Collision c (IsProofInput leaf proof) (IsTreeInput tree.levels)
  unfolding root verify_merkle_proof
  verify_merkle_proof_sound es tree leaf top proof sha built r n ok_ =
      let b = build_merkle_tree-IsBuilt es {tree = tree} built in
      elim (IsTower-sound (leaf_hashes es) b.above leaf proof {top = top} sha b.tower b.sizes
        (ground arith) (rw b.levels at r) (omega (arith, ap length b.levels)) (ground arith)) [
          | inl (i, at) ↦
              (let (e, here, same) = leaf_hashes-entry es i {x = leaf} at in inl (i, e, here, same))
          | inr found ↦ inr (rw b.levels found)
        ]

  -- Two lists of entries of one length with one root have the same leaf hashes in the same order, or
  -- two different byte strings, one hashed for each tree, have one digest.
  pub root_binds_leaves :
      (es fs : List LedgerEntry) (tree other : MerkleTree) (top : Bytes)
      → IsSha3 c
      → build_merkle_tree es ≡ ok tree
      → build_merkle_tree fs ≡ ok other
      → length es ≡ length fs
      → root tree ≡ ok top
      → root other ≡ ok top
      → (leaf_hashes es ≡ leaf_hashes fs)
        ⊎ Collision c (IsTreeInput tree.levels) (IsTreeInput other.levels)
  unfolding root
  root_binds_leaves es fs tree other top sha built made n r s =
      let b = build_merkle_tree-IsBuilt es {tree = tree} built in
      let d = build_merkle_tree-IsBuilt fs {tree = other} made in
      let same_size : length (leaf_hashes es) ≡ length (leaf_hashes fs) =
        length-map _ es ∙ n ∙ sym (length-map _ fs) in
      rw (b.levels, d.levels)
        (IsTower-binds (leaf_hashes es) (leaf_hashes fs) b.above d.above {top = top} sha b.tower
          d.tower b.sizes d.sizes same_size
          (length-IsTower (leaf_hashes es) (leaf_hashes fs) b.above d.above b.tower d.tower
            same_size)
          (rw b.levels at r) (rw d.levels at s))
