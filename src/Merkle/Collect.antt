-- ===== src/Merkle/Collect.antt =====
-- The first loop of `build_merkle_tree`: what it stores, and when it fails.
use agent_of_record.Common.{
  ℕ, zero, suc, ◌+◌, ◌≡◌, ap, ◌∙◌, none, some, List, [], ◌∷◌, ◌++◌, map, append-nil, append_assoc,
  arith, nat_eq, string_eq, list_eq, option_eq, length, get_elem?, All, ok,
}
use agent_of_record.Common.Dict.{Dict, lookup, insert, lookup-insert, lookup-insert_self}
use agent_of_record.CryptoCore.{Bytes}
use agent_of_record.LedgerCore.{LedgerEntry}
use agent_of_record.Merkle.{collect_leaves, hash_size}

abbrev pub leaf_hashes : List LedgerEntry → List Bytes
leaf_hashes = map (λ e. e.leaf_hash)

-- One round that does not raise.
collect_leaves-cons :
    (k : ℕ) (d : Dict ℕ ℕ) (ls : List Bytes) (e : LedgerEntry) (es : List LedgerEntry)
    {r : Dict ℕ ℕ × List Bytes}
    → collect_leaves k d ls (e ∷ es) ≡ ok r
    → (lookup e.entry_id d ≡ none)
      × (length e.leaf_hash ≡ hash_size)
      × (collect_leaves (k + 1) (insert e.entry_id k d) (ls ++ e.leaf_hash ∷ []) es ≡ ok r)
unfolding collect_leaves
collect_leaves-cons k d ls e es h = ground arith

-- The leaves are the entries' hashes in order, and each has the size of a digest.
pub collect_leaves-leaves :
    (k : ℕ) (d : Dict ℕ ℕ) (ls : List Bytes) (es : List LedgerEntry) {r : Dict ℕ ℕ × List Bytes}
    → collect_leaves k d ls es ≡ ok r
    → (r.1 ≡ ls ++ leaf_hashes es) × All (λ h. length h ≡ hash_size) (leaf_hashes es)
unfolding collect_leaves
collect_leaves-leaves k d ls [] {r} h = (ground (arith, append-nil ls), tt)
collect_leaves-leaves k d ls (e ∷ es) {r} h =
    let (_, size, rest) = collect_leaves-cons k d ls e es {r = r} h in
    let (same, sizes) =
      collect_leaves-leaves (k + 1) (insert e.entry_id k d) (ls ++ e.leaf_hash ∷ []) es {r = r}
        rest in
    (same ∙ append_assoc ls (e.leaf_hash ∷ []) (leaf_hashes es), (size, sizes))

-- A position that is stored stays.
collect_leaves-keeps :
    (k : ℕ) (d : Dict ℕ ℕ) (ls : List Bytes) (es : List LedgerEntry) (id n : ℕ)
    {r : Dict ℕ ℕ × List Bytes}
    → collect_leaves k d ls es ≡ ok r
    → lookup id d ≡ some n
    → lookup id r.0 ≡ some n
unfolding collect_leaves
collect_leaves-keeps k d ls [] id n {r} h at = ground arith
collect_leaves-keeps k d ls (e ∷ es) id n {r} h at =
    let (new, _, rest) = collect_leaves-cons k d ls e es {r = r} h in
    collect_leaves-keeps (k + 1) (insert e.entry_id k d) (ls ++ e.leaf_hash ∷ []) es id n {r = r}
      rest (ground (arith, lookup-insert e.entry_id id k d))

-- Each entry's id is stored with the entry's position.
pub collect_leaves-positions :
    (k : ℕ) (d : Dict ℕ ℕ) (ls : List Bytes) (es : List LedgerEntry) (i : ℕ) {e : LedgerEntry}
    {r : Dict ℕ ℕ × List Bytes}
    → collect_leaves k d ls es ≡ ok r
    → get_elem? es i ≡ some e
    → lookup e.entry_id r.0 ≡ some (k + i)
collect_leaves-positions k d ls [] i h at = absurd (ground arith)
collect_leaves-positions k d ls (f ∷ es) zero {e} {r} h at =
    let (_, _, rest) = collect_leaves-cons k d ls f es {r = r} h in
    let here : f ≡ e = cc at in
    let kept =
      collect_leaves-keeps (k + 1) (insert f.entry_id k d) (ls ++ f.leaf_hash ∷ []) es f.entry_id k
        {r = r} rest (lookup-insert_self f.entry_id k d) in
    rw (← here) (kept ∙ ap some (omega arith))
collect_leaves-positions k d ls (f ∷ es) (suc i) {e} {r} h at =
    let (_, _, rest) = collect_leaves-cons k d ls f es {r = r} h in
    collect_leaves-positions (k + 1) (insert f.entry_id k d) (ls ++ f.leaf_hash ∷ []) es i {e = e}
      {r = r} rest at
    ∙ ap some (omega arith)
