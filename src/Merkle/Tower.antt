-- ===== src/Merkle/Tower.antt =====
-- The levels that the `while` loop of `build_merkle_tree` stacks, up to the root.
use agent_of_record.Common.{
  ℕ, zero, suc, ◌+◌, ◌/◌, ◌≤◌, ◌<◌, ◌≡◌, refl, sym, ap, ◌∙◌, ◌⊎◌, inl, inr, true, some, List, [],
  ◌∷◌, ◌++◌, arith, if◌then◌else◌, Bool-cases, ◌==◌, nat_eq, string_eq, list_eq, option_eq,
  list_beq, list_beq_iff, length, get_elem?, take, drop, ok, All-get_elem?,
}
use agent_of_record.CryptoCore.{Crypto, Bytes, hash_sha3_256}
use agent_of_record.CryptoCore.Laws.{IsSha3, Collision, Collision-map}
use agent_of_record.Merkle.{
  root_of, drop_last, proof_from, direction, sibling_index, build_levels, check_proof, parent_hash,
  hash_size, left_sibling,
}
use agent_of_record.Merkle.Levels.{
  halve, next_level-eq-halve, length-halve, parent_at, get_elem?-halve, IsPaired, halve_children,
  AreHashes, halve-AreHashes, parent_hash-eq,
}

first_part : {P Q R : Type 0} → P × Q ⊎ R → P ⊎ R
first_part (inl (p, q)) = inl p
first_part (inr r) = inr r

second_part : {P Q R : Type 0} → P × Q ⊎ R → Q ⊎ R
second_part (inl (p, q)) = inl q
second_part (inr r) = inr r

only_element : {x y : Bytes} (i : ℕ) → get_elem? (x ∷ []) i ≡ some y → x ≡ y
only_element zero h = cc h
only_element (suc i) h = absurd (ground arith)

root_of-one : {x y : Bytes} → root_of ((x ∷ []) ∷ []) ≡ ok y → x ≡ y
root_of-one h = cc h

module _ ⦃c : Crypto⦄ where
  -- `above` are the levels over `level`, each made from the one below, and the last has one hash.
  abbrev pub IsTower : List Bytes → List (List Bytes) → Type 0
  IsTower level [] = (top : Bytes) × (level ≡ top ∷ [])
  IsTower level (next ∷ above) = (1 < length level) × (next ≡ halve level) × IsTower next above

  pub build_levels-IsTower :
      (fuel : ℕ) (level : List Bytes)
      → 0 < length level
      → length level ≤ fuel + 1
      → (above : List (List Bytes)) × (build_levels fuel level ≡ level ∷ above)
        × IsTower level above
  unfolding build_levels
  build_levels-IsTower fuel [] some_hash enough = absurd (omega arith)
  build_levels-IsTower zero (x ∷ []) some_hash enough = ([], refl, (x, refl))
  build_levels-IsTower (suc fuel) (x ∷ []) some_hash enough = ([], refl, (x, refl))
  build_levels-IsTower zero (x ∷ y ∷ r) some_hash enough = absurd (omega arith)
  build_levels-IsTower (suc fuel) (x ∷ y ∷ r) some_hash enough =
      let next = halve (x ∷ y ∷ r) in
      let (above, e, t) =
        build_levels-IsTower fuel next (omega (arith, length-halve r))
          (omega (arith, length-halve r)) in
      (next ∷ above, ground (arith, e, next_level-eq-halve (x ∷ y ∷ r)), (omega arith, refl, t))

  -- The proof for a hash at `i` is accepted against the root.
  pub IsTower-complete :
      (level : List Bytes) (above : List (List Bytes)) (i : ℕ) {x : Bytes} {top : Bytes}
      → IsSha3 c
      → IsTower level above
      → AreHashes level
      → root_of (level ∷ above) ≡ ok top
      → get_elem? level i ≡ some x
      → (proof : List Bytes) × (proof_from (drop_last (level ∷ above)) i ≡ ok proof)
        × (check_proof x proof top ≡ true)
  unfolding proof_from check_proof direction list_beq
  IsTower-complete level [] i {x} {top} sha (h, one) sizes r at = (
    [],
    refl,
    (list_beq_iff x top).1 (sym (only_element i (rw one at at)) ∙ root_of-one (rw one at r)),
  )
  IsTower-complete level (next ∷ above) i {x} {top} sha (_, made, t) sizes r at =
      let (s, es, ep) = get_elem?-halve level i {x = x} at in
      let (proof, ep', ec) =
        IsTower-complete next above (i / 2) {x = parent_at i x s} {top = top} sha t
          (rw made (halve-AreHashes sha level)) r (rw made ep) in
      let size =
        All-get_elem? (λ h. length h ≡ hash_size) level (sibling_index level i) {a = s} sizes es in
      ((direction i ∷ s) ∷ proof, ground arith, ground arith)

  -- A byte string that is hashed for a level over the lowest.
  abbrev pub IsTreeInput : List (List Bytes) → Bytes → Type 0
  IsTreeInput [] b = ⊥
  IsTreeInput (level ∷ []) b = ⊥
  IsTreeInput (level ∷ next ∷ above) b = IsPaired level b ⊎ IsTreeInput (next ∷ above) b

  -- What `verify_merkle_proof` hashes for a proof item.
  abbrev pub joined : Bytes → Bytes → Bytes
  joined x item = if take 1 item == left_sibling ∷ [] then drop 1 item ++ x else x ++ drop 1 item

  -- A byte string that `verify_merkle_proof` hashes, from the hash `x` on.
  abbrev pub IsProofInput : Bytes → List Bytes → Bytes → Type 0
  IsProofInput x [] b = ⊥
  IsProofInput x (item ∷ proof) b =
      (b ≡ joined x item) ⊎ IsProofInput (hash_sha3_256 (joined x item)) proof b

  -- The two sides of a proof item: the sibling, and the hash so far.
  check_proof-cons :
      (x : Bytes) (item : Bytes) (proof : List Bytes) (top : Bytes)
      → check_proof x (item ∷ proof) top ≡ true
      → (length (drop 1 item) ≡ hash_size)
        × (check_proof (hash_sha3_256 (joined x item)) proof top ≡ true)
  unfolding check_proof parent_hash
  check_proof-cons x [] proof top h = absurd (ground arith)
  check_proof-cons x (d ∷ s) proof top h = ground arith

  -- Both parts of an accepted parent stand in the level below.
  below :
      (P : Bytes → Type 0) (level : List Bytes) (j : ℕ) (a b : Bytes)
      → AreHashes level
      → length a ≡ hash_size
      → P (a ++ b)
      → get_elem? (halve level) j ≡ some (parent_hash a b)
      → ((m : ℕ) × (get_elem? level m ≡ some a)) × ((n : ℕ) × (get_elem? level n ≡ some b))
        ⊎ Collision c P (IsPaired level)
  below P level j a b sizes na p at =
      let (l, r, e, made, (m, em), (n, en)) = halve_children level j {h = parent_hash a b} at in
      let nl = All-get_elem? (λ h. length h ≡ hash_size) level m {a = l} sizes em in
      elim (parent_hash-eq P (IsPaired level) a b l r p made (na ∙ sym nl) e) [
        | inl (p, q) ↦ inl ((m, em ∙ ap some (sym p)), (n, en ∙ ap some (sym q)))
        | inr found ↦ inr found
      ]

  -- The hash below an accepted join is in the level.
  below_joined :
      (P : Bytes → Type 0) (level : List Bytes) (j : ℕ) (x item : Bytes)
      → AreHashes level
      → length x ≡ hash_size
      → length (drop 1 item) ≡ hash_size
      → P (joined x item)
      → get_elem? (halve level) j ≡ some (hash_sha3_256 (joined x item))
      → ((i : ℕ) × (get_elem? level i ≡ some x)) ⊎ Collision c P (IsPaired level)
  below_joined P level j x item sizes nx ns p at =
      let s = drop 1 item in
      elim (Bool-cases (take 1 item == left_sibling ∷ [])) [
        | inl left ↦
            second_part
              (below P level j s x sizes ns (rw left at p) (unfold parent_hash in rw left at at))
        | inr right ↦
            first_part
              (below P level j x s sizes nx (rw right at p) (unfold parent_hash in rw right at at))
      ]

  -- A hash that a proof of the tree's height connects to the root is in the level, or a collision
  -- is found.
  pub IsTower-sound :
      (level : List Bytes) (above : List (List Bytes)) (x : Bytes) (proof : List Bytes)
      {top : Bytes}
      → IsSha3 c
      → IsTower level above
      → AreHashes level
      → length x ≡ hash_size
      → root_of (level ∷ above) ≡ ok top
      → length proof ≡ length above
      → check_proof x proof top ≡ true
      → ((i : ℕ) × (get_elem? level i ≡ some x))
        ⊎ Collision c (IsProofInput x proof) (IsTreeInput (level ∷ above))
  unfolding check_proof
  IsTower-sound level [] x [] {top} sha (h, one) sizes size r n ch =
      let same = (list_beq_iff x top).0 ch in inl (0, rw (one, root_of-one (rw one at r), same))
  IsTower-sound level [] x (item ∷ proof) sha t sizes size r n ch = absurd (omega arith)
  IsTower-sound level (next ∷ above) x [] sha t sizes size r n ch = absurd (omega arith)
  IsTower-sound level (next ∷ above) x (item ∷ proof) {top} sha (_, made, t) sizes size r n ch =
      let (ns, accepted) = check_proof-cons x item proof top ch in
      let p = hash_sha3_256 (joined x item) in
      elim (IsTower-sound next above p proof {top = top} sha t (rw made (halve-AreHashes sha level))
        (unfold hash_sha3_256 in sha.size (joined x item)) r (omega arith) accepted) [
          | inr found ↦ inr (Collision-map (λ b. inr) (λ b. inr) found)
          | inl (j, ej) ↦
              elim (below_joined (λ b. b ≡ joined x item) level j x item sizes size ns refl
                (rw made at ej)) [
                  | inl there ↦ inl there
                  | inr found ↦ inr (Collision-map (λ b. inl) (λ b. inl) found)
                ]
        ]

  -- A tower has a root, which is a hash.
  pub IsTower-root :
      (level : List Bytes) (above : List (List Bytes))
      → IsSha3 c
      → IsTower level above
      → AreHashes level
      → (top : Bytes) × (root_of (level ∷ above) ≡ ok top) × (length top ≡ hash_size)
  IsTower-root level [] sha (h, one) sizes = (h, rw one refl, (rw one at sizes).0)
  IsTower-root level (next ∷ above) sha (_, made, t) sizes =
      IsTower-root next above sha t (rw made (halve-AreHashes sha level))

  halve-injective :
      (xs ys : List Bytes)
      → AreHashes xs
      → AreHashes ys
      → length xs ≡ length ys
      → halve xs ≡ halve ys
      → (xs ≡ ys) ⊎ Collision c (IsPaired xs) (IsPaired ys)
  halve-injective [] [] hx hy n e = inl refl
  halve-injective [] (y ∷ ys) hx hy n e = absurd (omega arith)
  halve-injective (x ∷ xs) [] hx hy n e = absurd (omega arith)
  halve-injective (x ∷ []) (y ∷ []) hx hy n e =
      elim (parent_hash-eq (IsPaired (x ∷ [])) (IsPaired (y ∷ [])) x x y y refl refl
        (hx.0 ∙ sym hy.0) (cc e)) [ inl (p, _) ↦ inl (cc p) | inr found ↦ inr found ]
  halve-injective (x ∷ []) (y ∷ z ∷ ys) hx hy n e = absurd (omega arith)
  halve-injective (x ∷ w ∷ xs) (y ∷ []) hx hy n e = absurd (omega arith)
  halve-injective (x ∷ w ∷ xs) (y ∷ z ∷ ys) hx hy n e =
      elim (parent_hash-eq (IsPaired (x ∷ w ∷ xs)) (IsPaired (y ∷ z ∷ ys)) x w y z (inl refl)
        (inl refl) (hx.0 ∙ sym hy.0) (cc e)) [
          | inr found ↦ inr found
          | inl (p, q) ↦ elim (halve-injective xs ys hx.1.1 hy.1.1 (omega arith) (cc e)) [
            | inr found ↦ inr (Collision-map (λ b. inr) (λ b. inr) found)
            | inl r ↦ inl (cc (p, q, r))
          ]
        ]

  -- The root of a tower binds its lowest level, among levels of one length.
  pub IsTower-binds :
      (xs ys : List Bytes) (above over : List (List Bytes)) {top : Bytes}
      → IsSha3 c
      → IsTower xs above
      → IsTower ys over
      → AreHashes xs
      → AreHashes ys
      → length xs ≡ length ys
      → length above ≡ length over
      → root_of (xs ∷ above) ≡ ok top
      → root_of (ys ∷ over) ≡ ok top
      → (xs ≡ ys) ⊎ Collision c (IsTreeInput (xs ∷ above)) (IsTreeInput (ys ∷ over))
  IsTower-binds xs ys [] [] sha (x, ex) (y, ey) hx hy n m r s =
      inl
        (ex ∙ ap (λ h. h ∷ []) (root_of-one (rw ex at r) ∙ sym (root_of-one (rw ey at s))) ∙ sym ey)
  IsTower-binds xs ys [] (v ∷ over) sha t u hx hy n m r s = absurd (omega arith)
  IsTower-binds xs ys (v ∷ above) [] sha t u hx hy n m r s = absurd (omega arith)
  IsTower-binds xs ys (v ∷ above) (w ∷ over) {top} sha (_, ev, t) (_, ew, u) hx hy n m r s =
      elim (IsTower-binds v w above over {top = top} sha t u (rw ev (halve-AreHashes sha xs))
        (rw ew (halve-AreHashes sha ys)) (rw (ev, ew, length-halve xs, length-halve ys, n) refl)
        (omega arith) r s) [
          | inr found ↦ inr (Collision-map (λ b. inr) (λ b. inr) found)
          | inl same ↦ elim (halve-injective xs ys hx hy n (sym ev ∙ same ∙ ew)) [
            | inr found ↦ inr (Collision-map (λ b. inl) (λ b. inl) found)
            | inl equal ↦ inl equal
          ]
        ]

  -- Towers over levels of one length have one height.
  pub length-IsTower :
      (xs ys : List Bytes) (above over : List (List Bytes))
      → IsTower xs above
      → IsTower ys over
      → length xs ≡ length ys
      → length above ≡ length over
  length-IsTower xs ys [] [] t u n = refl
  length-IsTower xs ys [] (v ∷ over) (x, one) (many, _, _) n = absurd (omega (arith, ap length one))
  length-IsTower xs ys (v ∷ above) [] (many, _, _) (y, one) n =
      absurd (omega (arith, ap length one))
  length-IsTower xs ys (v ∷ above) (w ∷ over) (_, ev, t) (_, ew, u) n =
      ap suc
        (length-IsTower v w above over t u (rw (ev, ew, length-halve xs, length-halve ys, n) refl))
