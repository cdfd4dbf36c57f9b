-- ===== src/Merkle/Levels.antt =====
-- How one level of a tree stands over the level below it.
use agent_of_record.Common.{
  ℕ, zero, suc, ◌+◌, ◌/◌, ◌%◌, ◌≡◌, refl, ap, ◌⊎◌, inl, inr, some, List, [], ◌∷◌, ◌++◌, arith,
  if◌then◌else◌, ◌==◌, nat_eq, string_eq, list_eq, option_eq, length, get_elem?, All, append_inj,
}
use agent_of_record.CryptoCore.{Crypto, Bytes}
use agent_of_record.CryptoCore.Laws.{IsSha3, Collision, eq-or-Collision}
use agent_of_record.Merkle.{pad, parent_hash, pair_up, next_level, sibling_index, hash_size}

pad-cons : (x y : Bytes) (r : List Bytes) → pad (x ∷ y ∷ r) ≡ x ∷ y ∷ pad r
unfolding pad
pad-cons x y [] = refl
pad-cons x y (z ∷ r) = ground arith

half-add_two : (i : ℕ) → suc (suc i) / 2 ≡ suc (i / 2)
half-add_two i = omega arith

parity-add_two : (i : ℕ) → suc (suc i) % 2 ≡ i % 2
parity-add_two i = omega arith

sibling_index-add_two :
    (a b : Bytes) (r : List Bytes) (i : ℕ)
    → sibling_index (a ∷ b ∷ r) (suc (suc i)) ≡ suc (suc (sibling_index r i))
unfolding sibling_index
sibling_index-add_two a b r i = ground arith

module _ ⦃c : Crypto⦄ where
  -- The next level as one recursion: a last hash without a partner is paired with itself.
  abbrev pub halve : List Bytes → List Bytes
  halve [] = []
  halve (x ∷ []) = parent_hash x x ∷ []
  halve (x ∷ y ∷ r) = parent_hash x y ∷ halve r

  pub next_level-eq-halve : (level : List Bytes) → next_level level ≡ halve level
  unfolding next_level pair_up
  next_level-eq-halve [] = unfold pad in refl
  next_level-eq-halve (x ∷ []) = unfold pad in refl
  next_level-eq-halve (x ∷ y ∷ r) = rw pad-cons (ap (◌∷◌ (parent_hash x y)) (next_level-eq-halve r))

  pub length-halve : (level : List Bytes) → length (halve level) ≡ (length level + 1) / 2
  length-halve [] = refl
  length-halve (x ∷ []) = refl
  length-halve (x ∷ y ∷ r) = omega (arith, length-halve r)

  -- The parent of a hash at `i` and its sibling.
  abbrev pub parent_at : ℕ → Bytes → Bytes → Bytes
  parent_at i x s = if i % 2 == 0 then parent_hash x s else parent_hash s x

  -- A hash at `i` has a sibling, and their parent stands at `i / 2` in the next level.
  pub get_elem?-halve :
      (level : List Bytes) (i : ℕ) {x : Bytes}
      → get_elem? level i ≡ some x
      → (s : Bytes) × (get_elem? level (sibling_index level i) ≡ some s)
        × (get_elem? (halve level) (i / 2) ≡ some (parent_at i x s))
  unfolding sibling_index
  get_elem?-halve [] i h = absurd (ground arith)
  get_elem?-halve (a ∷ []) zero h = (a, refl, cc h)
  get_elem?-halve (a ∷ []) (suc i) h = absurd (ground arith)
  get_elem?-halve (a ∷ b ∷ r) zero h = (b, ground arith, cc h)
  get_elem?-halve (a ∷ b ∷ r) (suc zero) h = (a, refl, cc h)
  get_elem?-halve (a ∷ b ∷ r) (suc (suc i)) {x} h =
      let (s, es, eh) = get_elem?-halve r i {x = x} h in
      (s, rw (sibling_index-add_two a b r i) es, rw (half-add_two i, parity-add_two i) eh)

  -- A byte string that is hashed for the level above.
  abbrev pub IsPaired : List Bytes → Bytes → Type 0
  IsPaired [] b = ⊥
  IsPaired (x ∷ []) b = b ≡ x ++ x
  IsPaired (x ∷ y ∷ r) b = (b ≡ x ++ y) ⊎ IsPaired r b

  -- Both children of a hash of the next level stand in the level below.
  pub halve_children :
      (level : List Bytes) (j : ℕ) {h : Bytes}
      → get_elem? (halve level) j ≡ some h
      → (l r : Bytes) × (h ≡ parent_hash l r)
        × IsPaired level (l ++ r)
        × ((i : ℕ) × (get_elem? level i ≡ some l))
        × ((i : ℕ) × (get_elem? level i ≡ some r))
  halve_children [] j e = absurd (ground arith)
  halve_children (a ∷ []) zero e = (a, a, cc e, refl, (0, refl), (0, refl))
  halve_children (a ∷ []) (suc j) e = absurd (ground arith)
  halve_children (a ∷ b ∷ rest) zero e = (a, b, cc e, inl refl, (0, refl), (1, refl))
  halve_children (a ∷ b ∷ rest) (suc j) {h} e =
      let (l, r, p, made, (m, em), (n, en)) = halve_children rest j {h = h} e in
      (l, r, p, inr made, (suc (suc m), em), (suc (suc n), en))

  abbrev pub AreHashes : List Bytes → Type 0
  AreHashes = All (λ h. length h ≡ hash_size)

  pub length-parent_hash : IsSha3 c → (l r : Bytes) → length (parent_hash l r) ≡ hash_size
  unfolding parent_hash
  length-parent_hash sha l r = sha.size (l ++ r)

  pub halve-AreHashes : IsSha3 c → (level : List Bytes) → AreHashes (halve level)
  halve-AreHashes sha [] = tt
  halve-AreHashes sha (x ∷ []) = (length-parent_hash sha x x, tt)
  halve-AreHashes sha (x ∷ y ∷ r) = (length-parent_hash sha x y, halve-AreHashes sha r)

  -- Equal parents have equal children, or a collision is found.
  pub parent_hash-eq :
      (P Q : Bytes → Type 0) (a b l r : Bytes)
      → P (a ++ b)
      → Q (l ++ r)
      → length a ≡ length l
      → parent_hash a b ≡ parent_hash l r
      → ((a ≡ l) × (b ≡ r)) ⊎ Collision c P Q
  unfolding parent_hash
  parent_hash-eq P Q a b l r p q n h = elim (eq-or-Collision c P Q (a ++ b) (l ++ r) p q h) [
    | inl same ↦ inl (append_inj a b l r n same)
    | inr found ↦ inr found
  ]
