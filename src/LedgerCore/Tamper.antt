-- ===== src/LedgerCore/Tamper.antt =====
-- What the hash chain detects: content that was changed behind the ledger's interface, and another
-- history that ends in the same hash.
use agent_of_record.Common.{
  ℕ, zero, suc, ◌≡◌, refl, sym, ap, ◌∙◌, ◌⊎◌, inl, inr, true, some, List, [], ◌∷◌, arith, nat_eq,
  string_eq, list_eq, option_eq, list_beq_iff, eq-or-ne, length, get_elem?, ok,
}
use agent_of_record.CryptoCore.{Crypto, Bytes, hash_payload}
use agent_of_record.CryptoCore.Hex.{hex, IsBytes, hex-injective}
use agent_of_record.CryptoCore.Laws.{IsSha3, IsJcs, Collision, Collision-map, eq-or-Collision}
use agent_of_record.CryptoCore.Binding.{hash_payload-ok, AreBytesOf, hash_payload-eq}
use agent_of_record.Json.{Json}
use agent_of_record.LedgerCore.{
  LedgerEntry, Ledger, leaf_material, last_hash, compute_leaf_hash, first_invalid,
  first_invalid_entry_id, verify_chain,
}
use agent_of_record.LedgerCore.Chain.{IsChain, verify_chain_iff, end_hash, last_hash-eq-end_hash}

-- `ledger._entries[i].content = content`, past the end nothing.
abbrev pub set_content : ℕ → Json → List LedgerEntry → List LedgerEntry
set_content i content [] = []
set_content zero content (e ∷ es) = record e { content = content } ∷ es
set_content (suc i) content (e ∷ es) = e ∷ set_content i content es

module _ ⦃c : Crypto⦄ where
  first_invalid-good :
      (prev : Bytes) (e : LedgerEntry) (es : List LedgerEntry)
      → e.prev_hash ≡ prev
      → compute_leaf_hash e.content prev ≡ ok e.leaf_hash
      → first_invalid prev (e ∷ es) ≡ first_invalid e.leaf_hash es
  unfolding first_invalid
  first_invalid-good prev e es p h =
      ground (arith, list_beq_iff e.prev_hash prev, list_beq_iff e.leaf_hash e.leaf_hash)

  first_invalid-bad :
      (prev : Bytes) (e : LedgerEntry) (es : List LedgerEntry) {d : Bytes}
      → compute_leaf_hash e.content prev ≡ ok d
      → ¬ (e.leaf_hash ≡ d)
      → first_invalid prev (e ∷ es) ≡ ok (some e.entry_id)
  unfolding first_invalid
  first_invalid-bad prev e es {d} h differ = ground (arith, list_beq_iff e.leaf_hash d)

  -- One entry, with the content replaced.
  changed_entry :
      (prev : Bytes) (e : LedgerEntry) (es : List LedgerEntry) (content : Json) (b : Bytes)
      → IsChain prev (e ∷ es)
      → c.dumps (leaf_material content prev) ≡ some b
      → ¬ (c.dumps (leaf_material e.content prev) ≡ some b)
      → (first_invalid prev (record e { content = content } ∷ es) ≡ ok (some e.entry_id))
        ⊎ Collision c (AreBytesOf (leaf_material e.content prev)) (λ r. r ≡ b)
  unfolding compute_leaf_hash hash_payload
  changed_entry prev e es content b h d differ =
      let hashed : compute_leaf_hash content prev ≡ ok (c.sha3_256 b) = rw d refl in
      let (a, ea, leaf) = hash_payload-ok (leaf_material e.content prev) h.1 in
      elim (eq-or-ne e.leaf_hash (c.sha3_256 b)) [
        | inr other ↦ inl (first_invalid-bad prev (record e { content = content }) es hashed other)
        | inl equal ↦
            elim (eq-or-Collision c (AreBytesOf (leaf_material e.content prev)) (λ r. r ≡ b) a b ea
              refl (sym leaf ∙ equal)) [
                | inl same ↦ absurd (differ (ea ∙ ap some same))
                | inr found ↦ inr found
              ]
      ]

  first_invalid-set_content :
      (prev : Bytes) (es : List LedgerEntry) (i : ℕ) (e : LedgerEntry) (content : Json) (b : Bytes)
      → IsChain prev es
      → get_elem? es i ≡ some e
      → c.dumps (leaf_material content e.prev_hash) ≡ some b
      → ¬ (c.dumps (leaf_material e.content e.prev_hash) ≡ some b)
      → (first_invalid prev (set_content i content es) ≡ ok (some e.entry_id))
        ⊎ Collision c (AreBytesOf (leaf_material e.content e.prev_hash)) (λ r. r ≡ b)
  first_invalid-set_content prev [] i e content b h at d differ = absurd (ground arith)
  first_invalid-set_content prev (f ∷ es) zero e content b h at d differ =
      let here : f ≡ e = cc at in
      let prevs : e.prev_hash ≡ prev = rw here at h.0 in
      rw here
        (elim (changed_entry prev e es content b (rw here at h) (rw prevs at d)
          (rw prevs at differ)) [ inl named ↦ inl named | inr found ↦ inr (rw prevs found) ])
  first_invalid-set_content prev (f ∷ es) (suc i) e content b h at d differ =
      rw (first_invalid-good prev f (set_content i content es) h.0 h.1)
        (first_invalid-set_content f.leaf_hash es i e content b h.2 at d differ)

  -- In a ledger that `verify_chain` accepts, an entry's content is replaced in place by content of
  -- another canonical form, the stored hashes being kept. Then `first_invalid_entry_id` names that
  -- entry, or the old and the new canonical form differ and have one SHA3-256 digest.
  pub set_content_detected :
      (l : Ledger) (i : ℕ) (e : LedgerEntry) (content : Json) (b : Bytes)
      → verify_chain l ≡ ok true
      → get_elem? l.entries i ≡ some e
      → c.dumps (leaf_material content e.prev_hash) ≡ some b
      → ¬ (c.dumps (leaf_material e.content e.prev_hash) ≡ some b)
      → (first_invalid_entry_id (record { entries = set_content i content l.entries })
          ≡ ok (some e.entry_id))
        ⊎ Collision c (AreBytesOf (leaf_material e.content e.prev_hash)) (λ r. r ≡ b)
  unfolding first_invalid_entry_id
  set_content_detected l i e content b v at d differ =
      first_invalid-set_content [] l.entries i e content b ((verify_chain_iff l).0 v) at d differ

  -- Entry by entry, the contents have one canonical form.
  abbrev pub SameContents : List LedgerEntry → List LedgerEntry → Type 0
  SameContents [] [] = Unit
  SameContents (e ∷ es) (f ∷ fs) = (c.dumps e.content ≡ c.dumps f.content) × SameContents es fs
  SameContents _ _ = ⊥

  -- A byte string that `verify_chain` hashes for one of the entries.
  abbrev pub IsLeafInput : List LedgerEntry → Bytes → Type 0
  IsLeafInput [] b = ⊥
  IsLeafInput (e ∷ es) b = AreBytesOf (leaf_material e.content e.prev_hash) b ⊎ IsLeafInput es b

  compute_leaf_hash-IsBytes :
      IsSha3 c
      → (content : Json) (prev : Bytes) {d : Bytes} → compute_leaf_hash content prev ≡ ok d
      → IsBytes d
  unfolding compute_leaf_hash
  compute_leaf_hash-IsBytes sha content prev h =
      let (b, _, e) = hash_payload-ok (leaf_material content prev) h in rw e (sha.bytes b)

  -- Equal leaf hashes come from one content and one predecessor.
  leaf_hash_binds :
      IsSha3 c
      → IsJcs c
      → (v w : Json) (p q : Bytes) {d : Bytes} → IsBytes p
      → IsBytes q
      → compute_leaf_hash v p ≡ ok d
      → compute_leaf_hash w q ≡ ok d
      → ((c.dumps v ≡ c.dumps w) × (p ≡ q))
        ⊎ Collision c (AreBytesOf (leaf_material v p)) (AreBytesOf (leaf_material w q))
  unfolding compute_leaf_hash
  leaf_hash_binds sha jcs v w p q bp bq h k =
      let (b, eb, _) = hash_payload-ok (leaf_material v p) h in
      elim (hash_payload-eq (leaf_material v p) (leaf_material w q) h k) [
        | inl same ↦
            (let (parts, prevs) = jcs.leaf_parts v w (hex p) (hex q) b eb (sym same ∙ eb) in
              inl (parts, hex-injective p q bp bq prevs))
        | inr found ↦ inr found
      ]

  chains_agree :
      IsSha3 c
      → IsJcs c
      → (p q : Bytes) (es fs : List LedgerEntry) → IsBytes p
      → IsBytes q
      → length es ≡ length fs
      → IsChain p es
      → IsChain q fs
      → end_hash p es ≡ end_hash q fs
      → (SameContents es fs × (p ≡ q)) ⊎ Collision c (IsLeafInput es) (IsLeafInput fs)
  chains_agree sha jcs p q [] [] bp bq n h k same = inl (tt, same)
  chains_agree sha jcs p q [] (f ∷ fs) bp bq n h k same = absurd (omega arith)
  chains_agree sha jcs p q (e ∷ es) [] bp bq n h k same = absurd (omega arith)
  chains_agree sha jcs p q (e ∷ es) (f ∷ fs) bp bq n h k same =
      elim (chains_agree sha jcs e.leaf_hash f.leaf_hash es fs
        (compute_leaf_hash-IsBytes sha e.content p h.1)
        (compute_leaf_hash-IsBytes sha f.content q k.1) (omega arith) h.2 k.2 same) [
          | inr found ↦ inr (Collision-map (λ b. inr) (λ b. inr) found)
          | inl (tails, leaves) ↦
              elim (leaf_hash_binds sha jcs e.content f.content p q bp bq h.1 (rw leaves k.1)) [
                | inr found ↦
                    inr (Collision-map (λ b i. inl (rw h.0 i)) (λ b i. inl (rw k.0 i)) found)
                | inl (heads, prevs) ↦ inl ((heads, tails), prevs)
              ]
        ]

  -- Two ledgers of one length that `verify_chain` accepts and that end in the same leaf hash hold,
  -- entry by entry, contents of the same canonical form, or two different byte strings, one hashed
  -- for an entry of each ledger, have one SHA3-256 digest.
  pub last_hash_binds_history :
      (l m : Ledger)
      → IsSha3 c
      → IsJcs c
      → verify_chain l ≡ ok true
      → verify_chain m ≡ ok true
      → length l.entries ≡ length m.entries
      → last_hash l.entries ≡ last_hash m.entries
      → SameContents l.entries m.entries
        ⊎ Collision c (IsLeafInput l.entries) (IsLeafInput m.entries)
  last_hash_binds_history l m sha jcs v w n same =
      elim (chains_agree sha jcs [] [] l.entries m.entries tt tt n ((verify_chain_iff l).0 v)
        ((verify_chain_iff m).0 w)
        (sym (last_hash-eq-end_hash l.entries) ∙ same ∙ last_hash-eq-end_hash m.entries)) [
          | inl (contents, _) ↦ inl contents
          | inr found ↦ inr found
        ]
