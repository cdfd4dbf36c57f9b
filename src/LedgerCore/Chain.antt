-- ===== src/LedgerCore/Chain.antt =====
-- The well-formed ledgers: the hash chain that `verify_chain` accepts, and the numbering of entries.
use agent_of_record.Common.{
  ℕ, zero, suc, ◌+◌, ◌≤◌, ◌<◌, String, ◌≡◌, refl, ◌∙◌, ◌↔◌, ◌⊎◌, true, false, none, some, List, [],
  ◌∷◌, ◌++◌, arith, eq_iff, nat_eq, string_eq, list_eq, option_eq, list_beq_iff, length, get_elem?,
  key_error, ok, err, >>=-eq-ok, is_ok, get_elem?_of_lt, get_elem?_of_ge,
}
use agent_of_record.CryptoCore.{Crypto, Bytes, hash_payload}
use agent_of_record.Json.{Json, pos, negsuc, is_dict}
use agent_of_record.LedgerCore.{
  LedgerEntry, Ledger, leaf_material, last_hash, compute_leaf_hash, append, first_invalid,
  first_invalid_entry_id, verify_chain, get_entry,
}

module _ ⦃c : Crypto⦄ where
  -- Each entry carries its predecessor's hash and commits to its own content.
  abbrev pub IsChain : Bytes → List LedgerEntry → Type 0
  IsChain prev [] = Unit
  IsChain prev (e ∷ es) =
      (e.prev_hash ≡ prev)
      × (compute_leaf_hash e.content prev ≡ ok e.leaf_hash)
      × IsChain e.leaf_hash es

  -- The first entry's id is `k + 1`, and so on.
  abbrev pub IsNumbered : ℕ → List LedgerEntry → Type 0
  IsNumbered k [] = Unit
  IsNumbered k (e ∷ es) = (e.entry_id ≡ k + 1) × IsNumbered (k + 1) es

  pub first_invalid-IsChain :
      (prev : Bytes) (es : List LedgerEntry) → IsChain prev es → first_invalid prev es ≡ ok none
  unfolding first_invalid
  first_invalid-IsChain prev [] h = refl
  first_invalid-IsChain prev (e ∷ es) h = ground (
    arith,
    list_beq_iff e.prev_hash prev,
    list_beq_iff e.leaf_hash e.leaf_hash,
    first_invalid-IsChain e.leaf_hash es h.2,
  )

  IsChain-first_invalid :
      (prev : Bytes) (es : List LedgerEntry) → first_invalid prev es ≡ ok none → IsChain prev es
  unfolding first_invalid
  IsChain-first_invalid prev [] h = tt
  IsChain-first_invalid prev (e ∷ es) h =
      let (d, ed, rest) = >>=-eq-ok (compute_leaf_hash e.content prev) _ h in
      let same = list_beq_iff e.prev_hash prev in
      let leaf = list_beq_iff e.leaf_hash d in
      (
        ground (arith, same),
        ground (arith, leaf),
        IsChain-first_invalid e.leaf_hash es (ground (arith, same, leaf)),
      )

  -- `verify_chain` answers `True` exactly for the ledgers whose entries form a hash chain.
  pub verify_chain_iff : (l : Ledger) → (verify_chain l ≡ ok true) ↔ IsChain [] l.entries
  unfolding verify_chain first_invalid_entry_id
  verify_chain_iff l = (
    λ h. IsChain-first_invalid [] l.entries (ground arith),
    λ h. rw (first_invalid-IsChain [] l.entries h) refl,
  )

  -- The ledgers that `append` builds.
  pub record IsValid (l : Ledger) : Type 0 where
    pub chain : IsChain [] l.entries
    pub numbered : IsNumbered 0 l.entries

  -- What a successful `append` has stored.
  pub record Appended (content : Json) (l : Ledger) (e : LedgerEntry) (l' : Ledger) : Type 0 where
    pub id : e.entry_id ≡ length l.entries + 1
    pub kept : e.content ≡ content
    pub prev : e.prev_hash ≡ last_hash l.entries
    pub leaf : compute_leaf_hash e.content (last_hash l.entries) ≡ ok e.leaf_hash
    pub entries : l'.entries ≡ l.entries ++ e ∷ []

  pub append-Appended :
      (entry_type : String) (content : Json) (timestamp : String) (l : Ledger) {e : LedgerEntry}
      {l' : Ledger}
      → append entry_type content timestamp l ≡ ok (e, l')
      → Appended content l e l'
  unfolding append
  append-Appended entry_type content timestamp l h = ground arith

  -- The hash that the next entry after `es` must carry.
  abbrev pub end_hash : Bytes → List LedgerEntry → Bytes
  end_hash prev [] = prev
  end_hash prev (e ∷ es) = end_hash e.leaf_hash es

  pub last_hash-eq-end_hash : (es : List LedgerEntry) → last_hash es ≡ end_hash [] es
  last_hash-eq-end_hash [] = refl
  last_hash-eq-end_hash (e ∷ []) = refl
  last_hash-eq-end_hash (e ∷ f ∷ es) = last_hash-eq-end_hash (f ∷ es)

  IsChain-append :
      (prev : Bytes) (es : List LedgerEntry) (e : LedgerEntry)
      → IsChain prev es
      → e.prev_hash ≡ end_hash prev es
      → compute_leaf_hash e.content (end_hash prev es) ≡ ok e.leaf_hash
      → IsChain prev (es ++ e ∷ [])
  IsChain-append prev [] e h p q = (p, q, tt)
  IsChain-append prev (f ∷ es) e h p q = (h.0, h.1, IsChain-append f.leaf_hash es e h.2 p q)

  IsNumbered-append :
      (k : ℕ) (es : List LedgerEntry) (e : LedgerEntry)
      → IsNumbered k es
      → e.entry_id ≡ k + length es + 1
      → IsNumbered k (es ++ e ∷ [])
  IsNumbered-append k [] e h p = (omega arith, tt)
  IsNumbered-append k (f ∷ es) e h p = (h.0, IsNumbered-append (k + 1) es e h.1 (omega arith))

  -- A successful `append` keeps every stored entry, adds one at the end, and leaves a valid ledger.
  pub append-IsValid :
      (entry_type : String) (content : Json) (timestamp : String) (l : Ledger) {e : LedgerEntry}
      {l' : Ledger}
      → IsValid l
      → append entry_type content timestamp l ≡ ok (e, l')
      → IsValid l' × (l'.entries ≡ l.entries ++ e ∷ [])
  append-IsValid entry_type content timestamp l {e} {l'} v h =
      let a = append-Appended entry_type content timestamp l h in
      let at_end = last_hash-eq-end_hash l.entries in
      (
        record {
          chain =
              rw a.entries
                (IsChain-append [] l.entries e v.chain (a.prev ∙ at_end) (rw at_end at a.leaf));
          numbered =
              rw a.entries (IsNumbered-append 0 l.entries e v.numbered (rw a.id (omega arith)));
        },
        a.entries,
      )

  -- `append` fails exactly on an empty type, on content that is no dict, and on content that has no
  -- canonical form.
  pub append_fails_iff :
      (entry_type : String) (content : Json) (timestamp : String) (l : Ledger)
      → (is_ok (append entry_type content timestamp l) ≡ false) ↔ (
          (entry_type ≡ "")
          ⊎ (is_dict content ≡ false)
          ⊎ (c.dumps (leaf_material content (last_hash l.entries)) ≡ none))
  unfolding append compute_leaf_hash hash_payload
  append_fails_iff entry_type content timestamp l = ground (arith, eq_iff entry_type "")

  get_elem?-IsNumbered :
      (k i : ℕ) (es : List LedgerEntry) {e : LedgerEntry}
      → IsNumbered k es
      → get_elem? es i ≡ some e
      → e.entry_id ≡ k + i + 1
  get_elem?-IsNumbered k i [] n h = absurd (ground arith)
  get_elem?-IsNumbered k zero (f ∷ es) n h = ground arith
  get_elem?-IsNumbered k (suc i) (f ∷ es) n h =
      get_elem?-IsNumbered (k + 1) i es n.1 h ∙ omega arith

  -- In a valid ledger `get_entry` finds, for each id from 1 to the length, the entry with that id,
  -- and raises `KeyError` for every other integer.
  pub get_entry_total :
      (l : Ledger) (n : ℕ)
      → IsValid l
      → (n < length l.entries
          → (e : LedgerEntry) × (get_entry (pos (n + 1)) l ≡ ok e) × (e.entry_id ≡ n + 1))
        × (length l.entries ≤ n → get_entry (pos (n + 1)) l ≡ err key_error)
        × (get_entry (pos 0) l ≡ err key_error)
        × (get_entry (negsuc n) l ≡ err key_error)
  unfolding get_entry
  get_entry_total l n v = (
    λ h.
        let (e, found) = get_elem?_of_lt l.entries n h in
        (e, ground arith, get_elem?-IsNumbered 0 n l.entries v.numbered found ∙ omega arith),
    λ h. ground (arith, get_elem?_of_ge l.entries n h),
    refl,
    refl,
  )
