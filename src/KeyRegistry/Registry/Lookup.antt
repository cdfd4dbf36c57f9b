-- ===== src/KeyRegistry/Registry/Lookup.antt =====
-- What a lookup answers, before and after a registration.
use agent_of_record.Common.{
  ℕ, ◌≤◌, String, ◌≡◌, ◌↔◌, inl, inr, true, false, none, some, [], ◌∷◌, ◌++◌, arith, Option-cases,
  nat_eq, string_eq, list_eq, option_eq, ok, >>=-eq-ok,
}
use agent_of_record.CryptoCore.{Crypto, Bytes}
use agent_of_record.KeyRegistry.Models.{AgentKeyRecord}
use agent_of_record.KeyRegistry.Storage.{Rows, get_key_by_id, insert_key}
use agent_of_record.KeyRegistry.Registry.{
  KeyRegistry, Registration, is_active, make_record, register_key, get_pubkey,
}

-- The record may be used at `now`.
pub record IsActive (r : AgentKeyRecord) (now : ℕ) : Type 0 where
  pub unrevoked : r.revoked ≡ false
  pub begun : r.valid_from ≤ now
  pub not_over : (until : ℕ) → r.valid_until ≡ some until → now ≤ until

pub is_active_iff : (r : AgentKeyRecord) (now : ℕ) → (is_active r now ≡ true) ↔ IsActive r now
unfolding is_active
is_active_iff r now = (
  λ h. record {
    unrevoked = ground arith;
    begun = ground arith;
    not_over = λ until e. ground arith;
  },
  λ a.
      let fresh = a.unrevoked in
      let begun = a.begun in
      elim (Option-cases r.valid_until) [
        | inl open_end ↦ ground arith
        | inr (until, e) ↦ (let over = a.not_over until e in ground arith)
      ],
)

-- `get_pubkey` returns key bytes exactly for an identifier whose record is stored, not revoked, begun
-- and not expired, and then that record's bytes.
pub get_pubkey_iff :
    (now : ℕ) (id : String) (registry : KeyRegistry) (b : Bytes)
    → (get_pubkey now id registry ≡ some b) ↔ (
        (r : AgentKeyRecord) × (get_key_by_id id registry.storage ≡ some r)
        × IsActive r now
        × (r.public_key_bytes ≡ b))
unfolding get_pubkey
get_pubkey_iff now id registry b = (
  λ h. elim (Option-cases (get_key_by_id id registry.storage)) [
    | inl missing ↦ absurd (ground arith)
    | inr (r, e) ↦ (r, e, (is_active_iff r now).0 (ground arith), ground arith)
  ],
  λ (r, e, a, same). (let active = (is_active_iff r now).1 a in ground arith),
)

pub insert_key-ok :
    (row : AgentKeyRecord) (rows : Rows) {rows' : Rows}
    → insert_key row rows ≡ ok rows'
    → (get_key_by_id row.pubkey_id rows ≡ none) × (rows' ≡ rows ++ row ∷ [])
unfolding insert_key
insert_key-ok row rows h = ground arith

module _ ⦃c : Crypto⦄ where
  -- A registration that succeeds stores the checked record, under an identifier that was free.
  pub register_key-ok :
      (now : ℕ) (r : Registration) (registry : KeyRegistry) {row : AgentKeyRecord}
      {registry' : KeyRegistry}
      → register_key now r registry ≡ ok (row, registry')
      → (make_record now r ≡ ok row)
        × (get_key_by_id row.pubkey_id registry.storage ≡ none)
        × (registry'.storage ≡ registry.storage ++ row ∷ [])
  unfolding register_key
  register_key-ok now r registry {row} {registry'} h =
      let (made, em, rest) = >>=-eq-ok (make_record now r) _ h in
      let (rows, er, last) = >>=-eq-ok (insert_key made registry.storage) _ rest in
      let (new, added) = insert_key-ok made registry.storage {rows' = rows} er in
      let same : made ≡ row = cc last in
      let kept : rows ≡ registry'.storage = cc last in
      (cc (em, same), rw (← same) new, rw (← same, ← kept) added)
