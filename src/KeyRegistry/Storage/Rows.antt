-- ===== src/KeyRegistry/Storage/Rows.antt =====
-- The key table as a map: lookups after each write, and the primary key.
use agent_of_record.Common.{
  ℕ, ◌≤◌, String, ◌≡◌, refl, inl, inr, true, none, some, [], ◌∷◌, ◌++◌, arith, eq_iff, leb, leb→le,
  if◌then◌else◌, Bool-cases, ◌==◌, nat_eq, string_eq, list_eq, option_eq, All,
}
use mathlib.Core.List.{Perm}
use mathlib.Core.List.Perm
use agent_of_record.KeyRegistry.Models.{AgentKeyRecord}
use agent_of_record.KeyRegistry.Storage.{
  Rows, get_key_by_id, insert_newest, newest_first, set_revoked,
}

pub get_key_by_id-append :
    (id : String) (rows : Rows) (r : AgentKeyRecord)
    → get_key_by_id id (rows ++ r ∷ []) ≡ elim (get_key_by_id id rows) [
      | none ↦ if r.pubkey_id == id then some r else none
      | some s ↦ some s
    ]
unfolding get_key_by_id
get_key_by_id-append id [] r = ground arith
get_key_by_id-append id (s ∷ rows) r = ground (arith, get_key_by_id-append id rows r)

-- A row with its `revoked` set, if it has the identifier.
abbrev pub revoked_if : String → AgentKeyRecord → AgentKeyRecord
revoked_if id r = if r.pubkey_id == id then record r { revoked = true } else r

pub get_key_by_id-set_revoked :
    (id other : String) (rows : Rows)
    → get_key_by_id id (set_revoked other rows)
      ≡ elim (get_key_by_id id rows) [ none ↦ none | some r ↦ some (revoked_if other r) ]
unfolding get_key_by_id set_revoked
get_key_by_id-set_revoked id other [] = refl
get_key_by_id-set_revoked id other (r ∷ rows) =
    ground (arith, get_key_by_id-set_revoked id other rows)

-- A row that is found has the identifier.
pub pubkey_id-get_key_by_id :
    (id : String) (rows : Rows) {r : AgentKeyRecord}
    → get_key_by_id id rows ≡ some r
    → r.pubkey_id ≡ id
unfolding get_key_by_id
pubkey_id-get_key_by_id id [] h = absurd (ground arith)
pubkey_id-get_key_by_id id (s ∷ rows) {r} h =
    ground (arith, eq_iff s.pubkey_id id, pubkey_id-get_key_by_id id rows {r = r})

-- No identifier stands twice.
abbrev pub IsDistinct : Rows → Type 0
IsDistinct [] = Unit
IsDistinct (r ∷ rows) = (get_key_by_id r.pubkey_id rows ≡ none) × IsDistinct rows

pub IsDistinct-append :
    (rows : Rows) (r : AgentKeyRecord)
    → IsDistinct rows
    → get_key_by_id r.pubkey_id rows ≡ none
    → IsDistinct (rows ++ r ∷ [])
unfolding get_key_by_id
IsDistinct-append [] r h new = (refl, tt)
IsDistinct-append (s ∷ rows) r h new = (
  ground (
    arith,
    get_key_by_id-append s.pubkey_id rows r,
    eq_iff s.pubkey_id r.pubkey_id,
    eq_iff r.pubkey_id s.pubkey_id,
  ),
  IsDistinct-append rows r h.1 (ground (arith, eq_iff s.pubkey_id r.pubkey_id)),
)

pub IsDistinct-set_revoked :
    (id : String) (rows : Rows) → IsDistinct rows → IsDistinct (set_revoked id rows)
unfolding set_revoked
IsDistinct-set_revoked id [] h = tt
IsDistinct-set_revoked id (r ∷ rows) h = (
  ground (arith, get_key_by_id-set_revoked r.pubkey_id id rows),
  IsDistinct-set_revoked id rows h.1,
)

-- Each row is at least as new as all that follow.
abbrev pub IsNewestFirst : Rows → Type 0
IsNewestFirst [] = Unit
IsNewestFirst (r ∷ rows) = All (λ s. s.created_at ≤ r.created_at) rows × IsNewestFirst rows

All-trans :
    {a b : ℕ} (rows : Rows)
    → a ≤ b
    → All (λ s. s.created_at ≤ a) rows
    → All (λ s. s.created_at ≤ b) rows
All-trans [] le h = tt
All-trans {a} {b} (r ∷ rows) le h = (omega arith, All-trans {a = a} {b = b} rows le h.1)

All-insert_newest :
    (n : ℕ) (r : AgentKeyRecord) (rows : Rows)
    → r.created_at ≤ n
    → All (λ s. s.created_at ≤ n) rows
    → All (λ s. s.created_at ≤ n) (insert_newest r rows)
unfolding insert_newest
All-insert_newest n r [] le h = (le, tt)
All-insert_newest n r (s ∷ rows) le h = ground (arith, All-insert_newest n r rows le)

insert_newest-IsNewestFirst :
    (r : AgentKeyRecord) (rows : Rows) → IsNewestFirst rows → IsNewestFirst (insert_newest r rows)
unfolding insert_newest
insert_newest-IsNewestFirst r [] h = (tt, tt)
insert_newest-IsNewestFirst r (s ∷ rows) h = elim (Bool-cases (leb s.created_at r.created_at)) [
  | inl newer ↦
      rw newer ((leb→le _ _ newer, All-trans {a = s.created_at} rows (leb→le _ _ newer) h.0), h)
  | inr older ↦ rw older (
    All-insert_newest s.created_at r rows (ground arith) h.0,
    insert_newest-IsNewestFirst r rows h.1,
  )
]

insert_newest-perm : (r : AgentKeyRecord) (rows : Rows) → Perm (insert_newest r rows) (r ∷ rows)
unfolding insert_newest
insert_newest-perm r [] = Perm.refl (r ∷ [])
insert_newest-perm r (s ∷ rows) = elim (Bool-cases (leb s.created_at r.created_at)) [
  | inl newer ↦ rw newer (Perm.refl (r ∷ s ∷ rows))
  | inr older ↦ rw older (Perm.trans (Perm.cons s (insert_newest-perm r rows)) (Perm.swap r s rows))
]

pub newest_first-IsNewestFirst : (rows : Rows) → IsNewestFirst (newest_first rows)
unfolding newest_first
newest_first-IsNewestFirst [] = tt
newest_first-IsNewestFirst (r ∷ rows) =
    insert_newest-IsNewestFirst r (newest_first rows) (newest_first-IsNewestFirst rows)

pub newest_first-perm : (rows : Rows) → Perm (newest_first rows) rows
unfolding newest_first
newest_first-perm [] = Perm.refl []
newest_first-perm (r ∷ rows) =
    Perm.trans (insert_newest-perm r (newest_first rows)) (Perm.cons r (newest_first-perm rows))
