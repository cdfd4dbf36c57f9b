-- ===== src/KeyRegistry/Storage.antt =====
-- key_registry/storage.py: the table `agent_keys` with its primary key, as the list of its rows in
-- the order of insertion. A time that is stored as ISO text reads back as the same instant.
pub mod Rows
use agent_of_record.Common.{
  String, Bool, true, false, Option, none, some, List, [], ◌∷◌, ◌++◌, leb, if◌then◌else◌, ◌==◌,
  nat_eq, string_eq, list_eq, option_eq, already_registered, Result, ok, err,
}
use agent_of_record.KeyRegistry.Models.{AgentKeyRecord}

abbrev pub Rows : Type 0
Rows = List AgentKeyRecord

-- `SELECT * FROM agent_keys WHERE pubkey_id = ?`
unfoldable pub get_key_by_id : String → Rows → Option AgentKeyRecord
get_key_by_id pubkey_id [] = none
get_key_by_id pubkey_id (row ∷ rows) =
    if row.pubkey_id == pubkey_id then some row else get_key_by_id pubkey_id rows

-- The primary key refuses a second row with one identifier.
unfoldable pub insert_key : AgentKeyRecord → Rows → Result Rows
insert_key record_ rows = elim (get_key_by_id record_.pubkey_id rows) [
  | none ↦ ok (rows ++ record_ ∷ [])
  | some row ↦ err (already_registered record_.pubkey_id)
]

-- `ORDER BY created_at DESC`; rows of one time stay in the order of insertion.
unfoldable pub insert_newest : AgentKeyRecord → Rows → Rows
insert_newest row [] = row ∷ []
insert_newest row (r ∷ rows) =
    if leb r.created_at row.created_at then row ∷ r ∷ rows else r ∷ insert_newest row rows

unfoldable pub newest_first : Rows → Rows
unfolding insert_newest
newest_first [] = []
newest_first (row ∷ rows) = insert_newest row (newest_first rows)

unfoldable pub where_agent : String → Rows → Rows
where_agent agent_id [] = []
where_agent agent_id (row ∷ rows) =
    let rest = where_agent agent_id rows in if row.agent_id == agent_id then row ∷ rest else rest

unfoldable pub get_keys_by_agent : String → Rows → Rows
unfolding where_agent newest_first
get_keys_by_agent agent_id rows = newest_first (where_agent agent_id rows)

unfoldable pub all_keys : Rows → Rows
unfolding newest_first
all_keys rows = newest_first rows

-- `UPDATE agent_keys SET revoked = 1 WHERE pubkey_id = ?`
unfoldable pub set_revoked : String → Rows → Rows
set_revoked pubkey_id [] = []
set_revoked pubkey_id (row ∷ rows) =
    (if row.pubkey_id == pubkey_id then record row { revoked = true } else row)
    ∷ set_revoked pubkey_id rows

-- `cursor.rowcount > 0` is whether a row has the identifier.
unfoldable pub revoke_row : String → Rows → Bool × Rows
unfolding set_revoked
revoke_row pubkey_id rows = (
  elim (get_key_by_id pubkey_id rows) [ none ↦ false | some row ↦ true ],
  set_revoked pubkey_id rows,
)
