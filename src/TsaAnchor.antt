-- ===== src/TsaAnchor.antt =====
-- tsa_anchor/models.py and anchor_scheduler.py: the store of anchors, and one run of the scheduler. The
-- clock's reading and the answer of the timestamp authority are arguments.
mod Anchoring
mod Tests
use agent_of_record.Common.{
  ℕ, zero, suc, ◌+◌, ◌/◌, ◌%◌, ltb, duplicate_entry, String, Bool, true, false, Option, none, some,
  List, [], ◌∷◌, ◌++◌, if◌then◌else◌, ◌==◌, nat_eq, string_eq, list_eq, option_eq, Error,
  value_error, Result, ok, err, ◌>>=◌, ◌>>◌,
}
use Prim.Native.String.{◌++◌ as text_append}
use agent_of_record.CryptoCore.{Crypto, Bytes}
use agent_of_record.CryptoCore.Hex.{hex_digit}
use agent_of_record.LedgerCore.{Ledger, all_entries}
use agent_of_record.Merkle.{build_merkle_tree, root}

pub data Status : Type 0 where
  anchored pending failed : Status

pub record AnchorRecord : Type 0 where
  pub ledger_root : Bytes
  pub token_bytes : Option Bytes
  pub gen_time : Option ℕ
  pub anchored_at : ℕ
  pub status : Status
  pub detail : String

-- The fields of a `TimestampToken` that a record keeps.
pub record TimestampToken : Type 0 where
  pub response_bytes : Bytes
  pub gen_time : ℕ

pub record AnchorStore : Type 0 where
  pub records : List AnchorRecord

-- `store.add(record)`, with what it returns.
unfoldable pub add : AnchorRecord → AnchorStore → AnchorRecord × AnchorStore
add record_ store = (record_, record { records = store.records ++ record_ ∷ [] })

-- `[record for record in records if record.ledger_root == ledger_root]`
unfoldable pub with_root : Bytes → List AnchorRecord → List AnchorRecord
with_root ledger_root [] = []
with_root ledger_root (r ∷ records) =
    let rest = with_root ledger_root records in
    if r.ledger_root == ledger_root then r ∷ rest else rest

unfoldable pub for_root : Bytes → AnchorStore → List AnchorRecord
for_root ledger_root store = with_root ledger_root store.records

abbrev pub is_anchored : AnchorRecord → Bool
is_anchored r = elim r.status [ anchored ↦ true | pending ↦ false | failed ↦ false ]

-- The first from the end, if there is one.
unfoldable pub last_anchored : List AnchorRecord → Option AnchorRecord
last_anchored [] = none
last_anchored (r ∷ records) = elim (last_anchored records) [
  | some later ↦ some later
  | none ↦ if is_anchored r then some r else none
]

unfoldable pub latest_anchored : Bytes → AnchorStore → Option AnchorRecord
unfolding for_root
latest_anchored ledger_root store = last_anchored (for_root ledger_root store)

-- The decimal digits of a number, before a text. A number below the fuel has at most as many.
unfoldable pub decimal_from : ℕ → ℕ → String → String
decimal_from zero n s = s
decimal_from (suc fuel) n s =
    let shown = String.◌∷◌ (hex_digit (n % 10)) s in
    let more = decimal_from fuel (n / 10) shown in if ltb n 10 then shown else more

-- `str(n)`
unfoldable pub decimal : ℕ → String
unfolding decimal_from
decimal n = decimal_from (n + 1) n ""

-- `str(exc)` of a `ValueError` that the tree raises.
unfoldable pub text_of : Error → String
unfolding decimal
text_of (value_error s) = s
text_of (duplicate_entry id) = text_append "duplicate entry_id: " (decimal id)
text_of _ = ""

module _ ⦃c : Crypto⦄ where
  -- The root of the ledger as it stands.
  unfoldable pub current_root : Ledger → Result Bytes
  current_root ledger = do tree ← build_merkle_tree (all_entries ledger); root tree

  -- A request for a root that has none yet; `none` is a `TSARequestError`.
  unfoldable pub request_anchor :
      ℕ → Option TimestampToken → String → Bytes → AnchorStore → AnchorRecord × AnchorStore
  request_anchor now none detail ledger_root store =
      add
        (record {
          ledger_root = ledger_root;
          token_bytes = none;
          gen_time = none;
          anchored_at = now;
          status = failed;
          detail = detail;
        })
        store
  request_anchor now (some token) detail ledger_root store =
      add
        (record {
          ledger_root = ledger_root;
          token_bytes = some token.response_bytes;
          gen_time = some token.gen_time;
          anchored_at = now;
          status = anchored;
          detail = "";
        })
        store

  -- The authority's answer is a function of the root that is sent to it, so that no answer is read
  -- where none is asked for.
  unfoldable pub anchor_current_root :
      ℕ
      → (Bytes → Option TimestampToken)
      → String
      → Ledger
      → AnchorStore
      → AnchorRecord × AnchorStore
  anchor_current_root now authority detail ledger store = elim (current_root ledger) [
    | err e ↦
        add
          (record {
            ledger_root = [];
            token_bytes = none;
            gen_time = none;
            anchored_at = now;
            status = failed;
            detail = text_of e;
          })
          store
    | ok ledger_root ↦ elim (latest_anchored ledger_root store) [
      | some existing ↦ (existing, store)
      | none ↦ request_anchor now (authority ledger_root) detail ledger_root store
    ]
  ]
