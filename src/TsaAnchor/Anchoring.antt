-- ===== src/TsaAnchor/Anchoring.antt =====
-- An anchored root is not anchored again, and the store only grows.
use agent_of_record.Common.{
  ℕ, zero, suc, ◌%◌, ◌/◌, ◌<◌, ltb, Bool-cases, String, ◌≡◌, refl, ◌⊎◌, inl, inr, Option, none,
  some, List, [], ◌∷◌, ◌++◌, arith, if◌then◌else◌, Option-cases, ◌==◌, nat_eq, string_eq, list_eq,
  option_eq, list_beq_iff, ok, Result-cases,
}
use agent_of_record.CryptoCore.{Crypto, Bytes}
use agent_of_record.CryptoCore.Hex.{hex_digit}
use agent_of_record.LedgerCore.{Ledger}
use agent_of_record.TsaAnchor.{
  decimal_from, TimestampToken, AnchorRecord, AnchorStore, anchored, add, with_root, last_anchored,
  for_root, latest_anchored, current_root, request_anchor, anchor_current_root,
}

-- Fuel above the number is enough for its digits.
decimal_from-more_fuel :
    (fuel n : ℕ) (s : String) → n < fuel → decimal_from (suc fuel) n s ≡ decimal_from fuel n s
unfolding decimal_from
decimal_from-more_fuel zero n s h = absurd (omega arith)
decimal_from-more_fuel (suc fuel) n s h =
    let t : String = String.◌∷◌ (hex_digit (n % 10)) s in
    elim (Bool-cases (ltb n 10)) [
      | inl small ↦ ground arith
      | inr large ↦
          let fewer : n / 10 < fuel = ground arith in
          ground (arith, decimal_from-more_fuel fuel (n / 10) t fewer)
    ]

with_root-append :
    (b : Bytes) (rs : List AnchorRecord) (r : AnchorRecord)
    → with_root b (rs ++ r ∷ [])
      ≡ (if r.ledger_root == b then with_root b rs ++ r ∷ [] else with_root b rs)
unfolding with_root
with_root-append b [] r = ground arith
with_root-append b (s ∷ rs) r = ground (arith, with_root-append b rs r)

last_anchored-append :
    (rs : List AnchorRecord) (r : AnchorRecord)
    → r.status ≡ anchored
    → last_anchored (rs ++ r ∷ []) ≡ some r
unfolding last_anchored
last_anchored-append [] r h = ground arith
last_anchored-append (s ∷ rs) r h = ground (arith, last_anchored-append rs r h)

-- The second store is the first, or the first with the record at its end.
abbrev pub IsExtended : AnchorStore → AnchorStore → AnchorRecord → Type 0
IsExtended old new r = (new ≡ old) ⊎ (new.records ≡ old.records ++ r ∷ [])

module _ ⦃c : Crypto⦄ where
  -- A run leaves the store as it is, or adds the record that it returns at the end.
  pub anchor_current_root-IsExtended :
      (now : ℕ) (authority : Bytes → Option TimestampToken) (detail : String) (ledger : Ledger)
      (store : AnchorStore)
      → IsExtended store
          (anchor_current_root now authority detail ledger store).1
          (anchor_current_root now authority detail ledger store).0
  unfolding anchor_current_root add request_anchor
  anchor_current_root-IsExtended now authority detail ledger store =
      elim (Result-cases (current_root ledger)) [
        | inl (e, bad) ↦ inr (ground arith)
        | inr (b, good) ↦ elim (Option-cases (latest_anchored b store)) [
          | inr (r, old) ↦ inl (ground arith)
          | inl new ↦ elim (Option-cases (authority b)) [
            | inl refused ↦ inr (ground arith)
            | inr (t, granted) ↦ inr (ground arith)
          ]
        ]
      ]

  request_anchor-latest :
      (now : ℕ) (answer : Option TimestampToken) (detail : String) (b : Bytes) (store : AnchorStore)
      → (request_anchor now answer detail b store).0.status ≡ anchored
      → latest_anchored b (request_anchor now answer detail b store).1
        ≡ some (request_anchor now answer detail b store).0
  unfolding request_anchor add latest_anchored for_root
  request_anchor-latest now none detail b store h = cc h
  request_anchor-latest now (some token) detail b store h =
      let r = (request_anchor now (some token) detail b store).0 in
      rw (with_root-append b store.records r, (list_beq_iff b b).1 refl)
        (last_anchored-append (with_root b store.records) r refl)

  run_existing :
      (now : ℕ) (authority : Bytes → Option TimestampToken) (detail : String) (ledger : Ledger)
      (store : AnchorStore) (b : Bytes) (old : AnchorRecord)
      → current_root ledger ≡ ok b
      → latest_anchored b store ≡ some old
      → anchor_current_root now authority detail ledger store ≡ (old, store)
  unfolding anchor_current_root
  run_existing now authority detail ledger store b old r e = ground arith

  run_new :
      (now : ℕ) (authority : Bytes → Option TimestampToken) (detail : String) (ledger : Ledger)
      (store : AnchorStore) (b : Bytes)
      → current_root ledger ≡ ok b
      → latest_anchored b store ≡ none
      → anchor_current_root now authority detail ledger store
        ≡ request_anchor now (authority b) detail b store
  unfolding anchor_current_root
  run_new now authority detail ledger store b r e = ground arith

  -- The record of a run that anchored is the latest of its root.
  run_latest :
      (now : ℕ) (authority : Bytes → Option TimestampToken) (detail : String) (ledger : Ledger)
      (store : AnchorStore) (b : Bytes)
      → current_root ledger ≡ ok b
      → (anchor_current_root now authority detail ledger store).0.status ≡ anchored
      → latest_anchored b (anchor_current_root now authority detail ledger store).1
        ≡ some (anchor_current_root now authority detail ledger store).0
  run_latest now authority detail ledger store b r good =
      elim (Option-cases (latest_anchored b store)) [
        | inr (old, e) ↦ rw (run_existing now authority detail ledger store b old r e) e
        | inl new ↦
            (let run = run_new now authority detail ledger store b r new in
              rw run (request_anchor-latest now (authority b) detail b store (rw run at good)))
      ]

  -- After a run that returns an anchored record for a ledger with entries, a later run on a ledger with
  -- the same root returns that record and leaves the store as it is, whatever the authority would
  -- answer.
  pub anchor_current_root_again :
      (now later : ℕ) (authority other : Bytes → Option TimestampToken) (detail text : String)
      (ledger ledger' : Ledger) (store : AnchorStore) (b : Bytes)
      → current_root ledger ≡ ok b
      → current_root ledger' ≡ ok b
      → (anchor_current_root now authority detail ledger store).0.status ≡ anchored
      → anchor_current_root later other text ledger'
          (anchor_current_root now authority detail ledger store).1
        ≡ anchor_current_root now authority detail ledger store
  anchor_current_root_again now later authority other detail text ledger ledger' store b r r' good =
      run_existing later other text ledger'
        (anchor_current_root now authority detail ledger store).1 b
        (anchor_current_root now authority detail ledger store).0 r'
        (run_latest now authority detail ledger store b r good)
