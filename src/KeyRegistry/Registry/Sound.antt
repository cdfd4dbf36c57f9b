-- ===== src/KeyRegistry/Registry/Sound.antt =====
-- The records of a registry stay sound, whatever its operations.
use agent_of_record.Common.{
  ℕ, ◌≤◌, String, ◌≡◌, inl, inr, true, not, some, List, [], ◌∷◌, ◌++◌, arith, if◌then◌else◌,
  Bool-cases, ◌==◌, nat_eq, string_eq, list_eq, option_eq, All, wrong_algorithm, ok, raise_if,
  >>=-eq-ok,
}
use agent_of_record.CryptoCore.{Crypto}
use agent_of_record.KeyRegistry.Models.{
  AgentKeyRecord, as_utc, optional_as_utc, has_min_lengths, validate_record,
}
use agent_of_record.KeyRegistry.Storage.{Rows, set_revoked}
use agent_of_record.KeyRegistry.Storage.Rows.{IsDistinct, IsDistinct-append, IsDistinct-set_revoked}
use agent_of_record.KeyRegistry.Registry.{
  Registration, empty, is_accepted_algorithm, algorithm_for_key, make_record,
}
use agent_of_record.KeyRegistry.Registry.Revocation.{Operation, run, run-keeps}

module _ ⦃c : Crypto⦄ where
  -- A stored record: its algorithm is that of its key, its texts are not empty, and its window is
  -- ordered.
  pub record IsSoundRecord (r : AgentKeyRecord) : Type 0 where
    pub algorithm : algorithm_for_key r.public_key_bytes ≡ ok r.algorithm
    pub lengths : has_min_lengths r ≡ true
    pub ordered : (until : ℕ) → r.valid_until ≡ some until → r.valid_from ≤ until

  pub record IsSound (rows : Rows) : Type 0 where
    pub distinct : IsDistinct rows
    pub records : All IsSoundRecord rows

  validate_record-ok :
      (x : AgentKeyRecord) {y : AgentKeyRecord}
      → validate_record x ≡ ok y
      → (x ≡ y)
        × (has_min_lengths x ≡ true)
        × ((until : ℕ) → x.valid_until ≡ some until → x.valid_from ≤ until)
  unfolding validate_record
  validate_record-ok x h = (ground arith, ground arith, λ until e. ground arith)

  make_record-IsSoundRecord :
      (now : ℕ) (r : Registration) (row : AgentKeyRecord)
      → make_record now r ≡ ok row
      → IsSoundRecord row
  unfolding make_record
  make_record-IsSoundRecord now r row h =
      let (expected, ea, r1) = >>=-eq-ok (algorithm_for_key r.public_key_bytes) _ h in
      let (_, _, r2) =
        >>=-eq-ok
          (raise_if (not (is_accepted_algorithm expected r.algorithm)) (wrong_algorithm expected)) _
          r1 in
      let (from, _, r3) = >>=-eq-ok (as_utc r.valid_from) _ r2 in
      let (until, _, r4) = >>=-eq-ok (optional_as_utc r.valid_until) _ r3 in
      let (same, lengths, ordered) = validate_record-ok _ r4 in
      record {
        algorithm = rw (← same) ea;
        lengths = rw (← same) lengths;
        ordered = rw (← same) ordered;
      }

  All-append :
      (P : AgentKeyRecord → Type 0) (rows : Rows) (r : AgentKeyRecord)
      → All P rows
      → P r
      → All P (rows ++ r ∷ [])
  All-append P [] r h p = (p, tt)
  All-append P (s ∷ rows) r h p = (h.0, All-append P rows r h.1 p)

  set_revoked_row :
      (id : String) (r : AgentKeyRecord)
      → IsSoundRecord r
      → IsSoundRecord (if r.pubkey_id == id then record r { revoked = true } else r)
  unfolding has_min_lengths
  set_revoked_row id r s = elim (Bool-cases (r.pubkey_id == id)) [
    | inl hit ↦
        rw hit (record { algorithm = s.algorithm; lengths = s.lengths; ordered = s.ordered })
    | inr miss ↦ rw miss s
  ]

  set_revoked-IsSoundRecord :
      (id : String) (rows : Rows) → All IsSoundRecord rows → All IsSoundRecord (set_revoked id rows)
  unfolding set_revoked
  set_revoked-IsSoundRecord id [] h = tt
  set_revoked-IsSoundRecord id (r ∷ rows) h =
      (set_revoked_row id r h.0, set_revoked-IsSoundRecord id rows h.1)

  -- Whatever operations a registry has seen since it was empty, identifiers are distinct and every
  -- record is sound.
  pub run-IsSound : (ops : List Operation) → IsSound (run ops empty).storage
  run-IsSound ops =
      run-keeps IsSound
        (λ now r row rows made new s. record {
          distinct = IsDistinct-append rows row s.distinct new;
          records =
              All-append IsSoundRecord rows row s.records
                (make_record-IsSoundRecord now r row made);
        })
        (λ id rows s. record {
          distinct = IsDistinct-set_revoked id rows s.distinct;
          records = set_revoked-IsSoundRecord id rows s.records;
        })
        ops empty (record { distinct = tt; records = tt })
