-- ===== src/KeyRegistry/Registry/Revocation.antt =====
-- Sequences of operations on the registry: a revoked key stays revoked.
use agent_of_record.Common.{
  ℕ, String, ◌≡◌, refl, sym, ◌⊎◌, inl, inr, true, none, some, List, [], ◌∷◌, ◌++◌, arith, eq_iff,
  Bool-cases, Option-cases, ◌==◌, nat_eq, string_eq, list_eq, option_eq, Result, ok, err, ◌>>=◌,
  Result-cases,
}
use mathlib.Core.Path.{subst}
use agent_of_record.Calendar.{aware}
use agent_of_record.CryptoCore.{Crypto, Bytes}
use agent_of_record.KeyRegistry.Models.{AgentKeyRecord}
use agent_of_record.KeyRegistry.Storage.{Rows, get_key_by_id, set_revoked, revoke_row}
use agent_of_record.KeyRegistry.Storage.Rows.{
  get_key_by_id-append, get_key_by_id-set_revoked, pubkey_id-get_key_by_id,
}
use agent_of_record.KeyRegistry.Registry.{
  KeyRegistry, Registration, is_active, algorithm_for_key, make_record, register_key,
  register_pubkey, get_pubkey, revoke_key,
}
use agent_of_record.KeyRegistry.Registry.Lookup.{register_key-ok}

-- A client's calls, with the readings of the clock.
pub data Operation : Type 0 where
  register : ℕ → Registration → Operation
  register_bytes : ℕ → ℕ → ℕ → String → Bytes → Operation
  revoke : String → Operation

abbrev state_or : KeyRegistry → Result KeyRegistry → KeyRegistry
state_or old (ok new) = new
state_or old (err e) = old

abbrev new_state : Result (AgentKeyRecord × KeyRegistry) → Result KeyRegistry
new_state r = r >>= λ (row, registry). ok registry

module _ ⦃c : Crypto⦄ where
  -- A call that raises changes nothing.
  pub step : Operation → KeyRegistry → KeyRegistry
  step (register now r) registry = state_or registry (new_state (register_key now r registry))
  step (register_bytes checked from created id b) registry =
      state_or registry (register_pubkey checked from created id b registry)
  step (revoke id) registry = (revoke_key id registry).1

  pub run : List Operation → KeyRegistry → KeyRegistry
  run [] registry = registry
  run (o ∷ ops) registry = run ops (step o registry)

  -- The registration that `register_pubkey` makes for an identifier that is free.
  abbrev unassigned : ℕ → String → Bytes → String → Registration
  unassigned from id b algorithm = record {
    agent_id = "unassigned";
    pubkey_id = id;
    public_key_bytes = b;
    algorithm = algorithm;
    valid_from = aware from;
    valid_until = none;
    agent_type = none;
  }

  register_pubkey-cases :
      (checked from created : ℕ) (id : String) (b : Bytes) (registry : KeyRegistry)
      → (state_or registry (register_pubkey checked from created id b registry) ≡ registry)
        ⊎ ((r : Registration) × (state_or registry
                (register_pubkey checked from created id b registry)
              ≡ state_or registry (new_state (register_key created r registry))))
  unfolding register_pubkey
  register_pubkey-cases checked from created id b registry =
      elim (Option-cases (get_key_by_id id registry.storage)) [
        | inr (existing, e) ↦ inl (ground arith)
        | inl free ↦ elim (Result-cases (algorithm_for_key b)) [
          | inl (x, failed) ↦ inl (ground arith)
          | inr (algorithm, known) ↦ inr (unassigned from id b algorithm, ground arith)
        ]
      ]

  -- What holds of the rows, and is kept by a new checked row and by a revocation, holds after any
  -- operations.
  module _ (P : Rows → Type 0)
      (keeps_new : (now : ℕ) (r : Registration) (row : AgentKeyRecord) (rows : Rows)
        → make_record now r ≡ ok row
        → get_key_by_id row.pubkey_id rows ≡ none
        → P rows
        → P (rows ++ row ∷ []))
      (keeps_revoked : (id : String) (rows : Rows) → P rows → P (set_revoked id rows)) where
    register_key-keeps :
        (now : ℕ) (r : Registration) (registry : KeyRegistry)
        → P registry.storage
        → P (state_or registry (new_state (register_key now r registry))).storage
    register_key-keeps now r registry h = elim (Result-cases (register_key now r registry)) [
      | inl (e, failed) ↦ rw failed h
      | inr ((row, registry'), done) ↦
          (let (made, new, added) =
              register_key-ok now r registry {row = row} {registry' = registry'} done in
            rw (done, added) (keeps_new now r row registry.storage made new h))
    ]

    register_pubkey-keeps :
        (checked from created : ℕ) (id : String) (b : Bytes) (registry : KeyRegistry)
        → P registry.storage
        → P (state_or registry (register_pubkey checked from created id b registry)).storage
    register_pubkey-keeps checked from created id b registry h =
        elim (register_pubkey-cases checked from created id b registry) [
          | inl same ↦ subst (λ s. P s.storage) (sym same) h
          | inr (r, same) ↦
              subst (λ s. P s.storage) (sym same) (register_key-keeps created r registry h)
        ]

    step-keeps :
        (o : Operation) (registry : KeyRegistry) → P registry.storage → P (step o registry).storage
    unfolding step revoke_key revoke_row
    step-keeps (register now r) registry h = register_key-keeps now r registry h
    step-keeps (register_bytes checked from created id b) registry h =
        register_pubkey-keeps checked from created id b registry h
    step-keeps (revoke id) registry h = keeps_revoked id registry.storage h

    pub run-keeps :
        (ops : List Operation) (registry : KeyRegistry)
        → P registry.storage
        → P (run ops registry).storage
    unfolding run
    run-keeps [] registry h = h
    run-keeps (o ∷ ops) registry h = run-keeps ops (step o registry) (step-keeps o registry h)

  abbrev IsRevoked : String → Rows → Type 0
  IsRevoked id rows = (r : AgentKeyRecord) × (get_key_by_id id rows ≡ some r) × (r.revoked ≡ true)

  append-IsRevoked :
      (id : String) (now : ℕ) (r : Registration) (row : AgentKeyRecord) (rows : Rows)
      → make_record now r ≡ ok row
      → get_key_by_id row.pubkey_id rows ≡ none
      → IsRevoked id rows
      → IsRevoked id (rows ++ row ∷ [])
  append-IsRevoked id now r row rows made new (s, e, gone) =
      (s, ground (arith, get_key_by_id-append id rows row), gone)

  set_revoked-IsRevoked :
      (id other : String) (rows : Rows) → IsRevoked id rows → IsRevoked id (set_revoked other rows)
  set_revoked-IsRevoked id other rows (r, e, gone) = elim (Bool-cases (r.pubkey_id == other)) [
    | inl hit ↦
        (record r { revoked = true }, ground (arith, get_key_by_id-set_revoked id other rows), refl)
    | inr miss ↦ (r, ground (arith, get_key_by_id-set_revoked id other rows), gone)
  ]

  revoke_key-IsRevoked :
      (id : String) (registry : KeyRegistry)
      → (revoke_key id registry).0 ≡ true
      → IsRevoked id (revoke_key id registry).1.storage
  unfolding revoke_key revoke_row
  revoke_key-IsRevoked id registry found = elim (Option-cases (get_key_by_id id registry.storage)) [
    | inl missing ↦ absurd (ground arith)
    | inr (r, e) ↦ (
      record r { revoked = true },
      ground (
        arith,
        get_key_by_id-set_revoked id id registry.storage,
        eq_iff r.pubkey_id id,
        pubkey_id-get_key_by_id id registry.storage {r = r} e,
      ),
      refl,
    )
  ]

  lookup_of_revoked :
      (now : ℕ) (id : String) (registry : KeyRegistry)
      → IsRevoked id registry.storage
      → get_pubkey now id registry ≡ none
  unfolding get_pubkey is_active
  lookup_of_revoked now id registry (r, e, gone) = ground arith

  -- A key that `revoke_key` has found is answered by no lookup again, at no time, whatever is
  -- registered, imported or revoked afterwards.
  pub revoked_for_good :
      (id : String) (registry : KeyRegistry) (ops : List Operation) (now : ℕ)
      → (revoke_key id registry).0 ≡ true
      → get_pubkey now id (run ops (revoke_key id registry).1) ≡ none
  revoked_for_good id registry ops now found =
      let kept =
        run-keeps (IsRevoked id) (append-IsRevoked id) (set_revoked-IsRevoked id) ops
          (revoke_key id registry).1 (revoke_key-IsRevoked id registry found) in
      lookup_of_revoked now id (run ops (revoke_key id registry).1) kept
