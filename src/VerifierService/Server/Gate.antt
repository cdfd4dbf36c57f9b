-- ===== src/VerifierService/Server/Gate.antt =====
-- Which envelopes the endpoint acts on.
use agent_of_record.Common.{
  ℕ, String, ◌≡◌, ◌⊎◌, inl, inr, Bool, true, false, arith, Bool-cases, nat_eq, string_eq, list_eq,
  option_eq, Error, ok, Result-cases,
}
use agent_of_record.Calendar.{Calendar}
use agent_of_record.CryptoCore.{Crypto}
use agent_of_record.VerifierService.Database.{Hashlib, user_from_token}
use agent_of_record.VerifierService.Models.{SignedEnvelope}
use agent_of_record.VerifierService.Verifier.{VerificationResult, verify_envelope}
use agent_of_record.VerifierService.Server.{AppState, Reply, reply, ◌>>=◌}
use agent_of_record.VerifierService.Server.Accounts.{request_user, bearer_token}
use agent_of_record.VerifierService.Server.Prompts.{
  Clocks, any_same, is_other_user, verifier_of, verify_signed, match_user, admit,
}
use agent_of_record.VerifierService.Server.{log_operation}
use agent_of_record.VerifierService.Server.Prompts.{reject}
use agent_of_record.VerifierService.Server.Artifact.{EmailDemo, generate_artifact}
use agent_of_record.VerifierService.Server.Route.{Agents, PlanTimes}
use agent_of_record.VerifierService.Server.Route.Execute.{execute_routed_agent}

abbrev is_reply : {A : Type 0} → Reply A → Bool
is_reply (reply a) = true
is_reply _ = false

module _ {W : Type 0} ⦃h : Hashlib⦄ ⦃c : Crypto⦄ where
  -- The envelope is that of the session's user, if there is a session, and it was verified before or
  -- is accepted by the verifier now.
  pub record IsAdmitted (calendar : Calendar) (at : Clocks) (authorization : String)
      (envelope : SignedEnvelope) (app : AppState W) : Type 0 where
    pub user_fits :
        is_other_user envelope
          (user_from_token (bearer_token authorization) at.session app.database)
        ≡ false
    pub verified :
        (any_same envelope app.verified_envelopes ≡ true)
        ⊎ ((result : VerificationResult) × ((verify_envelope calendar at.verifier envelope
                (verifier_of calendar at.key app)).0
              ≡ ok result)
            × (result.valid ≡ true))

  -- No value is returned, and of the state only the nonces may have changed.
  pub record IsRefused {A : Type 0} (app : AppState W) (run : Reply A × AppState W) : Type 0 where
    pub unanswered : is_reply run.0 ≡ false
    pub rest : run.1 ≡ record app { nonce_store = run.1.nonce_store }

  -- The endpoint acts only on an envelope of the session's user that was verified before or is accepted
  -- now. On any other it answers with an error, and it leaves the ledger, the keys, the evidence, the
  -- database and the agents' world as they were.
  pub execute_routed_agent_admits :
      (env : Agents W) (calendar : Calendar) (message_of : Error → String) (at : Clocks)
      (plan_times : ℕ → PlanTimes) (authorization : String) (envelope : SignedEnvelope)
      (app : AppState W)
      → IsAdmitted calendar at authorization envelope app
        ⊎ IsRefused app
            (execute_routed_agent env calendar message_of at plan_times authorization envelope app)
  unfolding execute_routed_agent match_user admit verify_signed request_user ◌>>=◌
  execute_routed_agent_admits env calendar message_of at plan_times authorization envelope app =
      let user = user_from_token (bearer_token authorization) at.session app.database in
      elim (Bool-cases (is_other_user envelope user)) [
        | inl other ↦ inr (record { unanswered = ground arith; rest = ground arith })
        | inr fits ↦ elim (Bool-cases (any_same envelope app.verified_envelopes)) [
          | inl before ↦ inl (record { user_fits = fits; verified = inl before })
          | inr new ↦
              elim (Result-cases (
                (verify_envelope calendar at.verifier envelope
                  (verifier_of calendar at.key app)).0)) [
                    | inl (e, bad) ↦ inr (record { unanswered = ground arith; rest = ground arith })
                    | inr (result, good) ↦ elim (Bool-cases result.valid) [
                      | inl valid ↦
                          inl (record { user_fits = fits; verified = inr (result, good, valid) })
                      | inr invalid ↦
                          inr (record { unanswered = ground arith; rest = ground arith })
                    ]
                  ]
        ]
      ]

  -- The same, but that the log of operations may have an entry of the refusal.
  pub record IsRejected {A : Type 0} (app : AppState W) (run : Reply A × AppState W) : Type 0 where
    pub unanswered : is_reply run.0 ≡ false
    pub rest : run.1 ≡ record app { nonce_store = run.1.nonce_store; operations = run.1.operations }

  -- The endpoint of the email demo acts only on an envelope of the session's user that was verified
  -- before or is accepted now. On any other it answers with an error, and it leaves the ledger, the keys,
  -- the evidence, the database and the agents' world as they were.
  pub generate_artifact_admits :
      (env : Agents W) (demo : EmailDemo W) (calendar : Calendar) (message_of : Error → String)
      (at : Clocks) (planned_at : String) (plan_times : PlanTimes) (authorization : String)
      (envelope : SignedEnvelope) (app : AppState W)
      → IsAdmitted calendar at authorization envelope app
        ⊎ IsRejected app (
            generate_artifact env demo calendar message_of at planned_at plan_times authorization
              envelope app)
  unfolding generate_artifact match_user admit verify_signed request_user reject log_operation ◌>>=◌
  generate_artifact_admits env demo calendar message_of at planned_at plan_times authorization
        envelope app =
      let user = user_from_token (bearer_token authorization) at.session app.database in
      elim (Bool-cases (is_other_user envelope user)) [
        | inl other ↦ inr (record { unanswered = ground arith; rest = ground arith })
        | inr fits ↦ elim (Bool-cases (any_same envelope app.verified_envelopes)) [
          | inl before ↦ inl (record { user_fits = fits; verified = inl before })
          | inr new ↦
              elim (Result-cases (
                (verify_envelope calendar at.verifier envelope
                  (verifier_of calendar at.key app)).0)) [
                    | inl (e, bad) ↦ inr (record { unanswered = ground arith; rest = ground arith })
                    | inr (result, good) ↦ elim (Bool-cases result.valid) [
                      | inl valid ↦
                          inl (record { user_fits = fits; verified = inr (result, good, valid) })
                      | inr invalid ↦
                          inr (record { unanswered = ground arith; rest = ground arith })
                    ]
                  ]
        ]
      ]
