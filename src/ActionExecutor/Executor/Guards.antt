-- ===== src/ActionExecutor/Executor/Guards.antt =====
-- Nothing leaves unless the guards hold, and what leaves is what the proof of intent commits to.
use agent_of_record.Common.{
  String, ◌≡◌, sym, ap, ◌∙◌, ◌⊎◌, inl, inr, true, false, ◌&&◌, Option, some, [], ◌∷◌, ◌++◌, arith,
  eq_iff, Bool-cases, Option-cases, ◌==◌, nat_eq, string_eq, list_eq, option_eq, ok, >>=-eq-ok,
}
use mathlib.Core.Path.{subst}
use agent_of_record.ActionExecutor.SmtpAction.{Aead, Delivery, Chance, send_email_with_proof}
use agent_of_record.ActionExecutor.Executor.{
  ActionResult, AgentResult, DatabaseAgent, World, ActionExecutor, fields_of, get_or, has_field,
  fits_type, is_allowed, execute_jwt_action, execute_email, execute_database, dispatch,
  execute_hashed, execute_action,
}
use agent_of_record.CryptoCore.{Crypto, Bytes, hash_payload}
use agent_of_record.CryptoCore.Hex.{hex}
use agent_of_record.Json.{Json, null, arr, obj, nil, field, end, get_field}
use agent_of_record.PoiGenerator.Models.{ProofOfIntent}
use agent_of_record.ActionExecutor.Executor.Mail.{message_in, made-eq, Carries, send_email-Carries}

module _ ⦃c : Crypto⦄ (aead : Aead) {S : Type 0} (executor : ActionExecutor S) where
  -- The proof commits to the payload, its type of action fits, and its policy decision is to allow.
  pub record IsAuthorized (action_type : String) (payload : Json) (poi : ProofOfIntent)
      : Type 0 where
    pub digest : Bytes
    pub hashed : hash_payload payload ≡ ok digest
    pub committed : hex digest ≡ poi.action_payload_hash
    pub typed : fits_type action_type poi.action_type ≡ true
    pub policy : (decision : String) → poi.policy_decision ≡ some decision → decision ≡ "allow"

  -- One email more has left, with the payload's parts and the proof.
  pub record HasMailed (payload : Json) (poi : ProofOfIntent) (world after : World S) : Type 0 where
    pub delivery : Delivery
    pub outbox : after.outbox ≡ world.outbox ++ delivery ∷ []
    pub database : after.database ≡ world.database
    pub carries :
        Carries aead
          (message_in delivery)
          (get_or null "to" (fields_of payload))
          (get_or null "subject" (fields_of payload))
          (get_or null "body" (fields_of payload))
          poi

  -- The database agent has been called once, with the payload's database, template and parameters and
  -- with the proof. Its state is the one that the call left, and the result is the one it reported.
  pub record HasQueried (payload : Json) (poi : ProofOfIntent) (world after : World S)
      (r : ActionResult) : Type 0 where
    pub agent : DatabaseAgent S
    pub configured : executor.database_agent ≡ some agent
    pub reported : AgentResult
    pub ran :
        agent.run_query
          (obj (
            field "database" (get_or null "database" (fields_of payload)) (
              field "template"
                (get_or null "template" (fields_of payload))
                (field "params" (get_or (arr nil) "params" (fields_of payload)) end))))
          poi
          world.database
        ≡ ok (reported, after.database)
    pub outbox : after.outbox ≡ world.outbox
    pub success : r.success ≡ reported.success
    pub action_id : r.action_id ≡ reported.artifact_ref
    pub detail : r.detail ≡ reported.error

  -- What an action has done that has done anything.
  abbrev pub HasActed : String → Json → ProofOfIntent → World S → World S → ActionResult → Type 0
  HasActed action_type payload poi world after r =
      ((action_type ≡ "email") × HasMailed payload poi world after)
      ⊎ ((action_type ≡ "db") × HasQueried payload poi world after r)

  -- Nothing has been done, and the result says so.
  abbrev pub IsIdle : World S → World S → ActionResult → Type 0
  IsIdle world after r = (after ≡ world) × (r.success ≡ false)

  is_allowed-eq :
      (o : Option String) (decision : String)
      → is_allowed o ≡ true
      → o ≡ some decision
      → decision ≡ "allow"
  unfolding is_allowed
  is_allowed-eq o decision h e = ground (arith, eq_iff decision "allow")

  execute_email-HasMailed :
      (chance : Chance) (payload : Json) (poi : ProofOfIntent) (world after : World S)
      (r : ActionResult)
      → execute_email aead executor chance (fields_of payload) poi world ≡ ok (r, after)
      → IsIdle world after r ⊎ HasMailed payload poi world after
  unfolding execute_email
  execute_email-HasMailed chance payload poi world after r h =
      let fs = fields_of payload in
      elim (Bool-cases (has_field "to" fs && has_field "subject" fs && has_field "body" fs)) [
        | inr missing ↦ inl (ground arith, ground arith)
        | inl filled ↦
            (let ((id, outbox), es, last) =
                >>=-eq-ok
                  (send_email_with_proof aead chance (get_or null "to" fs)
                    (get_or null "subject" fs) (get_or null "body" fs) poi executor.smtp_config
                    (get_field "audit_rationale" fs) executor.encryption_key world.outbox)
                  _ (rw (filled, execute_email) at h) in
              let (d, left, carries) =
                send_email-Carries aead chance (get_or null "to" fs) (get_or null "subject" fs)
                  (get_or null "body" fs) poi executor.smtp_config (get_field "audit_rationale" fs)
                  executor.encryption_key world.outbox id outbox es in
              let new = made-eq last in
              inr (record {
                delivery = d;
                outbox = sym (ap (λ x. x.1.outbox) new) ∙ left;
                database = sym (ap (λ x. x.1.database) new);
                carries = carries;
              }))
      ]

  execute_database-HasQueried :
      (payload : Json) (poi : ProofOfIntent) (world after : World S) (r : ActionResult)
      → execute_database aead executor (fields_of payload) poi world ≡ ok (r, after)
      → IsIdle world after r ⊎ HasQueried payload poi world after r
  unfolding execute_database execute_jwt_action
  execute_database-HasQueried payload poi world after r h =
      let ((result, database), e, last) =
        >>=-eq-ok
          (execute_jwt_action "db" (fields_of payload) poi executor.database_agent world.database) _
          h in
      let new = made-eq last in
      elim (Option-cases executor.database_agent) [
        | inl absent ↦ inl (ground arith, ground arith)
        | inr (agent, given) ↦ inr (record {
          agent = agent;
          configured = given;
          reported = result;
          ran =
              subst
                (λ o.
                  execute_jwt_action "db" (fields_of payload) poi o world.database
                  ≡ ok (result, database))
                given e
              ∙ ap (λ x. ok (result, x.1.database)) new;
          outbox = sym (ap (λ x. x.1.outbox) new);
          success = sym (ap (λ x. x.0.success) new);
          action_id = sym (ap (λ x. x.0.action_id) new);
          detail = sym (ap (λ x. x.0.detail) new);
        })
      ]

  dispatch-HasActed :
      (chance : Chance) (action_type : String) (payload : Json) (poi : ProofOfIntent)
      (world after : World S) (r : ActionResult)
      → dispatch aead executor chance action_type (fields_of payload) poi world ≡ ok (r, after)
      → IsIdle world after r ⊎ HasActed action_type payload poi world after r
  unfolding dispatch
  dispatch-HasActed chance action_type payload poi world after r h =
      elim (Bool-cases (action_type == "email")) [
        | inl mail ↦
            elim (execute_email-HasMailed chance payload poi world after r
              (rw (mail, dispatch) at h)) [
                | inl same ↦ inl same
                | inr mailed ↦ inr (inl ((eq_iff action_type "email").0 mail, mailed))
              ]
        | inr other ↦ elim (Bool-cases (action_type == "db")) [
          | inl db ↦
              elim (execute_database-HasQueried payload poi world after r
                (rw (other, db, dispatch) at h)) [
                  | inl same ↦ inl same
                  | inr queried ↦ inr (inr ((eq_iff action_type "db").0 db, queried))
                ]
          | inr neither ↦ inl (ground arith, ground arith)
        ]
      ]

  -- A call of `execute_action` that returns leaves everything as it was and reports no success, or the
  -- proof commits to the payload, its type and its policy decision fit, and either one email with the
  -- payload's recipient, subject and body and with the proof has left, or the database agent has run on
  -- the payload's database, template and parameters with the proof, its answer is what is reported, and
  -- no email has left.
  pub execute_action_guarded :
      (chance : Chance) (action_type : String) (payload : Json) (poi : ProofOfIntent)
      (world after : World S) (r : ActionResult)
      → execute_action aead executor chance action_type payload poi world ≡ ok (r, after)
      → IsIdle world after r
        ⊎ (IsAuthorized action_type payload poi × HasActed action_type payload poi world after r)
  unfolding execute_action execute_hashed
  execute_action_guarded chance action_type payload poi world after r h =
      let (digest, ed, rest) = >>=-eq-ok (hash_payload payload) _ h in
      elim (Bool-cases (hex digest == poi.action_payload_hash)) [
        | inr differs ↦ inl (ground arith, ground arith)
        | inl same ↦ elim (Bool-cases (fits_type action_type poi.action_type)) [
          | inr other ↦ inl (ground arith, ground arith)
          | inl typed ↦ elim (Bool-cases (is_allowed poi.policy_decision)) [
            | inr denied ↦ inl (ground arith, ground arith)
            | inl allowed ↦
                elim (dispatch-HasActed chance action_type payload poi world after r
                  (rw (same, typed, allowed, execute_hashed) at rest)) [
                    | inl unchanged ↦ inl unchanged
                    | inr acted ↦ inr (
                      record {
                        digest = digest;
                        hashed = ed;
                        committed = (eq_iff (hex digest) poi.action_payload_hash).0 same;
                        typed = typed;
                        policy = λ decision e. is_allowed-eq poi.policy_decision decision allowed e;
                      },
                      acted,
                    )
                  ]
          ]
        ]
      ]
