-- ===== src/VerifierService/Server/Route/Loop.antt =====
-- Every action that the endpoint reports has evidence.
use agent_of_record.Common.{
  ℕ, ◌+◌, String, ◌≡◌, refl, sym, ap, ◌∙◌, inl, inr, Option, List, [], ◌∷◌, ◌++◌, arith, Bool-cases,
  nat_eq, string_eq, list_eq, option_eq, All, Error,
}
use Prim.Native.String.{◌++◌ as text_append}
use mathlib.Core.Path.{subst}
use agent_of_record.Common.Dict.{lookup-insert_self}
use agent_of_record.Common.Find.{find, find-append_last, All-append, All-imp}
use agent_of_record.Calendar.{Calendar}
use agent_of_record.CryptoCore.{Crypto}
use agent_of_record.Json.{obj}
use agent_of_record.LedgerCore.{Ledger}
use agent_of_record.PoiGenerator.Models.{ProofOfIntent}
use agent_of_record.PoiGenerator.Poi.Commitment.{HasClaims, Commits}
use agent_of_record.Agents.Plan.{ActionPlan, ActionResult}
use agent_of_record.VerificationPortal.Models.{register, get}
use agent_of_record.VerifierService.Database.{Hashlib, PublicUser, has_action, takes_action}
use agent_of_record.VerificationPortal.EvidenceStore.{serialize}
use agent_of_record.VerifierService.Database.{get_action_evidence}
use agent_of_record.VerifierService.Models.{SignedEnvelope}
use agent_of_record.VerifierService.Server.{
  AppState, Reply, reply, ◌>>=◌, ◌>>◌, return, lift, catching, is_lookup_or_value_error,
  log_operation,
}
use agent_of_record.VerifierService.Server.Prompts.{Clocks, match_user, admit}
use agent_of_record.VerifierService.Server.Route.Outcome.{Executed, answer, last_succeeded}
use agent_of_record.VerifierService.Server.Route.Outcome.{evidence_for, record_of}
use agent_of_record.VerifierService.Server.Route.{
  plan_claims, EmlFile, Agents, PlanTimes, ExecutionRecord, Progress, nothing_done, system_prompt,
  completed_plan, text_or, written_file, action_id_of,
}
use agent_of_record.VerifierService.Server.Route.Execute.{
  append_entries, register_agent_key, plan_poi, run_agent, keep_evidence, record_action,
  run_completed, run_plan, run_plans, execute_admitted, execute_routed_agent,
}
use agent_of_record.VerifierService.Server.Route.Execute.{execute_admitted}
use agent_of_record.VerifierService.Server.Replies.{
  Reply-cases, bind-reply, bind-lift, bind-asks, bind-refuse_if,
}
use agent_of_record.VerifierService.Server.Route.Evidence.{
  run_agent-SameRecords, HasEvidence, SameRecords, plan_poi-Commits, plan_poi-HasClaims, Adds,
  Adds-HasEvidence_old, keep_evidence-Adds, append_entries-SameRecords,
  register_agent_key-SameRecords,
}

module _ {W : Type 0} ⦃h : Hashlib⦄ ⦃c : Crypto⦄ (env : Agents W) where
  -- Each action of the list has its evidence.
  abbrev AllEvidence : SignedEnvelope → AppState W → List ExecutionRecord → Type 0
  AllEvidence envelope app records = All (HasEvidence env envelope app) records

  same_records :
      (envelope : SignedEnvelope) (a b : AppState W) (records : List ExecutionRecord)
      → SameRecords a b
      → AllEvidence envelope a records
      → AllEvidence envelope b records
  unfolding get
  same_records envelope a b records same =
      All-imp (HasEvidence env envelope a) (HasEvidence env envelope b) records (λ r old. record {
        evidence = old.evidence;
        stored = ap (get r.action_id) (sym same.0) ∙ old.stored;
        signed_prompt = old.signed_prompt;
        type_of = old.type_of;
        payload = old.payload;
        payload_of = old.payload_of;
        effect_of = old.effect_of;
        poi = old.poi;
        poi_of = old.poi_of;
        commits = old.commits;
        names_type = old.names_type;
        names_agent = old.names_agent;
        row = old.row;
        persisted = ap (λ db. get_action_evidence r.action_id db) (sym same.1) ∙ old.persisted;
        recorded =
            ap (λ db. find (has_action r.action_id) db.prompt_records) (sym same.1) ∙ old.recorded;
      })

  same_end :
      (envelope : SignedEnvelope) (a b : AppState W) (p q : Progress)
      → ◌≡◌ {A = Reply Progress × AppState W} (reply p, a) (reply q, b)
      → AllEvidence envelope a p.execution_records
      → AllEvidence envelope b q.execution_records
  same_end envelope a b p q e old =
      let states : a ≡ b = ground (arith, e) in
      let ends : p ≡ q = ground (arith, e) in
      subst (λ s. AllEvidence envelope s q.execution_records) states
        (subst (λ r. AllEvidence envelope a r.execution_records) ends old)

  answer-progress :
      (plans : List ActionPlan) (progress : Progress) (executed : Executed) (app after : AppState W)
      → lift (answer plans progress) app ≡ (reply executed, after)
      → ◌≡◌ {A = Reply Progress × AppState W} (reply progress, app) (reply executed.progress, after)
  unfolding answer
  answer-progress [] progress executed app after e = absurd (ground arith)
  answer-progress (plan ∷ plans) progress executed app after e = ground arith

  new_evidence :
      (envelope : SignedEnvelope) (plan : ActionPlan) (action_id agent_id : String)
      (poi : ProofOfIntent) (result : ActionResult) (eml : Option EmlFile) (ledger : Ledger)
      (app after : AppState W)
      → Adds env (evidence_for action_id envelope plan poi result eml ledger) app after
      → Commits poi envelope.prompt system_prompt ledger (obj plan.payload)
      → HasClaims poi (plan_claims plan agent_id)
      → HasEvidence env envelope after (record_of action_id plan agent_id result)
  unfolding register get takes_action get_action_evidence
  new_evidence envelope plan action_id agent_id poi result eml ledger app after adds commits
        claims =
      let e = evidence_for action_id envelope plan poi result eml ledger in
      record {
        evidence = e;
        stored = rw adds.store (lookup-insert_self action_id e app.artifact_store.evidence);
        signed_prompt = refl;
        type_of = refl;
        payload = obj plan.payload;
        payload_of = refl;
        effect_of = refl;
        poi = poi;
        poi_of = refl;
        commits = commits;
        names_type = claims.action_type;
        names_agent = (claims.agent_type, claims.agent_id);
        row = adds.row;
        persisted = rw adds.kept (
            lookup-insert_self action_id (env.json_text.dumps (serialize e))
              app.database.action_evidence);
        recorded = rw adds.rows (
            find-append_last (has_action action_id) app.database.prompt_records adds.row
              (ground (arith, adds.takes)) adds.of_action);
      }

  -- The entry of the log is the last of an action.
  log-return :
      (timestamp operation status detail : String) (pubkey_id : Option String) (v next : Progress)
      (app after : AppState W)
      → (log_operation timestamp operation status detail pubkey_id >> return v) app
        ≡ (reply next, after)
      → (v ≡ next) × (SameRecords app after)
  unfolding log_operation ◌>>=◌
  log-return timestamp operation status detail pubkey_id v next app after h =
      (ground arith, (ground arith, ground arith))

  record_action-HasEvidence :
      (at : PlanTimes) (user : Option PublicUser) (envelope : SignedEnvelope) (plan : ActionPlan)
      (agent_id : String) (poi : ProofOfIntent) (before : List EmlFile) (result : ActionResult)
      (progress next : Progress) (app after : AppState W)
      → Commits poi envelope.prompt system_prompt app.ledger (obj plan.payload)
      → HasClaims poi (plan_claims plan agent_id)
      → AllEvidence envelope app progress.execution_records
      → record_action env at user envelope plan agent_id poi before result progress app
        ≡ (reply next, after)
      → AllEvidence envelope after next.execution_records
  unfolding record_action
  record_action-HasEvidence at user envelope plan agent_id poi before result progress next app after
        commits claims old run =
      let run1 = bind-asks _ _ app run in
      let run2 = bind-asks _ _ app run1 in
      let (kept, a, keeping, run3) = bind-reply (keep_evidence env at user _ _) _ app run2 in
      let eml = written_file plan before (env.outbox app.world) in
      let action_id = action_id_of plan result at.uuid in
      let e = evidence_for action_id envelope plan poi result eml app.ledger in
      let r = record_of action_id plan agent_id result in
      let adds = keep_evidence-Adds env at user e eml app a kept keeping in
      let (made, same) = log-return _ _ _ _ _ _ next a after run3 in
      let new =
        new_evidence envelope plan action_id agent_id poi result eml app.ledger app a adds commits
          claims in
      let both =
        All-append (HasEvidence env envelope a) progress.execution_records (r ∷ [])
          (All-imp (HasEvidence env envelope app) (HasEvidence env envelope a)
            progress.execution_records
            (λ old_record. Adds-HasEvidence_old env e envelope app a old_record adds) old)
          (new, tt) in
      subst (λ p. AllEvidence envelope after p.execution_records) made
        (same_records envelope a after (progress.execution_records ++ r ∷ []) same both)

  run_completed-HasEvidence :
      (at : PlanTimes) (user : Option PublicUser) (envelope : SignedEnvelope) (plan : ActionPlan)
      (progress next : Progress) (app after : AppState W)
      → AllEvidence envelope app progress.execution_records
      → run_completed env at user envelope plan progress app ≡ (reply next, after)
      → AllEvidence envelope after next.execution_records
  unfolding run_completed
  run_completed-HasEvidence at user envelope plan progress next app after old run =
      let (done, a, entries, run1) = bind-reply (append_entries env at envelope plan) _ app run in
      let (agent, got, run2) = bind-lift (env.get plan.agent_type) _ a run1 in
      let (key, loaded, run3) =
        bind-lift
          (env.load_agent_keypair (text_or plan.agent_id (text_append plan.agent_type "-agent"))) _
          a run2 in
      let (registered, b, registering, run4) =
        bind-reply (register_agent_key env at agent.agent_id key) _ a run3 in
      let agent_id = text_or plan.agent_id agent.agent_id in
      let run5 = bind-asks (λ s. s.ledger) _ b run4 in
      let (poi, signed, run6) =
        bind-lift (plan_poi env at envelope plan agent_id key b.ledger) _ b run5 in
      let run7 = bind-asks (λ s. env.outbox s.world) _ b run6 in
      let (result, d, running, run8) = bind-reply (run_agent env agent plan poi) _ b run7 in
      let entered = append_entries-SameRecords env at envelope plan app a done entries in
      let keyed =
        register_agent_key-SameRecords env at agent.agent_id key a b registered registering in
      let ran = run_agent-SameRecords env agent plan poi b d result running in
      let same : SameRecords app d =
        (entered.0 ∙ keyed.0 ∙ ran.0.0, entered.1 ∙ keyed.1 ∙ ran.0.1) in
      record_action-HasEvidence at user envelope plan agent_id poi (env.outbox b.world) result
        progress next d after
        (subst (λ ledger. Commits poi envelope.prompt system_prompt ledger (obj plan.payload)) ran.1
          (plan_poi-Commits env at envelope plan agent_id key b.ledger poi signed))
        (plan_poi-HasClaims env at envelope plan agent_id key b.ledger poi signed)
        (same_records envelope app d progress.execution_records same old) run8

  run_plan-HasEvidence :
      (at : PlanTimes) (user : Option PublicUser) (envelope : SignedEnvelope) (plan : ActionPlan)
      (progress next : Progress) (app after : AppState W)
      → AllEvidence envelope app progress.execution_records
      → run_plan env at user envelope plan progress app ≡ (reply next, after)
      → AllEvidence envelope after next.execution_records
  unfolding run_plan
  run_plan-HasEvidence at user envelope plan progress next app after old run =
      run_completed-HasEvidence at user envelope (completed_plan plan progress.previous_result)
        progress next app after old (bind-refuse_if _ _ _ _ app run)

  run_plans-HasEvidence :
      (at : ℕ → PlanTimes) (n : ℕ) (user : Option PublicUser) (envelope : SignedEnvelope)
      (plans : List ActionPlan) (progress last : Progress) (app after : AppState W)
      → AllEvidence envelope app progress.execution_records
      → run_plans env at n user envelope plans progress app ≡ (reply last, after)
      → AllEvidence envelope after last.execution_records
  unfolding run_plans
  run_plans-HasEvidence at n user envelope [] progress last app after old run =
      same_end envelope app after progress last run old
  run_plans-HasEvidence at n user envelope (plan ∷ plans) progress last app after old run =
      let first = run_plan env (at n) user envelope plan progress app in
      elim (Reply-cases first.0) [
        | inr bad ↦ absurd (ground arith)
        | inl (next, good) ↦
            let evident =
              run_plan-HasEvidence (at n) user envelope plan progress next app first.1 old
                (ground (arith, good)) in
            elim (Bool-cases (last_succeeded next.previous_result)) [
              | inl succeeded ↦
                  run_plans-HasEvidence at (n + 1) user envelope plans next last first.1 after
                    evident (ground (arith, run, good, succeeded))
              | inr failed ↦
                  same_end envelope first.1 after next last (ground (arith, run, good, failed))
                    evident
            ]
      ]

  -- When the endpoint answers, every action of its answer has evidence, also where an action failed and
  -- ended the plans: it is in memory and in the database, with the envelope, the action's type, payload
  -- and observed effect and a proof. The proof names the action's type and its agent, and it has the
  -- digests of the envelope's prompt, of the system prompt and of the payload and the root of the ledger.
  -- The database has a record of the action.
  pub execute_routed_agent-HasEvidence :
      (calendar : Calendar) (message_of : Error → String) (at : Clocks) (plan_times : ℕ → PlanTimes)
      (authorization : String) (envelope : SignedEnvelope) (executed : Executed)
      (app after : AppState W)
      → execute_routed_agent env calendar message_of at plan_times authorization envelope app
        ≡ (reply executed, after)
      → AllEvidence envelope after executed.progress.execution_records
  unfolding execute_routed_agent execute_admitted
  execute_routed_agent-HasEvidence calendar message_of at plan_times authorization envelope executed
        app after run =
      let (user, a, checked, run1) =
        bind-reply (match_user calendar at authorization envelope) _ app run in
      let (admitted, b, admitting, run2) = bind-reply (admit calendar at envelope _) _ a run1 in
      let run3 = bind-refuse_if _ _ _ _ b run2 in
      let (plans, d, planned, run4) =
        bind-reply (catching is_lookup_or_value_error message_of 422 _) _ b run3 in
      let run5 = bind-asks _ _ d run4 in
      let run6 = bind-refuse_if _ _ _ _ d run5 in
      let (progress, e, running, run7) =
        bind-reply (run_plans env plan_times 0 user envelope plans nothing_done) _ d run6 in
      same_end envelope e after progress executed.progress
        (answer-progress plans progress executed e after run7)
        (run_plans-HasEvidence plan_times 0 user envelope plans nothing_done progress d e tt
          running)
