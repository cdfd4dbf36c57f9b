-- ===== src/VerifierService/Server/Route/Evidence.antt =====
-- The evidence of an action, and what each call of the loop does to the evidence and the database.
use agent_of_record.Common.{
  ℕ, String, ◌≡◌, refl, ◌∙◌, ◌≢◌, inl, inr, true, Option, none, some, [], ◌∷◌, ◌++◌, arith,
  Bool-cases, nat_eq, string_eq, list_eq, option_eq, option_beq_iff, ok, >>=-eq-ok, Result-cases,
}
use agent_of_record.Common.Dict.{insert, lookup-insert_ne}
use agent_of_record.Common.Find.{find, find-append_some}
use agent_of_record.CryptoCore.{Crypto, Bytes}
use agent_of_record.Json.{Json, obj, str, one_field}
use agent_of_record.LedgerCore.{Ledger, append}
use agent_of_record.PoiGenerator.Models.{ProofOfIntent}
use agent_of_record.PoiGenerator.Poi.{build_poi}
use agent_of_record.PoiGenerator.Poi.Commitment.{
  Commits, build_poi-Commits, sign_poi-Commits, HasClaims, build_poi-HasClaims, sign_poi-HasClaims,
}
use agent_of_record.Agents.Plan.{ActionPlan, ActionResult}
use agent_of_record.VerificationPortal.Models.{ActionEvidence, register, get}
use agent_of_record.VerifierService.Database.{
  Hashlib, PublicUser, SqliteDatabase, PromptRow, has_action, takes_action, save_prompt,
  save_action_evidence, get_action_evidence,
}
use agent_of_record.VerificationPortal.EvidenceStore.{serialize}
use agent_of_record.VerificationPortal.EvidenceStore.Store.{register_durably}
use agent_of_record.VerifierService.Models.{SignedEnvelope}
use agent_of_record.VerifierService.Server.{AppState, reply}
use agent_of_record.VerifierService.Server.Replies.{bind-reply}
use agent_of_record.VerifierService.Server.Route.{
  EmlFile, AgentCalls, Agents, PlanTimes, ExecutionRecord, system_prompt, record_user, path_of,
  plan_claims,
}
use agent_of_record.VerifierService.Server.Route.Execute.{
  append_entry, append_entries, register_agent_key, plan_poi, run_agent, keep_evidence,
}

-- A prompt is saved under an action that no row has, in one new row.
save_prompt-takes :
    (envelope : SignedEnvelope) (user_id action_id : String) (eml_path : Option String) (now : ℕ)
    (db : SqliteDatabase) (id : ℕ) (after : SqliteDatabase)
    → save_prompt envelope user_id (some action_id) eml_path none now db ≡ ok (id, after)
    → (row : PromptRow) × (has_action action_id row ≡ true)
      × (takes_action (some action_id) db.prompt_records ≡ true)
      × (after.prompt_records ≡ db.prompt_records ++ row ∷ [])
      × (after.action_evidence ≡ db.action_evidence)
unfolding save_prompt
save_prompt-takes envelope user_id action_id eml_path now db id after h =
    elim (Bool-cases (takes_action (some action_id) db.prompt_records)) [
      | inr taken ↦ absurd (ground arith)
      | inl free ↦ (
        record {
          id = db.next_prompt_id;
          user_id = user_id;
          session_id = envelope.session_id;
          prompt = envelope.prompt;
          envelope = envelope;
          action_id = some action_id;
          eml_path = eml_path;
          verification = none;
          created_at = now;
        },
        (option_beq_iff (some action_id) (some action_id)).1 refl,
        free,
        ground arith,
        ground arith,
      )
    ]

-- What the calls before the evidence leave of the evidence and the database.
abbrev pub SameRecords : {W : Type 0} → AppState W → AppState W → Type 0
SameRecords a b = (a.artifact_store ≡ b.artifact_store) × (a.database ≡ b.database)

module _ {W : Type 0} ⦃h : Hashlib⦄ ⦃c : Crypto⦄ (env : Agents W) where
  -- The evidence of an executed action: it is stored in memory and in the database under the action's
  -- identifier, with the envelope, the action's type, payload and observed effect, and with a proof that
  -- has the digests of the envelope's prompt, of the system prompt and of the payload and the root of the
  -- ledger, and that names the action's type and its agent; and the database has a record of the action.
  pub record HasEvidence (envelope : SignedEnvelope) (app : AppState W) (r : ExecutionRecord)
      : Type 0 where
    pub evidence : ActionEvidence
    pub stored : get r.action_id app.artifact_store ≡ some evidence
    pub signed_prompt : evidence.user_envelope ≡ envelope
    pub type_of : evidence.action_type ≡ some r.action_type
    pub payload : Json
    pub payload_of : evidence.action_payload ≡ some payload
    pub effect_of : evidence.observed_effect ≡ some (obj r.observed_effect)
    pub poi : ProofOfIntent
    pub poi_of : evidence.poi ≡ some poi
    pub commits : Commits poi envelope.prompt system_prompt evidence.ledger payload
    pub names_type : poi.action_type ≡ some r.action_type
    pub names_agent : (poi.agent_type ≡ some r.agent_type) × (poi.agent_id ≡ some r.agent_id)
    pub row : PromptRow
    pub persisted :
        get_action_evidence r.action_id app.database
        ≡ some (env.json_text.dumps (serialize evidence))
    pub recorded : find (has_action r.action_id) app.database.prompt_records ≡ some row

  pub plan_poi-Commits :
      (at : PlanTimes) (envelope : SignedEnvelope) (plan : ActionPlan) (agent_id : String)
      (key : Bytes) (ledger : Ledger) (poi : ProofOfIntent)
      → plan_poi env at envelope plan agent_id key ledger ≡ ok poi
      → Commits poi envelope.prompt system_prompt ledger (obj plan.payload)
  unfolding plan_poi
  plan_poi-Commits at envelope plan agent_id key ledger poi e =
      let claims = plan_claims plan agent_id in
      let (built, p, signing) =
        >>=-eq-ok
          (build_poi envelope.prompt system_prompt ledger (obj plan.payload)
            "deterministic-agent-router" claims at.poi_timestamp at.nonce)
          _ e in
      sign_poi-Commits built poi key envelope.prompt system_prompt ledger (obj plan.payload) signing
        (build_poi-Commits envelope.prompt system_prompt ledger (obj plan.payload)
          "deterministic-agent-router" claims at.poi_timestamp at.nonce built p)

  pub plan_poi-HasClaims :
      (at : PlanTimes) (envelope : SignedEnvelope) (plan : ActionPlan) (agent_id : String)
      (key : Bytes) (ledger : Ledger) (poi : ProofOfIntent)
      → plan_poi env at envelope plan agent_id key ledger ≡ ok poi
      → HasClaims poi (plan_claims plan agent_id)
  unfolding plan_poi
  plan_poi-HasClaims at envelope plan agent_id key ledger poi e =
      let claims = plan_claims plan agent_id in
      let (built, p, signing) =
        >>=-eq-ok
          (build_poi envelope.prompt system_prompt ledger (obj plan.payload)
            "deterministic-agent-router" claims at.poi_timestamp at.nonce)
          _ e in
      sign_poi-HasClaims built poi key claims signing (
        build_poi-HasClaims envelope.prompt system_prompt ledger (obj plan.payload)
          "deterministic-agent-router" claims at.poi_timestamp at.nonce built p)

  -- The new state has the evidence `e` and its row, and nothing else of these is new.
  pub record Adds (e : ActionEvidence) (app after : AppState W) : Type 0 where
    pub row : PromptRow
    pub of_action : has_action e.action_id row ≡ true
    pub takes : takes_action (some e.action_id) app.database.prompt_records ≡ true
    pub store : after.artifact_store ≡ register e app.artifact_store
    pub kept :
        after.database.action_evidence
        ≡ insert e.action_id (env.json_text.dumps (serialize e)) app.database.action_evidence
    pub rows : after.database.prompt_records ≡ app.database.prompt_records ++ row ∷ []

  pub Adds-HasEvidence_old :
      (e : ActionEvidence) (envelope : SignedEnvelope) (app after : AppState W)
      (r : ExecutionRecord)
      → Adds e app after
      → HasEvidence envelope app r
      → HasEvidence envelope after r
  unfolding register get takes_action get_action_evidence
  Adds-HasEvidence_old e envelope app after r adds old =
      let other : e.action_id ≢ r.action_id =
        λ same. absurd (ground (arith, adds.takes, old.recorded, same)) in
      record {
        evidence = old.evidence;
        stored =
            (rw adds.store
              (lookup-insert_ne e.action_id r.action_id e app.artifact_store.evidence other))
            ∙ old.stored;
        signed_prompt = old.signed_prompt;
        type_of = old.type_of;
        payload = old.payload;
        payload_of = old.payload_of;
        effect_of = old.effect_of;
        poi = old.poi;
        poi_of = old.poi_of;
        commits = old.commits;
        names_type = old.names_type;
        names_agent = old.names_agent;
        row = old.row;
        persisted =
            (rw adds.kept (
              lookup-insert_ne e.action_id r.action_id (env.json_text.dumps (serialize e))
                app.database.action_evidence other))
            ∙ old.persisted;
        recorded = rw adds.rows (
            find-append_some (has_action r.action_id) app.database.prompt_records (adds.row ∷ [])
              old.row old.recorded);
      }

  pub keep_evidence-Adds :
      (at : PlanTimes) (user : Option PublicUser) (e : ActionEvidence) (eml : Option EmlFile)
      (app after : AppState W) (done : Unit {0})
      → keep_evidence env at user e eml app ≡ (reply done, after)
      → Adds e app after
  unfolding keep_evidence register_durably save_action_evidence
  keep_evidence-Adds at user e eml app after done h =
      let db = (register_durably env.json_text e (app.artifact_store, app.database)).1 in
      let kept =
        save_prompt e.user_envelope (record_user user e.user_envelope) (some e.action_id)
          (path_of eml) none at.saved db in
      elim (Result-cases kept) [
        | inl (x, bad) ↦ absurd (ground arith)
        | inr ((id, database), good) ↦
            let (row, of_action, takes, rows, evidence) =
              save_prompt-takes e.user_envelope (record_user user e.user_envelope) e.action_id
                (path_of eml) at.saved db id database good in
            record {
              row = row;
              of_action = of_action;
              takes = takes;
              store = ground arith;
              kept = ground (arith, evidence);
              rows = ground (arith, rows);
            }
      ]

  append_entry-SameRecords :
      (entry_type : String) (content : Json) (timestamp : String) (app after : AppState W)
      (done : Unit {0})
      → append_entry env entry_type content timestamp app ≡ (reply done, after)
      → SameRecords app after
  unfolding append_entry
  append_entry-SameRecords entry_type content timestamp app after done h =
      elim (Result-cases (append entry_type content timestamp app.ledger)) [
        | inl (e, bad) ↦ absurd (ground arith)
        | inr ((entry, ledger), good) ↦ (ground arith, ground arith)
      ]

  pub append_entries-SameRecords :
      (at : PlanTimes) (envelope : SignedEnvelope) (plan : ActionPlan) (app after : AppState W)
      (done : Unit {0})
      → append_entries env at envelope plan app ≡ (reply done, after)
      → SameRecords app after
  unfolding append_entries
  append_entries-SameRecords at envelope plan app after done h =
      let (done', a, first, h') =
        bind-reply
          (append_entry env "system_prompt" (one_field "text" (str system_prompt)) at.system_entry)
          _ app h in
      let (done'', b, second, third) =
        bind-reply
          (append_entry env "user_prompt" (one_field "text" (str envelope.prompt)) at.user_entry) _
          a h' in
      let x = append_entry-SameRecords _ _ _ app a done' first in
      let y = append_entry-SameRecords _ _ _ a b done'' second in
      let z = append_entry-SameRecords _ _ _ b after done third in
      (x.0 ∙ y.0 ∙ z.0, x.1 ∙ y.1 ∙ z.1)

  pub register_agent_key-SameRecords :
      (at : PlanTimes) (agent_id : String) (key : Bytes) (app after : AppState W) (done : Unit {0})
      → register_agent_key env at agent_id key app ≡ (reply done, after)
      → SameRecords app after
  unfolding register_agent_key
  register_agent_key-SameRecords at agent_id key app after done h = (ground arith, ground arith)

  pub run_agent-SameRecords :
      (agent : AgentCalls W) (plan : ActionPlan) (poi : ProofOfIntent) (app after : AppState W)
      (result : ActionResult)
      → run_agent env agent plan poi app ≡ (reply result, after)
      → (SameRecords app after) × (app.ledger ≡ after.ledger)
  unfolding run_agent
  run_agent-SameRecords agent plan poi app after result h =
      ((ground arith, ground arith), ground arith)
