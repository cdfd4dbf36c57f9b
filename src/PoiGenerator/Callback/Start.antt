-- ===== src/PoiGenerator/Callback/Start.antt =====
-- What a tool call that starts has left behind.
use agent_of_record.Common.{
  String, ◌≡◌, sym, ap, ◌⊎◌, inl, inr, false, Option, some, arith, Option-cases, nat_eq, string_eq,
  list_eq, option_eq, Result, ok, err, >>=-eq-ok, is_ok, Result-cases,
}
use mathlib.Core.Path.{subst}
use agent_of_record.Common.Dict.{lookup, lookup-insert_self}
use agent_of_record.CryptoCore.{Crypto, Bytes}
use agent_of_record.Json.{Json, Fields}
use agent_of_record.LedgerCore.{LedgerEntry, Ledger, append}
use agent_of_record.PoiGenerator.Models.{ProofOfIntent}
use agent_of_record.PoiGenerator.Poi.{no_claims, build_poi}
use agent_of_record.PoiGenerator.Poi.Commitment.{Commits, build_poi-Commits, sign_poi-Commits}
use agent_of_record.PoiGenerator.Callback.{
  VerifiedSessionContext, State, Readings, get_poi, action_payload, tool_name, tool_call,
  find_session, missing_context, make_poi, record_call, start_with, on_tool_start,
}

module _ ⦃c : Crypto⦄ (loads : String → Option Json) where
  -- A call that has started: its session, the proof that is kept, which commits to the ledger before
  -- the call and to the payload, and the ledger with the call at its end.
  pub record HasStarted (at : Readings) (serialized : Fields) (input_str run_id : String)
      (session_id : Option Json) (state after : State) : Type 0 where
    pub context : VerifiedSessionContext
    pub verified : find_session session_id state.handler ≡ some context
    pub ledger : Ledger
    pub held : lookup context.ledger state.ledgers ≡ some ledger
    pub poi : ProofOfIntent
    pub commits :
        Commits poi context.user_prompt context.system_prompt ledger
          (action_payload loads input_str)
    pub kept : get_poi run_id after.handler ≡ ok poi
    pub entry : LedgerEntry
    pub grown : Ledger
    pub appended :
        append "tool_call"
          (tool_call (tool_name serialized) (action_payload loads input_str) run_id)
          at.entry_timestamp
          ledger
        ≡ ok (entry, grown)
    pub stored : lookup context.ledger after.ledgers ≡ some grown

  -- A call has started, or it has raised and the ledgers are as they were.
  abbrev Outcome :
      Readings → Fields → String → String → Option Json → State → Result (Unit {0}) × State → Type 0
  Outcome at serialized input_str run_id session_id state run =
      ((run.0 ≡ ok tt) × HasStarted at serialized input_str run_id session_id state run.1)
      ⊎ ((is_ok run.0 ≡ false) × (run.1.ledgers ≡ state.ledgers))

  make_poi-Commits :
      (at : Readings) (context : VerifiedSessionContext) (key : Bytes) (ledger : Ledger)
      (payload : Json) (poi : ProofOfIntent)
      → make_poi loads at context key ledger payload ≡ ok poi
      → Commits poi context.user_prompt context.system_prompt ledger payload
  unfolding make_poi
  make_poi-Commits at context key ledger payload poi h =
      let (built, e, signing) =
        >>=-eq-ok
          (build_poi context.user_prompt context.system_prompt ledger payload context.model_id
            no_claims at.poi_timestamp at.nonce)
          _ h in
      sign_poi-Commits built poi key context.user_prompt context.system_prompt ledger payload
        signing
        (build_poi-Commits context.user_prompt context.system_prompt ledger payload context.model_id
          no_claims at.poi_timestamp at.nonce built e)

  start_with-Outcome :
      (at : Readings) (serialized : Fields) (input_str run_id : String) (session_id : Option Json)
      (state : State) (context : VerifiedSessionContext) (ledger : Ledger)
      → find_session session_id state.handler ≡ some context
      → lookup context.ledger state.ledgers ≡ some ledger
      → Outcome at serialized input_str run_id session_id state (
          start_with loads at serialized
            (action_payload loads input_str)
            run_id
            context
            ledger
            state)
  unfolding start_with record_call get_poi
  start_with-Outcome at serialized input_str run_id session_id state context ledger verified held =
      let payload = action_payload loads input_str in
      elim (Result-cases
        (make_poi loads at context state.handler.agent_private_key ledger payload)) [
          | inl (e, bad) ↦ inr (ground arith, ground arith)
          | inr (poi, made) ↦
              elim (Result-cases (
                append "tool_call" (tool_call (tool_name serialized) payload run_id)
                  at.entry_timestamp ledger)) [
                    | inl (e, bad) ↦ inr (ground arith, ground arith)
                    | inr ((entry, grown), appended) ↦ inl (
                      ground arith,
                      record {
                        context = context;
                        verified = verified;
                        ledger = ledger;
                        held = held;
                        poi = poi;
                        commits =
                            make_poi-Commits at context state.handler.agent_private_key ledger
                              payload poi made;
                        kept =
                            ground
                              (arith, lookup-insert_self run_id poi state.handler.pois_by_run_id);
                        entry = entry;
                        grown = grown;
                        appended = appended;
                        stored =
                            ground (arith, lookup-insert_self context.ledger grown state.ledgers);
                      },
                    )
                  ]
        ]

  -- How a call begins: it is blocked, or it goes on with a session and its ledger.
  on_tool_start-cases :
      (at : Readings) (serialized : Fields) (input_str run_id : String) (session_id : Option Json)
      (state : State)
      → (on_tool_start loads at serialized input_str run_id session_id state
          ≡ (err missing_context, state))
        ⊎ ((context : VerifiedSessionContext) × (ledger : Ledger) × (find_session session_id
                state.handler
              ≡ some context)
            × (lookup context.ledger state.ledgers ≡ some ledger)
            × (on_tool_start loads at serialized input_str run_id session_id state
                ≡ start_with loads at serialized
                    (action_payload loads input_str)
                    run_id
                    context
                    ledger
                    state))
  unfolding on_tool_start
  on_tool_start-cases at serialized input_str run_id session_id state =
      elim (Option-cases (find_session session_id state.handler)) [
        | inl missing ↦ inl (ground arith)
        | inr (context, verified) ↦ elim (Option-cases (lookup context.ledger state.ledgers)) [
          | inl missing ↦ inl (ground arith)
          | inr (ledger, held) ↦ inr (context, ledger, verified, held, ground arith)
        ]
      ]

  -- `on_tool_start` returns only for a session that is registered, and then a proof of intent that
  -- commits to the session's prompts, to the payload and to the ledger before the call is kept under
  -- the run, and the call is appended to that session's ledger; in every other case it raises, and no
  -- ledger has changed.
  pub on_tool_start_outcome :
      (at : Readings) (serialized : Fields) (input_str run_id : String) (session_id : Option Json)
      (state : State)
      → (((on_tool_start loads at serialized input_str run_id session_id state).0 ≡ ok tt)
          × HasStarted at serialized input_str run_id session_id state
              (on_tool_start loads at serialized input_str run_id session_id state).1)
        ⊎ ((is_ok (on_tool_start loads at serialized input_str run_id session_id state).0 ≡ false)
            × ((on_tool_start loads at serialized input_str run_id session_id state).1.ledgers
                ≡ state.ledgers))
  on_tool_start_outcome at serialized input_str run_id session_id state =
      elim (on_tool_start-cases at serialized input_str run_id session_id state) [
        | inl blocked ↦ inr (ap (λ r. is_ok r.0) blocked, ap (λ r. r.1.ledgers) blocked)
        | inr (context, ledger, verified, held, run) ↦
            subst (Outcome at serialized input_str run_id session_id state) (sym run) (
              start_with-Outcome at serialized input_str run_id session_id state context ledger
                verified held)
      ]
