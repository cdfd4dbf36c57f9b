-- ===== src/VerificationPortal/EvidenceStore/Store.antt =====
-- verification_portal/backend/evidence_store.py: the store over memory and database.
use agent_of_record.Common.{
  String, Option, none, some, nat_eq, string_eq, list_eq, option_eq, value_error, Result, ok, err,
  ◌>>=◌, or_raise,
}
use agent_of_record.Common.Dict.{insert}
use agent_of_record.VerificationPortal.Models.{ActionEvidence, ActionEvidenceStore, register, get}
use agent_of_record.VerifierService.Database.{
  SqliteDatabase, save_action_evidence, get_action_evidence,
}
use agent_of_record.VerificationPortal.EvidenceStore.{JsonText, serialize}
use agent_of_record.VerificationPortal.EvidenceStore.Reading.{deserialize}

-- The memory and the database of the store with a `persistence`.
abbrev pub Stored : Type 0
Stored = ActionEvidenceStore × SqliteDatabase

module _ (text : JsonText) where
  unfoldable pub register_durably : ActionEvidence → Stored → Stored
  register_durably e (store, db) =
      (register e store, save_action_evidence e.action_id (text.dumps (serialize e)) db)

  -- What was not in memory is read from the database, and is in memory then.
  unfoldable pub get_durably : String → Stored → Result (Option ActionEvidence) × Stored
  get_durably action_id (store, db) = elim (get action_id store) [
    | some e ↦ (ok (some e), (store, db))
    | none ↦ elim (get_action_evidence action_id db) [
      | none ↦ (ok none, (store, db))
      | some payload ↦
          elim (do
            v ← or_raise (text.loads payload) (value_error "invalid JSON")
            deserialize action_id v) [
              | err e ↦ (err e, (store, db))
              | ok e ↦ (ok (some e), (record { evidence = insert action_id e store.evidence }, db))
            ]
    ]
  ]
