-- ===== src/VerifierService/Database/Calls.antt =====
-- A history of the database: the calls that change it, each one step under the lock. A call that
-- raises is rolled back.
use agent_of_record.Common.{
  ℕ, String, Option, List, [], ◌∷◌, nat_eq, string_eq, list_eq, option_eq, Result, ok, err,
}
use agent_of_record.Json.{Json}
use agent_of_record.VerifierService.Models.{SignedEnvelope}
use agent_of_record.VerifierService.Database.{
  Hashlib, SqliteDatabase, Fresh, create_user, create_session, revoke_session, save_prompt,
  update_prompt_action, update_verification, save_action_evidence,
}

pub data Call : Type 0 where
  creates_user : String → String → String → Fresh → Call
  creates_session : String → ℕ → String → ℕ → Call
  revokes_session : Option String → Call
  saves_prompt : SignedEnvelope → String → Option String → Option String → Option Json → ℕ → Call
  updates_prompt_action : String → String → Option Json → Call
  updates_verification : String → Json → Call
  saves_action_evidence : String → String → Call

abbrev pub left_by : {A : Type 0} → Result (A × SqliteDatabase) → SqliteDatabase → SqliteDatabase
left_by (err e) db = db
left_by (ok (a, after)) db = after

module _ ⦃h : Hashlib⦄ where
  unfoldable pub step : Call → SqliteDatabase → SqliteDatabase
  step (creates_user name email password at) db = left_by (create_user name email password at db) db
  step (creates_session user_id ttl_days token now) db =
      left_by (create_session user_id ttl_days token now db) db
  step (revokes_session token) db = revoke_session token db
  step (saves_prompt envelope user_id action_id eml_path verification now) db =
      left_by (save_prompt envelope user_id action_id eml_path verification now db) db
  step (updates_prompt_action action_id eml_path verification) db =
      update_prompt_action action_id eml_path verification db
  step (updates_verification action_id verification) db =
      update_verification action_id verification db
  step (saves_action_evidence action_id evidence) db = save_action_evidence action_id evidence db

  unfoldable pub run : List Call → SqliteDatabase → SqliteDatabase
  run [] db = db
  run (call ∷ calls) db = run calls (step call db)
