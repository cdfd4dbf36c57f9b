-- ===== src/Agents/FileAgent.antt =====
-- aor/agents/file.py: the execution of the file agent's plans. The resolution of paths and the codecs
-- are the parameter `Platform`, with hashlib's SHA-256, `repr` and difflib; planning is not modelled.
pub mod Diff
pub mod Disk
pub mod Sandbox
mod Tests
use agent_of_record.Common.{
  ℕ, String, Bool, true, false, not, ◌&&◌, Option, none, some, List, [], ◌∷◌, ◌++◌, if◌then◌else◌,
  ◌==◌, nat_eq, string_eq, list_eq, option_eq, agent_error, unicode_error, Result, ok, err,
  raise_if, or_raise,
}
use Prim.Native.Char.{Char, code}
use Prim.Native.String.{◌++◌ as text_append}
use agent_of_record.ActionExecutor.SmtpAction.{utf8}
use agent_of_record.Agents.FileAgent.Diff.{apply_unified_diff}
use agent_of_record.Agents.FileAgent.Disk.{
  FilePath, FileSystem, M, ◌>>=◌, ◌>>◌, lift, return, asks, exists, is_file, is_dir, parent,
  read_bytes, write_bytes, make_dirs, unlink, replace,
}
use agent_of_record.Agents.Plan.{ActionPlan, ActionResult, failure, plan_error, required_string}
use agent_of_record.Common.Text.{split_lines, join}
use agent_of_record.CryptoCore.{Crypto, Bytes, hash_payload, hash_sha3_256}
use agent_of_record.CryptoCore.Hex.{hex}
use agent_of_record.Json.{Json, Fields, str, obj, opt_str, field, end, get_field}
use agent_of_record.PoiGenerator.Models.{ProofOfIntent}

pub record Platform : Type 0 where
  -- `(workspace_dir / relative_path).resolve()`, where the operating system follows links
  pub resolve : FilePath → String → FilePath
  -- `str(path)`
  pub path_text : FilePath → String
  -- `none` is a `UnicodeDecodeError`
  pub decode_utf8 : Bytes → Option String
  -- the decimal digits of Unicode
  pub digit : Char → Option ℕ
  pub sha256 : String → String
  pub repr : Option String → String
  -- `difflib.unified_diff` with one name for both files
  pub unified_diff : List String → List String → String → List String

pub record FileAgent : Type 0 where
  pub workspace_dir : FilePath
  pub backup_dir : FilePath
  pub agent_id : String

abbrev pub capabilities : List String
capabilities = "file.read" ∷ "file.create" ∷ "file.update" ∷ "file.rename" ∷ "file.delete" ∷ []

-- `os.path.commonpath((workspace, candidate)) == workspace`
unfoldable pub is_inside : FilePath → FilePath → Bool
is_inside [] path = true
is_inside (name ∷ names) [] = false
is_inside (name ∷ names) (other ∷ others) = name == other && is_inside names others

-- "\r\n" and "\r" are read as "\n"; the flag says that a "\r" stands before.
unfoldable pub universal_newlines : Bool → String → String
universal_newlines after_cr String.[] = String.[]
universal_newlines after_cr (String.◌∷◌ c s) =
    let plain = universal_newlines false s in
    if code c == 13
    then String.◌∷◌ "\n" (universal_newlines true s)
    else if code c == 10 && after_cr
    then plain
    else String.◌∷◌ c plain

module _ ⦃c : Crypto⦄ ⦃os : Platform⦄ where
  unfoldable pub digest : String → String
  digest text = hex (hash_sha3_256 (utf8 text))

  -- `path.read_text(encoding="utf-8")`
  unfoldable pub read_text : FilePath → M String
  unfolding universal_newlines
  read_text path = do
    bytes ← read_bytes path
    text ← lift (or_raise (os.decode_utf8 bytes) unicode_error)
    return (universal_newlines false text)

  unfoldable pub resolve_path : FileAgent → String → Result FilePath
  resolve_path agent relative_path =
      let candidate = os.resolve agent.workspace_dir relative_path in
      if is_inside agent.workspace_dir candidate
      then ok candidate
      else err (agent_error "path_outside_workspace")

  -- The record of a change: a diff where both are texts.
  unfoldable pub change_record : ActionPlan → FilePath → Option String → Option String → String
  change_record plan path (some before) (some after) =
      join (os.unified_diff (split_lines before) (split_lines after) (os.path_text path))
  change_record plan path before after = join (
      "action="
      ∷ plan.action_type
      ∷ "\npath="
      ∷ os.path_text path
      ∷ "\nbefore="
      ∷ os.repr before
      ∷ "\nafter="
      ∷ os.repr after
      ∷ "\n"
      ∷ [])

  unfoldable pub record_name : ActionPlan → FilePath → Option String → Option String → String
  record_name plan path before after =
      let pair = join ("(" ∷ os.repr before ∷ ", " ∷ os.repr after ∷ ")" ∷ []) in
      let material =
        join (plan.action_type ∷ ":" ∷ os.path_text path ∷ ":" ∷ os.sha256 pair ∷ []) in
      text_append (os.sha256 material) ".diff"

  unfoldable pub write_change_record :
      FileAgent → ActionPlan → FilePath → Option String → Option String → M String
  write_change_record agent plan path before after = do
    let record_path = agent.backup_dir ++ record_name plan path before after ∷ []
    write_bytes record_path (utf8 (change_record plan path before after))
    return (os.path_text record_path)

  unfoldable pub change_result : FilePath → Option String → Option String → String → ActionResult
  change_result path before_hash after_hash backup_ref = record {
    success = true;
    artifact_ref = some (os.path_text path);
    details = field "path" (str (os.path_text path)) end;
    observed_effect = field "path" (str (os.path_text path)) (
        field "before_hash" (opt_str before_hash)
          (field "after_hash" (opt_str after_hash) (field "backup_ref" (str backup_ref) end)));
  }

  unfoldable pub read_file : FilePath → M ActionResult
  unfolding read_text
  read_file path = do
    known ← asks (is_file path)
    lift (raise_if (not known) (agent_error "file_not_found"))
    content ← read_text path
    return (record {
      success = true;
      artifact_ref = some (os.path_text path);
      details = field "path" (str (os.path_text path)) (field "content" (str content) end);
      observed_effect = field "path" (str (os.path_text path)) (
          field "before_hash" (str (digest content))
            (field "after_hash" (str (digest content)) end));
    })

  unfoldable pub create_file : FileAgent → ActionPlan → FilePath → M ActionResult
  unfolding write_change_record
  create_file agent plan path = do
    taken ← asks (exists path)
    lift (raise_if taken (agent_error "file_already_exists"))
    content ← lift (required_string plan.payload "content")
    make_dirs (parent path)
    write_bytes path (utf8 content)
    backup_ref ← write_change_record agent plan path none (some content)
    return (change_result path none (some (digest content)) backup_ref)

  unfoldable pub update_file : FileAgent → ActionPlan → FilePath → M ActionResult
  unfolding read_text write_change_record
  update_file agent plan path = do
    known ← asks (is_file path)
    lift (raise_if (not known) (agent_error "file_not_found"))
    before ← read_text path
    patch ← lift (required_string plan.payload "patch")
    after ← lift (apply_unified_diff os.digit before patch)
    backup_ref ← write_change_record agent plan path (some before) (some after)
    write_bytes path (utf8 after)
    return (change_result path (some (digest before)) (some (digest after)) backup_ref)

  unfoldable pub delete_file : FileAgent → ActionPlan → FilePath → M ActionResult
  unfolding read_text write_change_record
  delete_file agent plan path = do
    lift (raise_if (not plan.confirmed) (agent_error "confirmation_required"))
    known ← asks (is_file path)
    lift (raise_if (not known) (agent_error "file_not_found"))
    before ← read_text path
    backup_ref ← write_change_record agent plan path (some before) none
    unlink path
    return (change_result path (some (digest before)) none backup_ref)

  -- From the destination on.
  unfoldable pub rename_to : FileAgent → ActionPlan → FilePath → FilePath → M ActionResult
  unfolding write_change_record
  rename_to agent plan path destination = do
    taken ← asks (exists destination)
    lift (raise_if (taken && not plan.confirmed) (agent_error "confirmation_required"))
    known ← asks (is_file path)
    lift (raise_if (not known) (agent_error "file_not_found"))
    over ← asks (is_dir destination)
    lift (raise_if (taken && over) (agent_error "destination_is_directory"))
    before ← read_bytes path
    make_dirs (parent destination)
    backup_ref ←
        write_change_record agent plan path (some (os.path_text path))
          (some (os.path_text destination))
    replace path destination
    after ← read_bytes destination
    return (record {
      success = true;
      artifact_ref = some (os.path_text destination);
      details =
          field "path" (str (os.path_text path))
            (field "destination" (str (os.path_text destination)) end);
      observed_effect = field "path" (str (os.path_text path)) (
          field "destination" (str (os.path_text destination)) (
            field "before_hash" (str (hex (hash_sha3_256 before))) (
              field "after_hash" (str (hex (hash_sha3_256 after)))
                (field "backup_ref" (str backup_ref) end))));
    })

  unfoldable pub rename_file : FileAgent → ActionPlan → FilePath → M ActionResult
  rename_file agent plan path = do
    name ← lift (required_string plan.payload "destination")
    destination ← lift (resolve_path agent name)
    rename_to agent plan path destination

  unfoldable pub execute_at : FileAgent → ActionPlan → FilePath → M ActionResult
  execute_at agent plan path =
      if plan.action_type == "file.read"
      then read_file path
      else if plan.action_type == "file.create"
      then create_file agent plan path
      else if plan.action_type == "file.update"
      then update_file agent plan path
      else if plan.action_type == "file.delete"
      then delete_file agent plan path
      else if plan.action_type == "file.rename"
      then rename_file agent plan path
      else lift (err (agent_error "unsupported_action_type"))

  unfoldable pub execute_checked : FileAgent → ActionPlan → M ActionResult
  execute_checked agent plan = do
    name ← lift (required_string plan.payload "path")
    path ← lift (resolve_path agent name)
    execute_at agent plan path

  -- `except FileAgentError`
  unfoldable pub caught : Result ActionResult → Result ActionResult
  caught (err (agent_error detail)) = ok (failure detail)
  caught outcome = outcome

  unfoldable pub is_poi_type : Option String → String → Bool
  is_poi_type none action_type = true
  is_poi_type (some claimed) action_type = claimed == action_type

  -- What follows the hash of the payload.
  unfoldable pub execute_bound : FileAgent → ActionPlan → ProofOfIntent → Bytes → M ActionResult
  unfolding is_poi_type caught
  execute_bound agent plan poi hash d =
      if not (hex hash == poi.action_payload_hash)
      then (ok (failure "action_payload_hash_mismatch"), d)
      else if not (is_poi_type poi.action_type plan.action_type)
      then (ok (failure "action_type_mismatch"), d)
      else (caught (execute_checked agent plan d).0, (execute_checked agent plan d).1)

  unfoldable pub execute : FileAgent → ActionPlan → ProofOfIntent → M ActionResult
  execute agent plan poi = elim (plan_error "file" agent.agent_id capabilities plan) [
    | some detail ↦ return (failure detail)
    | none ↦ do hash ← lift (hash_payload (obj plan.payload)); execute_bound agent plan poi hash
  ]
