-- ===== src/Agents/FileAgent/Tests.antt =====
-- The file agent on a small disk.
use agent_of_record.Common.{
  ℕ, ◌-◌, String, ◌≡◌, refl, true, false, ◌&&◌, Option, none, some, [], ◌∷◌, ◌++◌, leb,
  if◌then◌else◌, ◌==◌, nat_eq, string_eq, list_eq, option_eq, list_beq, Result, ok, err,
}
use Prim.Native.Char.{Char, code}
use agent_of_record.Toy.{toy}
use agent_of_record.CryptoCore.{Bytes, hash_payload}
use agent_of_record.CryptoCore.Hex.{hex, hex_digit}
use agent_of_record.Common.Dict.{lookup, insert}
use agent_of_record.Common.Text.{split_lines, join, starts_with}
use agent_of_record.ActionExecutor.SmtpAction.{utf8}
use agent_of_record.Json.{str, obj, field, end, get_field}
use agent_of_record.PoiGenerator.Models.{ProofOfIntent}
use agent_of_record.Agents.Plan.{ActionPlan, failure, plan_error, required_string}
use agent_of_record.Agents.FileAgent.Diff.{
  hunks, hunk_start, apply_line, apply_hunk_lines, apply_hunk, apply_hunks, apply_lines,
  apply_unified_diff,
}
use agent_of_record.Agents.FileAgent.Diff.Applies.{deleted, added, Part, apply_unified_diff-printed}
use agent_of_record.Agents.FileAgent.Disk.{
  FileSystem, directory, file, exists, is_dir, parent, write_bytes, make_dirs, content,
}
use agent_of_record.Agents.FileAgent.{
  Platform, FileAgent, is_inside, resolve_path, record_name, write_change_record, create_file,
  execute_at, execute_checked, execute_bound, execute,
}
use agent_of_record.Agents.FileAgent.Sandbox.{execute_sandboxed}

abbrev digit : Char → Option ℕ
digit c = if leb 48 (code c) && leb (code c) 57 then some (code c - 48) else none

abbrev second_line : Part
second_line = record {
  skipped = "a\n" ∷ [];
  header = "@@ -2,1 +2,1 @@\n";
  edits = deleted "b\n" ∷ added "B\n" ∷ [];
}

lines_of_old : split_lines "a\nb\nc\n" ≡ "a\n" ∷ "b\n" ∷ "c\n" ∷ []
unfolding split_lines
lines_of_old = refl

lines_of_patch :
    split_lines "--- x\n@@ -2,1 +2,1 @@\n-b\n+B\n"
    ≡ "--- x\n" ∷ "@@ -2,1 +2,1 @@\n" ∷ "-b\n" ∷ "+B\n" ∷ []
unfolding split_lines
lines_of_patch = refl

plain_line : starts_with "@@ " "--- x\n" ≡ false
unfolding starts_with
plain_line = refl

header_line : starts_with "@@ " "@@ -2,1 +2,1 @@\n" ≡ true
unfolding starts_with
header_line = refl

header_start : hunk_start digit "@@ -2,1 +2,1 @@\n" ≡ ok 2
unfolding hunk_start
header_start = refl

apply_unified_diff-printed_example :
    apply_unified_diff digit "a\nb\nc\n" "--- x\n@@ -2,1 +2,1 @@\n-b\n+B\n"
    ≡ ok (join ("a\n" ∷ "B\n" ∷ "c\n" ∷ []))
apply_unified_diff-printed_example =
    apply_unified_diff-printed digit "a\nb\nc\n" "--- x\n@@ -2,1 +2,1 @@\n-b\n+B\n" ("--- x\n" ∷ [])
      second_line [] ("c\n" ∷ []) lines_of_old lines_of_patch (plain_line, tt)
      (header_line, header_start, tt)

-- A hunk that says that it starts at line 0 puts its lines before the last one.
added_at_zero : apply_unified_diff digit "a\nb\nc\n" "@@ -0,0 +1,1 @@\n+B\n" ≡ ok "a\nb\nB\nc\n"
unfolding apply_unified_diff split_lines apply_lines hunks apply_hunks apply_hunk apply_hunk_lines
    apply_line hunk_start
added_at_zero = refl

-- The ranges are not compared: a second hunk that goes back repeats lines.
repeated_lines :
    apply_unified_diff digit "a\nb\n" "@@ -2 +2 @@\n b\n@@ -1 +1 @@\n a\n" ≡ ok "a\nb\na\nb\n"
unfolding apply_unified_diff split_lines apply_lines hunks apply_hunks apply_hunk apply_hunk_lines
    apply_line hunk_start
repeated_lines = refl

instance abbrev posix : Platform
posix = record {
  resolve = λ dir name. if name == "../evil" then "evil" ∷ [] else dir ++ name ∷ [];
  path_text = λ path. join path;
  decode_utf8 = λ bytes. if bytes == utf8 "a\r\n" then some "a\r\n" else none;
  digit = digit;
  sha256 = λ text. "0";
  repr = λ text. "";
  unified_diff = λ before after name. [];
}

abbrev agent : FileAgent
agent = record {
  workspace_dir = "ws" ∷ [];
  backup_dir = "ws" ∷ "backups" ∷ [];
  agent_id = "file-agent";
}

abbrev disk : FileSystem
disk =
    ("ws" ∷ [], directory) ∷ ("ws" ∷ "backups" ∷ [], directory) ∷ ("evil" ∷ [], file (1 ∷ [])) ∷ []

abbrev creation : String → ActionPlan
creation path = record {
  agent_type = "file";
  agent_id = none;
  action_type = "file.create";
  payload = field "path" (str path) (field "content" (str "a\r\n") end);
  requires_confirmation = false;
  confirmed = false;
  policy_decision = "allow";
}

abbrev hash_of : Result Bytes → String
hash_of (ok bytes) = hex bytes
hash_of (err e) = ""

abbrev poi_for : String → ProofOfIntent
poi_for path = record {
  user_prompt_hash = "";
  system_prompt_hash = "";
  context_root = "";
  action_payload_hash = hash_of (hash_payload (obj (creation path).payload));
  model_id = "";
  timestamp = "";
  nonce = "";
  agent_type = none;
  agent_id = none;
  action_type = some "file.create";
  policy_decision = none;
  agent_signature = none;
  agent_pubkey_id = none;
}

created :
    content ("ws" ∷ "a" ∷ []) (execute agent (creation "a") (poi_for "a") disk).1
    ≡ some (utf8 "a\r\n")
unfolding execute plan_error execute_bound execute_checked required_string get_field resolve_path
    is_inside execute_at create_file exists lookup make_dirs parent write_bytes insert is_dir
    write_change_record record_name hash_payload hex hex_digit list_beq
created = refl

-- A file outside of the workspace is refused.
escape_refused :
    (execute agent (creation "../evil") (poi_for "../evil") disk).0
    ≡ ok (failure "path_outside_workspace")
unfolding execute plan_error execute_bound execute_checked required_string get_field resolve_path
    is_inside hash_payload hex hex_digit
escape_refused = refl

inside_no : is_inside ("ws" ∷ []) ("evil" ∷ []) ≡ false
unfolding is_inside
inside_no = refl

backups_no : is_inside ("ws" ∷ "backups" ∷ []) ("evil" ∷ []) ≡ false
unfolding is_inside
backups_no = refl

execute_sandboxed_example :
    content ("evil" ∷ []) (execute agent (creation "a") (poi_for "a") disk).1
    ≡ content ("evil" ∷ []) disk
execute_sandboxed_example =
    execute_sandboxed agent (creation "a") (poi_for "a") disk ("evil" ∷ []) inside_no backups_no
