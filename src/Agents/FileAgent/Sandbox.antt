-- ===== src/Agents/FileAgent/Sandbox.antt =====
-- The file agent leaves the files outside of its two directories alone.
use agent_of_record.Common.{
  String, ◌≡◌, refl, ap, ◌≢◌, inl, inr, true, false, Option, List, [], ◌∷◌, ◌++◌, arith, Bool-cases,
  Option-cases, ◌==◌, nat_eq, string_eq, list_eq, option_eq, list_beq_iff, agent_error, Result, ok,
  err, Result-cases,
}
use agent_of_record.Common.Dict.{lookup, erase, lookup-insert, lookup-erase}
use agent_of_record.CryptoCore.{Crypto, Bytes}
use agent_of_record.PoiGenerator.Models.{ProofOfIntent}
use agent_of_record.Agents.Plan.{ActionPlan, plan_error}
use agent_of_record.Agents.FileAgent.Disk.{
  FilePath, FileSystem, directory, file, M, ◌>>=◌, lift, return, asks, read_bytes, write_bytes,
  ensure_dir, make_dirs_from, make_dirs, unlink, replace, content,
}
use agent_of_record.Agents.FileAgent.{
  Platform, FileAgent, capabilities, is_inside, read_text, resolve_path, record_name,
  write_change_record, read_file, create_file, update_file, delete_file, rename_to, rename_file,
  execute_at, execute_checked, execute_bound, execute,
}

-- A call leaves the content at a path as it is.
pub record Spares {A : Type 0} (p : FilePath) (m : M A) : Type 0 where
  pub same : (d : FileSystem) → content p (m d).1 ≡ content p d

-- The rule for one call after another.
bind-Spares :
    {A B : Type 0} (p : FilePath) (m : M A) (next : A → M B)
    → Spares p m
    → ((a : A) → Spares p (next a))
    → Spares p (m >>= next)
bind-Spares p m next s t = record {
  same = λ d. elim (Result-cases ((m d).0)) [
    | inl (e, bad) ↦ ground (arith, s.same d)
    | inr (a, good) ↦ ground (arith, s.same d, (t a).same (m d).1)
  ];
}

lift-Spares : {A : Type 0} (p : FilePath) (r : Result A) → Spares p (lift r)
lift-Spares p r = record { same = λ d. refl }

-- A result that is needed later holds of what follows.
lift_bind-Spares :
    {A B : Type 0} (p : FilePath) (r : Result A) (next : A → M B)
    → ((a : A) → r ≡ ok a → Spares p (next a))
    → Spares p (lift r >>= next)
lift_bind-Spares p (err e) next t = record { same = λ d. refl }
lift_bind-Spares p (ok a) next t = record { same = (t a refl).same }

asks-Spares : {A : Type 0} (p : FilePath) (question : FileSystem → A) → Spares p (asks question)
asks-Spares p question = record { same = λ d. refl }

return-Spares : {A : Type 0} (p : FilePath) (a : A) → Spares p (return a)
return-Spares p a = record { same = λ d. refl }

read_bytes-Spares : (p path : FilePath) → Spares p (read_bytes path)
unfolding read_bytes
read_bytes-Spares p path = record { same = λ d. ground arith }

write_bytes-Spares :
    (p path : FilePath) (bytes : Bytes) → path ≢ p → Spares p (write_bytes path bytes)
unfolding write_bytes
write_bytes-Spares p path bytes other = record {
  same = λ d. ground (arith, lookup-insert path p (file bytes) d, list_beq_iff path p);
}

ensure_dir-Spares : (p path : FilePath) → Spares p (ensure_dir path)
unfolding ensure_dir
ensure_dir-Spares p path = record {
  same = λ d. ground (arith, lookup-insert path p directory d, list_beq_iff path p);
}

make_dirs_from-Spares : (p at : FilePath) (names : List String) → Spares p (make_dirs_from at names)
unfolding make_dirs_from
make_dirs_from-Spares p at [] = record { same = λ d. refl }
make_dirs_from-Spares p at (name ∷ names) = record {
  same =
      (bind-Spares p (ensure_dir (at ++ name ∷ [])) (λ _. make_dirs_from (at ++ name ∷ []) names)
        (ensure_dir-Spares p (at ++ name ∷ []))
        (λ _. make_dirs_from-Spares p (at ++ name ∷ []) names)).same;
}

make_dirs-Spares : (p path : FilePath) → Spares p (make_dirs path)
unfolding make_dirs
make_dirs-Spares p path = make_dirs_from-Spares p [] path

unlink-Spares : (p path : FilePath) → path ≢ p → Spares p (unlink path)
unfolding unlink
unlink-Spares p path other = record {
  same = λ d. ground (arith, lookup-erase path p d, list_beq_iff path p);
}

replace-Spares :
    (p path destination : FilePath)
    → path ≢ p
    → destination ≢ p
    → Spares p (replace path destination)
unfolding replace
replace-Spares p path destination other another = record {
  same = λ d. elim (Option-cases (lookup path d)) [
    | inl missing ↦ ground arith
    | inr (directory, found) ↦ ground arith
    | inr (file bytes, found) ↦ ground (
      arith,
      lookup-insert destination p (file bytes) (erase path d),
      lookup-erase path p d,
      list_beq_iff path p,
      list_beq_iff destination p,
    )
  ];
}

is_inside-append : (dir names : FilePath) → is_inside dir (dir ++ names) ≡ true
unfolding is_inside
is_inside-append [] names = refl
is_inside-append (name ∷ dir) names =
    ground (arith, is_inside-append dir names, string_eq.beq_iff name name)

-- What lies in a directory is no path outside of it.
inside_ne : (dir names p : FilePath) → is_inside dir p ≡ false → dir ++ names ≢ p
inside_ne dir names p h same = cc (is_inside-append dir names, ap (is_inside dir) same, h)

ruleset spares = (
  bind-Spares, lift-Spares, asks-Spares, return-Spares, read_bytes-Spares, write_bytes-Spares,
  make_dirs-Spares, unlink-Spares, replace-Spares,
)

module _ ⦃c : Crypto⦄ ⦃os : Platform⦄ where
  read_text-Spares : (p path : FilePath) → Spares p (read_text path)
  unfolding read_text
  read_text-Spares p path = search spares

  write_change_record-Spares :
      (p : FilePath) (agent : FileAgent) (plan : ActionPlan) (path : FilePath)
      (before after : Option String)
      → is_inside agent.backup_dir p ≡ false
      → Spares p (write_change_record agent plan path before after)
  unfolding write_change_record
  write_change_record-Spares p agent plan path before after h =
      let other = inside_ne agent.backup_dir (record_name plan path before after ∷ []) p h in
      search spares

  module _ (p : FilePath) (agent : FileAgent) (plan : ActionPlan)
      (outside : is_inside agent.workspace_dir p ≡ false)
      (unsaved : is_inside agent.backup_dir p ≡ false) where
    record_Spares :
        (path : FilePath) (before after : Option String)
        → Spares p (write_change_record agent plan path before after)
    record_Spares path before after =
        write_change_record-Spares p agent plan path before after unsaved

    -- A path that is resolved is another one.
    resolve_path_ne :
        (name : String) (path : FilePath) → resolve_path agent name ≡ ok path → path ≢ p
    unfolding resolve_path
    resolve_path_ne name path e same = ground (arith, ap (is_inside agent.workspace_dir) same)

    read_file-Spares : (path : FilePath) → Spares p (read_file path)
    unfolding read_file
    read_file-Spares path = search (spares, read_text-Spares)

    create_file-Spares : (path : FilePath) → path ≢ p → Spares p (create_file agent plan path)
    unfolding create_file
    create_file-Spares path other = search (spares, record_Spares) depth 20

    update_file-Spares : (path : FilePath) → path ≢ p → Spares p (update_file agent plan path)
    unfolding update_file
    update_file-Spares path other = search (spares, read_text-Spares, record_Spares) depth 20

    delete_file-Spares : (path : FilePath) → path ≢ p → Spares p (delete_file agent plan path)
    unfolding delete_file
    delete_file-Spares path other = search (spares, read_text-Spares, record_Spares) depth 20

    rename_to-Spares :
        (path destination : FilePath)
        → path ≢ p
        → destination ≢ p
        → Spares p (rename_to agent plan path destination)
    unfolding rename_to
    rename_to-Spares path destination other another = search (spares, record_Spares) depth 20

    rename_file-Spares : (path : FilePath) → path ≢ p → Spares p (rename_file agent plan path)
    unfolding rename_file
    rename_file-Spares path other = bind-Spares p _ _ (lift-Spares p _) (λ name.
        lift_bind-Spares p (resolve_path agent name) _ (λ destination e.
          rename_to-Spares path destination other (resolve_path_ne name destination e)))

    execute_at-Spares : (path : FilePath) → path ≢ p → Spares p (execute_at agent plan path)
    unfolding execute_at
    execute_at-Spares path other = elim (Bool-cases (plan.action_type == "file.read")) [
      | inl is ↦ rw is (read_file-Spares path)
      | inr not_read ↦ rw not_read (elim (Bool-cases (plan.action_type == "file.create")) [
        | inl is ↦ rw is (create_file-Spares path other)
        | inr not_create ↦ rw not_create (elim (Bool-cases (plan.action_type == "file.update")) [
          | inl is ↦ rw is (update_file-Spares path other)
          | inr not_update ↦ rw not_update (elim (Bool-cases (plan.action_type == "file.delete")) [
            | inl is ↦ rw is (delete_file-Spares path other)
            | inr not_delete ↦
                rw not_delete (elim (Bool-cases (plan.action_type == "file.rename")) [
                  | inl is ↦ rw is (rename_file-Spares path other)
                  | inr not_rename ↦
                      rw not_rename (lift-Spares p (err (agent_error "unsupported_action_type")))
                ])
          ])
        ])
      ])
    ]

    execute_checked-Spares : Spares p (execute_checked agent plan)
    unfolding execute_checked
    execute_checked-Spares = bind-Spares p _ _ (lift-Spares p _) (λ name.
        lift_bind-Spares p (resolve_path agent name) _
          (λ path e. execute_at-Spares path (resolve_path_ne name path e)))

    execute_bound-Spares :
        (poi : ProofOfIntent) (hash : Bytes) → Spares p (execute_bound agent plan poi hash)
    unfolding execute_bound
    execute_bound-Spares poi hash = record {
      same = λ d. ground (arith, execute_checked-Spares.same d);
    }

    execute-Spares : (poi : ProofOfIntent) → Spares p (execute agent plan poi)
    unfolding execute
    execute-Spares poi = elim (Option-cases (plan_error "file" agent.agent_id capabilities plan)) [
      | inl fine ↦
          rw (fine, execute)
            (bind-Spares p _ _ (lift-Spares p _) (λ hash. execute_bound-Spares poi hash))
      | inr (detail, refused) ↦ rw (refused, execute) (return-Spares p _)
    ]

  -- Whatever plan and proof the file agent is given, and whether it returns or raises, every file that
  -- lies outside of its workspace and of its directory of backups has the content that it had, and no
  -- file has come or gone there.
  pub execute_sandboxed :
      (agent : FileAgent) (plan : ActionPlan) (poi : ProofOfIntent) (d : FileSystem) (p : FilePath)
      → is_inside agent.workspace_dir p ≡ false
      → is_inside agent.backup_dir p ≡ false
      → content p (execute agent plan poi d).1 ≡ content p d
  execute_sandboxed agent plan poi d p outside unsaved =
      (execute-Spares p agent plan outside unsaved poi).same d
