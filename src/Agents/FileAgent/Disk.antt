-- ===== src/Agents/FileAgent/Disk.antt =====
-- The file system as aor/agents/file.py uses it through pathlib: a dict from resolved paths to nodes.
-- A call that raises keeps what it has done. Full disks and missing permissions do not occur.
use agent_of_record.Common.{
  String, Bool, true, false, not, ◌||◌, Option, none, some, List, [], ◌∷◌, ◌++◌, if◌then◌else◌,
  nat_eq, string_eq, list_eq, option_eq, os_error, Result, ok, err, is_some,
}
use agent_of_record.Common.Dict.{Dict, lookup, insert, erase}
use agent_of_record.CryptoCore.{Bytes}

-- The parts of an absolute path.
abbrev pub FilePath : Type 0
FilePath = List String

pub data Node : Type 0 where
  directory : Node
  file : Bytes → Node

abbrev pub FileSystem : Type 0
FileSystem = Dict FilePath Node

abbrev pub M : Type 0 → Type 0
M A = FileSystem → Result A × FileSystem

infixl 5 ◌>>=◌ ◌>>◌
abbrev pub ◌>>=◌ : {A B : Type 0} → M A → (A → M B) → M B
◌>>=◌ m next d = elim ((m d).0) [ err e ↦ (err e, (m d).1) | ok a ↦ next a (m d).1 ]

abbrev pub ◌>>◌ : {B : Type 0} → M (Unit {0}) → M B → M B
m >> next = m >>= λ done. next

abbrev pub lift : {A : Type 0} → Result A → M A
lift r d = (r, d)

abbrev pub return : {A : Type 0} → A → M A
return a d = (ok a, d)

-- A question about the disk.
abbrev pub asks : {A : Type 0} → (FileSystem → A) → M A
asks question d = (ok (question d), d)

unfoldable pub exists : FilePath → FileSystem → Bool
exists path d = is_some (lookup path d)

unfoldable pub is_file : FilePath → FileSystem → Bool
is_file path d = elim (lookup path d) [ some (file bytes) ↦ true | _ ↦ false ]

unfoldable pub is_dir : FilePath → FileSystem → Bool
is_dir [] d = true
is_dir (name ∷ names) d = elim (lookup (name ∷ names) d) [ some directory ↦ true | _ ↦ false ]

unfoldable pub parent : FilePath → FilePath
parent [] = []
parent (name ∷ []) = []
parent (name ∷ next ∷ names) = name ∷ parent (next ∷ names)

unfoldable pub read_bytes : FilePath → M Bytes
read_bytes path d = elim (lookup path d) [
  | some (file bytes) ↦ (ok bytes, d)
  | _ ↦ (err os_error, d)
]

unfoldable pub write_bytes : FilePath → Bytes → M (Unit {0})
unfolding is_dir parent
write_bytes path bytes d =
    if is_dir path d || not (is_dir (parent path) d)
    then (err os_error, d)
    else (ok tt, insert path (file bytes) d)

unfoldable pub ensure_dir : FilePath → M (Unit {0})
ensure_dir path d = elim (lookup path d) [
  | none ↦ (ok tt, insert path directory d)
  | some directory ↦ (ok tt, d)
  | some (file bytes) ↦ (err os_error, d)
]

-- The directories on the way from `at` down the names.
unfoldable pub make_dirs_from : FilePath → List String → M (Unit {0})
make_dirs_from at [] d = (ok tt, d)
make_dirs_from at (name ∷ names) d =
    (ensure_dir (at ++ name ∷ []) >> make_dirs_from (at ++ name ∷ []) names) d

-- `path.mkdir(parents=True, exist_ok=True)`
unfoldable pub make_dirs : FilePath → M (Unit {0})
unfolding make_dirs_from ensure_dir
make_dirs path = make_dirs_from [] path

unfoldable pub unlink : FilePath → M (Unit {0})
unlink path d = elim (lookup path d) [
  | some (file bytes) ↦ (ok tt, erase path d)
  | _ ↦ (err os_error, d)
]

-- `path.replace(destination)`, of a file
unfoldable pub replace : FilePath → FilePath → M (Unit {0})
unfolding is_dir parent
replace path destination d = elim (lookup path d) [
  | some (file bytes) ↦
      if is_dir destination d || not (is_dir (parent destination) d)
      then (err os_error, d)
      else (ok tt, insert destination (file bytes) (erase path d))
  | _ ↦ (err os_error, d)
]

-- The bytes of a file.
abbrev pub content_of : Option Node → Option Bytes
content_of none = none
content_of (some directory) = none
content_of (some (file bytes)) = some bytes

abbrev pub content : FilePath → FileSystem → Option Bytes
content path d = content_of (lookup path d)
