-- ===== src/Agents/FileAgent/Diff.antt =====
-- aor/agents/file.py: `_apply_unified_diff`. The index into the original may be -1, where a hunk says
-- that it starts at line 0; Python then counts from the end. Unicode's decimal digits are an argument.
pub mod Applies
use agent_of_record.Common.{
  ℕ, zero, suc, ◌+◌, ◌-◌, ◌*◌, String, Bool, true, false, not, Option, none, some, List, [], ◌∷◌,
  ◌++◌, leb, if◌then◌else◌, ◌==◌, nat_eq, string_eq, list_eq, option_eq, length, get_elem?, take,
  drop, index_error, agent_error, Result, ok, err, ◌>>=◌, ◌>>◌, raise_if, or_raise,
}
use Prim.Native.Char.{Char, code}
use agent_of_record.Common.Text.{split_lines, join, starts_with}
use agent_of_record.Json.{ℤ, pos, negsuc}

-- `hunks`, each with its lines, behind the lines before the first.
unfoldable pub hunks : List String → List String × List (String × List String)
unfolding starts_with
hunks [] = ([], [])
hunks (line ∷ lines) =
    let (before, rest) = hunks lines in
    if starts_with "@@ " line then ([], (line, before) ∷ rest) else (line ∷ before, rest)

-- `\d+` as far as it goes: the number so far, and whether a digit was read.
unfoldable pub number : (Char → Option ℕ) → ℕ → Bool → String → Option (ℕ × String)
number digit n seen String.[] = if seen then some (n, String.[]) else none
number digit n seen (String.◌∷◌ c s) = elim (digit c) [
  | some d ↦ number digit (n * 10 + d) true s
  | none ↦ if seen then some (n, String.◌∷◌ c s) else none
]

-- `prefix`, and what follows it
unfoldable pub after_prefix : String → String → Option String
after_prefix String.[] s = some s
after_prefix (String.◌∷◌ c prefix) String.[] = none
after_prefix (String.◌∷◌ c prefix) (String.◌∷◌ d s) =
    let rest = after_prefix prefix s in if code c == code d then rest else none

-- `(?:,(\d+))?`
unfoldable pub skip_count : (Char → Option ℕ) → String → String
unfolding after_prefix number
skip_count digit s = elim (after_prefix "," s) [
  | none ↦ s
  | some t ↦ elim (number digit 0 false t) [ none ↦ s | some (n, rest) ↦ rest ]
]

abbrev matched : {A : Type 0} → Option A → Result A
matched found = or_raise found (agent_error "invalid_unified_diff_header")

-- The first group of `@@ -(\d+)(?:,(\d+))? \+(\d+)(?:,(\d+))? @@`
unfoldable pub hunk_start : (Char → Option ℕ) → String → Result ℕ
unfolding after_prefix number skip_count
hunk_start digit header = do
  old ← matched (after_prefix "@@ -" header)
  (start, rest) ← matched (number digit 0 false old)
  new ← matched (after_prefix " +" (skip_count digit rest))
  (_, end) ← matched (number digit 0 false new)
  closed ← matched (after_prefix " @@" (skip_count digit end))
  ok start

-- `int(match.group(1)) - 1`
abbrev pub before_start : ℕ → ℤ
before_start zero = negsuc 0
before_start (suc n) = pos n

-- An index as a slice of a list of a length takes it.
abbrev pub slice_index : ℕ → ℤ → ℕ
slice_index len (pos n) = n
slice_index len (negsuc n) = len - suc n

-- `lines[i:j]`
abbrev pub slice : List String → ℤ → ℤ → List String
slice lines i j =
    let from = slice_index (length lines) i in
    take (slice_index (length lines) j - from) (drop from lines)

-- `lines[i:]`
abbrev pub slice_from : List String → ℤ → List String
slice_from lines i = drop (slice_index (length lines) i) lines

-- `source_index >= len(lines)`
abbrev pub is_past : List String → ℤ → Bool
is_past lines (pos n) = leb (length lines) n
is_past lines (negsuc n) = false

-- `lines[i]`
abbrev pub line_at : List String → ℤ → Option String
line_at lines (pos n) = get_elem? lines n
line_at lines (negsuc n) =
    if leb (suc n) (length lines) then get_elem? lines (length lines - suc n) else none

abbrev pub next_index : ℤ → ℤ
next_index (pos n) = pos (n + 1)
next_index (negsuc zero) = pos 0
next_index (negsuc (suc n)) = negsuc n

-- The test of a line that is kept or deleted; an index before the first line is an `IndexError`.
unfoldable pub check_line : List String → ℤ → String → String → Result (Unit {0})
check_line original index content mismatch =
    if is_past original index then err (agent_error mismatch) else (do
      line ← or_raise (line_at original index) index_error
      raise_if (not (line == content)) (agent_error mismatch))

-- What one line of a hunk does to the output and the index.
unfoldable pub apply_line : List String → List String × ℤ → String → Result (List String × ℤ)
unfolding check_line
apply_line original (output, index) String.[] = err (agent_error "invalid_unified_diff_line")
apply_line original (output, index) (String.◌∷◌ marker content) =
    if code marker == 32
    then check_line original index content "patch_context_mismatch"
      >> ok (output ++ content ∷ [], next_index index)
    else if code marker == 45
    then check_line original index content "patch_delete_mismatch" >> ok (output, next_index index)
    else if code marker == 43
    then ok (output ++ content ∷ [], index)
    else if code marker == 92
    then ok (output, index)
    else err (agent_error "invalid_unified_diff_line")

unfoldable pub apply_hunk_lines :
    List String → List String × ℤ → List String → Result (List String × ℤ)
apply_hunk_lines original state [] = ok state
apply_hunk_lines original state (line ∷ lines) = do
  next ← apply_line original state line
  apply_hunk_lines original next lines

unfoldable pub apply_hunk :
    (Char → Option ℕ)
    → List String
    → List String × ℤ
    → String × List String
    → Result (List String × ℤ)
apply_hunk digit original (output, index) (header, lines) = do
  start ← hunk_start digit header
  apply_hunk_lines original
      (output ++ slice original index (before_start start), before_start start) lines

unfoldable pub apply_hunks :
    (Char → Option ℕ)
    → List String
    → List String × ℤ
    → List (String × List String)
    → Result (List String × ℤ)
apply_hunks digit original state [] = ok state
apply_hunks digit original state (hunk ∷ rest) = do
  next ← apply_hunk digit original state hunk
  apply_hunks digit original next rest

-- Some hunk is wanted; what is left of the original follows.
unfoldable pub apply_lines : (Char → Option ℕ) → List String → List String → Result (List String)
apply_lines digit original patch = elim ((hunks patch).1) [
  | [] ↦ err (agent_error "invalid_unified_diff")
  | hunk ∷ rest ↦ do
    last ← apply_hunks digit original ([], pos 0) (hunk ∷ rest)
    ok (last.0 ++ slice_from original last.1)
]

unfoldable pub apply_unified_diff : (Char → Option ℕ) → String → String → Result String
apply_unified_diff digit original patch = do
  lines ← apply_lines digit (split_lines original) (split_lines patch)
  ok (join lines)
