-- ===== src/Common/Text.antt =====
-- Python's texts, one character at a time.
use Prim.Native.Nat.{ℕ}
use Prim.Native.Char.{Char, code}
use Prim.Native.String.{String, ◌++◌ as text_append}
use mathlib.Core.Bool.{Bool, true, false, not, ◌&&◌, ◌||◌}
use mathlib.Core.List.{List, [], ◌∷◌}
use agent_of_record.Common.Tests.{leb, if◌then◌else◌, ◌==◌, nat_eq}

-- What `str.split` and `str.strip` take for white space.
unfoldable pub is_whitespace : ℕ → Bool
is_whitespace n =
    (leb 9 n && leb n 13)
    || (leb 28 n && leb n 32)
    || n == 133
    || n == 160
    || n == 5760
    || (leb 8192 n && leb n 8202)
    || n == 8232
    || n == 8233
    || n == 8239
    || n == 8287
    || n == 12288

abbrev pub codes : String → List ℕ
codes String.[] = []
codes (String.◌∷◌ c s) = code c ∷ codes s

unfoldable pub lstrip : String → String
unfolding is_whitespace
lstrip String.[] = String.[]
lstrip (String.◌∷◌ c s) =
    let rest = lstrip s in if is_whitespace (code c) then rest else String.◌∷◌ c s

-- A character in front of what is stripped.
unfoldable pub put_stripped : Char → String → String
unfolding is_whitespace
put_stripped c String.[] = if is_whitespace (code c) then String.[] else String.◌∷◌ c String.[]
put_stripped c (String.◌∷◌ d s) = String.◌∷◌ c (String.◌∷◌ d s)

unfoldable pub rstrip : String → String
unfolding put_stripped
rstrip String.[] = String.[]
rstrip (String.◌∷◌ c s) = put_stripped c (rstrip s)

unfoldable pub strip : String → String
unfolding lstrip rstrip
strip s = rstrip (lstrip s)

-- `character in s`
unfoldable pub contains_code : ℕ → String → Bool
contains_code n String.[] = false
contains_code n (String.◌∷◌ c s) = code c == n || contains_code n s

-- The characters at which `str.splitlines` splits.
unfoldable pub is_line_break : ℕ → Bool
is_line_break n =
    (leb 10 n && leb n 13) || (leb 28 n && leb n 30) || n == 133 || n == 8232 || n == 8233

-- Whether a line ends at a character, before the rest of the text; "\r\n" is one break.
unfoldable pub ends_line : ℕ → String → Bool
unfolding is_line_break
ends_line n String.[] = is_line_break n
ends_line n (String.◌∷◌ d s) = is_line_break n && not (n == 13 && code d == 10)

unfoldable pub put_on_line : Char → List String → List String
put_on_line c [] = String.◌∷◌ c String.[] ∷ []
put_on_line c (line ∷ lines) = String.◌∷◌ c line ∷ lines

-- `s.splitlines(keepends=True)`
unfoldable pub split_lines : String → List String
unfolding ends_line put_on_line
split_lines String.[] = []
split_lines (String.◌∷◌ c s) =
    let rest = split_lines s in
    if ends_line (code c) s then String.◌∷◌ c String.[] ∷ rest else put_on_line c rest

-- `"".join(texts)`
abbrev pub join : List String → String
join [] = String.[]
join (s ∷ texts) = text_append s (join texts)

-- `s.startswith(prefix)`
unfoldable pub starts_with : String → String → Bool
starts_with String.[] s = true
starts_with (String.◌∷◌ c prefix) String.[] = false
starts_with (String.◌∷◌ c prefix) (String.◌∷◌ d s) = code c == code d && starts_with prefix s
