-- ===== src/CryptoCore/Base64.antt =====
-- Python's base64 with padding, over the standard and the URL-safe alphabet.
pub mod Lenient
use agent_of_record.Common.{
  ℕ, zero, suc, ◌+◌, ◌*◌, ◌/◌, ◌%◌, ◌<◌, String, ◌≡◌, refl, ap, Bool, true, false, not, ◌&&◌,
  Option, none, some, List, [], ◌∷◌, arith, leb, if◌then◌else◌, ◌==◌, nat_eq, string_eq, list_eq,
  option_eq, option_beq, option_beq_iff, all_below, all_below_sound,
}
use Prim.Native.Char.{Char, code}
use agent_of_record.CryptoCore.Hex.{IsBytes}

abbrev pub Alphabet : Type 0
Alphabet = String

abbrev pub standard : Alphabet
standard = "ABCDEFGHIJKLMNOPQRSTUVWXYZabcdefghijklmnopqrstuvwxyz0123456789+/"

abbrev pub urlsafe : Alphabet
urlsafe = "ABCDEFGHIJKLMNOPQRSTUVWXYZabcdefghijklmnopqrstuvwxyz0123456789-_"

-- The character at an index; past the end the padding.
unfoldable pub char_at : Alphabet → ℕ → Char
char_at String.[] n = "="
char_at (String.◌∷◌ c s) zero = c
char_at (String.◌∷◌ c s) (suc n) = char_at s n

-- The index of a character, from the given one on.
unfoldable pub index_from : ℕ → Alphabet → ℕ → Option ℕ
index_from n String.[] ch = none
index_from n (String.◌∷◌ c s) ch =
    let rest = index_from (n + 1) s ch in if code c == ch then some n else rest

abbrev pub text_of : Char → Char → Char → Char → String → String
text_of a b c d s = String.◌∷◌ a (String.◌∷◌ b (String.◌∷◌ c (String.◌∷◌ d s)))

unfoldable pub b64encode : Alphabet → List ℕ → String
b64encode al [] = String.[]
b64encode al (a ∷ []) = text_of (char_at al (a / 4)) (char_at al (a % 4 * 16)) "=" "=" String.[]
b64encode al (a ∷ b ∷ []) =
    text_of (char_at al (a / 4)) (char_at al (a % 4 * 16 + b / 16)) (char_at al (b % 16 * 4)) "="
      String.[]
b64encode al (a ∷ b ∷ c ∷ bs) =
    text_of (char_at al (a / 4)) (char_at al (a % 4 * 16 + b / 16))
      (char_at al (b % 16 * 4 + c / 64)) (char_at al (c % 64)) (b64encode al bs)

abbrev one_byte : Option ℕ → Option ℕ → Option (List ℕ)
one_byte (some i) (some j) = some ((i * 4 + j / 16) ∷ [])
one_byte _ _ = none

abbrev two_bytes : Option ℕ → Option ℕ → Option ℕ → Option (List ℕ)
two_bytes (some i) (some j) (some k) = some ((i * 4 + j / 16) ∷ (j % 16 * 16 + k / 4) ∷ [])
two_bytes _ _ _ = none

abbrev three_bytes : Option ℕ → Option ℕ → Option ℕ → Option ℕ → Option (List ℕ) → Option (List ℕ)
three_bytes (some i) (some j) (some k) (some l) (some bs) =
    some ((i * 4 + j / 16) ∷ (j % 16 * 16 + k / 4) ∷ (k % 4 * 64 + l) ∷ bs)
three_bytes _ _ _ _ _ = none

abbrev is_end : String → Bool
is_end String.[] = true
is_end (String.◌∷◌ c s) = false

-- Strict decoding: a character out of the alphabet, or padding that does not fill the last four, is
-- an error.
unfoldable pub b64decode : Alphabet → String → Option (List ℕ)
b64decode al String.[] = some []
b64decode al (String.◌∷◌ a String.[]) = none
b64decode al (String.◌∷◌ a (String.◌∷◌ b String.[])) = none
b64decode al (String.◌∷◌ a (String.◌∷◌ b (String.◌∷◌ c String.[]))) = none
b64decode al (String.◌∷◌ a (String.◌∷◌ b (String.◌∷◌ c (String.◌∷◌ d s)))) =
    let rest = b64decode al s in
    let i = index_from 0 al (code a) in
    let j = index_from 0 al (code b) in
    let k = index_from 0 al (code c) in
    let l = index_from 0 al (code d) in
    if code d == 61 && is_end s
    then (if code c == 61 then one_byte i j else two_bytes i j k)
    else three_bytes i j k l rest

-- A character of the alphabet reads back, and is no padding.
reads_back : Alphabet → ℕ → Bool
unfolding index_from char_at option_beq
reads_back al n =
    option_beq (index_from 0 al (code (char_at al n))) (some n) && not (code (char_at al n) == 61)

pub IsAlphabet : Alphabet → Type 0
IsAlphabet al = all_below 64 (reads_back al) ≡ true

pub standard-IsAlphabet : IsAlphabet standard
unfolding IsAlphabet reads_back all_below
standard-IsAlphabet = refl

pub char_at_reads :
    (al : Alphabet) (n : ℕ)
    → IsAlphabet al
    → n < 64
    → (index_from 0 al (code (char_at al n)) ≡ some n) × ((code (char_at al n) == 61) ≡ false)
unfolding IsAlphabet
char_at_reads al n good h =
    let t = all_below_sound 64 (reads_back al) n good h in
    unfold reads_back in
    ground (arith, t, option_beq_iff (index_from 0 al (code (char_at al n))) (some n))

abbrev pub prepend : ℕ → Option (List ℕ) → Option (List ℕ)
prepend b none = none
prepend b (some bs) = some (b ∷ bs)

-- `binascii.a2b_base64`: other characters are skipped, and padding that fills the last four ends the
-- text. `quad` counts the characters of the current four, `left` is what the last one left over.
unfoldable pub a2b_base64 : ℕ → ℕ → ℕ → String → Option (List ℕ)
a2b_base64 quad left pads String.[] = if quad == 0 then some [] else none
a2b_base64 quad left pads (String.◌∷◌ c s) =
    let more_pads = a2b_base64 quad left (pads + 1) s in
    let skipped = a2b_base64 quad left pads s in
    if code c == 61
    then (if leb 2 quad then (if leb 4 (quad + pads + 1) then some [] else more_pads) else skipped)
    else elim (index_from 0 standard (code c)) [
      | none ↦ skipped
      | some v ↦
          (let first = a2b_base64 1 v 0 s in
            let second = a2b_base64 2 (v % 16) 0 s in
            let third = a2b_base64 3 (v % 4) 0 s in
            let fourth = a2b_base64 0 0 0 s in
            if quad == 0
            then first
            else if quad == 1
            then prepend (left * 4 + v / 16) second
            else if quad == 2
            then prepend (left * 16 + v / 4) third
            else prepend (left * 64 + v) fourth)
    ]

-- `s.translate(...)` of the URL-safe alphabet's own two characters; `none` is a text that is no ASCII.
unfoldable pub from_urlsafe : String → Option String
from_urlsafe String.[] = some String.[]
from_urlsafe (String.◌∷◌ c s) = elim (from_urlsafe s) [
  | none ↦ none
  | some rest ↦
      if leb 128 (code c)
      then none
      else if code c == 45
      then some (String.◌∷◌ "+" rest)
      else if code c == 95
      then some (String.◌∷◌ "/" rest)
      else some (String.◌∷◌ c rest)
]

unfoldable pub urlsafe_b64decode : String → Option (List ℕ)
unfolding from_urlsafe
urlsafe_b64decode s = elim (from_urlsafe s) [ none ↦ none | some t ↦ a2b_base64 0 0 0 t ]
