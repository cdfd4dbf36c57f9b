-- ===== src/CryptoCore/Hex.antt =====
-- `bytes.hex()` and `bytes.fromhex`, and the round trip.
use Prim.Native.Char.{Char, code}
use agent_of_record.Common.{
  ℕ, ◌+◌, ◌-◌, ◌*◌, ◌/◌, ◌%◌, ◌<◌, String, ◌≡◌, refl, ap, Bool, true, false, not, ◌&&◌, ◌||◌,
  Option, none, some, List, [], ◌∷◌, arith, leb, if◌then◌else◌, ◌==◌, nat_eq, string_eq, list_eq,
  option_eq, option_beq, option_beq_iff, all_below, all_below_sound, All,
}

-- Every entry is a byte.
abbrev pub IsBytes : List ℕ → Type 0
IsBytes = All (λ b. b < 256)

unfoldable pub hex_digit : ℕ → Char
hex_digit n =
    if n == 0
    then "0"
    else if n == 1
    then "1"
    else if n == 2
    then "2"
    else if n == 3
    then "3"
    else if n == 4
    then "4"
    else if n == 5
    then "5"
    else if n == 6
    then "6"
    else if n == 7
    then "7"
    else if n == 8
    then "8"
    else if n == 9
    then "9"
    else if n == 10
    then "a"
    else if n == 11
    then "b"
    else if n == 12
    then "c"
    else if n == 13
    then "d"
    else if n == 14
    then "e"
    else "f"

unfoldable pub hex : List ℕ → String
hex [] = String.[]
hex (b ∷ bs) = String.◌∷◌ (hex_digit (b / 16)) (String.◌∷◌ (hex_digit (b % 16)) (hex bs))

unfoldable pub digit_value : ℕ → Option ℕ
digit_value n =
    if leb 48 n && leb n 57
    then some (n - 48)
    else if leb 97 n && leb n 102
    then some (n - 87)
    else if leb 65 n && leb n 70
    then some (n - 55)
    else none

unfoldable pub is_space : ℕ → Bool
is_space n = n == 32 || (leb 9 n && leb n 13)

abbrev join : Option ℕ → Option ℕ → Option (List ℕ) → Option (List ℕ)
join (some h) (some l) (some bs) = some ((h * 16 + l) ∷ bs)
join _ _ _ = none

-- White space between bytes is skipped; `none` is a `ValueError`.
unfoldable pub fromhex : String → Option (List ℕ)
unfolding digit_value is_space
fromhex String.[] = some []
fromhex (String.◌∷◌ c String.[]) = if is_space (code c) then some [] else none
fromhex (String.◌∷◌ c (String.◌∷◌ d s)) =
    let skipped = fromhex (String.◌∷◌ d s) in
    let rest = fromhex s in
    if is_space (code c) then skipped else join (digit_value (code c)) (digit_value (code d)) rest

-- A digit that `hex` writes reads back, and is no white space.
digit_reads : ℕ → Bool
unfolding digit_value hex_digit is_space option_beq
digit_reads n =
    option_beq (digit_value (code (hex_digit n))) (some n) && not (is_space (code (hex_digit n)))

digit_table : all_below 16 digit_reads ≡ true
unfolding digit_reads all_below
digit_table = refl

digit_lem :
    (n : ℕ)
    → n < 16
    → (digit_value (code (hex_digit n)) ≡ some n) × (is_space (code (hex_digit n)) ≡ false)
digit_lem n h =
    let t = all_below_sound 16 digit_reads n digit_table h in
    unfold digit_reads in
    ground (arith, t, option_beq_iff (digit_value (code (hex_digit n))) (some n))

-- `bytes.fromhex` undoes `hex` on every byte string.
pub fromhex-hex : (bs : List ℕ) → IsBytes bs → fromhex (hex bs) ≡ some bs
unfolding fromhex hex
fromhex-hex [] h = refl
fromhex-hex (b ∷ bs) h =
    let high = digit_lem (b / 16) (omega arith) in
    let low = digit_lem (b % 16) (omega arith) in
    rw (high.1, high.0, low.0, fromhex-hex bs h.1) (ap (λ (n : ℕ). some (n ∷ bs)) (omega arith))

-- So equal hexadecimal texts stand for equal bytes.
pub hex-injective : (xs ys : List ℕ) → IsBytes xs → IsBytes ys → hex xs ≡ hex ys → xs ≡ ys
hex-injective xs ys h k e = cc (fromhex-hex xs h, fromhex-hex ys k, ap fromhex e)
