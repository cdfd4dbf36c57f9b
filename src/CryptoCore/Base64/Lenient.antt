-- ===== src/CryptoCore/Base64/Lenient.antt =====
-- The lenient decoder undoes the encoder.
use agent_of_record.Common.{
  ℕ, ◌+◌, ◌*◌, ◌/◌, ◌%◌, ◌<◌, String, ◌≡◌, refl, Option, some, List, [], ◌∷◌, arith, if◌then◌else◌,
  ◌==◌, nat_eq, string_eq, list_eq, option_eq,
}
use agent_of_record.CryptoCore.Hex.{IsBytes}
use agent_of_record.CryptoCore.Base64.{
  standard, char_at, b64encode, a2b_base64, char_at_reads, standard-IsAlphabet, prepend,
}

-- What the decoder does with one character of the alphabet.
abbrev read : ℕ → ℕ → ℕ → String → Option (List ℕ)
read quad left v s =
    if quad == 0
    then a2b_base64 1 v 0 s
    else if quad == 1
    then prepend (left * 4 + v / 16) (a2b_base64 2 (v % 16) 0 s)
    else if quad == 2
    then prepend (left * 16 + v / 4) (a2b_base64 3 (v % 4) 0 s)
    else prepend (left * 64 + v) (a2b_base64 0 0 0 s)

a2b_base64-char_at :
    (quad left pads v : ℕ) (s : String)
    → v < 64
    → a2b_base64 quad left pads (String.◌∷◌ (char_at standard v) s) ≡ read quad left v s
unfolding a2b_base64
a2b_base64-char_at quad left pads v s h =
    let t = char_at_reads standard v standard-IsAlphabet h in rw (t.1, t.0) refl

a2b_base64-end : a2b_base64 0 0 0 String.[] ≡ some []
unfolding a2b_base64
a2b_base64-end = refl

-- The padding ends the text.
a2b_base64-two_pads : (left : ℕ) → a2b_base64 2 left 0 "==" ≡ some []
unfolding a2b_base64
a2b_base64-two_pads left = refl

a2b_base64-one_pad : (left : ℕ) → a2b_base64 3 left 0 "=" ≡ some []
unfolding a2b_base64
a2b_base64-one_pad left = refl

pub a2b_base64-b64encode :
    (bs : List ℕ) → IsBytes bs → a2b_base64 0 0 0 (b64encode standard bs) ≡ some bs
unfolding b64encode
a2b_base64-b64encode [] good = a2b_base64-end
a2b_base64-b64encode (a ∷ []) good =
    rw
      (
        a2b_base64-char_at 0 0 0 (a / 4) _ (omega arith),
        a2b_base64-char_at 1 (a / 4) 0 (a % 4 * 16) _ (omega arith),
      )
      (let p : a / 4 * 4 + a % 4 * 16 / 16 ≡ a = omega arith in
        rw (a2b_base64-two_pads (a % 4 * 16 % 16), p) refl)
a2b_base64-b64encode (a ∷ b ∷ []) good =
    rw
      (
        a2b_base64-char_at 0 0 0 (a / 4) _ (omega arith),
        a2b_base64-char_at 1 (a / 4) 0 (a % 4 * 16 + b / 16) _ (omega arith),
        a2b_base64-char_at 2 ((a % 4 * 16 + b / 16) % 16) 0 (b % 16 * 4) _ (omega arith),
      )
      (let p : a / 4 * 4 + (a % 4 * 16 + b / 16) / 16 ≡ a = omega arith in
        let q : (a % 4 * 16 + b / 16) % 16 * 16 + b % 16 * 4 / 4 ≡ b = omega arith in
        rw (a2b_base64-one_pad (b % 16 * 4 % 4), p, q) refl)
a2b_base64-b64encode (a ∷ b ∷ c ∷ bs) good =
    rw
      (
        a2b_base64-char_at 0 0 0 (a / 4) _ (omega arith),
        a2b_base64-char_at 1 (a / 4) 0 (a % 4 * 16 + b / 16) _ (omega arith),
        a2b_base64-char_at 2 ((a % 4 * 16 + b / 16) % 16) 0 (b % 16 * 4 + c / 64) _ (omega arith),
        a2b_base64-char_at 3 ((b % 16 * 4 + c / 64) % 4) 0 (c % 64) _ (omega arith),
        a2b_base64-b64encode bs good.1.1.1,
      )
      (let p : a / 4 * 4 + (a % 4 * 16 + b / 16) / 16 ≡ a = omega arith in
        let q : (a % 4 * 16 + b / 16) % 16 * 16 + (b % 16 * 4 + c / 64) / 4 ≡ b = omega arith in
        let r : (b % 16 * 4 + c / 64) % 4 * 64 + c % 64 ≡ c = omega arith in rw (p, q, r) refl)
