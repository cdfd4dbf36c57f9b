-- ===== src/CryptoCore/Tests.antt =====
-- Texts of a few bytes.
use agent_of_record.Common.{◌≡◌, refl, some, [], ◌∷◌, nat_eq, string_eq, list_eq, option_eq}
use agent_of_record.CryptoCore.Base64.{urlsafe, b64encode, b64decode, char_at, index_from}
use agent_of_record.CryptoCore.Hex.{hex, hex_digit, fromhex, digit_value, is_space}

hex_read : fromhex (hex (0 ∷ 171 ∷ 255 ∷ [])) ≡ some (0 ∷ 171 ∷ 255 ∷ [])
unfolding hex hex_digit fromhex digit_value is_space
hex_read = refl

base64_read : b64decode urlsafe (b64encode urlsafe (251 ∷ 255 ∷ [])) ≡ some (251 ∷ 255 ∷ [])
unfolding b64decode b64encode char_at index_from
base64_read = refl
