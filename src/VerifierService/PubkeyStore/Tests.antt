-- ===== src/VerifierService/PubkeyStore/Tests.antt =====
-- A store with one key.
use agent_of_record.Common.{◌≡◌, refl, [], ◌∷◌, nat_eq, string_eq, list_eq, option_eq, ok}
use agent_of_record.Toy.{toy}
use agent_of_record.Common.Dict.{insert}
use agent_of_record.CryptoCore.{elliptic, secp256r1}
use agent_of_record.VerifierService.Verifier.{supported}
use agent_of_record.VerifierService.PubkeyStore.{PubkeyStore, register_pubkey}
use agent_of_record.VerifierService.PubkeyStore.Lookup.{Serves, register_pubkey-Serves}

abbrev one_key : PubkeyStore
one_key = ("k1", elliptic secp256r1 1 1) ∷ []

one_registered : register_pubkey "k1" (48 ∷ 7 ∷ []) [] ≡ ok one_key
unfolding register_pubkey insert supported
one_registered = refl

register_pubkey-Serves_example : Serves "k1" (48 ∷ 7 ∷ []) [] one_key
register_pubkey-Serves_example = register_pubkey-Serves "k1" (48 ∷ 7 ∷ []) [] one_key one_registered
