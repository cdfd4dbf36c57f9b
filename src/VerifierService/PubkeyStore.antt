-- ===== src/VerifierService/PubkeyStore.antt =====
-- verifier_service/pubkey_store.py: the store in memory, an implementation of `PublicKeyLookup`.
pub mod Lookup
mod Tests
use agent_of_record.Common.{
  String, not, none, some, ◌==◌, nat_eq, string_eq, list_eq, option_eq, value_error, Result, ok,
  ◌>>=◌, ◌>>◌, raise_if, or_raise,
}
use agent_of_record.Common.Dict.{Dict, lookup, insert}
use agent_of_record.CryptoCore.{Crypto, Bytes, PublicKey}
use agent_of_record.VerifierService.Verifier.{StoredKey, parsed_key, PublicKeyLookup, supported}

-- The field `_keys`.
abbrev pub PubkeyStore : Type 0
PubkeyStore = Dict String PublicKey

module _ ⦃c : Crypto⦄ where
  unfoldable pub register_pubkey : String → Bytes → PubkeyStore → Result PubkeyStore
  register_pubkey pubkey_id public_key_bytes store = do
    raise_if (pubkey_id == "") (value_error "pubkey_id must be a non-empty string")
    public_key ←
        or_raise (c.load_der_public_key public_key_bytes)
          (value_error "could not deserialize key data")
    raise_if (not (supported public_key)) (value_error "unsupported public key type")
    ok (insert pubkey_id public_key store)

-- `get_pubkey`, as the verifier calls it.
unfoldable pub key_lookup : PubkeyStore → PublicKeyLookup
key_lookup store = record {
  get_pubkey = λ pubkey_id. elim (lookup pubkey_id store) [
    | none ↦ none
    | some public_key ↦ some (parsed_key public_key)
  ];
}
