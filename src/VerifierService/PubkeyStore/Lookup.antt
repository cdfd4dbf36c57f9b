-- ===== src/VerifierService/PubkeyStore/Lookup.antt =====
-- What the verifier finds in the store after a registration.
use agent_of_record.Common.{
  String, ◌≡◌, sym, ap, ◌∙◌, ◌≢◌, not, Option, none, some, arith, if◌then◌else◌, ◌==◌, nat_eq,
  string_eq, list_eq, option_eq, value_error, ok, err, raise_if, or_raise, >>=-eq-ok,
}
use agent_of_record.Common.Dict.{insert, lookup-insert}
use agent_of_record.CryptoCore.{Crypto, Bytes, PublicKey}
use agent_of_record.VerifierService.Verifier.{
  StoredKey, key_bytes, parsed_key, supported, load_parsed, load_registered_public_key,
}
use agent_of_record.VerifierService.PubkeyStore.{PubkeyStore, register_pubkey, key_lookup}

module _ ⦃c : Crypto⦄ where
  -- The key that the verifier loads from the store, or from the bytes themselves, is the one that
  -- the bytes are of; the other identifiers have what they had.
  pub record Serves (pubkey_id : String) (public_key_bytes : Bytes) (before after : PubkeyStore)
      : Type 0 where
    pub public_key : PublicKey
    pub named : pubkey_id ≢ ""
    pub from_store : load_registered_public_key (parsed_key public_key) ≡ ok public_key
    pub from_bytes : load_registered_public_key (key_bytes public_key_bytes) ≡ ok public_key
    pub found :
        (id : String)
        → (key_lookup after).get_pubkey id ≡ (
            if pubkey_id == id
            then some (parsed_key public_key)
            else (key_lookup before).get_pubkey id)

  key_lookup-insert :
      (k id : String) (key : PublicKey) (store : PubkeyStore)
      → (key_lookup (insert k key store)).get_pubkey id
        ≡ (if k == id then some (parsed_key key) else (key_lookup store).get_pubkey id)
  unfolding key_lookup
  key_lookup-insert k id key store = ground (arith, lookup-insert k id key store)

  -- After a registration that returns, the store gives the verifier under that identifier the key
  -- that it would also load from the bytes, and under every other identifier what it gave before.
  pub register_pubkey-Serves :
      (pubkey_id : String) (public_key_bytes : Bytes) (before after : PubkeyStore)
      → register_pubkey pubkey_id public_key_bytes before ≡ ok after
      → Serves pubkey_id public_key_bytes before after
  unfolding register_pubkey load_registered_public_key load_parsed
  register_pubkey-Serves pubkey_id public_key_bytes before after h =
      let (_, named, r1) =
        >>=-eq-ok (raise_if (pubkey_id == "") (value_error "pubkey_id must be a non-empty string"))
          _ h in
      let (key, loaded, r2) =
        >>=-eq-ok
          (or_raise (c.load_der_public_key public_key_bytes)
            (value_error "could not deserialize key data"))
          _ r1 in
      let (_, good, last) =
        >>=-eq-ok (raise_if (not (supported key)) (value_error "unsupported public key type")) _
          r2 in
      record {
        public_key = key;
        named = ground (arith, string_eq.beq_iff pubkey_id "");
        from_store = ground arith;
        from_bytes = ground arith;
        found = λ id.
            ap
              (λ r. elim r as (λ _. Option StoredKey) [
                | err _ ↦ none
                | ok s ↦ (key_lookup s).get_pubkey id
              ])
              (sym last)
            ∙ key_lookup-insert pubkey_id id key before;
      }
