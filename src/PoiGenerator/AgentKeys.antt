-- ===== src/PoiGenerator/AgentKeys.antt =====
-- poi_generator/agent_keys.py: the identifier of an agent's key and its registration. The key files
-- are not modelled; a private key is its seed.
use agent_of_record.Common.{
  ℕ, String, none, some, if◌then◌else◌, ◌==◌, nat_eq, string_eq, list_eq, option_eq,
  already_registered, Result, ok, err,
}
use Prim.Native.String.{◌++◌ as text_append}
use agent_of_record.Calendar.{aware}
use agent_of_record.CryptoCore.{Crypto, Bytes, hash_sha3_256, serialize_public_key_raw}
use agent_of_record.CryptoCore.Hex.{hex}
use agent_of_record.KeyRegistry.Registry.{KeyRegistry, Registration, register_key, get_pubkey}
use agent_of_record.KeyRegistry.Models.{AgentKeyRecord}

module _ ⦃c : Crypto⦄ where
  unfoldable pub agent_pubkey_id : Bytes → String
  unfolding hash_sha3_256 serialize_public_key_raw
  agent_pubkey_id private_key =
      text_append "agent-ed25519-" (hex (hash_sha3_256 (serialize_public_key_raw private_key)))

  abbrev pub agent_registration : ℕ → String → Bytes → Registration
  agent_registration now agent_id private_key = record {
    agent_id = agent_id;
    pubkey_id = agent_pubkey_id private_key;
    public_key_bytes = serialize_public_key_raw private_key;
    algorithm = "Ed25519";
    valid_from = aware now;
    valid_until = none;
    agent_type = none;
  }

  -- `except ValueError`: an identifier that is registered already is not an error.
  unfoldable pub settle :
      String → KeyRegistry → Result (AgentKeyRecord × KeyRegistry) → Result (String × KeyRegistry)
  settle pubkey_id registry (ok (row, registry')) = ok (pubkey_id, registry')
  settle pubkey_id registry (err (already_registered id)) = ok (pubkey_id, registry)
  settle pubkey_id registry (err e) = err e

  -- The clock is read by the lookup, for `valid_from`, and for `created_at`.
  unfoldable pub register_agent_public_key :
      ℕ → ℕ → ℕ → String → KeyRegistry → Bytes → Result (String × KeyRegistry)
  unfolding settle
  register_agent_public_key checked from created agent_id registry private_key =
      let pubkey_id = agent_pubkey_id private_key in
      if get_pubkey checked pubkey_id registry == some (serialize_public_key_raw private_key)
      then ok (pubkey_id, registry)
      else settle pubkey_id registry
          (register_key created (agent_registration from agent_id private_key) registry)
