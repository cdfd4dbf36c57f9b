-- ===== src/VerifierService/Verifier/Tests.antt =====
-- A verifier with one key and one envelope, sent twice.
use agent_of_record.Common.{
  ℕ, ◌≤◌, ◌≡◌, refl, ◌↔◌, true, none, some, [], ◌∷◌, arith, if◌then◌else◌, ◌==◌, nat_eq, string_eq,
  list_eq, option_eq, All, ok,
}
use agent_of_record.Toy.{replicate, toy}
use agent_of_record.CryptoCore.Base64.{standard, b64decode, b64encode, char_at, index_from}
use agent_of_record.Calendar.{Calendar, aware}
use agent_of_record.CryptoCore.{hash_payload, verify, from_bytes_big}
use agent_of_record.VerifierService.Models.{SignedEnvelope, signing_payload}
use agent_of_record.VerifierService.NonceStore.{sweep_expired, has_seen, mark_seen}
use agent_of_record.VerifierService.Verifier.{
  key_bytes, PublicKeyLookup, SignatureVerifier, accepted, replace_z, supported, load_parsed,
  load_registered_public_key, parse_timestamp, timestamp_is_fresh, check_signature, check_key,
  verify_envelope,
}
use agent_of_record.VerifierService.Verifier.Accept.{
  IsFresh, IsAcceptable, timestamp_is_fresh_iff, verify_envelope_accepts_iff,
}
use agent_of_record.VerifierService.Verifier.Replay.{
  Call, answer, after, serve, nonce_not_accepted_again, envelope_not_accepted_again,
}
use agent_of_record.Common.Dict.{lookup, insert, filter_values}

-- One text is a time, at 100 seconds.
abbrev calendar : Calendar
calendar = record {
  fromisoformat = λ s. if s == "noon+00:00" then some (aware 100000000) else none;
}

-- The signature is the text of 64 bytes, which the key's check takes.
abbrev envelope : SignedEnvelope
envelope = record {
  prompt = "send";
  user_id = "u";
  session_id = "s";
  timestamp = "noonZ";
  nonce = "n1";
  signature = b64encode standard (replicate 64 7);
  pubkey_id = "k1";
  signature_algorithm = "ECDSA-P256-SHA256";
}

abbrev keys : PublicKeyLookup
keys = record { get_pubkey = λ id. if id == "k1" then some (key_bytes (48 ∷ 7 ∷ [])) else none }

abbrev start : SignatureVerifier
start = record {
  pubkey_store = keys;
  nonce_store = record { ttl_seconds = 300; seen = [] };
  freshness_seconds = 60;
}

-- All clocks of a call read one time.
abbrev call_at : ℕ → Call
call_at now = record {
  at = record { wall = now; seen_sweep = now; mark_sweep = now; mark = now };
  keys = keys;
  envelope = envelope;
}

abbrev first : Call
first = call_at 110000000

abbrev second : Call
second = call_at 130000000

good_start : answer calendar first start ≡ ok accepted
unfolding b64decode b64encode char_at index_from verify_envelope timestamp_is_fresh parse_timestamp
    replace_z has_seen sweep_expired mark_seen lookup insert filter_values check_key check_signature
    hash_payload verify load_registered_public_key load_parsed supported from_bytes_big
    signing_payload
good_start = refl

timestamp_is_fresh_iff_example :
    (timestamp_is_fresh calendar 60 110000000 "noonZ" ≡ true)
    ↔ IsFresh calendar 60 110000000 "noonZ"
timestamp_is_fresh_iff_example = timestamp_is_fresh_iff calendar 60 110000000 "noonZ"

verify_envelope_accepts_iff_example :
    ((verify_envelope calendar first.at envelope start).0 ≡ ok accepted)
    ↔ IsAcceptable calendar first.at envelope start
verify_envelope_accepts_iff_example = verify_envelope_accepts_iff calendar first.at envelope start

in_order :
    All
      (λ (k : Call).
        (first.at.mark ≤ k.at.mark)
        × (k.at.seen_sweep ≤ second.at.seen_sweep)
        × (k.at.mark_sweep ≤ second.at.seen_sweep))
      (call_at 120000000 ∷ [])
in_order = ((omega arith, omega arith, omega arith), tt)

nonce_not_accepted_again_example : ¬ (
    answer calendar second (serve calendar (call_at 120000000 ∷ []) (after calendar first start))
    ≡ ok accepted)
nonce_not_accepted_again_example =
    nonce_not_accepted_again calendar first second (call_at 120000000 ∷ []) start good_start refl
      in_order (omega arith)

envelope_not_accepted_again_example : ¬ (
    answer calendar second (serve calendar (call_at 120000000 ∷ []) (after calendar first start))
    ≡ ok accepted)
envelope_not_accepted_again_example =
    envelope_not_accepted_again calendar first second (call_at 120000000 ∷ []) start good_start refl
      in_order (omega arith) (omega arith)
