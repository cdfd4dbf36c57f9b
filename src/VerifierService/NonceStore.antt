-- ===== src/VerifierService/NonceStore.antt =====
-- verifier_service/nonce_store.py. A reading of the clock is an argument, in microseconds.
-- `-` stops at 0: a clock that went back gives an age that is at most the TTL here too.
pub mod Window
use agent_of_record.Common.{
  ℕ, ◌-◌, ◌*◌, String, Bool, [], leb, if◌then◌else◌, ◌==◌, nat_eq, string_eq, list_eq, option_eq,
  value_error, Result, ok, err,
}
use agent_of_record.Common.Dict.{Dict, lookup, contains, insert, filter_values}
use agent_of_record.Json.{ℤ, pos, negsuc}

pub record NonceStore : Type 0 where
  pub ttl_seconds : ℕ
  pub seen : Dict String ℕ

unfoldable pub make_nonce_store : ℤ → Result NonceStore
make_nonce_store (negsuc n) = err (value_error "ttl_seconds must be positive")
make_nonce_store (pos n) =
    if n == 0
    then err (value_error "ttl_seconds must be positive")
    else ok (record { ttl_seconds = n; seen = [] })

unfoldable pub sweep_expired : ℕ → NonceStore → NonceStore
sweep_expired now s = record s {
  seen = filter_values (λ seen_at. leb (now - seen_at) (s.ttl_seconds * 1000000)) s.seen;
}

unfoldable pub has_seen : ℕ → String → NonceStore → Bool × NonceStore
unfolding sweep_expired
has_seen now nonce s = let s' = sweep_expired now s in (contains nonce s'.seen, s')

-- The clock is read twice: by the sweep, and for the entry.
unfoldable pub mark_seen : ℕ → ℕ → String → NonceStore → NonceStore
unfolding sweep_expired
mark_seen swept now nonce s =
    let s' = sweep_expired swept s in record s' { seen = insert nonce now s'.seen }
