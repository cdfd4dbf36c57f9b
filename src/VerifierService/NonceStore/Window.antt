-- ===== src/VerifierService/NonceStore/Window.antt =====
-- A nonce that was marked is remembered for the TTL, whatever else is marked meanwhile.
use agent_of_record.Common.{
  ℕ, ◌+◌, ◌-◌, ◌*◌, ◌≤◌, String, ◌≡◌, refl, ◌∙◌, inl, inr, Bool, true, some, [], ◌∷◌, arith, eq_iff,
  leb, nat_eq, string_eq, list_eq, option_eq, eq-or-ne,
}
use agent_of_record.Common.Dict.{Dict, lookup, filter_values, lookup-insert_self, lookup-insert_ne}
use agent_of_record.VerifierService.NonceStore.{NonceStore, sweep_expired, has_seen, mark_seen}

lookup-filter_values :
    (p : ℕ → Bool) (k : String) (d : Dict String ℕ) {v : ℕ}
    → lookup k d ≡ some v
    → p v ≡ true
    → lookup k (filter_values p d) ≡ some v
unfolding lookup filter_values
lookup-filter_values p k [] h q = absurd (ground arith)
lookup-filter_values p k ((j, w) ∷ d) {v} h q =
    ground (arith, eq_iff j k, lookup-filter_values p k d {v = v})

-- The store knows `nonce` from a time that is at least `since`.
pub record Remembers (since : ℕ) (nonce : String) (s : NonceStore) : Type 0 where
  pub seen_at : ℕ
  pub stored : lookup nonce s.seen ≡ some seen_at
  pub recent : since ≤ seen_at

pub mark_seen-Remembers :
    (swept now : ℕ) (nonce : String) (s : NonceStore)
    → Remembers now nonce (mark_seen swept now nonce s)
unfolding mark_seen
mark_seen-Remembers swept now nonce s = record {
  seen_at = now;
  stored = lookup-insert_self nonce now (sweep_expired swept s).seen;
  recent = omega arith;
}

pub sweep_expired-Remembers :
    (since now : ℕ) (nonce : String) (s : NonceStore)
    → now ≤ since + s.ttl_seconds * 1000000
    → Remembers since nonce s
    → Remembers since nonce (sweep_expired now s)
unfolding sweep_expired
sweep_expired-Remembers since now nonce s inside r = record {
  seen_at = r.seen_at;
  stored =
      lookup-filter_values (λ seen_at. leb (now - seen_at) (s.ttl_seconds * 1000000)) nonce s.seen
        r.stored (let n = r.recent in ground arith);
  recent = r.recent;
}

-- Marking another nonce, or the same one later, forgets nothing inside the window.
pub mark_seen-keeps :
    (since swept now : ℕ) (nonce other : String) (s : NonceStore)
    → swept ≤ since + s.ttl_seconds * 1000000
    → since ≤ now
    → Remembers since nonce s
    → Remembers since nonce (mark_seen swept now other s)
unfolding mark_seen
mark_seen-keeps since swept now nonce other s inside later r =
    let r' = sweep_expired-Remembers since swept nonce s inside r in
    elim (eq-or-ne other nonce) [
      | inl same ↦ record {
        seen_at = now;
        stored = rw same (lookup-insert_self nonce now (sweep_expired swept s).seen);
        recent = later;
      }
      | inr differ ↦ record {
        seen_at = r'.seen_at;
        stored = lookup-insert_ne other nonce now (sweep_expired swept s).seen differ ∙ r'.stored;
        recent = r'.recent;
      }
    ]

pub has_seen-Remembers :
    (since now : ℕ) (nonce : String) (s : NonceStore)
    → now ≤ since + s.ttl_seconds * 1000000
    → Remembers since nonce s
    → (has_seen now nonce s).0 ≡ true
unfolding has_seen
has_seen-Remembers since now nonce s inside r =
    let r' = sweep_expired-Remembers since now nonce s inside r in ground (arith, r'.stored)

pub ttl-sweep_expired :
    (now : ℕ) (s : NonceStore) → (sweep_expired now s).ttl_seconds ≡ s.ttl_seconds
unfolding sweep_expired
ttl-sweep_expired now s = refl
