-- ===== src/CryptoCore/Binding.antt =====
-- A payload's digest stands for its canonical bytes.
use agent_of_record.Common.{
  ◌≡◌, sym, ap, ◌∙◌, ◌⊎◌, inl, inr, some, arith, Option-cases, nat_eq, string_eq, list_eq,
  option_eq, ok,
}
use agent_of_record.CryptoCore.{Crypto, Bytes, hash_payload}
use agent_of_record.CryptoCore.Laws.{Collision, eq-or-Collision}
use agent_of_record.Json.{Json}

module _ ⦃c : Crypto⦄ where
  -- A payload that hashes is a dict, and its digest is that of its canonical bytes.
  pub hash_payload-ok :
      (v : Json) {d : Bytes}
      → hash_payload v ≡ ok d
      → (b : Bytes) × (c.dumps v ≡ some b) × (d ≡ c.sha3_256 b)
  unfolding hash_payload
  hash_payload-ok v h = elim (Option-cases (c.dumps v)) [
    | inl failed ↦ absurd (ground arith)
    | inr (b, e) ↦ (b, e, ground arith)
  ]

  -- The canonical bytes of a payload.
  abbrev pub AreBytesOf : Json → Bytes → Type 0
  AreBytesOf v b = c.dumps v ≡ some b

  pub hash_payload-eq :
      (v w : Json) {d : Bytes}
      → hash_payload v ≡ ok d
      → hash_payload w ≡ ok d
      → (c.dumps v ≡ c.dumps w) ⊎ Collision c (AreBytesOf v) (AreBytesOf w)
  hash_payload-eq v w h k =
      let (a, ea, da) = hash_payload-ok v h in
      let (b, eb, db) = hash_payload-ok w k in
      elim (eq-or-Collision c (AreBytesOf v) (AreBytesOf w) a b ea eb (sym da ∙ db)) [
        | inl same ↦ inl (ea ∙ ap some same ∙ sym eb)
        | inr found ↦ inr found
      ]
