-- ===== src/VerifierService/Server/Replies.antt =====
-- Calls that answer, and the calls after them.
use agent_of_record.Common.{
  ℕ, String, ◌≡◌, refl, ◌⊎◌, inl, inr, Bool, true, false, arith, nat_eq, string_eq, list_eq,
  option_eq, Result, ok, err,
}
use agent_of_record.VerifierService.Server.{
  AppState, Reply, reply, http_error, raised, H, ◌>>=◌, lift, refuse_if, asks,
}

pub Reply-cases :
    {A : Type 0} (r : Reply A) → ((a : A) × (r ≡ reply a)) ⊎ (¬ ((a : A) × (r ≡ reply a)))
Reply-cases (reply a) = inl (a, refl)
Reply-cases (http_error status detail) = inr (λ (a, e). cc e)
Reply-cases (raised x) = inr (λ (a, e). cc e)

-- A call that answers, and the calls after it.
pub bind-reply :
    {W A B : Type 0} (m : H W A) (next : A → H W B) (app : AppState W) {b : B} {after : AppState W}
    → (m >>= next) app ≡ (reply b, after)
    → (a : A) × (middle : AppState W) × (m app ≡ (reply a, middle))
      × (next a middle ≡ (reply b, after))
unfolding ◌>>=◌
bind-reply m next app h = elim (Reply-cases ((m app).0)) [
  | inl (a, good) ↦ (a, (m app).1, ground (arith, good), ground (arith, good))
  | inr bad ↦ absurd (ground arith)
]

pub bind-lift :
    {W A B : Type 0} (r : Result A) (next : A → H W B) (app : AppState W) {b : B}
    {after : AppState W}
    → (lift r >>= next) app ≡ (reply b, after)
    → (a : A) × (r ≡ ok a) × (next a app ≡ (reply b, after))
unfolding ◌>>=◌
bind-lift (ok a) next app h = (a, refl, h)
bind-lift (err e) next app h = absurd (ground arith)

pub bind-asks :
    {W A B : Type 0} (question : AppState W → A) (next : A → H W B) (app : AppState W) {b : B}
    {after : AppState W}
    → (asks question >>= next) app ≡ (reply b, after)
    → next (question app) app ≡ (reply b, after)
unfolding ◌>>=◌
bind-asks question next app h = h

pub bind-refuse_if :
    {W B : Type 0} (test : Bool) (status : ℕ) (detail : String) (next : Unit {0} → H W B)
    (app : AppState W) {b : B} {after : AppState W}
    → (refuse_if test status detail >>= next) app ≡ (reply b, after)
    → next tt app ≡ (reply b, after)
unfolding ◌>>=◌
bind-refuse_if true status detail next app h = absurd (ground arith)
bind-refuse_if false status detail next app h = h
