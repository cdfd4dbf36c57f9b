-- ===== src/Common/Find.antt =====
-- Searching and filtering a list by a test: `SELECT … WHERE …` and `DELETE … WHERE …` on a table.
use mathlib.Core.Path.{◌≡◌, refl}
use mathlib.Core.Bool.{Bool, true, false}
use mathlib.Core.List.{List, [], ◌∷◌, ◌++◌}
use mathlib.Core.Option.{Option, none, some}
use native.Mathlib.Omega.{arith}
use agent_of_record.Common.Tests.{if◌then◌else◌}
use agent_of_record.Common.Lists.{All}

module _ {ℓ} {A : Type ℓ} where
  -- The first row that passes the test.
  unfoldable pub find : (A → Bool) → List A → Option A
  find test [] = none
  find test (x ∷ xs) = if test x then some x else find test xs

  unfoldable pub keep : (A → Bool) → List A → List A
  keep test [] = []
  keep test (x ∷ xs) = let rest = keep test xs in if test x then x ∷ rest else rest

  pub find-append_some :
      (test : A → Bool) (xs ys : List A) (a : A)
      → find test xs ≡ some a
      → find test (xs ++ ys) ≡ some a
  unfolding find
  find-append_some test [] ys a h = absurd (ground arith)
  find-append_some test (x ∷ xs) ys a h = ground (arith, find-append_some test xs ys a)

  pub find-append_none :
      (test : A → Bool) (xs ys : List A) → find test xs ≡ none → find test (xs ++ ys) ≡ find test ys
  unfolding find
  find-append_none test [] ys h = refl
  find-append_none test (x ∷ xs) ys h = ground (arith, find-append_none test xs ys)

  pub find-append_last :
      (test : A → Bool) (xs : List A) (a : A)
      → find test xs ≡ none
      → test a ≡ true
      → find test (xs ++ a ∷ []) ≡ some a
  unfolding find
  find-append_last test xs a h passes = ground (arith, find-append_none test xs (a ∷ []) h)

  -- What is found passes the test.
  pub find_sound : (test : A → Bool) (xs : List A) (a : A) → find test xs ≡ some a → test a ≡ true
  unfolding find
  find_sound test [] a h = absurd (ground arith)
  find_sound test (x ∷ xs) a h = ground (arith, find_sound test xs a)

  -- Rows that the search does not want may be left out.
  pub find-keep :
      (test kept : A → Bool) (xs : List A)
      → ((x : A) → test x ≡ true → kept x ≡ true)
      → find test (keep kept xs) ≡ find test xs
  unfolding find keep
  find-keep test kept [] h = refl
  find-keep test kept (x ∷ xs) h = ground (arith, h x, find-keep test kept xs h)

  pub find-keep_unwanted :
      (test kept : A → Bool) (xs : List A)
      → ((x : A) → test x ≡ true → kept x ≡ false)
      → find test (keep kept xs) ≡ none
  unfolding find keep
  find-keep_unwanted test kept [] h = refl
  find-keep_unwanted test kept (x ∷ xs) h = ground (arith, h x, find-keep_unwanted test kept xs h)

  pub All-append {κ} : (P : A → Type κ) (xs ys : List A) → All P xs → All P ys → All P (xs ++ ys)
  All-append P [] ys hx hy = hy
  All-append P (x ∷ xs) ys hx hy = (hx.0, All-append P xs ys hx.1 hy)

  pub All-keep {κ} :
      (P : A → Type κ) (kept : A → Bool) (xs : List A) → All P xs → All P (keep kept xs)
  unfolding keep
  All-keep P kept [] h = tt
  All-keep P kept (x ∷ xs) h = ground (arith, All-keep P kept xs)

  pub All-imp {κ μ} :
      (P : A → Type κ) (Q : A → Type μ) (xs : List A) → ((x : A) → P x → Q x) → All P xs → All Q xs
  All-imp P Q [] f h = tt
  All-imp P Q (x ∷ xs) f h = (f x h.0, All-imp P Q xs f h.1)
