-- ===== src/Smart/Runs.antt =====
-- Code that changes a state and may fail, for the store of roots and the heap of objects.
use jsntp_lcdd.Prelude.{◌≡◌, ap, Option, none, some}

abbrev pub Run : (S A : Type 0) → Type 0
Run S A = S → Option (A × S)

infixl 5 ◌>>=◌ ◌>>◌
abbrev pub ◌>>=◌ : {S A B : Type 0} → Run S A → (A → Run S B) → Run S B
◌>>=◌ first next s = elim (first s) [ none ↦ none | some (a, s') ↦ next a s' ]

abbrev pub ◌>>◌ : {S A B : Type 0} → Run S A → Run S B → Run S B
first >> next = first >>= λ _. next

abbrev pub return : {S A : Type 0} → A → Run S A
return a s = some (a, s)

-- A run whose first step succeeds, and one whose first step fails.
module _ {S A B : Type 0} (first : Run S A) (next : A → Run S B) (s : S) where
  pub first_step : (a : A) (s' : S) → first s ≡ some (a, s') → (first >>= next) s ≡ next a s'
  first_step a s' e =
      ap
        (λ (o : Option (A × S)). elim o as (λ _. Option (B × S)) [
          | none ↦ none
          | some (x, t) ↦ next x t
        ])
        e

  pub first_crash : first s ≡ none → (first >>= next) s ≡ none
  first_crash e =
      ap
        (λ (o : Option (A × S)). elim o as (λ _. Option (B × S)) [
          | none ↦ none
          | some (x, t) ↦ next x t
        ])
        e
