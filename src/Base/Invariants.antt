-- ===== src/Base/Invariants.antt =====
-- What holds of every row of a table, after the statements of `Base.Rows`.
use mathlib.Core.Path.{◌≡◌, refl}
use mathlib.Core.Bool.{Bool, true, false}
use mathlib.Core.Option.{some}
use mathlib.Core.Logic.{inl, inr}
use mathlib.Core.List.{List, [], ◌∷◌}
use native.Mathlib.Omega.{arith}
use life_man.Base.Tests.{Bool-cases, if◌then◌else◌}
use life_man.Base.Lists.{All}
use life_man.Base.Rows.{delete, first, rowcount, select, update}

module _ {ℓ κ} {A : Type ℓ} where
  -- What every row has, the row that is found has.
  pub first-All :
      (P : A → Type κ) (p : A → Bool) (xs : List A) {a : A} → All P xs → first p xs ≡ some a → P a
  first-All P p [] h e = cc
  first-All P p (x ∷ xs) {a} h e = elim (Bool-cases (p x)) [
    | inl k ↦ let same : x ≡ a = ground arith in rw same at h.0
    | inr k ↦ first-All P p xs h.1 (ground arith)
  ]

  -- A change that keeps a property, wherever the clause holds, keeps it of every row.
  pub All-update :
      (P : A → Type κ) (p : A → Bool) (f : A → A) (xs : List A)
      → ((a : A) → p a ≡ true → P a → P (f a))
      → All P xs
      → All P (update p f xs)
  All-update P p f [] k h = tt
  All-update P p f (x ∷ xs) k h = (one (p x) refl, All-update P p f xs k h.1)
    where
      one : (b : Bool) → p x ≡ b → P (if b then f x else x)
      one true e = k x e h.0
      one false e = h.0

  pub All-delete : (P : A → Type κ) (p : A → Bool) (xs : List A) → All P xs → All P (delete p xs)
  All-delete P p [] h = tt
  All-delete P p (x ∷ xs) h = pick (p x) (All-delete P p xs h.1)
    where
      pick : (b : Bool) → All P (delete p xs) → All P (if b then delete p xs else x ∷ delete p xs)
      pick true rest = rest
      pick false rest = (h.0, rest)

  -- The rows after an UPDATE, those that it changed and those that it left alone.
  pub All-update_to :
      (P Q : A → Type κ) (p : A → Bool) (f : A → A) (xs : List A)
      → ((a : A) → p a ≡ true → P a → Q (f a))
      → ((a : A) → p a ≡ false → P a → Q a)
      → All P xs
      → All Q (update p f xs)
  All-update_to P Q p f [] k l h = tt
  All-update_to P Q p f (x ∷ xs) k l h = (one (p x) refl, All-update_to P Q p f xs k l h.1)
    where
      one : (b : Bool) → p x ≡ b → Q (if b then f x else x)
      one true e = k x e h.0
      one false e = l x e h.0

  pub All-zip : (P Q : A → Type κ) (xs : List A) → All P xs → All Q xs → All (λ a. P a × Q a) xs
  All-zip P Q [] h k = tt
  All-zip P Q (x ∷ xs) h k = ((h.0, k.0), All-zip P Q xs h.1 k.1)

module _ {A : Type 0} where
  pub rowcount-zero : (p : A → Bool) (xs : List A) → rowcount p xs ≡ 0 → All (λ a. p a ≡ false) xs
  rowcount-zero p [] h = tt
  rowcount-zero p (x ∷ xs) h = elim (Bool-cases (p x)) [
    | inl e ↦ absurd (ground arith)
    | inr e ↦ (e, rowcount-zero p xs (ground arith))
  ]

  -- What every row has, the rows of a SELECT have, beside its clause.
  pub All-select :
      (P : A → Type 0) (p : A → Bool) (xs : List A)
      → All P xs
      → All (λ a. (p a ≡ true) × P a) (select p xs)
  All-select P p [] h = tt
  All-select P p (x ∷ xs) h = elim (Bool-cases (p x)) [
    | inl e ↦ rw e ((e, h.0), All-select P p xs h.1)
    | inr e ↦ rw e (All-select P p xs h.1)
  ]
