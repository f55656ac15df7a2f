-- ===== src/Base/Rows.antt =====
-- A database table as the list of its rows, and the four statements the program makes on one:
-- SELECT, UPDATE, its row count, and DELETE, each under a WHERE clause.
use Prim.Native.Nat.{ℕ, suc}
use mathlib.Core.Path.{◌≡◌, refl, ap}
use mathlib.Core.Bool.{Bool, true, false}
use mathlib.Core.Option.{Option, none, some}
use mathlib.Core.Logic.{◌⊎◌, inl, inr}
use mathlib.Core.List.Memᴰ.{head, tail}
use mathlib.Core.List.{List, Memᴰ, [], ◌∷◌, ◌++◌}
use native.Mathlib.Omega.{arith}
use life_man.Base.Tests.{Bool-cases, Option-cases, if◌then◌else◌, is_some}
use life_man.Base.Lists.{length}

module _ {ℓ} {A : Type ℓ} where
  abbrev pub select : (A → Bool) → List A → List A
  select p [] = []
  select p (x ∷ xs) = let rest = select p xs in if p x then x ∷ rest else rest

  abbrev pub first : (A → Bool) → List A → Option A
  first p [] = none
  first p (x ∷ xs) = let rest = first p xs in if p x then some x else rest

  abbrev pub update : (A → Bool) → (A → A) → List A → List A
  update p f [] = []
  update p f (x ∷ xs) = (if p x then f x else x) ∷ update p f xs

  abbrev pub rowcount : (A → Bool) → List A → ℕ
  rowcount p [] = 0
  rowcount p (x ∷ xs) = let rest = rowcount p xs in if p x then suc rest else rest

  abbrev pub delete : (A → Bool) → List A → List A
  delete p [] = []
  delete p (x ∷ xs) = let rest = delete p xs in if p x then rest else x ∷ rest

  -- `INSERT … ON CONFLICT DO UPDATE`, and the same by hand: the row that is there is changed, or a new one
  -- is put in.
  abbrev pub upsert : (A → Bool) → (A → A) → A → List A → List A
  upsert p f a xs = if is_some (first p xs) then update p f xs else xs ++ a ∷ []

  -- A row that is found satisfies the clause.
  pub first_sound : (p : A → Bool) (xs : List A) {a : A} → first p xs ≡ some a → p a ≡ true
  first_sound p [] h = cc
  first_sound p (x ∷ xs) h = elim (Bool-cases (p x)) [
    | inl e ↦ ground arith
    | inr e ↦ first_sound p xs (ground arith)
  ]

  -- A row that is found stands in the table.
  pub first-Mem : (p : A → Bool) (xs : List A) {a : A} → first p xs ≡ some a → Memᴰ a xs
  first-Mem p [] h = cc
  first-Mem p (x ∷ xs) h = elim (Bool-cases (p x)) [
    | inl e ↦ head (ground arith)
    | inr e ↦ tail (first-Mem p xs (ground arith))
  ]

  -- The row that a statement leaves behind: changed if the clause held of it.
  abbrev pub updated : (A → Bool) → (A → A) → Option A → Option A
  updated p f none = none
  updated p f (some a) = some (if p a then f a else a)

  -- A lookup after an UPDATE that leaves the looked-up key alone finds the updated row.
  pub first-update :
      (q p : A → Bool) (f : A → A) (xs : List A)
      → ((a : A) → q (f a) ≡ q a)
      → first q (update p f xs) ≡ updated p f (first q xs)
  first-update q p f [] h = refl
  first-update q p f (x ∷ xs) h = elim (Bool-cases (p x)) [
    | inl e ↦ rw e (
        rw (h x) (elim (Bool-cases (q x)) [
          | inl k ↦ simp (k, e)
          | inr k ↦ simp k (first-update q p f xs h)
        ]))
    | inr e ↦
        rw e (elim (Bool-cases (q x)) [
          | inl k ↦ simp (k, e)
          | inr k ↦ simp k (first-update q p f xs h)
        ])
  ]

  -- The row that is looked up by the clause of the UPDATE is changed.
  pub first-update_hit :
      (q : A → Bool) (f : A → A) (xs : List A) {a : A}
      → ((x : A) → q (f x) ≡ q x)
      → first q xs ≡ some a
      → first q (update q f xs) ≡ some (f a)
  first-update_hit q f xs {a} keeps e =
      rw (first-update q q f xs keeps) (rw e (rw (first_sound q xs e) refl))

  -- An INSERT of a row that is looked up, where there was none.
  pub first-append :
      (q : A → Bool) (xs : List A) (a : A)
      → first q xs ≡ none
      → q a ≡ true
      → first q (xs ++ a ∷ []) ≡ some a
  first-append q [] a e h = rw h refl
  first-append q (x ∷ xs) a e h = elim (Bool-cases (q x)) [
    | inl k ↦ absurd (ground arith)
    | inr k ↦ rw k (first-append q xs a (ground arith) h)
  ]

  -- An INSERT after a row that is found.
  pub first-append_found :
      (q : A → Bool) (xs ys : List A) {a : A} → first q xs ≡ some a → first q (xs ++ ys) ≡ some a
  first-append_found q [] ys e = cc
  first-append_found q (x ∷ xs) ys e = elim (Bool-cases (q x)) [
    | inl k ↦ ground arith
    | inr k ↦ rw k (first-append_found q xs ys (ground arith))
  ]

  -- An INSERT of another row.
  pub first-append_off :
      (q : A → Bool) (xs : List A) (a : A) → q a ≡ false → first q (xs ++ a ∷ []) ≡ first q xs
  first-append_off q [] a h = rw h refl
  first-append_off q (x ∷ xs) a h = elim (Bool-cases (q x)) [
    | inl k ↦ rw k refl
    | inr k ↦ rw k (first-append_off q xs a h)
  ]

  -- The row after an upsert is the changed one or the new one.
  pub first-upsert :
      (q : A → Bool) (f : A → A) (a : A) (xs : List A)
      → ((x : A) → q (f x) ≡ q x)
      → q a ≡ true
      → (r : A) × (first q (upsert q f a xs) ≡ some r)
        × ((r ≡ a) ⊎ ((x : A) × (first q xs ≡ some x) × (r ≡ f x)))
  first-upsert q f a xs keeps new = elim (Option-cases (first q xs)) [
    | inl e ↦ (a, rw e (first-append q xs a e new), inl refl)
    | inr (x, e) ↦ (f x, rw e (first-update_hit q f xs keeps e), inr (x, e, refl))
  ]

  -- An upsert of a row that is not looked up.
  pub first-upsert_off :
      (q p : A → Bool) (f : A → A) (a : A) (xs : List A)
      → ((x : A) → q (f x) ≡ q x)
      → ((x : A) → q x ≡ true → p x ≡ false)
      → q a ≡ false
      → first q (upsert p f a xs) ≡ first q xs
  first-upsert_off q p f a xs keeps off new = elim (Bool-cases (is_some (first p xs))) [
    | inr e ↦ rw e (first-append_off q xs a new)
    | inl e ↦ rw e (
        rw (first-update q p f xs keeps) (elim (Option-cases (first q xs)) [
          | inl k ↦ rw k refl
          | inr (x, k) ↦ rw k (rw (off x (first_sound q xs k)) refl)
        ]))
  ]

  -- What is deleted is not found.
  pub first-delete : (q : A → Bool) (xs : List A) → first q (delete q xs) ≡ none
  first-delete q [] = refl
  first-delete q (x ∷ xs) = elim (Bool-cases (q x)) [
    | inl k ↦ rw k (first-delete q xs)
    | inr k ↦ rw k (rw k (first-delete q xs))
  ]

  -- A DELETE of every row that is looked up.
  pub first-delete_all :
      (q p : A → Bool) (xs : List A)
      → ((a : A) → q a ≡ true → p a ≡ true)
      → first q (delete p xs) ≡ none
  first-delete_all q p [] h = refl
  first-delete_all q p (x ∷ xs) h = elim (Bool-cases (p x)) [
    | inl m ↦ rw m (first-delete_all q p xs h)
    | inr m ↦ elim (Bool-cases (q x)) [
      | inl k ↦ absurd (ground (arith, h x k))
      | inr k ↦ rw m (rw k (first-delete_all q p xs h))
    ]
  ]

  -- A DELETE of rows that are not looked up.
  pub first-delete_off :
      (q p : A → Bool) (xs : List A)
      → ((a : A) → q a ≡ true → p a ≡ false)
      → first q (delete p xs) ≡ first q xs
  first-delete_off q p [] h = refl
  first-delete_off q p (x ∷ xs) h = elim (Bool-cases (q x)) [
    | inl k ↦ rw (k, h x k) (rw k refl)
    | inr k ↦ elim (Bool-cases (p x)) [
      | inl m ↦ rw (k, m) (first-delete_off q p xs h)
      | inr m ↦ rw (k, m) (rw k (first-delete_off q p xs h))
    ]
  ]

  -- A SELECT that keeps the row that is looked up leaves it to be found.
  pub first-select :
      (q p : A → Bool) (xs : List A) {a : A}
      → first q xs ≡ some a
      → p a ≡ true
      → first q (select p xs) ≡ some a
  first-select q p [] e h = cc
  first-select q p (x ∷ xs) {a} e h = elim (Bool-cases (q x)) [
    | inl k ↦ let same : x ≡ a = ground arith in rw same (rw h (rw (first_sound q (x ∷ xs) e) refl))
    | inr k ↦
        let rest = first-select q p xs (ground arith) h in
        elim (Bool-cases (p x)) [ inl m ↦ rw (m, k) rest | inr m ↦ rw m rest ]
  ]

  -- An UPDATE whose clause its own change falsifies leaves no row that satisfies the clause.
  pub rowcount-update_off :
      (p : A → Bool) (f : A → A) (xs : List A)
      → ((a : A) → p a ≡ true → p (f a) ≡ false)
      → rowcount p (update p f xs) ≡ 0
  rowcount-update_off p f [] h = refl
  rowcount-update_off p f (x ∷ xs) h = elim (Bool-cases (p x)) [
    | inl e ↦ rw (e, h x e) (rowcount-update_off p f xs h)
    | inr e ↦ simp e (rowcount-update_off p f xs h)
  ]

  -- An UPDATE whose clause holds of no row changes nothing.
  pub update-none :
      (p : A → Bool) (f : A → A) (xs : List A) → rowcount p xs ≡ 0 → update p f xs ≡ xs
  update-none p f [] h = refl
  update-none p f (x ∷ xs) h = elim (Bool-cases (p x)) [
    | inl e ↦ absurd (ground arith)
    | inr e ↦ simp e (ap (λ (l : List A). x ∷ l) (update-none p f xs (ground arith)))
  ]

  pub length-update : (p : A → Bool) (f : A → A) (xs : List A) → length (update p f xs) ≡ length xs
  length-update p f [] = refl
  length-update p f (x ∷ xs) = omega (arith, length-update p f xs)
