-- ===== src/Base/Lists.antt =====
-- Lists over the native numbers, Python's `in`, and a predicate that holds of every item.
use Prim.Native.Nat.{ℕ, zero, suc, ◌+◌, ◌≤◌}
use mathlib.Core.Path.{◌≡◌, refl}
use mathlib.Core.Bool.{Bool, false, ◌||◌}
use mathlib.Core.List.Memᴰ.{head, tail}
use mathlib.Core.List.{List, Memᴰ, [], ◌∷◌, ◌++◌, map}
use native.Mathlib.Omega.{arith}
use life_man.Base.Tests.{Eq, if◌then◌else◌, ltb, nat_eq, string_eq, ◌==◌}

module _ {ℓ} {A : Type ℓ} where
  abbrev pub length : List A → ℕ
  length [] = 0
  length (x ∷ xs) = suc (length xs)

  abbrev pub take : ℕ → List A → List A
  take zero xs = []
  take (suc n) [] = []
  take (suc n) (x ∷ xs) = x ∷ take n xs

  -- A row among sorted rows, and `ORDER BY`.
  abbrev pub insert_sorted : (A → A → Bool) → A → List A → List A
  insert_sorted less a [] = a ∷ []
  insert_sorted less a (x ∷ xs) =
      let rest = insert_sorted less a xs in if less a x then a ∷ x ∷ xs else x ∷ rest

  abbrev pub sort_by : (A → A → Bool) → List A → List A
  sort_by less [] = []
  sort_by less (x ∷ xs) = insert_sorted less x (sort_by less xs)

  pub length-append : (xs ys : List A) → length (xs ++ ys) ≡ length xs + length ys
  length-append [] ys = omega arith
  length-append (x ∷ xs) ys = omega (arith, length-append xs ys)

  -- `list(xs)[1:]`
  abbrev pub drop_first : List A → List A
  drop_first [] = []
  drop_first (x ∷ xs) = xs

  -- `deque(maxlen=cap).append(x)`: the oldest item makes room.
  abbrev pub append_bounded : ℕ → List A → A → List A
  append_bounded cap xs x = if ltb (length xs) cap then xs ++ x ∷ [] else drop_first (xs ++ x ∷ [])

  pub length-append_bounded :
      (cap : ℕ) (xs : List A) (x : A) → length xs ≤ cap → length (append_bounded cap xs x) ≤ cap
  length-append_bounded cap [] x h = ground arith
  length-append_bounded cap (y ∷ ys) x h = ground (arith, length-append ys (x ∷ []))

module _ {ℓ κ} {A : Type ℓ} where
  -- Every item has the property.
  abbrev pub All : (A → Type κ) → List A → Type κ
  All P [] = Unit
  All P (x ∷ xs) = P x × All P xs

  pub All-append : (P : A → Type κ) (l m : List A) → All P l → All P m → All P (l ++ m)
  All-append P [] m h k = k
  All-append P (x ∷ l) m (first_one, h) k = (first_one, All-append P l m h k)

  pub All-drop_first : (P : A → Type κ) (xs : List A) → All P xs → All P (drop_first xs)
  All-drop_first P [] h = h
  All-drop_first P (x ∷ xs) h = h.1

  pub All-map :
      (P Q : A → Type κ) (f : A → A) (xs : List A)
      → ((a : A) → P a → Q (f a))
      → All P xs
      → All Q (map f xs)
  All-map P Q f [] k h = tt
  All-map P Q f (x ∷ xs) k h = (k x h.0, All-map P Q f xs k h.1)

  pub All-mono : (P Q : A → Type κ) (xs : List A) → ((a : A) → P a → Q a) → All P xs → All Q xs
  All-mono P Q [] k h = tt
  All-mono P Q (x ∷ xs) k h = (k x h.0, All-mono P Q xs k h.1)

module _ {ℓ} {A : Type ℓ} where
  -- Every element of a list stands in it.
  pub All-Mem : (xs : List A) → All (λ a. Memᴰ a xs) xs
  All-Mem [] = tt
  All-Mem (x ∷ xs) =
      (head refl, All-mono (λ a. Memᴰ a xs) (λ a. Memᴰ a (x ∷ xs)) xs (λ a m. tail m) (All-Mem xs))

module _ {A : Type 0} ⦃e : Eq A⦄ where
  -- `a in xs`
  abbrev pub elem : A → List A → Bool
  elem a [] = false
  elem a (x ∷ xs) = (x == a) || elem a xs
