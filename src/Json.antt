-- ===== src/Json.antt =====
-- JSON values, as `json.loads` gives them to the program: scopes, arguments, event data.
-- Numbers are integers; a float has no counterpart here. Two values are compared by Python's `==`:
-- `True == 1`, and the order of a dict's keys does not count.
pub mod Merge
use life_man.Base.{
  Bool, Option, String, false, if◌then◌else◌, is_empty, nat_eq, none, not, refl, some, string_eq,
  suc, true, ℕ, ◌&&◌, ◌==◌, ◌||◌, ◌≡◌,
}

-- `negsuc n` is -(n + 1).
pub data ℤ : Type 0 where
  pos : ℕ → ℤ
  negsuc : ℕ → ℤ

mutual
  pub data Value : Type 0 where
    null : Value
    bool : Bool → Value
    num : ℤ → Value
    str : String → Value
    arr : Items → Value
    obj : Fields → Value

  -- A dict; no key stands twice in what the parser returns.
  pub data Fields : Type 0 where
    end : Fields
    field : String → Value → Fields → Fields

  pub data Items : Type 0 where
    nil : Items
    cons : Value → Items → Items

-- `d.get(k)`
unfoldable pub get : String → Fields → Option Value
get k end = none
get k (field j v fs) = let rest = get k fs in if j == k then some v else rest

-- `d[k] = v`: an entry that is there keeps its place.
unfoldable pub put : String → Value → Fields → Fields
put k v end = field k v end
put k v (field j w fs) = let rest = put k v fs in if j == k then field j v fs else field j w rest

-- `d.get(k, default)` where the default is a value
abbrev pub get_default : String → Value → Fields → Value
get_default k d fs = elim (get k fs) [ none ↦ d | some v ↦ v ]

-- `len(d)`
abbrev pub size : Fields → ℕ
size end = 0
size (field k v fs) = suc (size fs)

abbrev ℤ_beq : ℤ → ℤ → Bool
ℤ_beq (pos a) (pos b) = a == b
ℤ_beq (negsuc a) (negsuc b) = a == b
ℤ_beq _ _ = false

-- `int(b)`
abbrev pub int_of : Bool → ℤ
int_of true = pos 1
int_of false = pos 0

-- Python's `==`
unfoldable mutual
  unfolding get

  pub beq : Value → Value → Bool
  beq null null = true
  beq (bool a) (bool b) = ℤ_beq (int_of a) (int_of b)
  beq (bool a) (num n) = ℤ_beq (int_of a) n
  beq (num n) (bool b) = ℤ_beq n (int_of b)
  beq (num n) (num m) = ℤ_beq n m
  beq (str s) (str t) = s == t
  beq (arr xs) (arr ys) = beq_items xs ys
  beq (obj fs) (obj gs) = (size fs == size gs) && beq_fields fs gs
  beq _ _ = false

  pub beq_items : Items → Items → Bool
  beq_items nil nil = true
  beq_items (cons x xs) (cons y ys) = beq x y && beq_items xs ys
  beq_items _ _ = false

  -- Every entry of the first dict stands in the second.
  pub beq_fields : Fields → Fields → Bool
  beq_fields end gs = true
  beq_fields (field k v fs) gs =
      elim (get k gs) [ none ↦ false | some w ↦ beq v w ] && beq_fields fs gs

-- `actual in options`
unfoldable pub in_items : Value → Items → Bool
in_items actual nil = false
in_items actual (cons x xs) = beq x actual || in_items actual xs

-- The truth of a value: `if x`.
abbrev pub truthy : Value → Bool
truthy null = false
truthy (bool b) = b
truthy (num (pos n)) = not (n == 0)
truthy (num (negsuc n)) = true
truthy (str s) = not (is_empty s)
truthy (arr nil) = false
truthy (arr (cons x xs)) = true
truthy (obj end) = false
truthy (obj (field k v fs)) = true

order_of_keys :
    beq
      (obj (field "a" (num (pos 1)) (field "b" null end)))
      (obj (field "b" null (field "a" (bool true) end)))
    ≡ true
unfolding beq
order_of_keys = refl
