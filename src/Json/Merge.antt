-- ===== src/Json/Merge.antt =====
-- A dict that is spread over another: every entry of the second is set in the first.
use life_man.Base.{
  Bool-cases, Option, String, ap, arith, eq_iff, if◌then◌else◌, inl, inr, nat_eq, refl, some,
  string_eq, ◌==◌, ◌∙◌, ◌≡◌,
}
use life_man.Json.{Fields, Value, end, field, get, put}

-- `{**fs, **gs}`
abbrev pub merge : Fields → Fields → Fields
merge fs end = fs
merge fs (field k v gs) = merge (put k v fs) gs

pub get-put :
    (k j : String) (v : Value) (fs : Fields)
    → get k (put j v fs) ≡ (if j == k then some v else get k fs)
unfolding get put
get-put k j v end = refl
get-put k j v (field i w fs) = elim (Bool-cases (i == j)) [
  | inl e ↦
      let same : i ≡ j = (eq_iff i j).0 e in
      rw e (rw same (elim (Bool-cases (j == k)) [ inl m ↦ rw m refl | inr m ↦ rw m refl ]))
  | inr e ↦ rw e (ground (arith, eq_iff i k, eq_iff j k, eq_iff i j, get-put k j v fs))
]

-- The last entry under a key.
abbrev pub last_of : String → Fields → Option Value → Option Value
last_of k end found = found
last_of k (field j v fs) found = last_of k fs (if j == k then some v else found)

pub get-merge : (k : String) (fs gs : Fields) → get k (merge fs gs) ≡ last_of k gs (get k fs)
get-merge k fs end = refl
get-merge k fs (field j v gs) = get-merge k (put j v fs) gs ∙ ap (last_of k gs) (get-put k j v fs)
