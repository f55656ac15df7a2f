-- ===== src/Memory/Refs.antt =====
-- The check of references to memories (`missing_memory_refs` of src/lifeman/memory/__init__.py), which schedules
-- are refused by. `ref_ids` holds any JSON values.
use life_man.Base.{
  All, Bool-cases, List, Option, Option-cases, String, [], ap, arith, first, if◌then◌else◌, inl,
  inr, is_empty, is_some, length, nat_eq, none, refl, some, string_eq, suc, sym, ◌==◌, ◌↔◌, ◌∙◌,
  ◌∷◌, ◌≡◌, ◌≢◌, ◌≤◌,
}
use life_man.Json.{Value, str}
use life_man.Memory.{Memory, is_memory}

-- `isinstance(r, str) and r`
abbrev pub clean_ref : Value → Option String
clean_ref (str s) = if is_empty s then none else some s
clean_ref v = none

abbrev pub cleaned : List Value → List String
cleaned [] = []
cleaned (v ∷ vs) = elim (clean_ref v) [ none ↦ cleaned vs | some s ↦ s ∷ cleaned vs ]

abbrev pub malformed : List Value → List Value
malformed [] = []
malformed (v ∷ vs) = elim (clean_ref v) [ none ↦ v ∷ malformed vs | some s ↦ malformed vs ]

abbrev pub unknown : List Memory → List String → List Value
unknown ms [] = []
unknown ms (s ∷ ss) =
    let rest = unknown ms ss in if is_some (first (is_memory s) ms) then rest else str s ∷ rest

-- Where some reference is malformed, the well-formed ones are not looked up.
unfoldable pub missing_memory_refs : List Value → List Memory → List Value
missing_memory_refs refs ms =
    if length (cleaned refs) == length refs then unknown ms (cleaned refs) else malformed refs

-- A reference that resolves: a text that is not empty, and the id of a memory.
abbrev pub Resolves : List Memory → Value → Type 0
Resolves ms v =
    (s : String) × (m : Memory) × (clean_ref v ≡ some s) × (first (is_memory s) ms ≡ some m)

cleaned-none : (v : Value) (vs : List Value) → clean_ref v ≡ none → cleaned (v ∷ vs) ≡ cleaned vs
cleaned-none v vs e = rw (e, cleaned) refl

cleaned-some :
    (v : Value) (vs : List Value) (s : String)
    → clean_ref v ≡ some s
    → cleaned (v ∷ vs) ≡ s ∷ cleaned vs
cleaned-some v vs s e = rw (e, cleaned) refl

cleaned_short : (vs : List Value) → length (cleaned vs) ≤ length vs
cleaned_short [] = omega arith
cleaned_short (v ∷ vs) =
    let ih = cleaned_short vs in
    elim (Option-cases (clean_ref v)) [
      | inl e ↦ omega (arith, ih, ap length (cleaned-none v vs e))
      | inr (s, e) ↦ omega (arith, ih, ap length (cleaned-some v vs s e))
    ]

unknown_found :
    (ms : List Memory) (s : String) (ss : List String)
    → unknown ms (s ∷ ss) ≡ []
    → ((m : Memory) × (first (is_memory s) ms ≡ some m)) × (unknown ms ss ≡ [])
unknown_found ms s ss k = elim (Option-cases (first (is_memory s) ms)) [
  | inl e ↦ absurd (ground arith)
  | inr (m, e) ↦ ((m, e), ground arith)
]

All-clean :
    (ms : List Memory) (vs : List Value)
    → length (cleaned vs) ≡ length vs
    → unknown ms (cleaned vs) ≡ []
    → All (Resolves ms) vs
All-clean ms [] h k = tt
All-clean ms (v ∷ vs) h k = elim (Option-cases (clean_ref v)) [
  | inl e ↦ absurd (omega (arith, h, cleaned_short vs, ap length (cleaned-none v vs e)))
  | inr (s, e) ↦
      let found =
        unknown_found ms s (cleaned vs) (ap (unknown ms) (sym (cleaned-some v vs s e)) ∙ k) in
      let ((m, f), k') = found in
      ((s, m, e, f), All-clean ms vs (omega (arith, h, ap length (cleaned-some v vs s e))) k')
]

malformed_some : (vs : List Value) → length (cleaned vs) ≢ length vs → malformed vs ≢ []
malformed_some [] h k = h refl
malformed_some (v ∷ vs) h k = elim (Option-cases (clean_ref v)) [
  | inl e ↦ ground arith
  | inr (s, e) ↦
      malformed_some vs (λ l. h (ap length (cleaned-some v vs s e) ∙ ap suc l)) (ground arith)
]

unknown_none :
    (ms : List Memory) (s : String) (ss : List String) {m : Memory}
    → first (is_memory s) ms ≡ some m
    → unknown ms (s ∷ ss) ≡ unknown ms ss
unknown_none ms s ss f = rw (f, unknown) refl

resolved_clean :
    (ms : List Memory) (vs : List Value)
    → All (Resolves ms) vs
    → (length (cleaned vs) ≡ length vs) × (unknown ms (cleaned vs) ≡ [])
resolved_clean ms [] a = (refl, refl)
resolved_clean ms (v ∷ vs) ((s, m, e, f), a) =
    let (l, k) = resolved_clean ms vs a in
    (
      ap length (cleaned-some v vs s e) ∙ ap suc l,
      ap (unknown ms) (cleaned-some v vs s e) ∙ unknown_none ms s (cleaned vs) f ∙ k,
    )

-- Nothing is reported missing exactly when every reference is a text that is not empty and the id of a stored
-- memory.
pub missing_memory_refs_none_iff :
    (refs : List Value) (ms : List Memory)
    → (missing_memory_refs refs ms ≡ []) ↔ All (Resolves ms) refs
unfolding missing_memory_refs
missing_memory_refs_none_iff refs ms = elim (Bool-cases (length (cleaned refs) == length refs)) [
  | inl e ↦ (
    λ h. All-clean ms refs (ground arith) (ground arith),
    λ a. rw ((resolved_clean ms refs a).1, e) refl,
  )
  | inr e ↦ (
    λ h. absurd (malformed_some refs (ground arith) (ground arith)),
    λ a. absurd (ground (arith, (resolved_clean ms refs a).0)),
  )
]
