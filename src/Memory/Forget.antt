-- ===== src/Memory/Forget.antt =====
-- What `forget_matching` of src/lifeman/memory/__init__.py deletes, against the dry run that lists it.
use life_man.Base.{
  Bool-cases, List, Option, String, [], ap, arith, delete, elem, eq_iff, false, first,
  first-delete_all, first-delete_off, if◌then◌else◌, inl, inr, is_empty, nat_eq, none, refl,
  string_eq, true, ℕ, ◌∙◌, ◌∷◌, ◌≡◌,
}
use life_man.Memory.{
  Memory, MemoryStore, Sql, forget_matching, ids_of, in_ids, is_memory, is_nil, matching, recall,
}

-- Whether a memory is deleted depends on its id alone.
by_id :
    (listed : List Memory) (id : String) (m : Memory)
    → is_memory id m ≡ true
    → in_ids listed m ≡ elem id (ids_of listed)
by_id listed id m h = ap (λ i. elem i (ids_of listed)) ((eq_iff m.id id).0 h)

first-delete_listed :
    (listed : List Memory) (id : String) (ms : List Memory)
    → first (is_memory id) (delete (in_ids listed) ms)
      ≡ (if elem id (ids_of listed) then none else first (is_memory id) ms)
first-delete_listed listed id ms = elim (Bool-cases (elem id (ids_of listed))) [
  | inl e ↦
      rw e (first-delete_all (is_memory id) (in_ids listed) ms (λ m h. by_id listed id m h ∙ e))
  | inr e ↦
      rw e (first-delete_off (is_memory id) (in_ids listed) ms (λ m h. by_id listed id m h ∙ e))
]

abbrev found : String → List Memory → MemoryStore → Option Memory
found id listed s = if elem id (ids_of listed) then none else first (is_memory id) s.memories

found_none :
    (id : String) (listed : List Memory) (s : MemoryStore)
    → is_nil (ids_of listed) ≡ true
    → first (is_memory id) s.memories ≡ found id listed s
found_none id [] s h = refl
found_none id (m ∷ ms) s h = ground arith

-- A run that is not dry answers with what the dry run listed, and afterwards a memory is found under an id exactly
-- as before, unless the id is one of a listed memory: then none is found.
pub forget_matching_as_listed :
    (sql : Sql) (query reason actor : String) (limit now : ℕ) (s : MemoryStore) (id : String)
    → let listed = (forget_matching sql query true reason actor limit now s).0 in
      let ran = forget_matching sql query false reason actor limit now s in
      (ran.0 ≡ listed) × (first (is_memory id) ran.1.memories ≡ found id listed s)
unfolding forget_matching
forget_matching_as_listed sql query reason actor limit now s id =
    elim (Bool-cases (is_empty query)) [
      | inl e ↦ rw e (refl, refl)
      | inr e ↦ elim (Bool-cases (is_nil (ids_of (recall sql (matching query limit) s.memories)))) [
        | inl k ↦ rw (e, k) (refl, found_none id (recall sql (matching query limit) s.memories) s k)
        | inr k ↦
            rw (e, k)
              (
                refl,
                first-delete_listed (recall sql (matching query limit) s.memories) id s.memories,
              )
      ]
    ]
