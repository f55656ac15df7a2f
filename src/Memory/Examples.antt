-- ===== src/Memory/Examples.antt =====
-- Two memories, of which a query finds one, and a private note that is recorded.
use life_man.Base.{
  All, [], false, first, nat_eq, none, refl, string_eq, take_chars, true, ◌&&◌, ◌==◌, ◌↔◌, ◌∷◌, ◌≡◌,
}
use life_man.Json.{end, null, str}
use life_man.Audit.{no_effects}
use life_man.Memory.{Memory, MemoryStore, Sql, forget_matching, is_memory, recall}
use life_man.Memory.Producer.{Candidate, RecordMemoryResponse, Recorder, record_builtin}
use life_man.Memory.Refs.{Resolves, missing_memory_refs, missing_memory_refs_none_iff}
use life_man.Memory.Forget.{forget_matching_as_listed}

abbrev sql : Sql
sql = record {
  like = λ text pattern. text == "likes tea" && pattern == "%tea%";
  text_less = λ s t. false;
  show = λ n. "1";
}

abbrev tea : Memory
tea = record {
  id = "m1";
  content = "likes tea";
  type = "preference";
  tags = "drinks" ∷ [];
  sensitivity = "personal";
  source = "chat";
  created_at = "2026-01-01";
  classified_by = "builtin";
}

abbrev bus : Memory
bus = record tea { id = "m2"; content = "bus 7 at nine" }

abbrev store : MemoryStore
store = record { memories = tea ∷ bus ∷ []; fx = no_effects }

-- The memory that is listed is gone.
forget_matching_as_listed_example :
    ((forget_matching sql "tea" false "" "user" 25 0 store).0
      ≡ (forget_matching sql "tea" true "" "user" 25 0 store).0)
    × (first (is_memory "m1") (forget_matching sql "tea" false "" "user" 25 0 store).1.memories
        ≡ none)
unfolding forget_matching recall take_chars
forget_matching_as_listed_example = forget_matching_as_listed sql "tea" "" "user" 25 0 store "m1"

missing_memory_refs_none_iff_example :
    (missing_memory_refs (str "m2" ∷ str "m1" ∷ []) (tea ∷ bus ∷ []) ≡ [])
    ↔ All (Resolves (tea ∷ bus ∷ [])) (str "m2" ∷ str "m1" ∷ [])
missing_memory_refs_none_iff_example =
    missing_memory_refs_none_iff (str "m2" ∷ str "m1" ∷ []) (tea ∷ bus ∷ [])

-- One malformed reference hides an unknown one.
malformed_first : missing_memory_refs (str "gone" ∷ null ∷ []) (tea ∷ []) ≡ null ∷ []
unfolding missing_memory_refs
malformed_first = refl

-- The tag is looked for among the newest memory only.
tags_after_limit :
    recall sql
      (record {
        query = none;
        type = [];
        tags = "drinks" ∷ [];
        before = none;
        after = none;
        limit = 1;
      })
      (tea ∷ record bus { tags = [] } ∷ [])
    ≡ []
unfolding recall
tags_after_limit = refl

abbrev secret_note : Candidate
secret_note = record {
  content = "the spare key is under the pot";
  type_hint = none;
  tags = [];
  source = "chat";
  sensitivity = "private";
  expires_at = none;
  context = end;
  reason = "asked to";
}

abbrev empty_recorder : Recorder
empty_recorder = record {
  memory_events = [];
  tables = record { audit_table = []; dispatch_table = []; state = tea ∷ [] };
  fx = no_effects;
}

abbrev recorded : RecordMemoryResponse × Recorder
recorded =
    record_builtin (λ n. "2026-02-02") (λ t. none) (λ s. s) (λ s. 30) "e1" "m3" null 5 secret_note
      empty_recorder
