-- ===== src/Memory/Recorded.antt =====
-- What becomes of a candidate that is recorded where no tool is installed: `record_memory`, `builtin_route` and
-- `_store` of src/lifeman/memory together.
use life_man.Base.{String, [], get_or, if◌then◌else◌, nat_eq, string_eq, ℕ, ◌&&◌, ◌==◌, ◌∷◌}
use life_man.Routing.Routers.{no_tags}
use life_man.Inputs.{text_or}
use life_man.Memory.{Memory}
use life_man.Memory.Producer.{Candidate}

module _ (iso : ℕ → String) where
  -- The memory that a candidate becomes, with its own tags.
  abbrev pub kept : String → ℕ → Candidate → Memory
  kept mem_id now q = record {
    id = mem_id;
    content = q.content;
    type = text_or (get_or q.type_hint "") "episodic";
    tags = q.tags;
    sensitivity = q.sensitivity;
    source = q.source;
    created_at = iso now;
    classified_by = "router";
  }

  -- The same, tagged for review.
  abbrev pub becomes : String → ℕ → Candidate → Memory
  becomes mem_id now q = record (kept mem_id now q) {
    tags = if (q.sensitivity == "private") && no_tags q.tags then "needs_review" ∷ [] else q.tags;
  }
