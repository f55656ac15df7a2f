-- ===== src/Memory.antt =====
-- Stored memories (src/lifeman/memory/__init__.py): reading, editing and forgetting them;
-- `Memory.Producer` records them. SQLite's `LIKE` and its order of texts are arguments.
pub mod Producer
pub mod Recorded
pub mod Refs
pub mod Forget
pub mod Examples
use life_man.Base.{
  Bool, List, Option, String, [], delete, elem, false, first, get_or, has_text, if◌then◌else◌,
  is_empty, is_none, length, ltb, map, nat_eq, none, select, some, sort_by, string_eq, take,
  take_chars, true, update, ℕ, ◌&&◌, ◌<>◌, ◌==◌, ◌||◌, ◌∷◌,
}
use life_man.Audit.{Effects, log}

-- A row of `memories`; `created_at` is the text of the column.
pub record Memory : Type 0 where
  pub id : String
  pub content : String
  pub type : String
  pub tags : List String
  pub sensitivity : String
  pub source : String
  pub created_at : String
  pub classified_by : String

pub record MemoryStore : Type 0 where
  pub memories : List Memory
  pub fx : Effects

pub record Sql : Type 0 where
  -- `content LIKE pattern`
  pub like : String → String → Bool
  pub text_less : String → String → Bool
  -- `f"{n} memories"`
  pub show : ℕ → String

abbrev pub is_memory : String → Memory → Bool
is_memory id m = m.id == id

-- The arguments of `recall`.
pub record Query : Type 0 where
  pub query : Option String
  pub type : List String
  pub tags : List String
  pub before : Option String
  pub after : Option String
  pub limit : ℕ

abbrev pub is_nil : List String → Bool
is_nil [] = true
is_nil (x ∷ xs) = false

-- `all(t in m_tags for t in tags)`
abbrev pub has_tags : List String → Memory → Bool
has_tags [] m = true
has_tags (t ∷ ts) m = elem t m.tags && has_tags ts m

module _ (sql : Sql) where
  -- The WHERE clause of `recall`.
  abbrev pub is_recalled : Query → Memory → Bool
  is_recalled q m =
      (if has_text q.query then sql.like m.content ("%" <> get_or q.query "" <> "%") else true)
      && (if is_nil q.type then true else elem m.type q.type)
      && (if has_text q.before then sql.text_less m.created_at (get_or q.before "") else true)
      && (if has_text q.after then sql.text_less (get_or q.after "") m.created_at else true)

  abbrev pub max_recalled : ℕ
  max_recalled = 200

  -- `ORDER BY created_at DESC`
  abbrev pub newest_first : List Memory → List Memory
  newest_first ms =
      sort_by (λ (a : Memory) (b : Memory). sql.text_less b.created_at a.created_at) ms

  -- The tags are looked at after the LIMIT.
  unfoldable pub recall : Query → List Memory → List Memory
  recall q ms =
      let limit = if ltb q.limit max_recalled then q.limit else max_recalled in
      select (has_tags q.tags) (take limit (newest_first (select (is_recalled q) ms)))

unfoldable pub get_memory : String → List Memory → Option Memory
get_memory id ms = first (is_memory id) ms

abbrev pub edited : Option String → Option (List String) → Memory → Memory
edited content tags m = record m { content = get_or content m.content; tags = get_or tags m.tags }

unfoldable pub update_memory :
    String
    → Option String
    → Option (List String)
    → String
    → String
    → ℕ
    → MemoryStore
    → Bool × MemoryStore
update_memory id content tags reason actor now s =
    if is_none content && is_none tags
    then (false, s)
    else if is_none (first (is_memory id) s.memories)
    then (false, s)
    else (
      true,
      record s {
        memories = update (is_memory id) (edited content tags) s.memories;
        fx = log actor "update_memory" id "" "" reason now s.fx;
      },
    )

unfoldable pub forget : String → String → String → ℕ → MemoryStore → Bool × MemoryStore
forget id reason actor now s = if is_none (first (is_memory id) s.memories) then (false, s) else (
  true,
  record s {
    memories = delete (is_memory id) s.memories;
    fx = log actor "forget" id "" "" reason now s.fx;
  },
)

abbrev pub ids_of : List Memory → List String
ids_of ms = map (λ (m : Memory). m.id) ms

abbrev pub matching : String → ℕ → Query
matching query limit = record {
  query = some query;
  type = [];
  tags = [];
  before = none;
  after = none;
  limit = limit;
}

-- `DELETE … WHERE id IN (…)`
abbrev pub in_ids : List Memory → Memory → Bool
in_ids ms m = elem m.id (ids_of ms)

module _ (sql : Sql) where
  unfoldable pub forget_matching :
      String → Bool → String → String → ℕ → ℕ → MemoryStore → List Memory × MemoryStore
  forget_matching query dry_run reason actor limit now s =
      let matches = recall sql (matching query limit) s.memories in
      if is_empty query
      then ([], s)
      else if dry_run || is_nil (ids_of matches)
      then (matches, s)
      else (
        matches,
        record s {
          memories = delete (in_ids matches) s.memories;
          fx =
              log actor "forget_matching" (sql.show (length matches) <> " memories")
                (take_chars 200 query) "" reason now s.fx;
        },
      )
