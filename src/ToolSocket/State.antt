-- ===== src/ToolSocket/State.antt =====
-- The methods `state_get`, `state_set`, `state_delete` and `state_list` of src/lifeman/tool_socket.py, on the
-- table `tool_state`.
use life_man.Base.{
  Bool, List, Option, Result, String, [], count_chars, delete, first, if◌then◌else◌, is_empty, ltb,
  nat_eq, none, ok, raised, replace, rowcount, select, some, sort_by, string_eq, true, upsert, ℕ,
  ◌&&◌, ◌<>◌, ◌==◌, ◌∷◌,
}
use life_man.Json.{
  Fields, Items, Value, arr, bool, cons, end, field, get, get_default, nil, null, obj, str,
}
use life_man.ToolSocket.{Reply, error, given_text, result}

-- A row of `tool_state`.
pub record Entry : Type 0 where
  pub tool_name : String
  pub key : String
  pub value_json : String
  pub updated_at : ℕ

abbrev pub max_value_chars : ℕ
max_value_chars = 65536

abbrev pub is_entry : String → String → Entry → Bool
is_entry tool key e = (e.tool_name == tool) && (e.key == key)

-- `json.dumps`, which may raise, `json.loads`, the ISO 8601 text of a time, SQLite's `LIKE … ESCAPE '\'`
-- and `<` on texts, and Python's integer of a count.
pub record Codec : Type 0 where
  pub dumps : Value → Result String
  pub loads : String → Option Value
  pub iso : ℕ → String
  pub like : String → String → Bool
  pub text_less : String → String → Bool
  pub show : ℕ → Value

module _ (c : Codec) where
  -- What the row of a key reads as.
  abbrev pub read_text : Option String → Reply
  read_text none = result null
  read_text (some text) = elim (c.loads text) [
    | none ↦ error "stored value is not valid JSON"
    | some v ↦ result v
  ]

  abbrev pub text_of : Option Entry → Option String
  text_of none = none
  text_of (some e) = some e.value_json

  unfoldable pub state_get : String → Fields → List Entry → Reply
  state_get tool params rows = elim (given_text "key" params) [
    | none ↦ error "missing 'key'"
    | some key ↦ read_text (text_of (first (is_entry tool key) rows))
  ]

  -- The checks of `state_set`: the key, and the text to store.
  unfoldable pub set_request : Fields → Result (String × String)
  set_request params = elim (given_text "key" params) [
    | none ↦ raised "missing 'key'"
    | some key ↦ elim (get "value" params) [
      | none ↦ raised "missing 'value'"
      | some v ↦ elim (c.dumps v) [
        | raised e ↦ raised ("value not JSON-serialisable: " <> e)
        | ok text ↦
            if ltb max_value_chars (count_chars text)
            then raised "value too large (max 64 KB serialised)"
            else ok (key, text)
      ]
    ]
  ]

  abbrev pub entry : String → String → String → ℕ → Entry
  entry tool key text now = record {
    tool_name = tool;
    key = key;
    value_json = text;
    updated_at = now;
  }

  abbrev pub changed : String → ℕ → Entry → Entry
  changed text now e = record e { value_json = text; updated_at = now }

  abbrev pub write : String → ℕ → List Entry → Result (String × String) → Reply × List Entry
  write tool now rows (raised e) = (error e, rows)
  write tool now rows (ok (key, text)) = (
    result (obj (field "ok" (bool true) (field "updated_at" (str (c.iso now)) end))),
    upsert (is_entry tool key) (changed text now) (entry tool key text now) rows,
  )

  unfoldable pub state_set : String → Fields → ℕ → List Entry → Reply × List Entry
  state_set tool params now rows = write tool now rows (set_request params)

  abbrev pub erase : String → List Entry → Option String → Reply × List Entry
  erase tool rows none = (error "missing 'key'", rows)
  erase tool rows (some key) = (
    result (
        obj (
          field "ok" (bool true)
            (field "deleted" (c.show (rowcount (is_entry tool key) rows)) end))),
    delete (is_entry tool key) rows,
  )

  unfoldable pub state_delete : String → Fields → List Entry → Reply × List Entry
  state_delete tool params rows = erase tool rows (given_text "key" params)

  -- The wildcards of LIKE, escaped.
  abbrev pub escaped : String → String
  escaped prefix = replace (replace (replace prefix "\\" "\\\\") "%" "\\%") "_" "\\_"

  abbrev listed : List Entry → Items
  listed [] = nil
  listed (e ∷ es) =
      cons (obj (field "key" (str e.key) (field "updated_at" (str (c.iso e.updated_at)) end)))
        (listed es)

  abbrev listing : (Entry → Bool) → List Entry → Reply
  listing p rows =
      result (
        arr (listed (sort_by (λ (a : Entry) (b : Entry). c.text_less a.key b.key) (select p rows))))

  unfoldable pub state_list : String → Fields → List Entry → Reply
  state_list tool params rows = elim (get_default "prefix" null params) [
    | null ↦ listing (λ e. e.tool_name == tool) rows
    | str prefix ↦
        if is_empty prefix
        then listing (λ e. e.tool_name == tool) rows
        else listing (λ e. (e.tool_name == tool) && c.like e.key (escaped prefix <> "%")) rows
    | _ ↦ error "'prefix' must be a string"
  ]
