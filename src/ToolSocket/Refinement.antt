-- ===== src/ToolSocket/Refinement.antt =====
-- The table `tool_state` as a function from tools and keys to texts.
use mathlib.Core.Path.{fun_ext}
use life_man.Base.{
  Bool-cases, List, Option, Result, String, [], ap, arith, delete, eq_iff, false, first,
  first-delete, first-delete_off, first-upsert, first-upsert_off, if◌then◌else◌, inl, inr, nat_eq,
  none, ok, raised, refl, some, string_eq, subst, true, upsert, ℕ, ◌&&◌, ◌==◌, ◌∙◌, ◌∷◌, ◌≡◌,
}
use life_man.Json.{Fields}
use life_man.ToolSocket.{Reply, error, given_text}
use life_man.ToolSocket.State.{
  Codec, Entry, changed, entry, erase, is_entry, read_text, set_request, state_delete, state_get,
  state_set, text_of, write,
}

-- The requests that change the table, of any tools.
pub data StateRequest : Type 0 where
  set_request_of : String → Fields → ℕ → StateRequest
  delete_request_of : String → Fields → StateRequest

-- What each tool keeps under each key.
abbrev pub Keeps : Type 0
Keeps = String → String → Option String

abbrev pub assign : String → String → Option String → Keeps → Keeps
assign tool key text f t k = if (tool == t) && (key == k) then text else f t k

module _ (c : Codec) where
  unfoldable pub run : List StateRequest → List Entry → List Entry
  run [] rows = rows
  run (set_request_of tool params now ∷ rs) rows = run rs (state_set c tool params now rows).1
  run (delete_request_of tool params ∷ rs) rows = run rs (state_delete c tool params rows).1

  abbrev pub assign_written : String → Keeps → Result (String × String) → Keeps
  assign_written tool f (raised e) = f
  assign_written tool f (ok (key, text)) = assign tool key (some text) f

  abbrev pub assign_erased : String → Keeps → Option String → Keeps
  assign_erased tool f none = f
  assign_erased tool f (some key) = assign tool key none f

  -- The same requests on the function.
  abbrev pub replay : List StateRequest → Keeps → Keeps
  replay [] f = f
  replay (set_request_of tool params now ∷ rs) f =
      replay rs (assign_written tool f (set_request c params))
  replay (delete_request_of tool params ∷ rs) f =
      replay rs (assign_erased tool f (given_text "key" params))

  abbrev pub keeps : List Entry → Keeps
  keeps rows tool key = text_of c (first (is_entry tool key) rows)

  is_entry_off :
      (tool key t k : String) (e : Entry)
      → (tool == t) && (key == k) ≡ false
      → is_entry t k e ≡ true
      → is_entry tool key e ≡ false
  is_entry_off tool key t k e h m = ground (
    arith,
    eq_iff e.tool_name tool,
    eq_iff e.key key,
    eq_iff e.tool_name t,
    eq_iff e.key k,
    eq_iff tool t,
    eq_iff key k,
  )

  abbrev set_rows : String → String → String → ℕ → List Entry → List Entry
  set_rows tool key text now rows =
      upsert (is_entry tool key) (changed c text now) (entry c tool key text now) rows

  set_here :
      (tool key text : String) (now : ℕ) (rows : List Entry)
      → keeps (set_rows tool key text now rows) tool key ≡ some text
  set_here tool key text now rows =
      let (r, found, either) =
        first-upsert (is_entry tool key) (changed c text now) (entry c tool key text now) rows
          (λ a. refl) (ground (arith, eq_iff tool tool, eq_iff key key)) in
      rw found (elim either [ inl e ↦ rw e refl | inr (x, _, e) ↦ rw e refl ])

  set_elsewhere :
      (tool key t k text : String) (now : ℕ) (rows : List Entry)
      → (tool == t) && (key == k) ≡ false
      → keeps (set_rows tool key text now rows) t k ≡ keeps rows t k
  set_elsewhere tool key t k text now rows off =
      rw
        (first-upsert_off (is_entry t k) (is_entry tool key) (changed c text now)
          (entry c tool key text now) rows (λ a. refl) (λ a e. is_entry_off tool key t k a off e)
          off)
        refl

  keeps-set :
      (tool key text : String) (now : ℕ) (rows : List Entry)
      → keeps (set_rows tool key text now rows) ≡ assign tool key (some text) (keeps rows)
  keeps-set tool key text now rows = fun_ext λ t. fun_ext λ k.
      elim (Bool-cases ((tool == t) && (key == k))) [
        | inl e ↦
            let same : tool ≡ t = ground (arith, eq_iff tool t) in
            let same' : key ≡ k = ground (arith, eq_iff key k) in
            rw e (
              subst (λ (x : String). keeps (set_rows tool key text now rows) x k ≡ some text) same
                (subst (λ (y : String). keeps (set_rows tool key text now rows) tool y ≡ some text)
                  same' (set_here tool key text now rows)))
        | inr e ↦ rw e (set_elsewhere tool key t k text now rows e)
      ]

  deleted_here :
      (tool key : String) (rows : List Entry)
      → keeps (delete (is_entry tool key) rows) tool key ≡ none
  deleted_here tool key rows = rw (first-delete (is_entry tool key) rows) refl

  keeps-delete :
      (tool key : String) (rows : List Entry)
      → keeps (delete (is_entry tool key) rows) ≡ assign tool key none (keeps rows)
  keeps-delete tool key rows = fun_ext λ t. fun_ext λ k.
      elim (Bool-cases ((tool == t) && (key == k))) [
        | inl e ↦
            let same : tool ≡ t = ground (arith, eq_iff tool t) in
            let same' : key ≡ k = ground (arith, eq_iff key k) in
            rw e (
              subst (λ (x : String). keeps (delete (is_entry tool key) rows) x k ≡ none) same
                (subst (λ (y : String). keeps (delete (is_entry tool key) rows) tool y ≡ none) same'
                  (deleted_here tool key rows)))
        | inr e ↦ rw e (
            rw
              (first-delete_off (is_entry t k) (is_entry tool key) rows
                (λ a. is_entry_off tool key t k a e))
              refl)
      ]

  keeps-write :
      (tool : String) (now : ℕ) (rows : List Entry) (r : Result (String × String))
      → keeps (write c tool now rows r).1 ≡ assign_written tool (keeps rows) r
  keeps-write tool now rows (raised e) = refl
  keeps-write tool now rows (ok (key, text)) = keeps-set tool key text now rows

  keeps-erase :
      (tool : String) (rows : List Entry) (key : Option String)
      → keeps (erase c tool rows key).1 ≡ assign_erased tool (keeps rows) key
  keeps-erase tool rows none = refl
  keeps-erase tool rows (some key) = keeps-delete tool key rows

  keeps-run :
      (rs : List StateRequest) (rows : List Entry) → keeps (run rs rows) ≡ replay rs (keeps rows)
  unfolding run state_set state_delete
  keeps-run [] rows = refl
  keeps-run (set_request_of tool params now ∷ rs) rows =
      keeps-run rs (write c tool now rows (set_request c params)).1
      ∙ ap (replay rs) (keeps-write tool now rows (set_request c params))
  keeps-run (delete_request_of tool params ∷ rs) rows =
      keeps-run rs (erase c tool rows (given_text "key" params)).1
      ∙ ap (replay rs) (keeps-erase tool rows (given_text "key" params))

  -- What the function answers to `state_get`.
  abbrev pub answer_from : Keeps → String → Option String → Reply
  answer_from f tool none = error "missing 'key'"
  answer_from f tool (some key) = read_text c (f tool key)

  get_lem :
      (tool : String) (params : Fields) (rows : List Entry)
      → state_get c tool params rows ≡ answer_from (keeps rows) tool (given_text "key" params)
  unfolding state_get
  get_lem tool params rows = ground arith

  -- After any sequence of requests by any tools, on any table, what `state_get` answers to any tool is
  -- what the same requests make of the function from tools and keys to texts that the table stands
  -- for: the last accepted write under that key by that tool, nothing after its deletion, and in
  -- no case what another tool wrote.
  pub state_refines :
      (rs : List StateRequest) (rows : List Entry) (tool : String) (params : Fields)
      → state_get c tool params (run rs rows)
        ≡ answer_from (replay rs (keeps rows)) tool (given_text "key" params)
  state_refines rs rows tool params =
      get_lem tool params (run rs rows)
      ∙ ap (λ (f : Keeps). answer_from f tool (given_text "key" params)) (keeps-run rs rows)
