-- ===== src/UserState/Settings.antt =====
-- The table `user_settings` (src/lifeman/user_settings.py). `json.dumps` and `json.loads` are arguments.
use life_man.Base.{
  Bool, List, Option, String, [], ap, arith, delete, eq_iff, first, first-delete, first-upsert,
  first-upsert_off, get_or, inl, inr, nat_eq, none, not, refl, rowcount, some, string_eq, upsert, ℕ,
  ◌==◌, ◌∙◌, ◌∷◌, ◌≡◌, ◌≢◌,
}
use life_man.Json.{Fields, Value, end, field}

-- A row of `user_settings`.
pub record Setting : Type 0 where
  pub key : String
  pub value_json : String
  pub updated_at : ℕ

abbrev pub is_setting : String → Setting → Bool
is_setting key r = r.key == key

module _ (dumps : Value → String) (loads : String → Option Value) where
  abbrev read_setting : Value → Option Setting → Value
  read_setting default none = default
  read_setting default (some r) = get_or (loads r.value_json) default

  unfoldable pub get_setting : String → Value → List Setting → Value
  get_setting key default rows = read_setting default (first (is_setting key) rows)

  abbrev pub new_setting : String → Value → ℕ → Setting
  new_setting key v now = record { key = key; value_json = dumps v; updated_at = now }

  abbrev pub changed : Value → ℕ → Setting → Setting
  changed v now r = record r { value_json = dumps v; updated_at = now }

  unfoldable pub set_setting : String → Value → ℕ → List Setting → List Setting
  set_setting key v now rows = upsert (is_setting key) (changed v now) (new_setting key v now) rows

  unfoldable pub delete_setting : String → List Setting → Bool × List Setting
  delete_setting key rows =
      (not (rowcount (is_setting key) rows == 0), delete (is_setting key) rows)

  -- Rows that do not parse are left out.
  unfoldable pub list_settings : List Setting → Fields
  list_settings [] = end
  list_settings (r ∷ rows) = elim (loads r.value_json) [
    | none ↦ list_settings rows
    | some v ↦ field r.key v (list_settings rows)
  ]

  -- A setting that was set reads back, with any default; every other key reads as before; and after the
  -- setting is deleted, its key reads as the default.
  setting_reads_back :
      (key other : String) (v default : Value) (now : ℕ) (rows : List Setting)
      → loads (dumps v) ≡ some v
      → other ≢ key
      → let rows' = set_setting key v now rows in
        (get_setting key default rows' ≡ v)
        × (get_setting other default rows' ≡ get_setting other default rows)
        × (get_setting key default (delete_setting key rows').1 ≡ default)
  unfolding get_setting set_setting delete_setting
  setting_reads_back key other v default now rows law ne = (
    let (r, found, either) =
          first-upsert (is_setting key) (changed v now) (new_setting key v now) rows (λ a. refl)
            (ground (arith, eq_iff key key)) in
        ap (read_setting default) found
        ∙ elim either [ inl e ↦ rw e (rw law refl) | inr (x, _, e) ↦ rw e (rw law refl) ],
    ap (read_setting default) (
        first-upsert_off (is_setting other) (is_setting key) (changed v now) (new_setting key v now)
          rows (λ a. refl) (λ a e. ground (arith, eq_iff a.key other, eq_iff a.key key))
          (ground (arith, eq_iff key other))),
    ap (read_setting default) (first-delete (is_setting key) (set_setting key v now rows)),
  )
