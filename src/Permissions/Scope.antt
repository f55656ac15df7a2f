-- ===== src/Permissions/Scope.antt =====
-- Does a grant's scope cover a request? (`_predicate_match`, `_host_is_local` and `scope_matches` of
-- src/lifeman/permissions_runtime.py). A `none` is the `ValueError` of `urlparse`, which nothing
-- catches.
use text.Mathlib.Text.{starts_with}
use life_man.Base.{
  Bool, List, Option, String, [], contains_text, elem, false, get_or, if◌then◌else◌, is_empty,
  nat_eq, none, not, some, string_eq, true, ◌&&◌, ◌==◌, ◌||◌, ◌∷◌,
}
use life_man.Json.{Fields, Value, arr, beq, bool, end, field, get, in_items, null, obj, str, truthy}
use life_man.Permissions.{Runtime}

-- `any(k.startswith("$") for k in expected)`
abbrev pub has_operator : Fields → Bool
has_operator end = false
has_operator (field k v fs) = starts_with k "$" || has_operator fs

-- `x is True`
abbrev is_true : Option Value → Bool
is_true (some (bool b)) = b
is_true _ = false

abbrev pub local_names : List String
local_names = "localhost" ∷ "ip6-localhost" ∷ "ip6-loopback" ∷ []

abbrev pub network_keys : List String
network_keys = "host" ∷ "hostname" ∷ "url" ∷ "endpoint" ∷ []

-- What `network_mode` says.
pub data Mode : Type 0 where
  unrestricted local_only absent unknown : Mode

unfoldable pub mode_of : Option Value → Mode
mode_of none = absent
mode_of (some null) = absent
mode_of (some (str s)) =
    if s == "unrestricted" then unrestricted else if s == "local_only" then local_only else unknown
mode_of (some v) = unknown

-- The request's `args`, or the request itself.
abbrev args_or : Fields → Option Value → Fields
args_or fs (some (obj args)) = args
args_or fs v = fs

unfoldable pub candidate_of : Value → Fields
candidate_of (obj fs) = args_or fs (get "args" fs)
candidate_of v = end

module _ (rt : Runtime) where
  abbrev match_in : Value → Value → Bool
  match_in (arr options) actual = in_items actual options
  match_in _ actual = false

  abbrev match_prefix : Value → Value → Bool
  match_prefix (str prefix) (str actual) = starts_with actual prefix
  match_prefix _ _ = false

  abbrev match_glob : Value → Value → Bool
  match_glob (str pattern) (str actual) = rt.glob actual pattern
  match_glob _ _ = false

  abbrev match_regex : Value → Value → Bool
  match_regex (str pattern) (str actual) = elim (rt.regex pattern actual) [
    | none ↦ false
    | some hit ↦ hit
  ]
  match_regex _ _ = false

  -- The branches after `$any`, in the order in which the operators are looked for.
  operator_match : Fields → Value → Bool
  operator_match fs actual = elim (get "$in" fs) [
    | some options ↦ match_in options actual
    | none ↦ elim (get "$prefix" fs) [
      | some prefix ↦ match_prefix prefix actual
      | none ↦ elim (get "$glob" fs) [
        | some pattern ↦ match_glob pattern actual
        | none ↦ elim (get "$regex" fs) [ some pattern ↦ match_regex pattern actual | none ↦ false ]
      ]
    ]
  ]

  -- `_predicate_match`
  unfoldable pub predicate_match : Value → Value → Bool
  unfolding operator_match
  predicate_match (obj fs) actual =
      if has_operator fs
      then if is_true (get "$any" fs) then true else operator_match fs actual
      else beq (obj fs) actual
  predicate_match expected actual = beq expected actual

  abbrev name_is_local : String → Bool
  name_is_local host =
      if elem (rt.lower host) local_names
      then true
      else elim (rt.ip_is_local host) [ none ↦ false | some b ↦ b ]

  abbrev url_is_local : Option (Option String) → Option Bool
  url_is_local none = none
  url_is_local (some none) = some (name_is_local "")
  url_is_local (some (some host)) = some (name_is_local host)

  -- `_host_is_local`
  unfoldable pub host_is_local : Value → Option Bool
  host_is_local (str host) =
      if is_empty host
      then some false
      else if contains_text host "://"
      then url_is_local (rt.hostname host)
      else some (name_is_local host)
  host_is_local _ = some false

  -- The loop of the `local_only` branch.
  unfoldable pub hosts_local : List String → Fields → Option Bool
  hosts_local [] candidate = some true
  hosts_local (k ∷ ks) candidate =
      let rest = hosts_local ks candidate in
      elim (get k candidate) [
        | none ↦ rest
        | some v ↦ elim (host_is_local v) [
          | none ↦ none
          | some local ↦ if local then rest else some false
        ]
      ]

  -- The loop over `grant_args.items()`.
  unfoldable pub args_cover : Fields → Fields → Bool
  args_cover end candidate = true
  args_cover (field k v fs) candidate =
      predicate_match v (get_or (get k candidate) null) && args_cover fs candidate

  abbrev pub args_value : Option Value → Fields → Bool
  args_value none candidate = true
  args_value (some (obj end)) candidate = true
  args_value (some (obj (field k v fs))) candidate = args_cover (field k v fs) candidate
  args_value (some v) candidate = not (truthy v)

  unfoldable pub under_mode : Mode → Fields → Fields → Option Bool
  under_mode unrestricted grant candidate = some true
  under_mode local_only grant candidate = elim (hosts_local network_keys candidate) [
    | none ↦ none
    | some local ↦
        if local then some (args_value (get "args_match" grant) candidate) else some false
  ]
  under_mode absent grant candidate = some (args_value (get "args_match" grant) candidate)
  under_mode unknown grant candidate = some false

  unfoldable pub scope_matches : Value → Value → Option Bool
  unfolding under_mode
  scope_matches (obj grant) request =
      under_mode (mode_of (get "network_mode" grant)) grant (candidate_of request)
  scope_matches grant request = some false

-- `scope.get("expires_at") or scope.get("until")`, if it is a text
abbrev falsy_none : Option Value → Option Value
falsy_none none = none
falsy_none (some v) = if truthy v then some v else none

abbrev text_of : Option Value → Option String
text_of (some (str s)) = if is_empty s then none else some s
text_of _ = none

unfoldable pub grant_expires_at : Value → Option String
grant_expires_at (obj fs) =
    text_of (elim (falsy_none (get "expires_at" fs)) [ some v ↦ some v | none ↦ get "until" fs ])
grant_expires_at _ = none
