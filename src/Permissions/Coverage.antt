-- ===== src/Permissions/Coverage.antt =====
-- What a scope covers, stated on its own, and that `scope_matches` decides it.
use life_man.Base.{
  Bool, List, Option, Option-cases, String, [], ap, arith, false, get_or, inl, inr, none, not, refl,
  some, true, ◌↔◌, ◌∷◌, ◌≡◌, ◌⊎◌,
}
use life_man.Json.{Fields, Value, arr, bool, end, field, get, null, num, obj, str, truthy}
use life_man.Permissions.{Runtime}
use life_man.Permissions.Scope.{
  Mode, absent, args_cover, args_value, candidate_of, host_is_local, hosts_local, local_only,
  mode_of, network_keys, predicate_match, scope_matches, under_mode, unknown, unrestricted,
}

-- The dict has this entry.
abbrev pub Entry : String → Value → Fields → Type 0
Entry k v end = ⊥
Entry k v (field j w fs) = ((j ≡ k) × (w ≡ v)) ⊎ Entry k v fs

abbrev pub Member : String → List String → Type 0
Member k [] = ⊥
Member k (x ∷ xs) = (x ≡ k) ⊎ Member k xs

not_iff : (b : Bool) → (not b ≡ true) ↔ (b ≡ false)
not_iff true = (λ h. cc, λ h. cc)
not_iff false = (λ h. refl, λ h. refl)

module _ (rt : Runtime) where
  -- Every argument that names a host is local.
  abbrev pub AllLocal : List String → Fields → Type 0
  AllLocal ks candidate =
      (k : String)
      → Member k ks
      → (v : Value) → get k candidate ≡ some v
      → host_is_local rt v ≡ some true

  -- Every entry of the grant's `args_match` accepts the request's argument of that name.
  abbrev pub ArgsAccepted : Fields → Fields → Type 0
  ArgsAccepted grant_args candidate =
      (k : String) (v : Value)
      → Entry k v grant_args
      → predicate_match rt v (get_or (get k candidate) null) ≡ true

  -- What `args_match` asks: nothing when it is missing or falsy, else a dict, entry by entry.
  abbrev pub ArgsCovered : Option Value → Fields → Type 0
  ArgsCovered none candidate = Unit
  ArgsCovered (some (obj fs)) candidate = ArgsAccepted fs candidate
  ArgsCovered (some v) candidate = truthy v ≡ false

  abbrev pub ModeCovered : Mode → Fields → Fields → Type 0
  ModeCovered unrestricted grant candidate = Unit
  ModeCovered local_only grant candidate =
      AllLocal network_keys candidate × ArgsCovered (get "args_match" grant) candidate
  ModeCovered absent grant candidate = ArgsCovered (get "args_match" grant) candidate
  ModeCovered unknown grant candidate = ⊥

  -- The grant's scope covers the request.
  abbrev pub Covers : Value → Value → Type 0
  Covers (obj grant) request =
      ModeCovered (mode_of (get "network_mode" grant)) grant (candidate_of request)
  Covers grant request = ⊥

  hosts_local_sound :
      (ks : List String) (c : Fields) → hosts_local rt ks c ≡ some true → AllLocal ks c
  unfolding hosts_local
  hosts_local_sound [] c h k m v e = absurd m
  hosts_local_sound (x ∷ ks) c h k (inl same) v e = ground (arith, same)
  hosts_local_sound (x ∷ ks) c h k (inr m) v e = hosts_local_sound ks c (ground arith) k m v e

  hosts_local_complete :
      (ks : List String) (c : Fields) → AllLocal ks c → hosts_local rt ks c ≡ some true
  unfolding hosts_local
  hosts_local_complete [] c h = refl
  hosts_local_complete (x ∷ ks) c h =
      let rest = hosts_local_complete ks c (λ k m. h k (inr m)) in
      elim (Option-cases (get x c)) [
        | inl e ↦ ground (arith, e, rest)
        | inr (v, e) ↦ ground (arith, e, rest, h x (inl refl) v e)
      ]

  args_cover_sound : (fs c : Fields) → args_cover rt fs c ≡ true → ArgsAccepted fs c
  unfolding args_cover
  args_cover_sound end c h k v m = absurd m
  args_cover_sound (field j w fs) c h k v (inl (p, q)) = ground (arith, p, q)
  args_cover_sound (field j w fs) c h k v (inr m) = args_cover_sound fs c (ground arith) k v m

  args_cover_complete : (fs c : Fields) → ArgsAccepted fs c → args_cover rt fs c ≡ true
  unfolding args_cover
  args_cover_complete end c h = refl
  args_cover_complete (field j w fs) c h =
      ground (arith, h j w (inl (refl, refl)), args_cover_complete fs c (λ k v m. h k v (inr m)))

  args_value_iff : (o : Option Value) (c : Fields) → (args_value rt o c ≡ true) ↔ ArgsCovered o c
  args_value_iff none c = (λ h. tt, λ h. refl)
  args_value_iff (some null) c = (λ h. refl, λ h. refl)
  args_value_iff (some (bool b)) c = not_iff b
  args_value_iff (some (num n)) c = not_iff (truthy (num n))
  args_value_iff (some (str s)) c = not_iff (truthy (str s))
  args_value_iff (some (arr xs)) c = not_iff (truthy (arr xs))
  args_value_iff (some (obj end)) c = (λ h k v m. absurd m, λ h. refl)
  args_value_iff (some (obj (field k v fs))) c =
      (args_cover_sound (field k v fs) c, args_cover_complete (field k v fs) c)

  mode_iff :
      (m : Mode) (grant c : Fields) → (under_mode rt m grant c ≡ some true) ↔ ModeCovered m grant c
  unfolding under_mode
  mode_iff unrestricted grant c = (λ h. tt, λ h. refl)
  mode_iff local_only grant c =
      let (there, back) = args_value_iff (get "args_match" grant) c in
      (
        λ h. (hosts_local_sound network_keys c (ground arith), there (ground arith)),
        λ h. ground (arith, hosts_local_complete network_keys c h.0, back h.1),
      )
  mode_iff absent grant c =
      let (there, back) = args_value_iff (get "args_match" grant) c in
      (λ h. there (ground arith), λ h. ap some (back h))
  mode_iff unknown grant c = (λ h. cc, λ h. absurd h)

  -- `scope_matches` answers yes exactly when the grant's scope covers the request: the scope is a
  -- dict; its mode is `unrestricted`, or it is missing or `local_only`, where every argument that
  -- names a host is local under `local_only`, and every entry of `args_match` accepts the request's
  -- argument of that name.
  pub scope_matches_iff :
      (grant request : Value) → (scope_matches rt grant request ≡ some true) ↔ Covers grant request
  unfolding scope_matches
  scope_matches_iff (obj grant) request =
      mode_iff (mode_of (get "network_mode" grant)) grant (candidate_of request)
  scope_matches_iff null request = (λ h. cc, λ h. absurd h)
  scope_matches_iff (bool b) request = (λ h. cc, λ h. absurd h)
  scope_matches_iff (num n) request = (λ h. cc, λ h. absurd h)
  scope_matches_iff (str s) request = (λ h. cc, λ h. absurd h)
  scope_matches_iff (arr xs) request = (λ h. cc, λ h. absurd h)
