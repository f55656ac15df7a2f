-- ===== src/Outputs/Matching.antt =====
-- Which rules decide: the first match gives the channels, and the last override that applies
-- replaces them.
use mathlib.Core.List.{append-nil, append_assoc}
use life_man.Base.{
  Bool, Bool-cases, List, Option, String, [], ap, arith, elem, eq_iff, false, first, get_or,
  if◌then◌else◌, inl, inr, nat_eq, none, not, refl, select, some, string_eq, subst, sym, true, ℕ,
  ◌&&◌, ◌++◌, ◌∙◌, ◌∷◌, ◌≡◌, ◌≢◌,
}
use life_man.Json.{Fields, get, null, truthy}
use life_man.Outputs.{Note, OutputEvent, RoutingRule, deferred_by, replaced_by}
use life_man.Outputs.Channels.{Registry}
use life_man.Outputs.Rules.{default_rules, match_rule}
use life_man.Outputs.Router.{
  Matches, World, apply_overrides, base_plan, is_expired, listed_names, llm_pick_channels,
  match_rules, note_match, route, start_matching,
}

abbrev pub decides : OutputEvent → Fields → RoutingRule → Bool
decides event state rule = not rule.action.is_override && match_rule rule event state

abbrev pub overrides : OutputEvent → Fields → RoutingRule → Bool
overrides event state rule = rule.action.is_override && match_rule rule event state

abbrev pub channels_of : Registry → Option RoutingRule → Option (List String)
channels_of registry none = none
channels_of registry (some rule) = some (listed_names rule.action.channels registry)

abbrev pub or_else : Option (List String) → Option (List String) → Option (List String)
or_else none o = o
or_else (some cs) o = some cs

or_else-none : (o : Option (List String)) → or_else o none ≡ o
or_else-none none = refl
or_else-none (some cs) = refl

abbrev pub positions_of : List RoutingRule → List ℕ
positions_of [] = []
positions_of (rule ∷ rules) = rule.position ∷ positions_of rules

module _ (registry : Registry) (event : OutputEvent) (state : Fields) where
  base-match_rules :
      (rules : List RoutingRule) (m : Matches)
      → (match_rules registry event state rules m).base
        ≡ or_else m.base (channels_of registry (first (decides event state) rules))
  unfolding match_rules
  base-match_rules [] m = sym (or_else-none m.base)
  base-match_rules (rule ∷ rules) m = elim (Bool-cases (match_rule rule event state)) [
    | inr e ↦ ground (arith, base-match_rules rules m)
    | inl e ↦ ground (arith, base-match_rules rules (note_match registry rule m))
  ]

  overrides-match_rules :
      (rules : List RoutingRule) (m : Matches)
      → (match_rules registry event state rules m).overrides
        ≡ m.overrides ++ select (overrides event state) rules
  unfolding match_rules
  overrides-match_rules [] m = sym (append-nil m.overrides)
  overrides-match_rules (rule ∷ rules) m =
      let rest = select (overrides event state) rules in
      elim (Bool-cases (match_rule rule event state)) [
        | inr e ↦ ground (arith, overrides-match_rules rules m)
        | inl e ↦ ground (
          arith,
          overrides-match_rules rules (note_match registry rule m),
          append_assoc m.overrides (rule ∷ []) rest,
        )
      ]

  positions-match_rules :
      (rules : List RoutingRule) (m : Matches)
      → (match_rules registry event state rules m).positions
        ≡ m.positions ++ positions_of (select (λ r. match_rule r event state) rules)
  unfolding match_rules
  positions-match_rules [] m = sym (append-nil m.positions)
  positions-match_rules (rule ∷ rules) m =
      let rest = positions_of (select (λ (r : RoutingRule). match_rule r event state) rules) in
      elim (Bool-cases (match_rule rule event state)) [
        | inr e ↦ ground (arith, positions-match_rules rules m)
        | inl e ↦ ground (
          arith,
          positions-match_rules rules (note_match registry rule m),
          append_assoc m.positions (rule.position ∷ []) rest,
        )
      ]

  -- The loop over the rules finds the channels of the first rule that matches and is no override,
  -- every override that matches, and the positions of all rules that match, in the rules' order.
  pub match_rules_lem :
      (rules : List RoutingRule)
      → let m = match_rules registry event state rules start_matching in
        (m.base ≡ channels_of registry (first (decides event state) rules))
        × (m.overrides ≡ select (overrides event state) rules)
        × (m.positions ≡ positions_of (select (λ r. match_rule r event state) rules))
  match_rules_lem rules = (
    base-match_rules rules start_matching,
    overrides-match_rules rules start_matching,
    positions-match_rules rules start_matching,
  )

  first-append_later :
      (p : RoutingRule → Bool) (xs : List RoutingRule) (x y : RoutingRule)
      → first p xs ≡ some y
      → first p (xs ++ x ∷ []) ≡ some y
  first-append_later p [] x y h = cc
  first-append_later p (z ∷ xs) x y h = ground (arith, first-append_later p xs x y)

  -- A rule that is placed behind a rule which decides the event already, as an accepted proposal at
  -- position 100 is behind the category defaults, does not change the channels.
  later_rule_loses :
      (rules : List RoutingRule) (promoted decider : RoutingRule)
      → first (decides event state) rules ≡ some decider
      → (match_rules registry event state (rules ++ promoted ∷ []) start_matching).base
        ≡ some (listed_names decider.action.channels registry)
  later_rule_loses rules promoted decider h =
      base-match_rules (rules ++ promoted ∷ []) start_matching
      ∙ ap (channels_of registry)
          (first-append_later (decides event state) rules promoted decider h)

-- An override applies unless it excepts the urgency.
abbrev pub applies : String → RoutingRule → Bool
applies urgency ov = not (elem urgency ov.action.except_urgency)

abbrev pub channels_under : Registry → RoutingRule → List String
channels_under registry ov =
    if ov.action.defer_to_digest then "digest" ∷ [] else listed_names ov.action.channels registry

abbrev pub last_or : Registry → List String → List RoutingRule → List String
last_or registry base [] = base
last_or registry base (ov ∷ ovs) = last_or registry (channels_under registry ov) ovs

-- Of the overrides, in order, the last that applies to the urgency gives the channels; without one
-- they stay what they were.
pub apply_overrides_last :
    (registry : Registry) (urgency : String) (ovs : List RoutingRule) (base : List String)
    (notes : List Note)
    → (apply_overrides registry urgency ovs (base, notes)).0
      ≡ last_or registry base (select (applies urgency) ovs)
unfolding apply_overrides
apply_overrides_last registry urgency [] base notes = refl
apply_overrides_last registry urgency (ov ∷ ovs) base notes =
    elim (Bool-cases (elem urgency ov.action.except_urgency)) [
      | inl e ↦ ground (arith, apply_overrides_last registry urgency ovs base notes)
      | inr e ↦ elim (Bool-cases ov.action.defer_to_digest) [
        | inl d ↦ ground (
          arith,
          apply_overrides_last registry urgency ovs ("digest" ∷ [])
              (notes ++ deferred_by ov.position ∷ []),
        )
        | inr d ↦ ground (
          arith,
          apply_overrides_last registry urgency ovs (listed_names ov.action.channels registry)
              (notes ++ replaced_by ov.position ∷ []),
        )
      ]
    ]

candidates-route :
    (deadline : String → Option ℕ) (w : World) (event : OutputEvent) (state : Fields)
    → is_expired deadline w.now event.expires_at ≡ false
    → (base : List String) × ((route deadline w event state).candidate_channels
        ≡ last_or w.registry base
            (select (applies event.urgency) (select (overrides event state) w.rules)))
unfolding route
candidates-route deadline w event state live =
    let m = match_rules w.registry event state w.rules start_matching in
    let plan = base_plan m.base (llm_pick_channels w.llm_enabled w.llm_reply w.registry) in
    (
      plan.0,
      rw live (
          apply_overrides_last w.registry event.urgency m.overrides plan.0 plan.1
          ∙ ap (λ ovs. last_or w.registry plan.0 (select (applies event.urgency) ovs))
              (overrides-match_rules w.registry event state w.rules start_matching)),
    )

dnd_overrides :
    (registry : Registry) (event : OutputEvent) (state : Fields) (base : List String)
    → truthy (get_or (get "do_not_disturb" state) null) ≡ true
    → event.urgency ≢ "urgent"
    → last_or registry base
        (select (applies event.urgency) (select (overrides event state) default_rules))
      ≡ "digest" ∷ []
unfolding default_rules match_rule
dnd_overrides registry event state base dnd calm = ground (arith, eq_iff "urgent" event.urgency)

-- Under the default rules, while the user has "do not disturb" set, an event that is neither urgent
-- nor expired has
-- the digest for its one candidate, whatever its category, its source and the rest of the state.
dnd_quiet :
    (deadline : String → Option ℕ) (w : World) (event : OutputEvent) (state : Fields)
    → w.rules ≡ default_rules
    → truthy (get_or (get "do_not_disturb" state) null) ≡ true
    → event.urgency ≢ "urgent"
    → is_expired deadline w.now event.expires_at ≡ false
    → (route deadline w event state).candidate_channels ≡ "digest" ∷ []
dnd_quiet deadline w event state rules dnd calm live =
    let (base, e) = candidates-route deadline w event state live in
    e
    ∙ subst
        (λ (rs : List RoutingRule).
          last_or w.registry base
            (select (applies event.urgency) (select (overrides event state) rs))
          ≡ "digest" ∷ [])
        (sym rules) (dnd_overrides w.registry event state base dnd calm)
