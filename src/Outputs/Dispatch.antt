-- ===== src/Outputs/Dispatch.antt =====
-- Which channels an event is dispatched to: those that pass the filters, or the one of the fallback.
use life_man.Base.{
  All, Bool-cases, List, Option, Option-cases, String, [], ap, arith, elem, eq_iff, false, inl, inr,
  is_none, is_some, ltb, nat_eq, none, refl, select, some, string_eq, subst, sym, true, ℕ, ◌&&◌,
  ◌==◌, ◌∷◌, ◌≡◌, ◌≢◌, ◌≤◌, ◌⊎◌,
}
use life_man.Json.{Fields}
use life_man.Outputs.{ChannelManifest, Note, OutputEvent}
use life_man.Outputs.Channels.{Registry, can_deliver, get_channel, sensitivity_level}
use life_man.Outputs.Router.{
  World, apply_overrides, base_plan, escalate, filter_channels, filter_reason, finish_route,
  is_expired, llm_pick_channels, match_rules, route, start_matching,
}

-- The event is urgent, and the web toast is installed.
abbrev pub GoesToToast : Registry → String → Type 0
GoesToToast registry urgency = (urgency ≡ "urgent") × (get_channel "web_toast" registry ≢ none)

-- The fallback names a channel that is installed, the web toast first, and none only where there is none.
abbrev pub IsFallback : Registry → String → List String → Type 0
IsFallback registry urgency cs =
    ((cs ≡ "web_toast" ∷ []) × GoesToToast registry urgency)
    ⊎ ((cs ≡ "digest" ∷ [])
        × (¬ GoesToToast registry urgency)
        × (get_channel "digest" registry ≢ none))
    ⊎ ((cs ≡ []) × (¬ GoesToToast registry urgency) × (get_channel "digest" registry ≡ none))

is_some-ne_none : {A : Type 0} (o : Option A) → is_some o ≡ true → o ≢ none
is_some-ne_none none h k = cc
is_some-ne_none (some a) h k = cc

ne_none-is_some : {A : Type 0} (o : Option A) → o ≢ none → is_some o ≡ true
ne_none-is_some none h = absurd (h refl)
ne_none-is_some (some a) h = refl

is_some-eq_none : {A : Type 0} (o : Option A) → is_some o ≡ false → o ≡ none
is_some-eq_none none h = refl
is_some-eq_none (some a) h = cc

escalate_empty :
    (registry : Registry) (urgency : String)
    → IsFallback registry urgency (escalate registry urgency []).0
escalate_empty registry urgency =
    elim (Bool-cases ((urgency == "urgent") && is_some (get_channel "web_toast" registry))) [
      | inl e ↦ rw e (
          inl (
            refl,
            (
              (eq_iff urgency "urgent").0 (ground arith),
              is_some-ne_none (get_channel "web_toast" registry) (ground arith),
            ),
          ))
      | inr e ↦
          let no_toast : ¬ GoesToToast registry urgency = λ g.
            let there = ne_none-is_some (get_channel "web_toast" registry) g.1 in
            ground (arith, eq_iff urgency "urgent") in
          elim (Bool-cases (is_some (get_channel "digest" registry))) [
            | inl d ↦
                rw (e, d)
                  (inr (inl (refl, no_toast, is_some-ne_none (get_channel "digest" registry) d)))
            | inr d ↦
                rw (e, d)
                  (inr (inr (refl, no_toast, is_some-eq_none (get_channel "digest" registry) d)))
          ]
    ]

-- The channels that pass the filters: those that are installed, can deliver the event and are within their
-- rate limits.
abbrev pub passing : World → OutputEvent → List String → List String
passing w event cs =
    select (λ (c : String). is_none (filter_reason w.registry event w.now w.deliveries c)) cs

filter_channels_lem :
    (reason : String → Option String) (cs : List String)
    → (filter_channels reason cs).0 ≡ select (λ (c : String). is_none (reason c)) cs
unfolding filter_channels
filter_channels_lem reason [] = refl
filter_channels_lem reason (c ∷ cs) = elim (Option-cases (reason c)) [
  | inl e ↦ rw e (ap (◌∷◌ c) (filter_channels_lem reason cs))
  | inr (why, e) ↦ rw e (filter_channels_lem reason cs)
]

-- What is dispatched to, of these candidates.
abbrev pub Dispatched : World → OutputEvent → List String → List String → Type 0
Dispatched w event candidates cs =
    ((cs ≡ passing w event candidates) × (cs ≢ []))
    ⊎ ((passing w event candidates ≡ []) × IsFallback w.registry event.urgency cs)

escalated :
    (w : World) (event : OutputEvent) (candidates final : List String)
    → final ≡ passing w event candidates
    → Dispatched w event candidates (escalate w.registry event.urgency final).0
escalated w event candidates [] h = inr (sym h, escalate_empty w.registry event.urgency)
escalated w event candidates (c ∷ cs) h = inl (h, λ e. cc)

finish_route_lem :
    (w : World) (event : OutputEvent) (positions : List ℕ) (plan : List String × List Note)
    → Dispatched w event plan.0 (finish_route w event positions plan).dispatched
unfolding finish_route
finish_route_lem w event positions plan =
    escalated w event plan.0 _
      (filter_channels_lem (filter_reason w.registry event w.now w.deliveries) plan.0)

-- The arguments of `finish_route` in a call of `route`.
abbrev pub plan_of : World → OutputEvent → Fields → List ℕ × (List String × List Note)
plan_of w event state =
    let m = match_rules w.registry event state w.rules start_matching in
    (
      m.positions,
      apply_overrides w.registry event.urgency m.overrides
          (base_plan m.base (llm_pick_channels w.llm_enabled w.llm_reply w.registry)),
    )

route_live :
    (deadline : String → Option ℕ) (w : World) (event : OutputEvent) (state : Fields)
    → is_expired deadline w.now event.expires_at ≡ false
    → route deadline w event state
      ≡ finish_route w event (plan_of w event state).0 (plan_of w event state).1
unfolding route
route_live deadline w event state live = rw live refl

-- An event that has not expired goes to exactly those of the planned channels, in their order, that are
-- installed, can deliver it and are within their rate limits, when there is one; only when there is none does it go
-- to the fallback: to the web toast if it is urgent and the toast is installed, else to the digest, and to nothing
-- only when no digest is installed either. The plan is that of the rules, the LLM's pick and the overrides.
pub route_dispatches :
    (deadline : String → Option ℕ) (w : World) (event : OutputEvent) (state : Fields)
    → is_expired deadline w.now event.expires_at ≡ false
    → let d = route deadline w event state in
      (d.candidate_channels ≡ (plan_of w event state).1.0)
      × Dispatched w event d.candidate_channels d.dispatched
unfolding finish_route
route_dispatches deadline w event state live =
    rw (route_live deadline w event state live)
      (refl, finish_route_lem w event (plan_of w event state).0 (plan_of w event state).1)

All-passing :
    (w : World) (event : OutputEvent) (cs : List String)
    → All (λ c. filter_reason w.registry event w.now w.deliveries c ≡ none) (passing w event cs)
All-passing w event [] = tt
All-passing w event (c ∷ cs) =
    elim (Option-cases (filter_reason w.registry event w.now w.deliveries c)) [
      | inl e ↦ rw e (e, All-passing w event cs)
      | inr (why, e) ↦ rw e (All-passing w event cs)
    ]

not_below : (a b : ℕ) → ltb a b ≡ false → b ≤ a
not_below a b h = ground arith

can_deliver_level :
    (event : OutputEvent) (m : ChannelManifest)
    → can_deliver event m ≡ none
    → sensitivity_level event.sensitivity 2 ≤ sensitivity_level m.sensitivity_tolerance 0
unfolding can_deliver
can_deliver_level event m h =
    let over =
      ltb (sensitivity_level m.sensitivity_tolerance 0) (sensitivity_level event.sensitivity 2) in
    elim (Bool-cases over) [
      | inl e ↦ let bad : some "sensitivity exceeds channel tolerance" ≡ none = rw e at h in cc
      | inr e ↦ not_below _ _ e
    ]

passes :
    (w : World) (event : OutputEvent) (c : String) (m : ChannelManifest)
    → filter_reason w.registry event w.now w.deliveries c ≡ none
    → get_channel c w.registry ≡ some m
    → can_deliver event m ≡ none
unfolding filter_reason
passes w event c m h e = ground arith

All-elem : (P : String → Type 0) (c : String) (cs : List String) → All P cs → elem c cs ≡ true → P c
All-elem P c [] h e = cc
All-elem P c (x ∷ xs) h e = elim (Bool-cases (x == c)) [
  | inl k ↦ subst P ((eq_iff x c).0 k) h.0
  | inr k ↦ All-elem P c xs h.1 (ground arith)
]

-- A channel that is dispatched to, and is neither the web toast nor the digest of the fallback,
-- tolerates the event's sensitivity; an unknown sensitivity counts as private, an unknown tolerance
-- as public.
dispatch_respects_sensitivity :
    (deadline : String → Option ℕ) (w : World) (event : OutputEvent) (state : Fields) (c : String)
    (m : ChannelManifest)
    → is_expired deadline w.now event.expires_at ≡ false
    → elem c (route deadline w event state).dispatched ≡ true
    → c ≢ "web_toast"
    → c ≢ "digest"
    → get_channel c w.registry ≡ some m
    → sensitivity_level event.sensitivity 2 ≤ sensitivity_level m.sensitivity_tolerance 0
dispatch_respects_sensitivity deadline w event state c m live among toast dig e =
    elim (route_dispatches deadline w event state live).1 [
      | inl (e', _) ↦
          can_deliver_level event m
            (passes w event c m (All-elem _ c _ (All-passing w event _) (rw e' at among)) e)
      | inr (_, inl (k, _)) ↦ absurd (toast (sym (only "web_toast" k)))
      | inr (_, inr (inl (k, _, _))) ↦ absurd (dig (sym (only "digest" k)))
      | inr (_, inr (inr (k, _, _))) ↦ let no : elem c [] ≡ true = rw k at among in cc
    ]
  where
    only : (name : String) → (route deadline w event state).dispatched ≡ name ∷ [] → name ≡ c
    only name k =
        let one : elem c (name ∷ []) ≡ true = rw k at among in (eq_iff name c).0 (ground arith)
