-- ===== src/Routing/Installed.antt =====
-- The built-in routers send an event only to a handler that is there.
use life_man.Base.{
  All, Bool, Bool-cases, List, Option, String, [], elem, false, if◌then◌else◌, inl, inr, length,
  nat_eq, refl, string_eq, true, ℕ, ◌∙◌, ◌≡◌, ◌⊎◌,
}
use life_man.Outputs.Router.{is_expired}
use life_man.Routing.{Handlers, RoutedEvent, RoutingDecision, handler_names}
use life_man.Routing.Routers.{
  Pick, expired_decision, route_input, route_memory, route_observation, settle_pick,
}

-- A decision on an event that has expired, or not, is marked so. Every handler of it resolves, and there is none
-- for an expired event, and exactly one for another, unless the domain's fallback is not installed.
abbrev pub WellRouted : {S : Type 0} → Handlers S → String → Bool → RoutingDecision → Type 0
WellRouted h fallback expired d =
    (d.expired ≡ expired)
    × All (λ n. h.resolves n ≡ true) d.dispatched
    × (((expired ≡ true) × (d.dispatched ≡ []))
        ⊎ ((expired ≡ false) × ((h.resolves fallback ≡ false) ⊎ (length d.dispatched ≡ 1))))

module _ {S : Type 0} (h : Handlers S) where
  settled :
      (repr : String → String) (event_id : String) (pick : Pick) (fallback : String)
      → WellRouted h fallback false
          (settle_pick repr event_id pick fallback (handler_names h.listed))
  settled repr event_id pick fallback =
      elim (Bool-cases (elem pick.handler (handler_names h.listed))) [
        | inl e ↦ rw e (refl, (h.resolves-listed pick.handler ∙ e, tt), inr (refl, inr refl))
        | inr e ↦ elim (Bool-cases (elem fallback (handler_names h.listed))) [
          | inl k ↦ rw (e, k) (refl, (h.resolves-listed fallback ∙ k, tt), inr (refl, inr refl))
          | inr k ↦ rw (e, k) (refl, tt, inr (refl, inl (h.resolves-listed fallback ∙ k)))
        ]
      ]

  or_expired :
      (expired : Bool) (fallback event_id notes : String) (d : RoutingDecision)
      → WellRouted h fallback false d
      → WellRouted h fallback expired (if expired then expired_decision event_id notes else d)
  or_expired true fallback event_id notes d w = (refl, tt, inl (refl, refl))
  or_expired false fallback event_id notes d w = w

  -- The routers of inputs, memory and observations dispatch only to handlers that resolve, whatever
  -- the event says of itself; an event whose time of expiry has come is marked as expired and dispatched to
  -- none, and any other is not, and is dispatched to exactly one, unless the domain's fallback (`discard`,
  -- `memory_store`, `archive`) is not installed.
  pub builtin_routes_installed :
      (deadline : String → Option ℕ) (repr : String → String) (now : ℕ)
      (stripped_length : String → ℕ) (event : RoutedEvent) (hint type_hint : Option String)
      (surface content level : String) (tags : List String)
      → let expired = is_expired deadline now event.expires_at in
        WellRouted h "discard" expired (route_input deadline repr now event hint surface h.listed)
        × WellRouted h "memory_store" expired
            (route_memory deadline repr now stripped_length event content type_hint tags h.listed)
        × WellRouted h "archive" expired (route_observation deadline repr now event level h.listed)
  unfolding route_input route_memory route_observation
  builtin_routes_installed deadline repr now stripped_length event hint type_hint surface content
        level tags =
      (
        or_expired (is_expired deadline now event.expires_at) "discard" event.event_id _ _
            (settled repr event.event_id _ "discard"),
        or_expired (is_expired deadline now event.expires_at) "memory_store" event.event_id _ _
            (settled repr event.event_id _ "memory_store"),
        or_expired (is_expired deadline now event.expires_at) "archive" event.event_id _ _
            (settled repr event.event_id _ "archive"),
      )
