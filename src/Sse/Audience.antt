-- ===== src/Sse/Audience.antt =====
-- Who sees what: a targeted message reaches its own audience and the master subscribers alone.
use life_man.Base.{
  All, All-append, All-delete, All-map, All-mono, All-update, Bool, Bool-cases, List, Option,
  Option-cases, String, [], arith, eq_iff, first, first-All, inl, inr, length, ltb, nat_eq, none,
  select, some, string_eq, true, ℕ, ◌<◌, ◌==◌, ◌∷◌, ◌≡◌, ◌≢◌, ◌⊎◌,
}
use life_man.Sse.{
  EventBus, Numbered, Op, Phase, Subscriber, advance, holding, is_sub, matches, new_bus, offer,
  publish, publish_op, pull, pull_in, queue_depth, receive, receive_op, replayed, run, settle, step,
  subscribe, subscribe_op, unsubscribe, unsubscribe_op, waiting,
}

-- The message may be seen under the audience.
abbrev pub Visible : Option String → Numbered → Type 0
Visible audience m = matches audience m.msg.target ≡ true

abbrev pub Held : Option String → Phase → Type 0
Held audience waiting = Unit
Held audience (holding m) = Visible audience m

-- All that a subscriber has queued or holds is visible to it.
pub record IsPrivate (s : Subscriber) : Type 0 where
  pub queued : All (Visible s.audience) s.queue
  pub held : Held s.audience s.phase

abbrev pub IsSealed : EventBus → Type 0
IsSealed bus = All IsPrivate bus.subscribers

offer-IsPrivate : (m : Numbered) (s : Subscriber) → IsPrivate s → IsPrivate (offer m s)
unfolding offer
offer-IsPrivate m s h = elim (Bool-cases (matches s.audience m.msg.target)) [
  | inl e ↦ elim (Bool-cases (ltb (length s.queue) queue_depth)) [
    | inl room ↦
        rw (e, room)
          (record {
            queued = All-append (Visible s.audience) s.queue (m ∷ []) h.queued (e, tt);
            held = h.held;
          })
    | inr full ↦ rw (e, full) (record { queued = h.queued; held = h.held })
  ]
  | inr e ↦ rw e h
]

pull_in-IsPrivate :
    (p : Phase) (q : List Numbered) (s : Subscriber)
    → All (Visible s.audience) q
    → IsPrivate s
    → IsPrivate (settle s (pull_in p q s))
unfolding pull_in
pull_in-IsPrivate (holding m) q s e b = record { queued = b.queued; held = tt }
pull_in-IsPrivate waiting [] s e b = b
pull_in-IsPrivate waiting (m ∷ rest) s e b = elim (Bool-cases (s.dropped == 0)) [
  | inl k ↦ rw k (record { queued = e.1; held = b.held })
  | inr k ↦ rw k (record { queued = e.1; held = e.0 })
]

advance-IsPrivate : (s : Subscriber) → IsPrivate s → IsPrivate (advance s)
unfolding pull
advance-IsPrivate s b = pull_in-IsPrivate s.phase s.queue s b.queued b

step-IsSealed : (o : Op) (bus : EventBus) → IsSealed bus → IsSealed (step o bus)
unfolding step publish subscribe receive unsubscribe
step-IsSealed (publish_op kind content target now) bus h =
    All-map IsPrivate IsPrivate _ bus.subscribers (offer-IsPrivate _) h
step-IsSealed (subscribe_op since audience) bus h =
    All-append IsPrivate bus.subscribers _ h (record { queued = tt; held = tt }, tt)
step-IsSealed (receive_op sid) bus h =
    All-update IsPrivate (is_sub sid) advance bus.subscribers (λ s _ b. advance-IsPrivate s b) h
step-IsSealed (unsubscribe_op sid) bus h = All-delete IsPrivate (is_sub sid) bus.subscribers h

run_from-IsSealed : (os : List Op) (bus : EventBus) → IsSealed bus → IsSealed (run os bus)
unfolding run
run_from-IsSealed [] bus h = h
run_from-IsSealed (o ∷ os) bus h = run_from-IsSealed os (step o bus) (step-IsSealed o bus h)

-- What a device's audience can see is broadcasts and its own targeted messages.
pub Visible-device :
    (a : String) (m : Numbered)
    → a ≢ "master"
    → Visible (some a) m
    → (m.msg.target ≡ none) ⊎ (m.msg.target ≡ some a)
unfolding matches
Visible-device a m h v = elim (Option-cases m.msg.target) [
  | inl e ↦ inl e
  | inr (t, e) ↦ inr (ground (arith, eq_iff a "master", eq_iff a t))
]

-- A message that the subscriber's audience may receive: a broadcast, or one for that audience.
abbrev pub ForDevice : String → Numbered → Type 0
ForDevice a m = (m.msg.target ≡ none) ⊎ (m.msg.target ≡ some a)

abbrev HeldFor : String → Phase → Type 0
HeldFor a waiting = Unit
HeldFor a (holding m) = ForDevice a m

held_for : (a : String) (p : Phase) → a ≢ "master" → Held (some a) p → HeldFor a p
held_for a waiting h v = tt
held_for a (holding m) h v = Visible-device a m h v

-- In any state that operations reach from a new bus, a subscriber that is found under an audience
-- other than `master` has queued, and holds for its next yield, only broadcasts and messages
-- targeted at exactly that audience.
pub run_no_leak :
    (os : List Op) (p : Subscriber → Bool) (s : Subscriber) (a : String)
    → first p (run os new_bus).subscribers ≡ some s
    → s.audience ≡ some a
    → a ≢ "master"
    → All (ForDevice a) s.queue × HeldFor a s.phase
unfolding new_bus
run_no_leak os p s a found e h =
    let b =
      first-All IsPrivate p (run os new_bus).subscribers (run_from-IsSealed os new_bus tt) found in
    (
      All-mono (Visible (some a)) (ForDevice a) s.queue (λ m v. Visible-device a m h v)
          (rw e at b.queued),
      held_for a s.phase h (rw e at b.held),
    )

replay-Visible :
    (since : Option ℕ) (a : Option String) (m : Numbered) → replayed since a m ≡ true → Visible a m
unfolding replayed
replay-Visible since a m h = ground arith

-- The replay that a new subscriber is given: each message is visible to its audience, and newer
-- than the cursor it passed.
pub select-replay :
    (s : ℕ) (a : Option String) (ms : List Numbered)
    → All (λ m. Visible a m × (s < m.seq)) (select (replayed (some s) a) ms)
unfolding replayed
select-replay s a [] = tt
select-replay s a (m ∷ ms) = elim (Bool-cases (replayed (some s) a m)) [
  | inl e ↦ rw e ((ground arith, ground arith), select-replay s a ms)
  | inr e ↦ rw e (select-replay s a ms)
]
