-- ===== src/Sse/Bounds.antt =====
-- The bounds and the numbering of the event bus, kept by every operation.
use life_man.Base.{
  All, All-append, All-delete, All-map, All-mono, All-update, Bool-cases, List, Option, String, [],
  append_bounded, arith, inl, inr, length, length-append, length-append_bounded, nat_eq, refl,
  string_eq, ℕ, ◌++◌, ◌+◌, ◌<◌, ◌==◌, ◌∷◌, ◌≡◌, ◌≤◌,
}
use life_man.Json.{Value}
use life_man.Sse.{
  EventBus, Numbered, Op, Phase, Subscriber, advance, holding, is_sub, new_bus, offer, publish,
  publish_op, pull, pull_in, queue_depth, receive, receive_op, replay_capacity, run, settle, step,
  subscribe, subscribe_op, unsubscribe, unsubscribe_op, waiting,
}

-- The numbers of the replay buffer run without a gap up to `last`.
abbrev pub Consecutive : ℕ → List Numbered → Type 0
Consecutive last [] = Unit
Consecutive last (m ∷ ms) = (m.seq + length ms ≡ last) × Consecutive last ms

Consecutive-append :
    (last : ℕ) (m : Numbered) (ms : List Numbered)
    → m.seq ≡ last + 1
    → Consecutive last ms
    → Consecutive (last + 1) (ms ++ m ∷ [])
Consecutive-append last m [] e h = (omega arith, tt)
Consecutive-append last m (x ∷ ms) e h =
    (omega (arith, length-append ms (m ∷ [])), Consecutive-append last m ms e h.1)

Consecutive-append_bounded :
    (cap last : ℕ) (m : Numbered) (ms : List Numbered)
    → m.seq ≡ last + 1
    → Consecutive last ms
    → Consecutive (last + 1) (append_bounded cap ms m)
Consecutive-append_bounded cap last m [] e h = ground (arith, Consecutive-append last m [] e h)
Consecutive-append_bounded cap last m (x ∷ ms) e h =
    ground (arith, Consecutive-append last m (x ∷ ms) e h)

-- Every queue is within its depth, and every id has been given out.
pub record IsBounded (next_id : ℕ) (s : Subscriber) : Type 0 where
  pub within : length s.queue ≤ queue_depth
  pub known : s.id < next_id

pub record IsValid (bus : EventBus) : Type 0 where
  pub replay_within : length bus.replay ≤ replay_capacity
  pub consecutive : Consecutive bus.seq bus.replay
  pub bounded : All (IsBounded bus.next_id) bus.subscribers

offer-IsBounded : (n : ℕ) (m : Numbered) (s : Subscriber) → IsBounded n s → IsBounded n (offer m s)
unfolding offer
offer-IsBounded n m s h = ground (arith, length-append s.queue (m ∷ []))

new_bus-IsValid : IsValid new_bus
unfolding new_bus
new_bus-IsValid = ground arith

publish-IsValid :
    (kind : String) (content : Value) (target : Option String) (now : ℕ) (bus : EventBus)
    → IsValid bus
    → IsValid (publish kind content target now bus)
unfolding publish
publish-IsValid kind content target now bus h = record {
  replay_within = length-append_bounded replay_capacity bus.replay _ h.replay_within;
  consecutive = Consecutive-append_bounded replay_capacity bus.seq _ bus.replay refl h.consecutive;
  bounded =
      All-map (IsBounded bus.next_id) (IsBounded bus.next_id) _ bus.subscribers
        (offer-IsBounded bus.next_id _) h.bounded;
}

subscribe-IsValid :
    (since : Option ℕ) (audience : Option String) (bus : EventBus)
    → IsValid bus
    → IsValid (subscribe since audience bus).2
unfolding subscribe
subscribe-IsValid since audience bus h = record {
  replay_within = h.replay_within;
  consecutive = h.consecutive;
  bounded =
      All-append (IsBounded (bus.next_id + 1)) bus.subscribers _
        (All-mono (IsBounded bus.next_id) (IsBounded (bus.next_id + 1)) bus.subscribers
          (λ s b. record { within = b.within; known = omega arith }) h.bounded)
        (record { within = omega arith; known = omega arith }, tt);
}

pull_in-IsBounded :
    (n : ℕ) (p : Phase) (q : List Numbered) (s : Subscriber)
    → length q ≤ queue_depth
    → IsBounded n s
    → IsBounded n (settle s (pull_in p q s))
unfolding pull_in
pull_in-IsBounded n (holding m) q s e b = record { within = b.within; known = b.known }
pull_in-IsBounded n waiting [] s e b = b
pull_in-IsBounded n waiting (m ∷ rest) s e b = elim (Bool-cases (s.dropped == 0)) [
  | inl k ↦ rw k (record { within = omega arith; known = b.known })
  | inr k ↦ rw k (record { within = omega arith; known = b.known })
]

advance-IsBounded : (n : ℕ) (s : Subscriber) → IsBounded n s → IsBounded n (advance s)
unfolding pull
advance-IsBounded n s b = pull_in-IsBounded n s.phase s.queue s b.within b

receive-IsValid : (sid : ℕ) (bus : EventBus) → IsValid bus → IsValid (receive sid bus)
unfolding receive
receive-IsValid sid bus h = record {
  replay_within = h.replay_within;
  consecutive = h.consecutive;
  bounded =
      All-update (IsBounded bus.next_id) (is_sub sid) advance bus.subscribers
        (λ s _ b. advance-IsBounded bus.next_id s b) h.bounded;
}

unsubscribe-IsValid : (sid : ℕ) (bus : EventBus) → IsValid bus → IsValid (unsubscribe sid bus)
unfolding unsubscribe
unsubscribe-IsValid sid bus h = record {
  replay_within = h.replay_within;
  consecutive = h.consecutive;
  bounded = All-delete (IsBounded bus.next_id) (is_sub sid) bus.subscribers h.bounded;
}

step-IsValid : (o : Op) (bus : EventBus) → IsValid bus → IsValid (step o bus)
unfolding step
step-IsValid (publish_op kind content target now) bus h =
    publish-IsValid kind content target now bus h
step-IsValid (subscribe_op since audience) bus h = subscribe-IsValid since audience bus h
step-IsValid (receive_op sid) bus h = receive-IsValid sid bus h
step-IsValid (unsubscribe_op sid) bus h = unsubscribe-IsValid sid bus h

run_from-IsValid : (os : List Op) (bus : EventBus) → IsValid bus → IsValid (run os bus)
unfolding run
run_from-IsValid [] bus h = h
run_from-IsValid (o ∷ os) bus h = run_from-IsValid os (step o bus) (step-IsValid o bus h)

-- After any sequence of operations on a new bus, the replay buffer holds at most 256 messages
-- numbered without a gap up to the last number given out, every subscriber's queue holds at most
-- 256 messages, and every subscriber's id is one that the bus has given out.
pub run-IsValid : (os : List Op) → IsValid (run os new_bus)
run-IsValid os = run_from-IsValid os new_bus new_bus-IsValid
