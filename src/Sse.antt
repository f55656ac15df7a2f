-- ===== src/Sse.antt =====
-- The event bus (src/lifeman/sse.py): subscribers with bounded queues, and a replay buffer.
-- No method suspends while it holds the lock, so each is one step on the bus. A time is a number.
pub mod Bounds
pub mod Examples
pub mod Drops
pub mod Audience
use life_man.Base.{
  Bool, List, Option, String, [], append_bounded, delete, false, first, if◌then◌else◌, is_some,
  length, ltb, map, nat_eq, none, select, some, string_eq, true, update, ℕ, ◌&&◌, ◌++◌, ◌+◌, ◌==◌,
  ◌∷◌,
}
use life_man.Json.{Value}

abbrev pub replay_capacity : ℕ
replay_capacity = 256

abbrev pub queue_depth : ℕ
queue_depth = 256

pub record Message : Type 0 where
  pub event : String
  pub content : Value
  pub ts : ℕ
  pub target : Option String

-- `{**msg, "seq": seq}`
pub record Numbered : Type 0 where
  pub seq : ℕ
  pub msg : Message

-- What the generator of a subscriber is about to do: wait for its queue, or, after it has yielded
-- `sse.dropped`, clear the counter and yield the message it holds.
pub data Phase : Type 0 where
  waiting : Phase
  holding : Numbered → Phase

pub record Subscriber : Type 0 where
  pub id : ℕ
  pub audience : Option String
  pub queue : List Numbered
  pub dropped : ℕ
  pub phase : Phase

pub record EventBus : Type 0 where
  pub subscribers : List Subscriber
  pub next_id : ℕ
  pub replay : List Numbered
  pub seq : ℕ

-- What a subscriber's generator yields.
pub data Frame : Type 0 where
  event : Numbered → Frame
  sync : ℕ → Frame
  dropped : ℕ → Frame

unfoldable pub new_bus : EventBus
new_bus = record { subscribers = []; next_id = 0; replay = []; seq = 0 }

-- `_matches`
unfoldable pub matches : Option String → Option String → Bool
matches audience none = true
matches none (some t) = false
matches (some a) (some t) = if a == "master" then true else a == t

-- One round of the loop in `publish`: `put_nowait`, or count the drop.
unfoldable pub offer : Numbered → Subscriber → Subscriber
unfolding matches
offer m sub =
    if matches sub.audience m.msg.target
    then if ltb (length sub.queue) queue_depth
      then record sub { queue = sub.queue ++ m ∷ [] }
      else record sub { dropped = sub.dropped + 1 }
    else sub

unfoldable pub publish : String → Value → Option String → ℕ → EventBus → EventBus
unfolding offer
publish kind content target now bus =
    let m : Numbered = record {
      seq = bus.seq + 1;
      msg = record { event = kind; content = content; ts = now; target = target };
    } in
    record bus {
      seq = bus.seq + 1;
      replay = append_bounded replay_capacity bus.replay m;
      subscribers = map (offer m) bus.subscribers;
    }

abbrev pub listens : String → Subscriber → Bool
listens target s = elim s.audience [ none ↦ false | some a ↦ a == target ]

-- `has_targeted_subscriber`: an exact match, so a master subscriber does not count.
unfoldable pub has_targeted_subscriber : String → EventBus → Bool
has_targeted_subscriber target bus = is_some (first (listens target) bus.subscribers)

-- The replay filter of `subscribe`.
unfoldable pub replayed : Option ℕ → Option String → Numbered → Bool
unfolding matches
replayed since audience m =
    elim since [ none ↦ true | some s ↦ ltb s m.seq ] && matches audience m.msg.target

abbrev sync_frames : ℕ → List Numbered → List Frame
sync_frames seq [] = sync seq ∷ []
sync_frames seq (m ∷ ms) = event m ∷ sync_frames seq ms

-- `subscribe` up to its loop: the new subscriber's id, and what it yields before it waits.
unfoldable pub subscribe : Option ℕ → Option String → EventBus → ℕ × List Frame × EventBus
unfolding replayed
subscribe since audience bus =
    let sub : Subscriber = record {
      id = bus.next_id;
      audience = audience;
      queue = [];
      dropped = 0;
      phase = waiting;
    } in
    (
      bus.next_id,
      sync_frames bus.seq (select (replayed since audience) bus.replay),
      record bus { next_id = bus.next_id + 1; subscribers = bus.subscribers ++ sub ∷ [] },
    )

-- The loop's `await sub.queue.get()` returns, and the generator runs up to its next `yield`.
unfoldable pub pull_in : Phase → List Numbered → Subscriber → Option (Frame × Subscriber)
pull_in (holding m) queue s = some (event m, record s { dropped = 0; phase = waiting })
pull_in waiting [] s = none
pull_in waiting (m ∷ rest) s =
    if s.dropped == 0
    then some (event m, record s { queue = rest })
    else some (dropped s.dropped, record s { queue = rest; phase = holding m })

-- `none` is a wait.
unfoldable pub pull : Subscriber → Option (Frame × Subscriber)
unfolding pull_in
pull sub = pull_in sub.phase sub.queue sub

abbrev pub is_sub : ℕ → Subscriber → Bool
is_sub sid s = s.id == sid

-- The `finally` of `subscribe`.
unfoldable pub unsubscribe : ℕ → EventBus → EventBus
unsubscribe sid bus = record bus { subscribers = delete (is_sub sid) bus.subscribers }

-- What is left of a subscriber when its generator has yielded once more, or still waits.
abbrev pub settle : Subscriber → Option (Frame × Subscriber) → Subscriber
settle s none = s
settle s (some (f, s')) = s'

abbrev pub advance : Subscriber → Subscriber
advance s = settle s (pull s)

-- One turn of the loop of `subscribe`, for the subscriber with this id.
unfoldable pub receive : ℕ → EventBus → EventBus
receive sid bus = record bus { subscribers = update (is_sub sid) advance bus.subscribers }

pub data Op : Type 0 where
  publish_op : String → Value → Option String → ℕ → Op
  subscribe_op : Option ℕ → Option String → Op
  receive_op unsubscribe_op : ℕ → Op

unfoldable pub step : Op → EventBus → EventBus
step (publish_op kind content target now) bus = publish kind content target now bus
step (subscribe_op since audience) bus = (subscribe since audience bus).2
step (receive_op sid) bus = receive sid bus
step (unsubscribe_op sid) bus = unsubscribe sid bus

unfoldable pub run : List Op → EventBus → EventBus
run [] bus = bus
run (o ∷ os) bus = run os (step o bus)
