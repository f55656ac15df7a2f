-- ===== src/Sse/Drops.antt =====
-- What happens to the messages that do not fit: the counter of drops, and how it is reported.
use life_man.Base.{
  All, Bool, List, Option, String, [], arith, false, if◌then◌else◌, length, length-append, none,
  refl, some, subst, suc, sym, true, ℕ, ◌++◌, ◌+◌, ◌∙◌, ◌∷◌, ◌≡◌, ◌≤◌,
}
use life_man.Json.{}
use life_man.Sse.{
  Frame, Numbered, Phase, Subscriber, advance, dropped, event, holding, matches, offer, pull,
  pull_in, queue_depth, sync, waiting,
}

-- What a subscriber lives through: a published message, or a turn of its loop that nothing
-- interrupts, from one wait on the queue to the next.
pub data Turn : Type 0 where
  arrive : Numbered → Turn
  turn : Turn

abbrev pub frames : Option (Frame × Subscriber) → List Frame
frames none = []
frames (some (f, s)) = f ∷ []

abbrev is_waiting : Phase → Bool
is_waiting waiting = true
is_waiting (holding m) = false

-- The second `yield` of a turn that began with `sse.dropped`.
unfoldable pub finish_turn : Subscriber → List Frame × Subscriber
finish_turn s = if is_waiting s.phase then ([], s) else (frames (pull s), advance s)

unfoldable pub loop_turn : Subscriber → List Frame × Subscriber
unfolding finish_turn
loop_turn s = let (fs, s') = finish_turn (advance s) in (frames (pull s) ++ fs, s')

unfoldable pub play : List Turn → Subscriber → List Frame × Subscriber
play [] s = ([], s)
play (arrive m ∷ ts) s = play ts (offer m s)
play (turn ∷ ts) s = let (fs, s') = loop_turn s in let (gs, s'') = play ts s' in (fs ++ gs, s'')

-- Messages yielded, and drops reported, in a list of frames.
abbrev pub accounted : List Frame → ℕ
accounted [] = 0
accounted (event m ∷ fs) = suc (accounted fs)
accounted (sync n ∷ fs) = accounted fs
accounted (dropped n ∷ fs) = n + accounted fs

-- Published messages that the subscriber's audience may see.
abbrev pub addressed : Option String → List Turn → ℕ
addressed a [] = 0
addressed a (arrive m ∷ ts) =
    let rest = addressed a ts in if matches a m.msg.target then suc rest else rest
addressed a (turn ∷ ts) = addressed a ts

-- What a subscriber still owes its client: messages queued, and drops not yet reported.
abbrev pub owed : Subscriber → ℕ
owed s = length s.queue + s.dropped

accounted-append : (fs gs : List Frame) → accounted (fs ++ gs) ≡ accounted fs + accounted gs
accounted-append [] gs = omega arith
accounted-append (event m ∷ fs) gs = omega (arith, accounted-append fs gs)
accounted-append (sync n ∷ fs) gs = omega (arith, accounted-append fs gs)
accounted-append (dropped n ∷ fs) gs = omega (arith, accounted-append fs gs)

owed-offer :
    (m : Numbered) (s : Subscriber)
    → owed (offer m s) ≡ (if matches s.audience m.msg.target then owed s + 1 else owed s)
unfolding offer
owed-offer m s = ground (arith, length-append s.queue (m ∷ []))

phase-offer :
    (m : Numbered) (s : Subscriber)
    → ((offer m s).phase ≡ s.phase) × ((offer m s).audience ≡ s.audience)
unfolding offer
phase-offer m s = ground arith

-- A turn pays off exactly what it yields, and ends waiting.
turn_in :
    (q : List Numbered) (id : ℕ) (a : Option String) (d : ℕ)
    → let s : Subscriber = record {
      id = id;
      audience = a;
      queue = q;
      dropped = d;
      phase = waiting;
    } in
      let (fs, s') = loop_turn s in
      (accounted fs + owed s' ≡ owed s) × (s'.phase ≡ waiting) × (s'.audience ≡ a)
unfolding loop_turn pull pull_in
turn_in [] id a d = (omega arith, refl, refl)
turn_in (m ∷ q) id a d = ground arith

pays :
    (s : Subscriber)
    → s.phase ≡ waiting
    → let (fs, s') = loop_turn s in
      (accounted fs + owed s' ≡ owed s) × (s'.phase ≡ waiting) × (s'.audience ≡ s.audience)
pays s h =
    subst
      (λ (p : Phase).
        let (fs, s') = loop_turn (record s { phase = p }) in
        (accounted fs + owed s' ≡ owed s) × (s'.phase ≡ waiting) × (s'.audience ≡ s.audience))
      (sym h) (turn_in s.queue s.id s.audience s.dropped)

-- From a subscriber whose generator waits for its queue, and while no turn of its loop is
-- interrupted by a publication, every message addressed to a
-- subscriber is accounted for: it has been yielded, it has been counted in a report of drops, it
-- still stands in the queue, or it stands in the counter of drops.
pub play_accounts :
    (ts : List Turn) (s : Subscriber)
    → s.phase ≡ waiting
    → let (fs, s') = play ts s in accounted fs + owed s' ≡ addressed s.audience ts + owed s
unfolding play
play_accounts [] s h = omega arith
play_accounts (arrive m ∷ ts) s h =
    let (p, a) = phase-offer m s in
    let ih = play_accounts ts (offer m s) (p ∙ h) in ground (arith, ih, owed-offer m s, a)
play_accounts (turn ∷ ts) s h =
    let (paid, p, a) = pays s h in
    let ih = play_accounts ts (loop_turn s).1 p in
    ground (arith, ih, paid, a, accounted-append (loop_turn s).0 (play ts (loop_turn s).1).0)

abbrev pub offers : List Numbered → Subscriber → Subscriber
offers [] s = s
offers (m ∷ ms) s = offers ms (offer m s)

offer_full :
    (m : Numbered) (s : Subscriber)
    → matches s.audience m.msg.target ≡ true
    → queue_depth ≤ length s.queue
    → offer m s ≡ record s { dropped = s.dropped + 1 }
unfolding offer
offer_full m s v full = ground arith

offers_full :
    (ms : List Numbered) (s : Subscriber)
    → All (λ m. matches s.audience m.msg.target ≡ true) ms
    → queue_depth ≤ length s.queue
    → offers ms s ≡ record s { dropped = s.dropped + length ms }
offers_full [] s v full = ground arith
offers_full (m ∷ ms) s v full =
    rw (offer_full m s v.0 full)
      (offers_full ms (record s { dropped = s.dropped + 1 }) v.1 full ∙ ground arith)

-- Messages published while the generator is suspended at its `sse.dropped` frame, with the queue
-- full, are dropped and counted; when it goes on, it yields the message it held and clears the
-- counter, so their number is reported by no frame.
drops_unreported :
    (ms : List Numbered) (s : Subscriber) (held : Numbered)
    → s.phase ≡ holding held
    → All (λ m. matches s.audience m.msg.target ≡ true) ms
    → queue_depth ≤ length s.queue
    → ((offers ms s).dropped ≡ s.dropped + length ms)
      × (frames (pull (offers ms s)) ≡ event held ∷ [])
      × ((advance (offers ms s)).dropped ≡ 0)
      × ((advance (offers ms s)).queue ≡ s.queue)
unfolding pull
drops_unreported ms s held p v full =
    rw (offers_full ms s v full) (rw p (unfold pull_in in (refl, refl, refl, refl)))
