-- ===== src/Outputs/Deliveries/Recall.antt =====
-- A delivery is recalled at most once, and its row tells how far it came.
use life_man.Base.{
  All, All-append, All-mono, All-update, All-update_to, All-zip, Bool, Bool-cases, List, Option,
  String, arith, false, if◌then◌else◌, inl, inr, is_some, nat_beq_iff, nat_eq, none, refl, rowcount,
  rowcount-zero, some, string_eq, suc, sym, true, update, update-none, ℕ, ◌==◌, ◌∙◌, ◌≡◌, ◌≢◌, ◌≤◌,
}
use life_man.Outputs.{
  Delivery, DeliveryResult, Phase, Status, calling, cancel_pending, cancelled, delivered, failed,
  finished, in_flight, recalling, unset,
}
use life_man.Outputs.Deliveries.{
  IsCalling, IsRecalling, Step, Steps, answer, answer_step, begin, begin_step, cancel_row, claim,
  claim_step, delivered_at_id, flip, flip_step, has_id, here, in_flight_at, is_delivered,
  is_in_flight, next, of_output, phase_after, recall_late, recall_step, resolve,
}

-- What the status of a row says of its coroutine and of its channel.
abbrev Shape : Status → Phase → Bool → ℕ → Type 0
Shape unset p b r = (p ≡ finished) × (r ≡ 0)
Shape in_flight p b r = (p ≡ calling) × (b ≡ false) × (r ≡ 0)
Shape delivered p b r = (p ≡ finished) × (b ≡ true) × (r ≡ 0)
Shape failed p b r = (p ≡ finished) × (b ≡ false) × (r ≡ 0)
Shape cancel_pending p b r = (b ≡ false) × (r ≡ 0)
Shape cancelled p b r = (p ≡ finished) × (b ≡ true) × (r ≤ 1)

abbrev pub IsValid : Delivery → Type 0
IsValid d = Shape d.status d.phase d.delivered d.recalls

IsValid-recalls : (d : Delivery) → IsValid d → d.recalls ≤ 1
IsValid-recalls d h = by_status d.status d.phase d.delivered d.recalls h
  where
    by_status : (s : Status) (p : Phase) (b : Bool) (r : ℕ) → Shape s p b r → r ≤ 1
    by_status unset p b r h = omega arith
    by_status in_flight p b r h = omega arith
    by_status delivered p b r h = omega arith
    by_status failed p b r h = omega arith
    by_status cancel_pending p b r h = omega arith
    by_status cancelled p b r h = omega arith

resolved :
    (x : Bool) (s : Status) (p : Phase) (b : Bool) (r : ℕ)
    → is_in_flight s ≡ true
    → Shape s p b r
    → Shape (if x then delivered else failed) finished x r
resolved x unset p b r e h = cc
resolved true in_flight p b r e h = (refl, refl, h.2)
resolved false in_flight p b r e h = (refl, refl, h.2)
resolved x delivered p b r e h = cc
resolved x failed p b r e h = cc
resolved x cancel_pending p b r e h = cc
resolved x cancelled p b r e h = cc

-- A row that is being delivered and is not in flight has been claimed.
claimed :
    (q : Phase) (s : Status) (p : Phase) (b : Bool) (r : ℕ)
    → is_in_flight s ≡ false
    → p ≡ calling
    → Shape s p b r
    → Shape s q b r
claimed q unset p b r e k h = absurd (finished_ne_calling (sym h.0 ∙ k))
  where
    finished_ne_calling : finished ≢ calling
    finished_ne_calling e = cc
claimed q in_flight p b r e k h = cc
claimed q delivered p b r e k h = cc
claimed q failed p b r e k h = cc
claimed q cancel_pending p b r e k h = h
claimed q cancelled p b r e k h = cc

recalled :
    (x : Option String) (s : Status) (p : Phase) (b : Bool) (r : ℕ)
    → p ≡ recalling x
    → Shape s p b r
    → r ≡ 0
recalled x unset p b r k h = h.1
recalled x in_flight p b r k h = h.2
recalled x delivered p b r k h = h.2
recalled x failed p b r k h = h.2
recalled x cancel_pending p b r k h = h.1
recalled x cancelled p b r k h = cc

pending :
    (s : Status) (p : Phase) (b : Bool) (r : ℕ)
    → is_in_flight s ≡ true
    → Shape s p b r
    → Shape cancel_pending p b r
pending unset p b r e h = cc
pending in_flight p b r e h = (h.1, h.2)
pending delivered p b r e h = cc
pending failed p b r e h = cc
pending cancel_pending p b r e h = cc
pending cancelled p b r e h = cc

flipped :
    (reply : Option Bool) (s : Status) (p : Phase) (b : Bool) (r : ℕ)
    → is_delivered s ≡ true
    → Shape s p b r
    → Shape cancelled p b (if is_some reply then suc r else r)
flipped reply unset p b r e h = cc
flipped reply in_flight p b r e h = cc
flipped none delivered p b r e h = (h.0, h.1, omega (arith, h.2))
flipped (some x) delivered p b r e h = (h.0, h.1, omega (arith, h.2))
flipped reply failed p b r e h = cc
flipped reply cancel_pending p b r e h = cc
flipped reply cancelled p b r e h = cc

-- Before the answer: the row is valid, and its coroutine waits if it is the one that answers.
abbrev Waiting : ℕ → Delivery → Type 0
Waiting id d = IsValid d × IsCalling id d

answered_hit :
    (id : ℕ) (result : DeliveryResult) (now : ℕ) (d : Delivery)
    → in_flight_at id d ≡ true
    → Waiting id d
    → let d' = resolve result now d in Shape d'.status finished d'.delivered d'.recalls
answered_hit id result now d e h =
    resolved result.delivered d.status d.phase d.delivered d.recalls (ground arith) h.0

-- The row once its coroutine has moved on.
abbrev Moved : ℕ → Phase → Delivery → Type 0
Moved id p d =
    (has_id id d ≡ true → Shape d.status p d.delivered d.recalls)
    × (has_id id d ≡ false → IsValid d)

move_on :
    (id : ℕ) (p : Phase) (xs : List Delivery)
    → All (Moved id p) xs
    → All IsValid (update (has_id id) (λ d. record d { phase = p }) xs)
move_on id p xs h =
    All-update_to (Moved id p) IsValid (has_id id) _ xs (λ d e m. m.0 e) (λ d e m. m.1 e) h

unanswered :
    (id : ℕ) (p : Phase) (d : Delivery) → in_flight_at id d ≡ false → Waiting id d → Moved id p d
unanswered id p d e h = (
  λ k. claimed p d.status d.phase d.delivered d.recalls (ground arith) (h.1 (ground arith)) h.0,
  λ k. h.0,
)

answered :
    (id : ℕ) (result : DeliveryResult) (now : ℕ) (d : Delivery)
    → in_flight_at id d ≡ true
    → Waiting id d
    → Moved id finished (resolve result now d)
answered id result now d e h = (λ k. answered_hit id result now d e h, λ k. absurd (ground arith))

missed_false : (b : Bool) (result : DeliveryResult) → b ≡ false → phase_after b result ≡ finished
missed_false false result e = refl
missed_false true result e = cc

answer-IsValid :
    (id : ℕ) (result : DeliveryResult) (now : ℕ) (s : List Delivery)
    → All (IsCalling id) s
    → All IsValid s
    → All IsValid (answer id result now s)
unfolding answer
answer-IsValid id result now s c h =
    let both = All-zip IsValid (IsCalling id) s h c in
    elim (Bool-cases (rowcount (in_flight_at id) s == 0)) [
      | inl e ↦
          let zero = (nat_beq_iff (rowcount (in_flight_at id) s) 0).0 e in
          rw (update-none (in_flight_at id) (resolve result now) s zero) (
            move_on id _ s (
              All-mono (λ d. (in_flight_at id d ≡ false) × Waiting id d) (Moved id _) s
                (λ d k. unanswered id _ d k.0 k.1)
                (All-zip (λ d. in_flight_at id d ≡ false) (Waiting id) s
                  (rowcount-zero (in_flight_at id) s zero) both)))
      | inr e ↦ rw (missed_false _ result e) (
          move_on id finished _ (
            All-update_to (Waiting id) (Moved id finished) (in_flight_at id) (resolve result now) s
              (λ d k w. answered id result now d k w) (λ d k w. unanswered id finished d k w) both))
    ]

module _ (Starts : String → Type 0) where
  Step-IsValid : {s t : List Delivery} → Step Starts s t → All IsValid s → All IsValid t
  unfolding begin recall_late claim flip
  Step-IsValid (begin_step out channel now s k) h =
      All-append IsValid s _ h ((refl, refl, refl), tt)
  Step-IsValid (answer_step id result now s c) h = answer-IsValid id result now s c h
  Step-IsValid (recall_step id delivery_id now s r) h =
      All-update_to (λ d. IsValid d × IsRecalling id delivery_id d) IsValid (has_id id) _ s
        (λ d e k.
          let none_yet =
            recalled delivery_id d.status d.phase d.delivered d.recalls (k.1 (ground arith)) k.0 in
          (refl, refl, omega (arith, none_yet)))
        (λ d e k. k.0) (All-zip IsValid (IsRecalling id delivery_id) s h r)
  Step-IsValid (claim_step out s) h =
      All-update IsValid (of_output out is_in_flight) _ s
        (λ d e k. pending d.status d.phase d.delivered d.recalls (ground arith) k) h
  Step-IsValid (flip_step id reply now s) h =
      All-update IsValid (delivered_at_id id) (cancel_row reply now) s
        (λ d e k. flipped reply d.status d.phase d.delivered d.recalls (ground arith) k) h

  Steps-IsValid : {s t : List Delivery} → Steps Starts s t → All IsValid s → All IsValid t
  Steps-IsValid here h = h
  Steps-IsValid (next before one) h = Step-IsValid one (Steps-IsValid before h)

  -- From a table whose rows are valid (an empty one, say), however the coroutines of
  -- `emit_output` and of any number of `cancel_output` calls interleave, every row stays valid:
  -- the channel of a delivery is asked to recall it at most once, a row that is in flight,
  -- delivered or failed has never been recalled, and a row that is cancelled had been delivered.
  pub recalled_at_most_once :
      {s t : List Delivery}
      → Steps Starts s t
      → All IsValid s
      → All (λ d. IsValid d × (d.recalls ≤ 1)) t
  recalled_at_most_once {s} {t} before h =
      All-mono IsValid (λ d. IsValid d × (d.recalls ≤ 1)) t (λ d k. (k, IsValid-recalls d k))
        (Steps-IsValid before h)
