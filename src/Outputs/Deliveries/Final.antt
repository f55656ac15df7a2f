-- ===== src/Outputs/Deliveries/Final.antt =====
-- What `cancel_output` leaves behind: nothing of the event stays delivered or comes to be.
use life_man.Base.{
  All, All-append, All-mono, All-update, All-update_to, All-zip, Bool, Bool-cases, List, Option,
  String, [], arith, elem, eq_iff, false, first, first-All, inl, inr, map, nat_eq, refl, select,
  some, string_eq, true, update, ℕ, ◌==◌, ◌∷◌, ◌≡◌, ◌≢◌,
}
use life_man.Outputs.{Delivery}
use life_man.Outputs.Deliveries.{
  Step, Steps, answer, answer_step, begin, begin_step, cancel_deliveries, cancel_row, claim,
  claim_step, delivered_at_id, flip, flip_step, flips, has_id, here, in_flight_at, is_delivered,
  is_in_flight, next, of_output, recall_late, recall_step, resolve,
}

-- A row of the event that is neither in flight nor delivered.
abbrev Settled : String → Delivery → Type 0
Settled out d =
    d.output_id ≡ out → (is_in_flight d.status ≡ false) × (is_delivered d.status ≡ false)

abbrev pub IsCancelled : String → List Delivery → Type 0
IsCancelled out s = All (Settled out) s

abbrev pub NotOf : String → String → Type 0
NotOf out other = other ≢ out

Settled-any :
    (out : String) (p : Delivery → Bool) (f : Delivery → Delivery) (s : List Delivery)
    → ((d : Delivery) → p d ≡ true → Settled out d → Settled out (f d))
    → IsCancelled out s
    → IsCancelled out (update p f s)
Settled-any out p f s k h = All-update (Settled out) p f s k h

Step-IsCancelled :
    (out : String) {s t : List Delivery}
    → Step (NotOf out) s t
    → IsCancelled out s
    → IsCancelled out t
unfolding begin answer recall_late claim flip
Step-IsCancelled out (begin_step other channel now s k) h =
    All-append (Settled out) s _ h ((λ e. absurd (k e)), tt)
Step-IsCancelled out (answer_step id result now s c) h =
    Settled-any out (has_id id) _ _ (λ d e k. k)
      (Settled-any out (in_flight_at id) (resolve result now) s
        (λ d e k m. absurd (let off = (k m).0 in ground arith)) h)
Step-IsCancelled out (recall_step id delivery_id now s r) h =
    Settled-any out (has_id id) _ s (λ d e k m. (refl, refl)) h
Step-IsCancelled out (claim_step other s) h =
    Settled-any out (of_output other is_in_flight) _ s (λ d e k m. (refl, refl)) h
Step-IsCancelled out (flip_step id reply now s) h =
    Settled-any out (delivered_at_id id) (cancel_row reply now) s (λ d e k m. (refl, refl)) h

Steps-IsCancelled :
    (out : String) {s t : List Delivery}
    → Steps (NotOf out) s t
    → IsCancelled out s
    → IsCancelled out t
Steps-IsCancelled out here h = h
Steps-IsCancelled out (next before one) h =
    Step-IsCancelled out one (Steps-IsCancelled out before h)

-- A row that no later flip but those of `rs` has to settle.
abbrev Left : String → List Delivery → Delivery → Type 0
Left out rs d =
    d.output_id ≡ out
    → (is_in_flight d.status ≡ false)
      × (is_delivered d.status ≡ true → elem d.id (map (λ (r : Delivery). r.id) rs) ≡ true)

flip_one :
    (out : String) (r : Delivery) (rs : List Delivery) (reply : Option Bool) (now : ℕ)
    (s : List Delivery)
    → All (Left out (r ∷ rs)) s
    → All (Left out rs) (flip r.id reply now s)
unfolding flip
flip_one out r rs reply now s h =
    All-update_to (Left out (r ∷ rs)) (Left out rs) (delivered_at_id r.id) (cancel_row reply now) s
      (λ d e k m. (refl, λ x. cc))
      (λ d e k m. (
        (k m).0,
        λ x.
            let there = (k m).1 x in
            elim (Bool-cases (r.id == d.id)) [
              | inl same ↦ absurd (ground arith)
              | inr other ↦ ground arith
            ],
      ))
      h

flips_settle :
    (out : String) (now : ℕ) (replies : String → Option Bool) (rs s : List Delivery)
    → All (Left out rs) s
    → IsCancelled out (flips now replies rs s)
flips_settle out now replies [] s h =
    All-mono (Left out []) (Settled out) s
      (λ d k m. (
        (k m).0,
        elim (Bool-cases (is_delivered d.status)) [
          | inl e ↦ absurd (let bad = (k m).1 e in cc)
          | inr e ↦ e
        ],
      ))
      h
flips_settle out now replies (r ∷ rs) s h =
    flips_settle out now replies rs _ (flip_one out r rs (replies r.channel) now s h)

abbrev ids_of : String → List Delivery → List ℕ
ids_of out s = map (λ (r : Delivery). r.id) (select (of_output out is_delivered) s)

ids_grow :
    (out : String) (x : Delivery) (xs : List Delivery) (i : ℕ)
    → elem i (ids_of out xs) ≡ true
    → elem i (ids_of out (x ∷ xs)) ≡ true
ids_grow out x xs i h = elim (Bool-cases (of_output out is_delivered x)) [
  | inl e ↦ rw e (ground arith)
  | inr e ↦ rw e h
]

ids_first :
    (out : String) (x : Delivery) (xs : List Delivery)
    → of_output out is_delivered x ≡ true
    → elem x.id (ids_of out (x ∷ xs)) ≡ true
ids_first out x xs e = rw e (ground arith)

-- Every delivered row of the event is among those that the SELECT finds.
found_in :
    (out : String) (ids : List ℕ) (s : List Delivery)
    → ((i : ℕ) → elem i (ids_of out s) ≡ true → elem i ids ≡ true)
    → All (λ d. of_output out is_delivered d ≡ true → elem d.id ids ≡ true) s
found_in out ids [] k = tt
found_in out ids (x ∷ xs) k =
    (λ e. k x.id (ids_first out x xs e), found_in out ids xs (λ i h. k i (ids_grow out x xs i h)))

claim_off :
    (out : String) (s : List Delivery)
    → All (λ d. d.output_id ≡ out → is_in_flight d.status ≡ false) (claim out s)
unfolding claim
claim_off out [] = tt
claim_off out (x ∷ xs) = elim (Bool-cases (of_output out is_in_flight x)) [
  | inl e ↦ rw e ((λ k. refl), claim_off out xs)
  | inr e ↦ rw e ((λ k. ground (arith, eq_iff x.output_id out)), claim_off out xs)
]

cancel-IsCancelled :
    (out : String) (now : ℕ) (replies : String → Option Bool) (s : List Delivery)
    → IsCancelled out (cancel_deliveries out now replies s).0
unfolding cancel_deliveries
cancel-IsCancelled out now replies s = flips_settle out now replies _ (claim out s) (
    All-mono _ _ (claim out s) (λ d k m. (k.0 m, λ e. k.1 (ground (arith, eq_iff d.output_id out))))
      (All-zip _ _ (claim out s) (claim_off out s) (found_in out _ (claim out s) (λ i h. h))))

-- When `cancel_output` has run, no row of the event is in flight or delivered, and none becomes so
-- again, whatever the channels answer later and whatever else is cancelled or delivered, as long as
-- `emit_output` begins no further delivery of this event.
pub cancel_output_final :
    (out : String) (now : ℕ) (replies : String → Option Bool) (s t : List Delivery)
    (p : Delivery → Bool) (d : Delivery)
    → Steps (NotOf out) (cancel_deliveries out now replies s).0 t
    → first p t ≡ some d
    → d.output_id ≡ out
    → (is_in_flight d.status ≡ false) × (is_delivered d.status ≡ false)
cancel_output_final out now replies s t p d after found own =
    first-All (Settled out) p t (Steps-IsCancelled out after (cancel-IsCancelled out now replies s))
      found own
