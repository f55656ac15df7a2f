-- ===== src/Sse/Examples.antt =====
-- The event bus on a phone and the master page.
use life_man.Base.{
  All, List, Option, String, [], first, none, refl, some, suc, zero, ℕ, ◌+◌, ◌∷◌, ◌≡◌,
}
use life_man.Json.{null, str}
use life_man.Sse.{
  Numbered, Op, Subscriber, holding, is_sub, matches, new_bus, offer, publish, publish_op, run,
  step, subscribe, subscribe_op, waiting,
}
use life_man.Sse.Bounds.{IsValid, run-IsValid}
use life_man.Sse.Audience.{ForDevice, run_no_leak}
use life_man.Sse.Drops.{accounted, addressed, arrive, owed, play, play_accounts, turn}

-- A phone and the page subscribe; one event goes to the phone, one to another device, one to all.
abbrev script : List Op
script =
    subscribe_op none (some "phone")
    ∷ subscribe_op none (some "master")
    ∷ publish_op "reply" (str "hello") (some "phone") 10
    ∷ publish_op "reply" (str "secret") (some "tablet") 11
    ∷ publish_op "tick" null none 12
    ∷ []

abbrev message : ℕ → Option String → Numbered
message n target = record {
  seq = n;
  msg = record { event = "tick"; content = null; ts = n; target = target };
}

abbrev phone : Subscriber
phone = record {
  id = 0;
  audience = some "phone";
  queue = message 1 none ∷ message 3 (some "phone") ∷ [];
  dropped = 2;
  phase = waiting;
}

abbrev full_queue : ℕ → List Numbered
full_queue zero = []
full_queue (suc n) = message n none ∷ full_queue n

abbrev full_phone : Subscriber
full_phone = record {
  id = 0;
  audience = some "phone";
  queue = full_queue 256;
  dropped = 3;
  phase = holding (message 1 none);
}

phone_queue :
    first (is_sub 0) (run script new_bus).subscribers
    ≡ some (record {
      id = 0;
      audience = some "phone";
      queue =
          record {
            seq = 1;
            msg = record { event = "reply"; content = str "hello"; ts = 10; target = some "phone" };
          }
          ∷ record {
            seq = 3;
            msg = record { event = "tick"; content = null; ts = 12; target = none };
          }
          ∷ [];
      dropped = 0;
      phase = waiting;
    })
unfolding run step subscribe publish offer matches new_bus
phone_queue = refl

run-IsValid_example : IsValid (run script new_bus)
run-IsValid_example = run-IsValid script

run_no_leak_example :
    All (ForDevice "phone") (
      record {
        seq = 1;
        msg = record { event = "reply"; content = str "hello"; ts = 10; target = some "phone" };
      }
      ∷ record { seq = 3; msg = record { event = "tick"; content = null; ts = 12; target = none } }
      ∷ [])
    × Unit {0}
run_no_leak_example = run_no_leak script (is_sub 0) _ "phone" phone_queue refl (λ e. cc)

play_accounts_example :
    let (fs, s') = play (arrive (message 5 none) ∷ turn ∷ turn ∷ []) phone in
    accounted fs + owed s'
    ≡ addressed phone.audience (arrive (message 5 none) ∷ turn ∷ turn ∷ []) + owed phone
play_accounts_example = play_accounts (arrive (message 5 none) ∷ turn ∷ turn ∷ []) phone refl
