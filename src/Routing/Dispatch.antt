-- ===== src/Routing/Dispatch.antt =====
-- What the engine records of an event.
use life_man.Base.{List, String, [], not, select, ◌∷◌, ◌≡◌}
use life_man.Routing.{DispatchRow}

abbrev pub handlers_of : List DispatchRow → List String
handlers_of [] = []
handlers_of (r ∷ rs) = r.handler ∷ handlers_of rs

-- The rows that a dispatch has added, and what they say of its answer.
abbrev pub Recorded : List String → List String × List String → List DispatchRow → Type 0
Recorded names answered rows =
    (handlers_of rows ≡ names)
    × (answered.0 ≡ handlers_of (select (λ (r : DispatchRow). r.ok) rows))
    × (answered.1 ≡ handlers_of (select (λ (r : DispatchRow). not r.ok) rows))
