-- ===== src/UserState.antt =====
-- The settings of the user and the state that rules and ambient ticks consult (src/lifeman/user_settings.py and
-- src/lifeman/user_state.py).
pub mod Settings
pub mod Providers
pub mod Laws
pub mod Examples
use life_man.Base.{List, String, [], ◌++◌, ◌∷◌}
use life_man.Json.{Fields, end}
use life_man.Json.Merge.{merge}

-- What a provider does when it is called: raise, return what is no dict, or return its slice.
pub data Answer : Type 0 where
  crashed : Answer
  not_dict : Answer
  slice : Fields → Answer

-- The loop of `get_state` over the registry, in the order of registration: the last writer wins.
unfoldable pub merge_slices : Fields → List (String × Answer) → Fields
merge_slices merged [] = merged
merge_slices merged ((name, crashed) ∷ ps) = merge_slices merged ps
merge_slices merged ((name, not_dict) ∷ ps) = merge_slices merged ps
merge_slices merged ((name, slice fs) ∷ ps) = merge_slices (merge merged fs) ps

-- `register_provider` and `clear_providers` change the registry; an entry is called with the state `S` of the
-- program.
abbrev pub Registry : Type 0 → Type 0
Registry S = List (String × (S → Answer))

unfoldable pub register_provider : {S : Type 0} → String → (S → Answer) → Registry S → Registry S
register_provider name provider providers = providers ++ (name, provider) ∷ []

unfoldable pub clear_providers : {S : Type 0} → Registry S → Registry S
clear_providers providers = []

abbrev pub call_all : {S : Type 0} → S → Registry S → List (String × Answer)
call_all s [] = []
call_all s ((name, provider) ∷ ps) = (name, provider s) ∷ call_all s ps

unfoldable pub get_state : {S : Type 0} → Registry S → S → Fields
get_state providers s = merge_slices end (call_all s providers)
