-- ===== src/Base/Text.antt =====
-- The methods of Python's `str` that the program applies to its texts.
use Prim.Native.Nat.{ℕ, zero, suc}
use Prim.Native.String.{String, ◌++◌}
use mathlib.Core.Bool.{Bool, true, false}
use mathlib.Core.Path.{◌≡◌, refl}
use mathlib.Core.Option.{Option, none, some}
use mathlib.Core.List.{List, [], ◌∷◌}
use text.Mathlib.Text.{starts_with, find?}
use text.Mathlib.TextLemmas.{cons-append}
use life_man.Base.Tests.{if◌then◌else◌, is_some}

-- `needle in s`
abbrev pub contains_text : String → String → Bool
contains_text s needle = is_some (find? s needle)

-- `s + t`
infixr 65 ◌<>◌
abbrev pub ◌<>◌ : String → String → String
s <> t = s ++ t

-- `not s`
abbrev pub is_empty : String → Bool
is_empty String.[] = true
is_empty (String.◌∷◌ c s) = false

-- `len(s)`, and one less
abbrev pub count_chars : String → ℕ
count_chars String.[] = 0
count_chars (String.◌∷◌ c s) = suc (count_chars s)

abbrev pred_length : String → ℕ
pred_length String.[] = 0
pred_length (String.◌∷◌ c s) = count_chars s

-- `s[:n]`
unfoldable pub take_chars : ℕ → String → String
take_chars zero s = ""
take_chars (suc n) String.[] = ""
take_chars (suc n) (String.◌∷◌ c s) = String.◌∷◌ c (take_chars n s)

-- The rest of `s.replace(old, new)` where the first `skip` characters belong to an occurrence that
-- has been replaced.
replace_from : ℕ → String → String → String → String
replace_from skip old new String.[] = ""
replace_from (suc skip) old new (String.◌∷◌ c s) = replace_from skip old new s
replace_from zero old new (String.◌∷◌ c s) =
    let hit = starts_with (String.◌∷◌ c s) old in
    let rest = replace_from (if hit then pred_length old else 0) old new s in
    if hit then new ++ rest else String.◌∷◌ c rest

-- `s.replace(old, new)` for an `old` that is not empty
unfoldable pub replace : String → String → String → String
unfolding replace_from
replace s old new = replace_from 0 old new s

replace_allow : replace "allow_once" "allow_" "granted_" ≡ "granted_once"
unfolding replace
replace_allow = refl

-- `sep.join(texts)`
abbrev pub join : String → List String → String
join sep [] = ""
join sep (s ∷ []) = s
join sep (s ∷ t ∷ ts) = s ++ sep ++ join sep (t ∷ ts)

-- The truth of an optional text: it is there, and not empty.
abbrev pub has_text : Option String → Bool
has_text none = false
has_text (some s) = elim (is_empty s) [ true ↦ false | false ↦ true ]

pub is_empty-append_right : (s t : String) → is_empty s ≡ false → is_empty (s ++ t) ≡ false
is_empty-append_right String.[] t h = cc
is_empty-append_right (String.◌∷◌ c s) t h = rw (cons-append c s t) refl
