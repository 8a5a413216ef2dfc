-- ===== src/Prelude/Text.antt =====
-- Python's `str` where the services format, slice and split it.
use Prim.Native.Nat.{ℕ, zero, suc}
use Prim.Native.String.{String, ◌++◌ as str_append}
use mathlib.Core.Path.{◌≡◌, refl}
use native.Mathlib.Omega.{arith}
use text.Mathlib.TextLemmas.{cons-append}
use mathlib.Core.Bool.{Bool, true, false}
use mathlib.Core.List.{List, [], ◌∷◌}
use mathlib.Core.Option.{Option, none, some}

-- An f-string: the concatenation of its parts.
abbrev pub format : List String → String
format [] = ""
format (s ∷ rest) = str_append s (format rest)

-- `sep.join(parts)`
abbrev pub join : String → List String → String
join sep [] = ""
join sep (s ∷ []) = s
join sep (s ∷ t ∷ rest) = str_append s (str_append sep (join sep (t ∷ rest)))

-- `s[:n]`, by characters
unfoldable pub take_chars : ℕ → String → String
take_chars zero s = ""
take_chars (suc n) String.[] = ""
take_chars (suc n) (String.◌∷◌ c s) = String.◌∷◌ c (take_chars n s)

-- The truth value of a text, and of an optional text: `None` and `""` are false.
abbrev pub truthy : String → Bool
truthy String.[] = false
truthy (String.◌∷◌ _ _) = true

abbrev pub truthy? : Option String → Bool
truthy? none = false
truthy? (some s) = truthy s

pub truthy-str_append : (s t : String) → truthy s ≡ true → truthy (str_append s t) ≡ true
truthy-str_append String.[] t h = absurd (ground arith)
truthy-str_append (String.◌∷◌ c s) t h = rw (cons-append c s t) refl
