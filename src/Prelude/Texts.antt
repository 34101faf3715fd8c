-- ===== src/Prelude/Texts.antt =====
-- Python's `str.join`, and the texts that count as true.
use Prim.Native.String.{String, ◌++◌}
use mathlib.Core.Bool.{Bool}
use mathlib.Core.List.{List, [], ◌∷◌}
use mathlib.Core.Option.{Option, none, some}
use pywatt_sdk.Prelude.Tests.{string_eq, ◌==◌, if◌then◌else◌}

unfoldable pub join : String → List String → String
join sep [] = ""
join sep (s ∷ []) = s
join sep (s ∷ t ∷ ts) = s ++ (sep ++ join sep (t ∷ ts))

-- An f-string, of its parts.
abbrev pub concat_texts : List String → String
concat_texts [] = ""
concat_texts (s ∷ ss) = s ++ concat_texts ss

-- The text that passes `if text:`.
abbrev pub given : Option String → Option String
given none = none
given (some s) = if s == "" then none else some s

-- The parts that `if text:` adds.
abbrev pub when_given : Option String → (String → String) → List String
when_given o f = elim (given o) [ none ↦ [] | some s ↦ f s ∷ [] ]

-- The part that `if flag:` adds.
abbrev pub flag : Bool → String → List String
flag b s = if b then s ∷ [] else []
