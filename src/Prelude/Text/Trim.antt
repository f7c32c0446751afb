-- ===== src/Prelude/Text/Trim.antt =====
-- `trim_start_matches`, `strip_suffix` and the parts of a path in text.
use tummycrypt.Prelude.Tests.{nat_eq, if◌then◌else◌}
use tummycrypt.Prelude.Lists.{length}
use tummycrypt.Prelude.Text.{Str, ◌==◌}
use Prim.Native.Nat.{ℕ, zero, suc}
use mathlib.Core.Bool.{Bool, false, ◌||◌}
use mathlib.Core.Option.{Option, none, some}
use mathlib.Core.List.{[], ◌∷◌}

-- `trim_start_matches` of a character.
unfoldable pub trim_start : ℕ → Str → Str
trim_start sep [] = []
trim_start sep (c ∷ s) = let rest = trim_start sep s in if nat_eq c sep then rest else c ∷ s

unfoldable pub strip_prefix : Str → Str → Option Str
strip_prefix [] s = some s
strip_prefix (c ∷ p) [] = none
strip_prefix (c ∷ p) (d ∷ s) = let rest = strip_prefix p s in if nat_eq c d then rest else none

-- `trim_start_matches` of a pattern that is not empty: it is stripped as often as it is there, at
-- most once for each byte.
unfoldable pub strip_times : ℕ → Str → Str → Str
strip_times zero p s = s
strip_times (suc n) p s = elim (strip_prefix p s) [ some rest ↦ strip_times n p rest | none ↦ s ]

unfoldable pub trim_start_matches : Str → Str → Str
unfolding strip_times
trim_start_matches p s = strip_times (length s) p s

unfoldable pub strip_suffix : Str → Str → Option Str
strip_suffix p [] = if p == [] then some [] else none
strip_suffix p (c ∷ s) =
    let rest = strip_suffix p s in
    if p == (c ∷ s) then some [] else elim rest [ some r ↦ some (c ∷ r) | none ↦ none ]

-- `contains` of a character, and `split(c).next()`.
unfoldable pub contains_char : ℕ → Str → Bool
contains_char sep [] = false
contains_char sep (c ∷ s) = nat_eq c sep || contains_char sep s

unfoldable pub before_first : ℕ → Str → Str
before_first sep [] = []
before_first sep (c ∷ s) = let rest = before_first sep s in if nat_eq c sep then [] else c ∷ rest
