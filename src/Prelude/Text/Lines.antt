-- ===== src/Prelude/Text/Lines.antt =====
-- `str::lines`: a line ends at a line feed, and a carriage return before the feed goes too. What
-- follows the last feed is a line of its own unless it is empty.
use tummycrypt.Prelude.Tests.{nat_eq, if◌then◌else◌}
use tummycrypt.Prelude.Lists.{All}
use tummycrypt.Prelude.Text.{Str}
use mathlib.Core.Path.{◌≡◌, refl, ap}
use mathlib.Core.Logic.{◌≢◌}
use mathlib.Core.Bool.{Bool, true, false}
use mathlib.Core.List.{List, [], ◌∷◌, ◌++◌, append-nil, append_assoc}
use native.Mathlib.Omega.{arith}

unfoldable pub strip_cr : Str → Str
strip_cr [] = []
strip_cr (c ∷ []) = if nat_eq c 13 then [] else c ∷ []
strip_cr (c ∷ d ∷ s) = c ∷ strip_cr (d ∷ s)

abbrev pub is_empty {ℓ} : {A : Type ℓ} → List A → Bool
is_empty [] = true
is_empty (x ∷ xs) = false

-- `line` holds what was read since the last feed.
unfoldable pub lines_from : Str → Str → List Str
lines_from line [] = if is_empty line then [] else line ∷ []
lines_from line (c ∷ s) = elim (nat_eq c 10) [
  | true ↦ strip_cr line ∷ lines_from [] s
  | false ↦ lines_from (line ++ (c ∷ [])) s
]

unfoldable pub lines : Str → List Str
unfolding lines_from strip_cr
lines s = lines_from [] s

-- A text on one line, with no carriage return in it.
abbrev pub IsLine : Str → Type 0
IsLine = All (λ c. (c ≢ 10) × (c ≢ 13))

strip_cr-line : (s : Str) → IsLine s → strip_cr s ≡ s
unfolding strip_cr
strip_cr-line [] h = refl
strip_cr-line (c ∷ []) h = ground arith
strip_cr-line (c ∷ d ∷ s) h = ap (◌∷◌ c) (strip_cr-line (d ∷ s) h.1)

lines_from-line :
    (s front rest : Str)
    → IsLine s
    → lines_from front (s ++ (10 ∷ rest)) ≡ strip_cr (front ++ s) ∷ lines_from [] rest
unfolding lines_from
lines_from-line [] front rest h = rw append-nil
lines_from-line (c ∷ s) front rest h =
    ground (arith, lines_from-line s (front ++ (c ∷ [])) rest h.1, append_assoc front (c ∷ []) s)

-- A line and its feed give the line, before the lines of the rest.
pub lines-line : (s rest : Str) → IsLine s → lines (s ++ (10 ∷ rest)) ≡ s ∷ lines rest
unfolding lines
lines-line s rest h = rw (lines_from-line s [] rest h, strip_cr-line s h)

pub lines-nil : lines [] ≡ []
unfolding lines
lines-nil = refl
