-- ===== src/Prelude/Text/Utf8.antt =====
-- `String::from_utf8`: which byte sequences are well-formed UTF-8.
use tummycrypt.Prelude.Tests.{ltb, leb, if◌then◌else◌}
use tummycrypt.Prelude.Text.{Str}
use Prim.Native.Nat.{ℕ, zero, suc}
use mathlib.Core.Bool.{Bool, true, false, ◌&&◌}
use mathlib.Core.List.{[], ◌∷◌}

abbrev between : ℕ → ℕ → ℕ → Bool
between lo hi c = leb lo c && leb c hi

-- The bytes that are still due of a character, and the range of the next one.
abbrev starts : ℕ → ℕ × ℕ × ℕ
starts c =
    if ltb c 0x80
    then (0, 0, 0)
    else if between 0xC2 0xDF c
    then (1, 0x80, 0xBF)
    else if between 0xE0 0xE0 c
    then (2, 0xA0, 0xBF)
    else if between 0xED 0xED c
    then (2, 0x80, 0x9F)
    else if between 0xE1 0xEF c
    then (2, 0x80, 0xBF)
    else if between 0xF0 0xF0 c
    then (3, 0x90, 0xBF)
    else if between 0xF1 0xF3 c
    then (3, 0x80, 0xBF)
    else if between 0xF4 0xF4 c
    then (3, 0x80, 0x8F)
    else (9, 1, 0)

utf8_from : ℕ → ℕ → ℕ → Str → Bool
utf8_from zero lo hi [] = true
utf8_from (suc due) lo hi [] = false
utf8_from zero lo hi (c ∷ s) = let next = starts c in utf8_from next.0 next.1 next.2 s
utf8_from (suc due) lo hi (c ∷ s) = between lo hi c && utf8_from due 0x80 0xBF s

unfoldable pub is_utf8 : Str → Bool
unfolding utf8_from
is_utf8 s = utf8_from 0 0 0 s
