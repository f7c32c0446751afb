-- ===== src/Prelude/Text/FilePath.antt =====
-- What the program uses of `std::path`, on paths with no empty component, no final separator and
-- no `.` or `..` component.
use tummycrypt.Prelude.Tests.{nat_eq, if◌then◌else◌, Option-cases}
use mathlib.Core.Path.{◌≡◌}
use mathlib.Core.Logic.{inl, inr}
use native.Mathlib.Omega.{arith}
use tummycrypt.Prelude.Text.{Str, str, ◌==◌}
use tummycrypt.Prelude.Text.Lines.{is_empty}
use Prim.Native.Nat.{ℕ}
use mathlib.Core.Option.{Option, none, some}
use mathlib.Core.List.{[], ◌∷◌, ◌++◌}

-- `rsplit_once`: what stands before and behind the last separator.
unfoldable pub rsplit_once : ℕ → Str → Option (Str × Str)
rsplit_once c [] = none
rsplit_once c (x ∷ s) = elim (rsplit_once c s) [
  | some (a, b) ↦ some (x ∷ a, b)
  | none ↦ if nat_eq x c then some ([], s) else none
]

-- The text is put together again.
pub rsplit_once-parts :
    (c : ℕ) (s front back : Str) → rsplit_once c s ≡ some (front, back) → s ≡ front ++ (c ∷ back)
unfolding rsplit_once
rsplit_once-parts c [] front back h = absurd (cc h)
rsplit_once-parts c (x ∷ s) front back h = elim (Option-cases (rsplit_once c s)) [
  | inl q ↦ ground arith
  | inr ((a, b), q) ↦ ground (arith, rsplit_once-parts c s a b q)
]

-- `Path::parent`.
unfoldable pub parent : Str → Option Str
unfolding rsplit_once
parent p = elim (rsplit_once b'/' p) [
  | some (dir, name) ↦
      if is_empty name then none else some (if is_empty dir then b'/' ∷ [] else dir)
  | none ↦ if is_empty p then none else some []
]

unfoldable pub file_name : Str → Str
unfolding rsplit_once
file_name p = elim (rsplit_once b'/' p) [ some (dir, name) ↦ name | none ↦ p ]

-- A name that begins with its only dot has no extension.
unfoldable pub extension : Str → Option Str
unfolding file_name
extension p = elim (rsplit_once b'.' (file_name p)) [
  | some (stem, ext) ↦ if is_empty stem then none else some ext
  | none ↦ none
]

unfoldable pub file_stem : Str → Str
unfolding file_name
file_stem p = elim (rsplit_once b'.' (file_name p)) [
  | some (stem, ext) ↦ if is_empty stem then file_name p else stem
  | none ↦ file_name p
]

-- `Path::with_extension` at an extension that is not empty.
unfoldable pub with_extension : Str → Str → Str
unfolding file_stem
with_extension p ext =
    let renamed = file_stem p ++ (b'.' ∷ ext) in
    elim (rsplit_once b'/' p) [ some (dir, name) ↦ dir ++ (b'/' ∷ renamed) | none ↦ renamed ]

-- `parent().unwrap_or(".")`
abbrev pub dir_or_dot : Option Str → Str
dir_or_dot none = str "."
dir_or_dot (some dir) = dir

-- `Path::join`, of a directory that `parent` gave and a name.
abbrev pub join_name : Str → Str → Str
join_name dir name =
    if is_empty dir then name else if dir == str "/" then dir ++ name else dir ++ (b'/' ∷ name)
