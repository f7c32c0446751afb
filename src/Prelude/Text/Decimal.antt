-- ===== src/Prelude/Text/Decimal.antt =====
-- Unsigned numbers in decimal: `to_string`, and `str::parse` below a bound.
use Prim.Native.Nat.{ℕ, zero, suc, ◌+◌, ◌-◌, ◌*◌, ◌/◌, ◌%◌, ◌<◌}
use tummycrypt.Prelude.Tests.{nat_eq, ltb, Bool-cases, if◌then◌else◌}
use tummycrypt.Prelude.Lists.{All, All-map}
use tummycrypt.Prelude.Text.{Str}
use tummycrypt.Prelude.Text.Lines.{IsLine, is_empty}
use mathlib.Core.Path.{◌≡◌, refl, ap, ◌∙◌}
use mathlib.Core.Logic.{inl, inr}
use mathlib.Core.Bool.{Bool, true, false, ◌&&◌, not}
use mathlib.Core.Option.{Option, none, some}
use mathlib.Core.List.{[], ◌∷◌, ◌++◌}
use native.Mathlib.Omega.{arith}

-- On fuel: a number below the fuel has all its digits.
unfoldable pub digits : ℕ → ℕ → Str
digits zero n = []
digits (suc f) n =
    let front = digits f (n / 10) in (if ltb n 10 then [] else front) ++ ((n % 10 + 48) ∷ [])

unfoldable pub to_string : ℕ → Str
to_string n = digits (suc n) n

abbrev pub is_digit : ℕ → Bool
is_digit c = not (ltb c 48) && ltb c 58

unfoldable pub from_digits : ℕ → Str → Option ℕ
from_digits a [] = some a
from_digits a (c ∷ s) =
    let rest = from_digits (a * 10 + (c - 48)) s in if is_digit c then rest else none

-- A plus sign may stand in front.
unfoldable pub strip_plus : Str → Str
strip_plus [] = []
strip_plus (c ∷ s) = if nat_eq c 43 then s else c ∷ s

abbrev pub below : ℕ → Option ℕ → Option ℕ
below bound none = none
below bound (some n) = if ltb n bound then some n else none

unfoldable pub parse : ℕ → Str → Option ℕ
parse bound s =
    let number = strip_plus s in
    if is_empty number then none else below bound (from_digits 0 number)

from_digits-snoc :
    (a : ℕ) (s : Str) (c n : ℕ)
    → from_digits a s ≡ some n
    → is_digit c ≡ true
    → from_digits a (s ++ (c ∷ [])) ≡ some (n * 10 + (c - 48))
unfolding from_digits
from_digits-snoc a [] c n h d = ground arith
from_digits-snoc a (x ∷ s) c n h d = ground (arith, from_digits-snoc (a * 10 + (x - 48)) s c n)

from_digits-digits : (f n : ℕ) → n < f → from_digits 0 (digits f n) ≡ some n
unfolding digits from_digits
from_digits-digits zero n h = absurd (omega arith)
from_digits-digits (suc f) n h = elim (Bool-cases (ltb n 10)) [
  | inl small ↦ rw small (ground (arith, from_digits-snoc 0 [] (n % 10 + 48) 0 refl))
  | inr large ↦
      let (up, whole) : (n / 10 < f) × (n / 10 * 10 + (n % 10 + 48 - 48) ≡ n) =
        (ground arith, ground arith) in
      rw large (
        from_digits-snoc 0 (digits f (n / 10)) (n % 10 + 48) (n / 10)
          (from_digits-digits f (n / 10) up) (ground arith)
        ∙ ap some whole)
]

is_digit-from_digits :
    (a : ℕ) (s : Str) (n : ℕ) → from_digits a s ≡ some n → All (λ c. is_digit c ≡ true) s
unfolding from_digits
is_digit-from_digits a [] n h = tt
is_digit-from_digits a (c ∷ s) n h =
    (ground arith, is_digit-from_digits (a * 10 + (c - 48)) s n (ground arith))

pub from_digits-to_string : (n : ℕ) → from_digits 0 (to_string n) ≡ some n
unfolding to_string
from_digits-to_string n = from_digits-digits (suc n) n (omega arith)

-- A printed number is made of digits, so it is one line.
pub to_string-is_digit : (n : ℕ) → All (λ c. is_digit c ≡ true) (to_string n)
to_string-is_digit n = is_digit-from_digits 0 (to_string n) n (from_digits-to_string n)

pub to_string-IsLine : (n : ℕ) → IsLine (to_string n)
to_string-IsLine n =
    All-map (λ c. is_digit c ≡ true) _ (to_string n) (λ c h. ground arith) (to_string-is_digit n)

parse-from_digits :
    (bound : ℕ) (s : Str) (n : ℕ)
    → from_digits 0 s ≡ some n
    → is_empty s ≡ false
    → n < bound
    → parse bound s ≡ some n
unfolding parse strip_plus from_digits
parse-from_digits bound [] n h e b = absurd (cc e)
parse-from_digits bound (c ∷ s) n h e b = ground arith

is_empty-snoc : (s : Str) (c : ℕ) → is_empty (s ++ (c ∷ [])) ≡ false
is_empty-snoc [] c = refl
is_empty-snoc (x ∷ s) c = refl

-- A number below the bound is read back.
pub parse-to_string : (bound n : ℕ) → n < bound → parse bound (to_string n) ≡ some n
unfolding to_string digits
parse-to_string bound n h =
    parse-from_digits bound (to_string n) n (from_digits-to_string n)
      (is_empty-snoc (if ltb n 10 then [] else digits n (n / 10)) (n % 10 + 48)) h
