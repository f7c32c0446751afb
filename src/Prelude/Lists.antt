-- ===== src/Prelude/Lists.antt =====
-- Lists measured by native numbers, predicates on lists, and cancellation of a common front.
use Prim.Native.Nat.{ℕ, zero, suc, ◌+◌, ◌-◌, ◌≤◌, min}
use native.Mathlib.Nat.{zero-sub, sub-zero}
use native.Mathlib.Numerals.{unary_clauses}
use mathlib.Core.Path.{◌≡◌, refl, ap, sym}
use mathlib.Core.Logic.{inl, inr}
use tummycrypt.Prelude.Tests.{leb, Bool-cases}
use mathlib.Core.Bool.{Bool, true, false, ◌||◌}
use mathlib.Core.Option.{Option, none, some}
use mathlib.Core.List.{List, [], ◌∷◌, ◌++◌}
use native.Mathlib.Omega.{arith}

module _ {ℓ} {A : Type ℓ} where
  abbrev pub length : List A → ℕ
  length [] = 0
  length (x ∷ xs) = suc (length xs)

  abbrev pub take : ℕ → List A → List A
  take zero xs = []
  take (suc n) [] = []
  take (suc n) (x ∷ xs) = x ∷ take n xs

  abbrev pub drop : ℕ → List A → List A
  drop zero xs = xs
  drop (suc n) [] = []
  drop (suc n) (x ∷ xs) = drop n xs

  pub length-append : (xs ys : List A) → length (xs ++ ys) ≡ length xs + length ys
  length-append [] ys = omega arith
  length-append (x ∷ xs) ys = omega (arith, length-append xs ys)

  pub append-cancel_left : (p xs ys : List A) → p ++ xs ≡ p ++ ys → xs ≡ ys
  append-cancel_left [] xs ys h = h
  append-cancel_left (a ∷ p) xs ys h = append-cancel_left p xs ys (cc)

  pub take-append : (xs ys : List A) (n : ℕ) → length xs ≡ n → take n (xs ++ ys) ≡ xs
  take-append [] ys zero h = refl
  take-append [] ys (suc n) h = absurd (omega arith)
  take-append (x ∷ xs) ys zero h = absurd (omega arith)
  take-append (x ∷ xs) ys (suc n) h = ap (◌∷◌ x) (take-append xs ys n (omega arith))

  pub drop-append : (xs ys : List A) (n : ℕ) → length xs ≡ n → drop n (xs ++ ys) ≡ ys
  drop-append [] ys zero h = refl
  drop-append [] ys (suc n) h = absurd (omega arith)
  drop-append (x ∷ xs) ys zero h = absurd (omega arith)
  drop-append (x ∷ xs) ys (suc n) h = drop-append xs ys n (omega arith)

  -- The elements from index `a` on and before index `b`.
  abbrev pub between : ℕ → ℕ → List A → List A
  between a b xs = drop a (take b xs)

  pub drop-nil : (n : ℕ) → drop n [] ≡ []
  drop-nil zero = refl
  drop-nil (suc n) = refl

  pub take-nil : (n : ℕ) → take n [] ≡ []
  take-nil zero = refl
  take-nil (suc n) = refl

  pub between-append :
      (a b : ℕ) (xs ys : List A)
      → between a b (xs ++ ys) ≡ between a b xs ++ between (a - length xs) (b - length xs) ys
  between-append zero zero xs ys = rw zero-sub
  between-append (suc a) zero xs ys = rw (zero-sub, drop-nil, drop-nil (suc a - length xs)) refl
  between-append zero (suc b) [] ys = rw sub-zero refl
  between-append (suc a) (suc b) [] ys = rw (sub-zero, sub-zero) refl
  between-append zero (suc b) (x ∷ xs) ys =
      let start : 0 - length xs ≡ 0 - length (x ∷ xs) = omega arith in
      let end : b - length xs ≡ suc b - length (x ∷ xs) = omega arith in
      ap (◌∷◌ x) (rw (← start, ← end) (between-append zero b xs ys))
  between-append (suc a) (suc b) (x ∷ xs) ys = simp unary_clauses (between-append a b xs ys)

  -- A slice is written with its start and its length, or with both ends.
  pub take-drop : (a b : ℕ) (xs : List A) → take (b - a) (drop a xs) ≡ between a b xs
  take-drop zero b xs = rw sub-zero refl
  take-drop (suc a) zero xs = rw zero-sub
  take-drop (suc a) (suc b) [] = rw take-nil refl
  take-drop (suc a) (suc b) (x ∷ xs) = simp unary_clauses (take-drop a b xs)

  pub take-long : (n : ℕ) (xs : List A) → length xs ≤ n → take n xs ≡ xs
  take-long zero [] h = refl
  take-long zero (x ∷ xs) h = absurd (omega arith)
  take-long (suc n) [] h = refl
  take-long (suc n) (x ∷ xs) h = ap (◌∷◌ x) (take-long n xs (omega arith))

  pub drop-long : (n : ℕ) (xs : List A) → length xs ≤ n → drop n xs ≡ []
  drop-long zero [] h = refl
  drop-long zero (x ∷ xs) h = absurd (omega arith)
  drop-long (suc n) [] h = refl
  drop-long (suc n) (x ∷ xs) h = drop-long n xs (omega arith)

  pub take-min : (n : ℕ) (xs : List A) → take (min n (length xs)) xs ≡ take n xs
  take-min n xs = elim (Bool-cases (leb n (length xs))) [
    | inl part ↦ let all : min n (length xs) ≡ n = ground arith in rw all refl
    | inr long ↦
        let all : min n (length xs) ≡ length xs = ground arith in
        rw (all, take-long (length xs) xs (omega arith)) (sym (take-long n xs (ground arith)))
  ]

  length-take_le : (n : ℕ) (xs : List A) → length (take n xs) ≤ length xs
  length-take_le zero xs = omega arith
  length-take_le (suc n) [] = omega arith
  length-take_le (suc n) (x ∷ xs) = omega (arith, length-take_le n xs)

  pub between-late : (a b : ℕ) (xs : List A) → length xs ≤ a → between a b xs ≡ []
  between-late a b xs h = drop-long a (take b xs) (omega (arith, length-take_le b xs))

  abbrev pub find : (A → Bool) → List A → Option A
  find p [] = none
  find p (x ∷ xs) = elim (p x) [ true ↦ some x | false ↦ find p xs ]

  abbrev pub any : (A → Bool) → List A → Bool
  any p [] = false
  any p (x ∷ xs) = p x || any p xs

  abbrev pub keep : (A → Bool) → List A → List A
  keep p [] = []
  keep p (x ∷ xs) = let rest = keep p xs in elim (p x) [ true ↦ x ∷ rest | false ↦ rest ]

-- A predicate by recursion computes to tuples, which the tactics read and build.
abbrev pub All {ℓ κ} : {A : Type ℓ} → (A → Type κ) → List A → Type κ
All P [] = Unit
All P (x ∷ xs) = P x × All P xs

pub All-map {ℓ κ μ} :
    {A : Type ℓ} (P : A → Type κ) (Q : A → Type μ) (xs : List A)
    → ((a : A) → P a → Q a)
    → All P xs
    → All Q xs
All-map P Q [] f h = tt
All-map P Q (x ∷ xs) f h = (f x h.0, All-map P Q xs f h.1)

pub All-append {ℓ κ} :
    {A : Type ℓ} (P : A → Type κ) (xs ys : List A) → All P xs → All P ys → All P (xs ++ ys)
All-append P [] ys hx hy = hy
All-append P (x ∷ xs) ys hx hy = (hx.0, All-append P xs ys hx.1 hy)
