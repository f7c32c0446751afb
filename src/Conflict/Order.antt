-- ===== src/Conflict/Order.antt =====
-- `partial_cmp_vc` decides the pointwise order of two clocks.
use Prim.Native.Nat.{compare, Ordering}
use tummycrypt.Prelude.{
  ℕ, ◌+◌, ◌<◌, ◌≤◌, ◌≡◌, refl, sym, ◌↔◌, inl, inr, Bool, true, false, ◌&&◌, ◌||◌, Option, none,
  some, List, [], ◌∷◌, ◌++◌, arith, Str, ◌==◌, eq_iff, eq_refl, if◌then◌else◌, Bool-cases, All, any,
}
use tummycrypt.Prelude.Dict.{Dict, lookup, lookup-insert, lookup-nil, insert, keys, any-keys, has}
use tummycrypt.Conflict.{
  VectorClock, get, tick, merge, or_zero, u64_mod, collect_keys, all_keys, compare_keys, verdict,
  saw_greater, saw_less, partial_cmp_vc,
}
use tummycrypt.Conflict.Merge.{IsClock, get-tick, get-merge}

-- No counter of the first clock is above that of the second.
abbrev pub Below : VectorClock → VectorClock → Type 0
Below a b = (k : Str) → get a k ≤ get b k

-- Some device is strictly behind in the first clock.
abbrev pub Behind : VectorClock → VectorClock → Type 0
Behind a b = (k : Str) × (get a k < get b k)

-- What each answer of `partial_cmp_vc` says about the two clocks.
abbrev pub Describes : VectorClock → VectorClock → Option Ordering → Type 0
Describes a b (some Ordering.lt) = Below a b × Behind a b
Describes a b (some Ordering.gt) = Below b a × Behind b a
Describes a b (some Ordering.eq) = (k : Str) → get a k ≡ get b k
Describes a b none = Behind a b × Behind b a

module _ (a b : VectorClock) where
  -- The flags hold what the keys seen so far show.
  abbrev Seen : Bool → Bool → Type 0
  Seen greater less = (greater ≡ true → Behind b a) × (less ≡ true → Behind a b)

  abbrev Compared : List Str → Bool → Bool → Option Ordering → Type 0
  Compared ks greater less (some Ordering.lt) =
      (greater ≡ false) × Behind a b × All (λ k. get a k ≤ get b k) ks
  Compared ks greater less (some Ordering.gt) =
      (less ≡ false) × Behind b a × All (λ k. get b k ≤ get a k) ks
  Compared ks greater less (some Ordering.eq) =
      (greater ≡ false) × (less ≡ false) × All (λ k. get a k ≡ get b k) ks
  Compared ks greater less none = Behind a b × Behind b a

  Compared-nil :
      (greater less : Bool) → Seen greater less → Compared [] greater less (verdict greater less)
  Compared-nil true true s = (s.1 refl, s.0 refl)
  Compared-nil true false s = (refl, s.0 refl, tt)
  Compared-nil false true s = (refl, s.1 refl, tt)
  Compared-nil false false s = (refl, refl, tt)

  Compared-cons :
      (k : Str) (ks : List Str) (o : Ordering) (greater less : Bool) (r : Option Ordering)
      → compare (get a k) (get b k) ≡ o
      → Compared ks (saw_greater o greater) (saw_less o less) r
      → Compared (k ∷ ks) greater less r
  Compared-cons k ks Ordering.lt greater less (some Ordering.lt) e (g, w, h) =
      (g, w, (ground arith, h))
  Compared-cons k ks Ordering.lt greater less (some Ordering.eq) e (g, l, h) = cc
  Compared-cons k ks Ordering.lt greater less (some Ordering.gt) e (l, w, h) = cc
  Compared-cons k ks Ordering.eq greater less (some Ordering.lt) e (g, w, h) =
      (g, w, (ground arith, h))
  Compared-cons k ks Ordering.eq greater less (some Ordering.eq) e (g, l, h) =
      (g, l, (ground arith, h))
  Compared-cons k ks Ordering.eq greater less (some Ordering.gt) e (l, w, h) =
      (l, w, (ground arith, h))
  Compared-cons k ks Ordering.gt greater less (some Ordering.lt) e (g, w, h) = cc
  Compared-cons k ks Ordering.gt greater less (some Ordering.eq) e (g, l, h) = cc
  Compared-cons k ks Ordering.gt greater less (some Ordering.gt) e (l, w, h) =
      (l, w, (ground arith, h))
  Compared-cons k ks Ordering.lt greater less none e h = h
  Compared-cons k ks Ordering.eq greater less none e h = h
  Compared-cons k ks Ordering.gt greater less none e h = h

  Seen-step :
      (k : Str) (o : Ordering) (greater less : Bool)
      → compare (get a k) (get b k) ≡ o
      → Seen greater less
      → Seen (saw_greater o greater) (saw_less o less)
  Seen-step k Ordering.lt greater less e s = (s.0, λ _. (k, ground arith))
  Seen-step k Ordering.eq greater less e s = s
  Seen-step k Ordering.gt greater less e s = (λ _. (k, ground arith), s.1)

  compare_keys-Compared :
      (ks : List Str) (greater less : Bool)
      → Seen greater less
      → Compared ks greater less (compare_keys a b ks greater less)
  unfolding compare_keys
  compare_keys-Compared [] greater less s = Compared-nil greater less s
  compare_keys-Compared (k ∷ ks) greater less s =
      let o = compare (get a k) (get b k) in
      let s' = Seen-step k o greater less refl s in
      Compared-cons k ks o greater less _ refl (
        settle (saw_greater o greater) (saw_less o less) s'
          (compare_keys-Compared ks (saw_greater o greater) (saw_less o less) s'))
    where
      settle :
          (greater less : Bool)
          → Seen greater less
          → Compared ks greater less (compare_keys a b ks greater less)
          → Compared ks greater less
              (if greater && less then none else compare_keys a b ks greater less)
      settle true true s h = (s.1 refl, s.0 refl)
      settle true false s h = h
      settle false less s h = h

has-lookup-collect_keys :
    (ks : List Str) (seen : Dict (Unit {0})) (k : Str)
    → has (lookup k (collect_keys seen ks)) ≡ (any (λ j. j == k) ks || has (lookup k seen))
unfolding collect_keys
has-lookup-collect_keys [] seen k = refl
has-lookup-collect_keys (j ∷ ks) seen k =
    ground (arith, lookup-insert j k tt seen, has-lookup-collect_keys ks (insert j tt seen) k)

any-append {ℓ} :
    {A : Type ℓ} (p : A → Bool) (xs ys : List A) → any p (xs ++ ys) ≡ (any p xs || any p ys)
any-append p [] ys = refl
any-append p (x ∷ xs) ys = ground (arith, any-append p xs ys)

-- Every device of either clock is visited.
any-all_keys :
    (a b : VectorClock) (k : Str)
    → any (λ j. j == k) (all_keys a b) ≡ (has (lookup k a.clocks) || has (lookup k b.clocks))
unfolding all_keys
any-all_keys a b k =
    let ks = keys a.clocks ++ keys b.clocks in
    ground (
      arith,
      any-keys k (collect_keys [] ks),
      has-lookup-collect_keys ks [] k,
      any-append (λ (j : Str). j == k) (keys a.clocks) (keys b.clocks),
      any-keys k a.clocks,
      any-keys k b.clocks,
      lookup-nil {V = Unit {0}} k,
    )

All-at {ℓ} :
    (P : Str → Type ℓ) (ks : List Str) (k : Str) → any (λ j. j == k) ks ≡ true → All P ks → P k
All-at P [] k m h = cc
All-at P (j ∷ ks) k m h = elim (Bool-cases (j == k)) [
  | inl here ↦ let e : j ≡ k = (eq_iff j k).0 here in rw e at (h.0)
  | inr there ↦ All-at P ks k (ground arith) h.1
]

-- A relation that holds of two absent counters and at every visited device holds everywhere.
module _ (a b : VectorClock) (R : ℕ → ℕ → Type 0) (absent : R 0 0) where
  everywhere : All (λ k. R (get a k) (get b k)) (all_keys a b) → (k : Str) → R (get a k) (get b k)
  unfolding get
  everywhere h k = elim (Bool-cases (any (λ j. j == k) (all_keys a b))) [
    | inl seen ↦ All-at (λ j. R (get a j) (get b j)) (all_keys a b) k seen h
    | inr unseen ↦
        let e : or_zero (lookup k a.clocks) ≡ 0 = ground (arith, any-all_keys a b k) in
        let f : or_zero (lookup k b.clocks) ≡ 0 = ground (arith, any-all_keys a b k) in
        rw (e, f) absent
  ]

Compared-Describes :
    (a b : VectorClock) (r : Option Ordering)
    → Compared a b (all_keys a b) false false r
    → Describes a b r
Compared-Describes a b (some Ordering.lt) h = (everywhere a b ◌≤◌ (omega arith) h.2, h.1)
Compared-Describes a b (some Ordering.gt) h = (everywhere a b (λ x y. y ≤ x) (omega arith) h.2, h.1)
Compared-Describes a b (some Ordering.eq) h = everywhere a b (λ x y. x ≡ y) refl h.2
Compared-Describes a b none h = h

-- `partial_cmp_vc` answers less, greater, equal or concurrent exactly as the counters of all
-- devices, taken together, stand to one another.
pub partial_cmp_vc-Describes : (a b : VectorClock) → Describes a b (partial_cmp_vc a b)
unfolding partial_cmp_vc
partial_cmp_vc-Describes a b =
    Compared-Describes a b _
      (compare_keys-Compared a b (all_keys a b) false false (λ h. cc, λ h. cc))

not-Below-Behind : (a b : VectorClock) → Below a b → Behind b a → ⊥
not-Below-Behind a b h (k, p) = omega (arith, h k)

-- The description settles the answer.
pub Describes-unique :
    (a b : VectorClock) (r s : Option Ordering) → Describes a b r → Describes a b s → r ≡ s
Describes-unique a b (some Ordering.lt) (some Ordering.lt) h k = refl
Describes-unique a b (some Ordering.gt) (some Ordering.gt) h k = refl
Describes-unique a b (some Ordering.eq) (some Ordering.eq) h k = refl
Describes-unique a b none none h k = refl
Describes-unique a b (some Ordering.lt) (some Ordering.gt) h k =
    absurd (not-Below-Behind a b h.0 k.1)
Describes-unique a b (some Ordering.lt) none h k = absurd (not-Below-Behind a b h.0 k.1)
Describes-unique a b (some Ordering.gt) (some Ordering.lt) h k =
    absurd (not-Below-Behind a b k.0 h.1)
Describes-unique a b (some Ordering.gt) none h k = absurd (not-Below-Behind b a h.0 k.0)
Describes-unique a b none (some Ordering.lt) h k = absurd (not-Below-Behind a b k.0 h.1)
Describes-unique a b none (some Ordering.gt) h k = absurd (not-Below-Behind b a k.0 h.0)
Describes-unique a b (some Ordering.eq) (some Ordering.lt) h (_, (k, p)) =
    absurd (omega (arith, h k))
Describes-unique a b (some Ordering.eq) (some Ordering.gt) h (_, (k, p)) =
    absurd (omega (arith, h k))
Describes-unique a b (some Ordering.eq) none h ((k, p), _) = absurd (omega (arith, h k))
Describes-unique a b (some Ordering.lt) (some Ordering.eq) (_, (k, p)) h =
    absurd (omega (arith, h k))
Describes-unique a b (some Ordering.gt) (some Ordering.eq) (_, (k, p)) h =
    absurd (omega (arith, h k))
Describes-unique a b none (some Ordering.eq) ((k, p), _) h = absurd (omega (arith, h k))

abbrev pub swap : Option Ordering → Option Ordering
swap (some Ordering.lt) = some Ordering.gt
swap (some Ordering.gt) = some Ordering.lt
swap r = r

Describes-swap :
    (a b : VectorClock) (r : Option Ordering) → Describes a b r → Describes b a (swap r)
Describes-swap a b (some Ordering.lt) h = h
Describes-swap a b (some Ordering.gt) h = h
Describes-swap a b (some Ordering.eq) h = λ k. sym (h k)
Describes-swap a b none h = (h.1, h.0)

-- Two devices that compare the same two clocks, each its own first, reach opposite answers.
pub partial_cmp_vc-swap : (a b : VectorClock) → partial_cmp_vc b a ≡ swap (partial_cmp_vc a b)
partial_cmp_vc-swap a b =
    Describes-unique b a _ _ (partial_cmp_vc-Describes b a)
      (Describes-swap a b _ (partial_cmp_vc-Describes a b))

-- Below the bound of a `u64`, a clock that has ticked is strictly after the clock before.
pub partial_cmp_vc-tick :
    (c : VectorClock) (d : Str)
    → get c d + 1 < u64_mod
    → partial_cmp_vc (tick c d) c ≡ some Ordering.gt
partial_cmp_vc-tick c d h =
    Describes-unique (tick c d) c _ (some Ordering.gt) (partial_cmp_vc-Describes (tick c d) c) (
      λ k. ground (arith, get-tick c d k h, eq_iff d k),
      (d, ground (arith, get-tick c d d h, eq_refl d)),
    )

-- A merge with a clock whose map has no key twice is the least clock above both: it is below a
-- third clock exactly when both are.
pub merge-Below_iff :
    (a b c : VectorClock) → IsClock b → Below (merge a b) c ↔ (Below a c × Below b c)
merge-Below_iff a b c u = (
  λ h. (λ k. omega (arith, h k, get-merge a b k u), λ k. omega (arith, h k, get-merge a b k u)),
  λ h k. omega (arith, h.0 k, h.1 k, get-merge a b k u),
)
