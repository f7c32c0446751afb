-- ===== src/Exec/Inversion.antt =====
-- What a run of a compound action says of its parts.
use tummycrypt.Prelude.{◌≡◌, refl, ◌⊎◌, inl, inr, ◌∙◌, ap, Bool, true, false, if◌then◌else◌}
use tummycrypt.Fallible.{Result, ok, err, Error}
use tummycrypt.Exec.{Exec, pure, lift, gets, attempt, context, ◌>>=◌}

module _ {ℓ κ μ} {S : Type ℓ} {A : Type κ} {B : Type μ} where
  -- A bind that succeeds: both parts do.
  pub >>=-eq-ok :
      (m : Exec S A) (f : A → Exec S B) (s : S) {b : B}
      → ((m >>= f) s).0 ≡ ok b
      → (a : A) × ((m s).0 ≡ ok a) × ((m >>= f) s ≡ f a (m s).1) × ((f a (m s).1).0 ≡ ok b)
  unfolding ◌>>=◌
  >>=-eq-ok m f s {b} h = go (m s).0 refl
    where
      go :
          (r : Result A)
          → (m s).0 ≡ r
          → (a : A) × ((m s).0 ≡ ok a) × ((m >>= f) s ≡ f a (m s).1) × ((f a (m s).1).0 ≡ ok b)
      go (ok a) q = (a, q, rw (q, ◌>>=◌) refl, rw (q, ◌>>=◌) at h)
      go (err e) q = absurd (cc (rw (q, ◌>>=◌) at h))

  -- A bind whose first part succeeds goes on with what it gives.
  pub >>=-ok :
      (m : Exec S A) (f : A → Exec S B) (s : S) {a : A} → (m s).0 ≡ ok a → (m >>= f) s ≡ f a (m s).1
  unfolding ◌>>=◌
  >>=-ok m f s {a} q = rw (q, ◌>>=◌) refl

  -- A bind both of whose parts succeed.
  pub >>=-answers :
      (m : Exec S A) (f : A → Exec S B) (s : S) {a : A} {b : B}
      → (m s).0 ≡ ok a
      → (f a (m s).1).0 ≡ ok b
      → ((m >>= f) s).0 ≡ ok b
  >>=-answers m f s p q = ap (λ (r : Result B × S). r.0) (>>=-ok m f s p) ∙ q

  -- A bind that fails: the first part does, or the second after it.
  pub >>=-eq-err :
      (m : Exec S A) (f : A → Exec S B) (s : S) {e : Error}
      → ((m >>= f) s).0 ≡ err e
      → (((m s).0 ≡ err e) × (((m >>= f) s).1 ≡ (m s).1))
        ⊎ ((a : A) × ((m s).0 ≡ ok a) × ((m >>= f) s ≡ f a (m s).1) × ((f a (m s).1).0 ≡ err e))
  unfolding ◌>>=◌
  >>=-eq-err m f s {e} h = go (m s).0 refl
    where
      go :
          (r : Result A)
          → (m s).0 ≡ r
          → (((m s).0 ≡ err e) × (((m >>= f) s).1 ≡ (m s).1))
            ⊎ ((a : A) × ((m s).0 ≡ ok a) × ((m >>= f) s ≡ f a (m s).1) × ((f a (m s).1).0 ≡ err e))
      go (ok a) q = inr (a, q, rw (q, ◌>>=◌) refl, rw (q, ◌>>=◌) at h)
      go (err x) q =
          let same : x ≡ e = cc (rw (q, ◌>>=◌) at h) in inl (q ∙ ap err same, rw (q, ◌>>=◌) refl)

-- `P` holds after `m` if it held before, whether `m` succeeds or fails.
abbrev pub Keeps {ℓ κ μ} : {S : Type ℓ} {A : Type κ} → (S → Type μ) → Exec S A → Type (ℓ ⊔ μ)
Keeps {S} P m = (s : S) → P s → P (m s).1

module _ {ℓ κ μ ν} {S : Type ℓ} {A : Type κ} {B : Type μ} (P : S → Type ν) where
  pub Keeps-bind :
      (m : Exec S A)
      → Keeps P m
      → (f : A → Exec S B) → ((a : A) → Keeps P (f a))
      → Keeps P (m >>= f)
  unfolding ◌>>=◌
  Keeps-bind m p f q s h = go (m s).0 refl
    where
      go : (r : Result A) → (m s).0 ≡ r → P ((m >>= f) s).1
      go (ok a) e = rw (e, ◌>>=◌) (q a (m s).1 (p s h))
      go (err x) e = rw (e, ◌>>=◌) (p s h)

module _ {ℓ κ ν} {S : Type ℓ} {A : Type κ} (P : S → Type ν) where
  pub Keeps-pure : (a : A) → Keeps P (pure a)
  unfolding pure
  Keeps-pure a s h = h

  pub Keeps-lift : (r : Result A) → Keeps P (lift r)
  unfolding lift
  Keeps-lift r s h = h

  pub Keeps-context : (e : Error) (m : Exec S A) → Keeps P m → Keeps P (context e m)
  unfolding context
  Keeps-context e m p s h = go (m s).0 refl
    where
      go : (r : Result A) → (m s).0 ≡ r → P (context e m s).1
      go (ok a) q = rw (q, context) (p s h)
      go (err x) q = rw (q, context) (p s h)

module _ {ℓ κ ν} {S : Type ℓ} {A : Type κ} (P : S → Type ν) where
  pub Keeps-attempt : (m : Exec S A) → Keeps P m → Keeps P (attempt m)
  unfolding attempt
  Keeps-attempt m p s h = p s h

  pub Keeps-gets : (f : S → A) → Keeps P (gets f)
  unfolding gets
  Keeps-gets f s h = h

  pub Keeps-if : (b : Bool) (m n : Exec S A) → Keeps P m → Keeps P n → Keeps P (if b then m else n)
  Keeps-if true m n p q = p
  Keeps-if false m n p q = q

pub context-ok {ℓ κ} :
    {S : Type ℓ} {A : Type κ} (e : Error) (m : Exec S A) (s : S) {a : A}
    → (m s).0 ≡ ok a
    → context e m s ≡ (ok a, (m s).1)
unfolding context
context-ok e m s h = rw (h, context) refl

-- A context changes only the error.
pub context-eq-ok {ℓ κ} :
    {S : Type ℓ} {A : Type κ} (e : Error) (m : Exec S A) (s : S) {a : A}
    → (context e m s).0 ≡ ok a
    → ((m s).0 ≡ ok a) × ((context e m s).1 ≡ (m s).1)
unfolding context
context-eq-ok {A} e m s {a} h = go (m s).0 refl
  where
    go : (r : Result A) → (m s).0 ≡ r → ((m s).0 ≡ ok a) × ((context e m s).1 ≡ (m s).1)
    go (ok b) q = (q ∙ (rw (q, context) at h), rw (q, context) refl)
    go (err x) q = absurd (cc (rw (q, context) at h))
