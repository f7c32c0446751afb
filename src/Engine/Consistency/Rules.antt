-- ===== src/Engine/Consistency/Rules.antt =====
-- One rule for each way to build an action of an upload.
use tummycrypt.Prelude.{
  ◌≡◌, ◌≢◌, refl, ◌∙◌, Bool, true, false, none, some, Str, if◌then◌else◌, arith,
}
use tummycrypt.Fallible.{Result, ok, err, Error, or_false}
use tummycrypt.Exec.{Exec, pure, lift, gets, modify, attempt, context, ◌>>=◌}
use tummycrypt.Remote.{IsLawful}
use tummycrypt.Engine.{Deps, Session, UploadArgs}
use tummycrypt.Engine.Upload.{request, exists_or_false}
use tummycrypt.Engine.Consistency.{Extends, Extends-refl, Extends-trans, Extends-same, Runs}

module _ (D : Deps) (L : IsLawful D.op) (prefix : Str) (K : UploadArgs → Type 0) where
  open D use {op, blake3}

  abbrev pub Anything : {A : Type 0} → A → op.State → Type 0
  Anything a s = Unit

  module _ {A : Type 0} {Q : A → op.State → Type 0} where
    pub Runs-pure : (a : A) (st : Session op) → Q a st.remote → Runs D L prefix K Q (pure a) st
    unfolding pure
    Runs-pure a st q = record {
      extends = Extends-refl D L prefix K st.remote;
      returns = λ b e. let same : a ≡ b = cc e in rw same at q;
    }

    pub Runs-lift :
        (r : Result A) (st : Session op)
        → ((a : A) → r ≡ ok a → Q a st.remote)
        → Runs D L prefix K Q (lift r) st
    unfolding lift
    Runs-lift r st q = record { extends = Extends-refl D L prefix K st.remote; returns = q }

    pub Runs-gets :
        (f : Session op → A) (st : Session op)
        → Q (f st) st.remote
        → Runs D L prefix K Q (gets f) st
    unfolding gets
    Runs-gets f st q = record {
      extends = Extends-refl D L prefix K st.remote;
      returns = λ b e. let same : f st ≡ b = cc e in rw same at q;
    }

    pub Runs-context :
        (e : Error) (m : Exec (Session op) A) (st : Session op)
        → Runs D L prefix K Q m st
        → Runs D L prefix K Q (context e m) st
    unfolding context
    Runs-context e m st run = go (m st).0 refl
      where
        go : (r : Result A) → (m st).0 ≡ r → Runs D L prefix K Q (context e m) st
        go (ok a) q = record {
          extends = rw (q, context) run.extends;
          returns = rw (q, context) (λ b p. run.returns b (q ∙ p));
        }
        go (err x) q = record {
          extends = rw (q, context) run.extends;
          returns = rw (q, context) (λ b p. absurd (cc p));
        }

    pub Runs-attempt :
        (m : Exec (Session op) A) (st : Session op)
        → Runs D L prefix K Q m st
        → Runs D L prefix K (λ (r : Result A) s. (a : A) → r ≡ ok a → Q a s) (attempt m) st
    unfolding attempt
    Runs-attempt m st run = record {
      extends = run.extends;
      returns = λ r e a p. run.returns a (cc);
    }

    pub Runs-if :
        (b : Bool) (m n : Exec (Session op) A) (st : Session op)
        → (b ≡ true → Runs D L prefix K Q m st)
        → (b ≡ false → Runs D L prefix K Q n st)
        → Runs D L prefix K Q (if b then m else n) st
    Runs-if true m n st p q = p refl
    Runs-if false m n st p q = q refl

  pub Runs-modify :
      (f : Session op → Session op) (st : Session op)
      → (f st).remote ≡ st.remote
      → Runs D L prefix K Anything (modify f) st
  unfolding modify
  Runs-modify f st e = record {
    extends = rw e (Extends-refl D L prefix K st.remote);
    returns = λ a p. tt;
  }

  module _ {A B : Type 0} {Q : A → op.State → Type 0} {R : B → op.State → Type 0} where
    pub Runs-bind :
        (m : Exec (Session op) A) (f : A → Exec (Session op) B) (st : Session op)
        → Runs D L prefix K Q m st
        → ((a : A) (t : Session op)
            → Q a t.remote
            → Extends D L prefix K st.remote t.remote
            → Runs D L prefix K R (f a) t)
        → Runs D L prefix K R (m >>= f) st
    unfolding ◌>>=◌
    Runs-bind m f st run next = go (m st).0 refl
      where
        go : (r : Result A) → (m st).0 ≡ r → Runs D L prefix K R (m >>= f) st
        go (ok a) q =
            let rest = next a (m st).1 (run.returns a q) run.extends in
            record {
              extends =
                  rw (q, ◌>>=◌)
                    (Extends-trans D L prefix K st.remote (m st).1.remote (f a (m st).1).1.remote
                      run.extends rest.extends);
              returns = rw (q, ◌>>=◌) rest.returns;
            }
        go (err x) q = record {
          extends = rw (q, ◌>>=◌) run.extends;
          returns = rw (q, ◌>>=◌) (λ b p. absurd (cc p));
        }

  pub Runs-weaken :
      {A : Type 0} {Q R : A → op.State → Type 0} {m : Exec (Session op) A} {st : Session op}
      → ((a : A) (s : op.State) → Q a s → R a s)
      → Runs D L prefix K Q m st
      → Runs D L prefix K R m st
  Runs-weaken f run = record { extends = run.extends; returns = λ a e. f a _ (run.returns a e) }

  -- The requests.
  pub Runs-exists :
      (k : Str) (st : Session op)
      → Runs D L prefix K (λ b s. b ≡ true → L.object s k ≢ none) (exists_or_false D k) st
  unfolding exists_or_false request ◌>>=◌
  Runs-exists k st = record {
    extends = Extends-same D L prefix K st.remote _ (L.object-exists st.remote k);
    returns = λ b e yes_b gone. answer (op.exists k st.remote).0 refl b e yes_b gone;
  }
    where
      answer :
          (r : Result Bool)
          → (op.exists k st.remote).0 ≡ r
          → (b : Bool) → ok (or_false (op.exists k st.remote).0) ≡ ok b
          → b ≡ true
          → L.object (op.exists k st.remote).1 k ≡ none
          → ⊥
      answer (ok x) q b e t gone =
          ground (arith, L.exists-ok st.remote k x q, L.object-exists st.remote k k)
      answer (err x) q b e t gone = ground arith

  pub Runs-read :
      (k : Str) (st : Session op)
      → Runs D L prefix K (λ v s. L.object s k ≡ some v) (request D (op.read k)) st
  unfolding request
  Runs-read k st = record {
    extends = Extends-same D L prefix K st.remote _ (L.object-read st.remote k);
    returns = λ v e. L.object-read st.remote k k ∙ L.read-ok st.remote k v e;
  }

  pub Runs-write :
      (k v : Str) (st : Session op)
      → Extends D L prefix K st.remote (op.write k v st.remote).1
      → Runs D L prefix K (λ _ s. L.object s k ≡ some v) (request D (op.write k v)) st
  unfolding request
  Runs-write k v st extended = record {
    extends = extended;
    returns = λ u e. L.object-write_ok st.remote k v (ground arith);
  }
