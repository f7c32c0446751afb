-- ===== src/Fuse/NegativeCache.antt =====
-- crates/tcfs-fuse/src/negative_cache.rs: the paths that are known to be absent, for a while. The
-- lock makes every operation one step; `now` is the clock at that step.
use tummycrypt.Prelude.{
  ℕ, ◌-◌, ◌≡◌, refl, Bool, false, none, some, [], ◌∷◌, Str, ◌==◌, eq_iff, ltb, if◌then◌else◌, arith,
}
use tummycrypt.Prelude.Dict.{Dict, lookup, insert, erase, lookup-insert, lookup-erase, NodupKeys}

pub record NegativeCache : Type 0 where
  pub entries : Dict ℕ
  pub ttl : ℕ

abbrev pub empty_cache : ℕ → NegativeCache
empty_cache ttl = record { entries = []; ttl = ttl }

unfoldable pub insert_path : ℕ → NegativeCache → Str → NegativeCache
insert_path now c path = record c { entries = insert path now c.entries }

-- `elapsed() < ttl`; the clock does not go back, and the subtraction stops at zero if it does.
abbrev pub alive : ℕ → NegativeCache → ℕ → Bool
alive now c inserted_at = ltb (now - inserted_at) c.ttl

unfoldable pub is_negative : ℕ → NegativeCache → Str → Bool
is_negative now c path = elim (lookup path c.entries) [
  | some inserted_at ↦ alive now c inserted_at
  | none ↦ false
]

unfoldable pub remove_path : NegativeCache → Str → NegativeCache
remove_path c path = record c { entries = erase path c.entries }

-- `retain`
unfoldable pub retain : (ℕ → Bool) → Dict ℕ → Dict ℕ
retain p [] = []
retain p ((k, at) ∷ d) = let rest = retain p d in if p at then (k, at) ∷ rest else rest

unfoldable pub evict_expired : ℕ → NegativeCache → NegativeCache
evict_expired now c = record c { entries = retain (alive now c) c.entries }

-- A step of the cache at a time.
pub data Step : Type 0 where
  inserts removes : Str → Step
  evicts : Step

unfoldable pub step : ℕ → NegativeCache → Step → NegativeCache
step now c (inserts path) = insert_path now c path
step now c (removes path) = remove_path c path
step now c evicts = evict_expired now c

lookup-retain :
    (p : ℕ → Bool) (d : Dict ℕ) (k : Str)
    → NodupKeys d
    → lookup k (retain p d)
      ≡ elim (lookup k d) [ some at ↦ (if p at then some at else none) | none ↦ none ]
unfolding lookup retain
lookup-retain p [] k u = refl
lookup-retain p ((j, at) ∷ d) k (fresh, u) = ground (arith, lookup-retain p d k u, eq_iff j k)

-- Over a map with no key twice, a path is known to be absent after a step exactly as it was
-- before, except for the path that the step names: one that was inserted is absent, for a time
-- that is not zero, and one that was removed is not. An eviction is never seen.
pub is_negative-step :
    (now : ℕ) (c : NegativeCache) (s : Step) (path : Str)
    → NodupKeys c.entries
    → is_negative now (step now c s) path ≡ elim s [
      | inserts p ↦ (if p == path then ltb 0 c.ttl else is_negative now c path)
      | removes p ↦ (if p == path then false else is_negative now c path)
      | evicts ↦ is_negative now c path
    ]
unfolding step insert_path remove_path evict_expired is_negative
is_negative-step now c (inserts p) path u = ground (arith, lookup-insert p path now c.entries)
is_negative-step now c (removes p) path u = ground (arith, lookup-erase p path c.entries)
is_negative-step now c evicts path u = ground (arith, lookup-retain (alive now c) c.entries path u)
