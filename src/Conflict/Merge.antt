-- ===== src/Conflict/Merge.antt =====
-- What `tick` and `merge` do to the counter of every device.
use tummycrypt.Prelude.{
  ℕ, ◌+◌, ◌%◌, ◌<◌, max, ◌≡◌, [], ◌∷◌, arith, Str, ◌==◌, eq_iff, if◌then◌else◌,
}
use tummycrypt.Prelude.Dict.{Dict, lookup, lookup-insert, insert, NodupKeys, insert-NodupKeys}
use tummycrypt.Conflict.{VectorClock, get, tick, merge, merge_entries, or_zero, u64_mod}

-- A clock as `BTreeMap` keeps it: no device has two entries.
abbrev pub IsClock : VectorClock → Type 0
IsClock c = NodupKeys c.clocks

-- Below the bound of a `u64`, a tick adds one to the device's own counter and leaves the counter
-- of every other device alone.
pub get-tick :
    (c : VectorClock) (d k : Str)
    → get c d + 1 < u64_mod
    → get (tick c d) k ≡ (if d == k then get c d + 1 else get c k)
unfolding get tick
get-tick c d k h =
    ground (arith, lookup-insert d k ((or_zero (lookup d c.clocks) + 1) % u64_mod) c.clocks)

pub tick-IsClock : (c : VectorClock) (d : Str) → IsClock c → IsClock (tick c d)
unfolding tick
tick-IsClock c d u = insert-NodupKeys d _ c.clocks u

or_zero-lookup-merge_entries :
    (theirs mine : Dict ℕ) (k : Str)
    → NodupKeys theirs
    → or_zero (lookup k (merge_entries mine theirs))
      ≡ max (or_zero (lookup k mine)) (or_zero (lookup k theirs))
unfolding merge_entries lookup
or_zero-lookup-merge_entries [] mine k u = omega arith
or_zero-lookup-merge_entries ((d, n) ∷ theirs) mine k (fresh, u) = ground (
  arith,
  eq_iff d k,
  lookup-insert d k (max (or_zero (lookup d mine)) n) mine,
  or_zero-lookup-merge_entries theirs (insert d (max (or_zero (lookup d mine)) n) mine) k u,
)

-- After a merge with a clock whose map has no key twice every device has the larger of its two
-- counters.
pub get-merge :
    (a b : VectorClock) (k : Str) → IsClock b → get (merge a b) k ≡ max (get a k) (get b k)
unfolding get merge
get-merge a b k u = or_zero-lookup-merge_entries b.clocks a.clocks k u

merge_entries-NodupKeys :
    (theirs mine : Dict ℕ) → NodupKeys mine → NodupKeys (merge_entries mine theirs)
unfolding merge_entries
merge_entries-NodupKeys [] mine u = u
merge_entries-NodupKeys ((d, n) ∷ theirs) mine u =
    merge_entries-NodupKeys theirs _ (insert-NodupKeys d _ mine u)

pub merge-IsClock : (a b : VectorClock) → IsClock a → IsClock (merge a b)
unfolding merge
merge-IsClock a b u = merge_entries-NodupKeys b.clocks a.clocks u
