-- ===== src/Conflict.antt =====
-- crates/tcfs-sync/src/conflict.rs: vector clocks, the outcome of comparing two versions of a
-- file, and the automatic resolver. A `BTreeMap<String, u64>` is an association list.
pub mod Merge
pub mod Order
pub mod Outcome
use Prim.Native.Nat.{compare, Ordering}
use tummycrypt.Prelude.{
  ℕ, ◌+◌, ◌%◌, ◌^◌, max, Bool, true, false, Option, none, some, List, [], ◌∷◌, ◌++◌, ◌&&◌, Str,
  ◌==◌, str_le, if◌then◌else◌,
}
use tummycrypt.Prelude.Dict.{Dict, lookup, insert, keys}

abbrev pub u64_mod : ℕ
u64_mod = 2 ^ 64

pub record VectorClock : Type 0 where
  pub clocks : Dict ℕ

abbrev pub new : VectorClock
new = record { clocks = [] }

-- `entry(k).or_insert(0)` and `get(k).copied().unwrap_or(0)`.
abbrev pub or_zero : Option ℕ → ℕ
or_zero none = 0
or_zero (some n) = n

unfoldable pub get : VectorClock → Str → ℕ
get c device_id = or_zero (lookup device_id c.clocks)

-- `*entry += 1` on a `u64`, which wraps in a release build.
unfoldable pub tick : VectorClock → Str → VectorClock
tick c device_id = record c {
  clocks = insert device_id ((or_zero (lookup device_id c.clocks) + 1) % u64_mod) c.clocks;
}

unfoldable pub merge_entries : Dict ℕ → Dict ℕ → Dict ℕ
merge_entries mine [] = mine
merge_entries mine ((device, ts) ∷ other) =
    merge_entries (insert device (max (or_zero (lookup device mine)) ts) mine) other

unfoldable pub merge : VectorClock → VectorClock → VectorClock
unfolding merge_entries
merge c other = record c { clocks = merge_entries c.clocks other.clocks }

unfoldable pub collect_keys : Dict (Unit {0}) → List Str → Dict (Unit {0})
collect_keys seen [] = seen
collect_keys seen (k ∷ ks) = collect_keys (insert k tt seen) ks

unfoldable pub all_keys : VectorClock → VectorClock → List Str
unfolding collect_keys
all_keys a b = keys (collect_keys [] (keys a.clocks ++ keys b.clocks))

-- The `match` behind the loop.
abbrev pub verdict : Bool → Bool → Option Ordering
verdict true false = some Ordering.gt
verdict false true = some Ordering.lt
verdict false false = some Ordering.eq
verdict true true = none

abbrev pub saw_greater : Ordering → Bool → Bool
saw_greater Ordering.gt flag = true
saw_greater _ flag = flag

abbrev pub saw_less : Ordering → Bool → Bool
saw_less Ordering.lt flag = true
saw_less _ flag = flag

unfoldable pub compare_keys : VectorClock → VectorClock → List Str → Bool → Bool → Option Ordering
compare_keys a b [] has_greater has_less = verdict has_greater has_less
compare_keys a b (key ∷ rest) has_greater has_less =
    let o = compare (get a key) (get b key) in
    let greater = saw_greater o has_greater in
    let less = saw_less o has_less in
    if greater && less then none else compare_keys a b rest greater less

unfoldable pub partial_cmp_vc : VectorClock → VectorClock → Option Ordering
unfolding compare_keys all_keys
partial_cmp_vc a b = compare_keys a b (all_keys a b) false false

unfoldable pub is_concurrent : VectorClock → VectorClock → Bool
unfolding partial_cmp_vc
is_concurrent a b = elim (partial_cmp_vc a b) [ none ↦ true | some _ ↦ false ]

pub record ConflictInfo : Type 0 where
  pub rel_path : Str
  pub local_vclock : VectorClock
  pub remote_vclock : VectorClock
  pub local_blake3 : Str
  pub remote_blake3 : Str
  pub local_device : Str
  pub remote_device : Str
  pub detected_at : ℕ

pub data SyncOutcome : Type 0 where
  local_newer remote_newer up_to_date : SyncOutcome
  conflict : ConflictInfo → SyncOutcome

pub data Resolution : Type 0 where
  keep_local keep_remote keep_both defer : Resolution

-- `AutoResolver::resolve`.
unfoldable pub resolve : ConflictInfo → Option Resolution
resolve c = if str_le c.local_device c.remote_device then some keep_local else some keep_remote

-- `now` is the system clock when a conflict is found.
unfoldable pub compare_clocks :
    ℕ → VectorClock → VectorClock → Str → Str → Str → Str → Str → SyncOutcome
unfolding partial_cmp_vc
compare_clocks now mine theirs local_blake3 remote_blake3 rel_path local_device remote_device =
    let info : ConflictInfo = record {
      rel_path = rel_path;
      local_vclock = mine;
      remote_vclock = theirs;
      local_blake3 = local_blake3;
      remote_blake3 = remote_blake3;
      local_device = local_device;
      remote_device = remote_device;
      detected_at = now;
    } in
    if local_blake3 == remote_blake3 then up_to_date else elim (partial_cmp_vc mine theirs) [
      | some Ordering.gt ↦ local_newer
      | some Ordering.lt ↦ remote_newer
      | some Ordering.eq ↦ conflict info
      | none ↦ conflict info
    ]
