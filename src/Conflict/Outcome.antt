-- ===== src/Conflict/Outcome.antt =====
-- What `compare_clocks` and the automatic resolver tell two devices.
use Prim.Native.Nat.{Ordering}
use tummycrypt.Prelude.{
  ℕ, ◌≡◌, ◌≢◌, refl, ◌⊎◌, inl, inr, Bool, true, false, Option, none, some, arith, Str, ◌==◌, eq_iff,
  str_le_antisymm, str_le_total,
}
use tummycrypt.Conflict.{
  VectorClock, get, ConflictInfo, SyncOutcome, local_newer, remote_newer, up_to_date, conflict,
  keep_local, keep_remote, resolve, compare_clocks, partial_cmp_vc,
}
use tummycrypt.Conflict.Order.{
  Below, Behind, Describes, partial_cmp_vc-Describes, partial_cmp_vc-swap,
}

-- What each outcome says of the hashes, the clocks and the record of the conflict.
abbrev pub Explains :
    ℕ → VectorClock → VectorClock → Str → Str → Str → Str → Str → SyncOutcome → Type 0
Explains now a b ha hb rel da db up_to_date = ha ≡ hb
Explains now a b ha hb rel da db local_newer = (ha ≢ hb) × Below b a × Behind b a
Explains now a b ha hb rel da db remote_newer = (ha ≢ hb) × Below a b × Behind a b
Explains now a b ha hb rel da db (conflict info) =
    (ha ≢ hb)
    × ((Behind a b × Behind b a) ⊎ ((k : Str) → get a k ≡ get b k))
    × (info ≡ record {
      rel_path = rel;
      local_vclock = a;
      remote_vclock = b;
      local_blake3 = ha;
      remote_blake3 = hb;
      local_device = da;
      remote_device = db;
      detected_at = now;
    })

Explains-compare :
    (now : ℕ) (a b : VectorClock) (ha hb rel da db : Str) (same : Bool) (r : Option Ordering)
    → (ha == hb) ≡ same
    → partial_cmp_vc a b ≡ r
    → Describes a b r
    → Explains now a b ha hb rel da db (compare_clocks now a b ha hb rel da db)
unfolding compare_clocks
Explains-compare now a b ha hb rel da db true r e f d = rw e ((eq_iff ha hb).0 e)
Explains-compare now a b ha hb rel da db false (some Ordering.lt) e f d =
    rw (e, f) (λ q. ground (arith, eq_iff ha hb), d.0, d.1)
Explains-compare now a b ha hb rel da db false (some Ordering.gt) e f d =
    rw (e, f) (λ q. ground (arith, eq_iff ha hb), d.0, d.1)
Explains-compare now a b ha hb rel da db false (some Ordering.eq) e f d =
    rw (e, f) (λ q. ground (arith, eq_iff ha hb), inr d, refl)
Explains-compare now a b ha hb rel da db false none e f d =
    rw (e, f) (λ q. ground (arith, eq_iff ha hb), inl d, refl)

-- `compare_clocks` answers "up to date" on equal hashes; on different ones it answers by the
-- pointwise order of the clocks, and reports a conflict for concurrent and for equal clocks.
pub compare_clocks-Explains :
    (now : ℕ) (a b : VectorClock) (ha hb rel da db : Str)
    → Explains now a b ha hb rel da db (compare_clocks now a b ha hb rel da db)
compare_clocks-Explains now a b ha hb rel da db =
    Explains-compare now a b ha hb rel da db (ha == hb) (partial_cmp_vc a b) refl refl
      (partial_cmp_vc-Describes a b)

-- The same version, seen from the other device.
abbrev pub flip_info : ConflictInfo → ConflictInfo
flip_info i = record {
  rel_path = i.rel_path;
  local_vclock = i.remote_vclock;
  remote_vclock = i.local_vclock;
  local_blake3 = i.remote_blake3;
  remote_blake3 = i.local_blake3;
  local_device = i.remote_device;
  remote_device = i.local_device;
  detected_at = i.detected_at;
}

abbrev pub flip : SyncOutcome → SyncOutcome
flip local_newer = remote_newer
flip remote_newer = local_newer
flip up_to_date = up_to_date
flip (conflict i) = conflict (flip_info i)

compare_clocks-flip_at :
    (now : ℕ) (a b : VectorClock) (ha hb rel da db : Str) (r : Option Ordering)
    → partial_cmp_vc a b ≡ r
    → compare_clocks now b a hb ha rel db da ≡ flip (compare_clocks now a b ha hb rel da db)
unfolding compare_clocks
compare_clocks-flip_at now a b ha hb rel da db (some Ordering.lt) e =
    rw (partial_cmp_vc-swap a b, e) (ground (arith, eq_iff ha hb, eq_iff hb ha))
compare_clocks-flip_at now a b ha hb rel da db (some Ordering.gt) e =
    rw (partial_cmp_vc-swap a b, e) (ground (arith, eq_iff ha hb, eq_iff hb ha))
compare_clocks-flip_at now a b ha hb rel da db (some Ordering.eq) e =
    rw (partial_cmp_vc-swap a b, e) (ground (arith, eq_iff ha hb, eq_iff hb ha))
compare_clocks-flip_at now a b ha hb rel da db none e =
    rw (partial_cmp_vc-swap a b, e) (ground (arith, eq_iff ha hb, eq_iff hb ha))

-- Two devices that compare the same two versions at the same time, each its own first, agree:
-- one is newer exactly where the other sees a newer remote, and both see the same conflict.
pub compare_clocks-flip :
    (now : ℕ) (a b : VectorClock) (ha hb rel da db : Str)
    → compare_clocks now b a hb ha rel db da ≡ flip (compare_clocks now a b ha hb rel da db)
compare_clocks-flip now a b ha hb rel da db =
    compare_clocks-flip_at now a b ha hb rel da db (partial_cmp_vc a b) refl

-- Between two devices with different names the automatic resolver picks one winner: one side
-- keeps its own version exactly where the other side takes the remote one.
pub resolve-flip_info :
    (i : ConflictInfo)
    → i.local_device ≢ i.remote_device
    → ((resolve i ≡ some keep_local) × (resolve (flip_info i) ≡ some keep_remote))
      ⊎ ((resolve i ≡ some keep_remote) × (resolve (flip_info i) ≡ some keep_local))
unfolding resolve
resolve-flip_info i h = ground (
  arith,
  str_le_antisymm i.local_device i.remote_device,
  str_le_total i.local_device i.remote_device,
)
