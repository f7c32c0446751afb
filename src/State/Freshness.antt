-- ===== src/State/Freshness.antt =====
-- When a file counts as unchanged since its last sync.
use tummycrypt.Prelude.{
  ℕ, ◌≡◌, refl, ◌↔◌, ◌⊎◌, inl, inr, Option, none, some, Str, eq_iff, eq_refl, arith, length,
}
use tummycrypt.Fallible.{Result, ok, err, Result-cases}
use tummycrypt.Conflict.{VectorClock}
use tummycrypt.Disk.{Disk, File, metadata, mtime_of}
use tummycrypt.State.{
  SyncState, StateCache, Hasher, path_key, get, set, needs_sync, make_sync_state_full,
}
use tummycrypt.State.Cache.{get-set}

module _ (hash_hex : Hasher) where
  -- The system gives the file and the cache has an entry of its size, with its time or with its hash.
  abbrev pub IsUnchanged : Disk → StateCache → Str → Type 0
  IsUnchanged d c p =
      (f : File) × (s : SyncState) × (metadata d p ≡ ok f)
      × (get d c p ≡ some s)
      × (s.size ≡ length f.content)
      × ((s.mtime ≡ mtime_of f) ⊎ (hash_hex f.content ≡ s.blake3))

  needs_sync-none_at :
      (d : Disk) (c : StateCache) (p : Str) (f : File) (s : SyncState)
      → metadata d p ≡ ok f
      → get d c p ≡ some s
      → s.size ≡ length f.content
      → (s.mtime ≡ mtime_of f) ⊎ (hash_hex f.content ≡ s.blake3)
      → needs_sync hash_hex d c p ≡ ok none
  unfolding needs_sync
  needs_sync-none_at d c p f s there cached size h =
      ground (arith, eq_iff (hash_hex f.content) s.blake3)

  IsUnchanged-of :
      (d : Disk) (c : StateCache) (p : Str) (f : Result File) (s : Option SyncState)
      → metadata d p ≡ f
      → get d c p ≡ s
      → needs_sync hash_hex d c p ≡ ok none
      → IsUnchanged d c p
  unfolding needs_sync
  IsUnchanged-of d c p (err e) s there cached h = absurd (ground arith)
  IsUnchanged-of d c p (ok f) none there cached h = absurd (ground arith)
  IsUnchanged-of d c p (ok f) (some s) there cached h =
      (f, s, there, cached, ground arith, ground (arith, eq_iff (hash_hex f.content) s.blake3))

  -- A file needs no sync exactly if the system gives it and the cache has an entry for it with its size,
  -- and with its modification time or the hash of its content.
  pub needs_sync-none_iff :
      (d : Disk) (c : StateCache) (p : Str)
      → (needs_sync hash_hex d c p ≡ ok none) ↔ IsUnchanged d c p
  needs_sync-none_iff d c p = (
    IsUnchanged-of d c p (metadata d p) (get d c p) refl refl,
    λ (f, s, there, cached, size, h). needs_sync-none_at d c p f s there cached size h,
  )

  -- A file whose state was just recorded needs no sync while the disk is the same, whatever hash,
  -- remote path and clock were recorded.
  pub needs_sync-set :
      (d : Disk) (c : StateCache) (p hash remote_path device : Str) (n : ℕ) (v : VectorClock)
      {s : SyncState}
      → make_sync_state_full d p hash n remote_path v device ≡ ok s
      → needs_sync hash_hex d (set d c p s) p ≡ ok none
  unfolding make_sync_state_full
  needs_sync-set d c p hash remote_path device n v {s} h = elim (Result-cases (metadata d p)) [
    | inl (e, gone) ↦ absurd (ground arith)
    | inr (f, there) ↦
        needs_sync-none_at d (set d c p s) p f s there
          (ground (arith, get-set d c p p s, eq_refl (path_key d p))) (ground arith)
          (inl (ground arith))
  ]
