-- ===== src/Devices/Store/Sharing.antt =====
-- crates/tcfs-secrets/src/device.rs: a registry that was written is read again.
use tummycrypt.Prelude.{
  ℕ, ◌≡◌, refl, Bool, Option, none, some, [], ◌∷◌, ◌++◌, Str, arith, eq_iff, Option-cases, inl, inr,
}
use tummycrypt.Fallible.{ok, Error}
use tummycrypt.Disk
use tummycrypt.Disk.{Disk}
use tummycrypt.Disk.Reading.{write-reads, read-exists}
use tummycrypt.Remote
use tummycrypt.Remote.{Operator, IsReliable}
use tummycrypt.Devices.{DeviceRegistry, enroll, enrolled, add, find_by_id}
use tummycrypt.Devices.Store.{
  RegistryJson, IsLawful, registry_key, load, save, on_answer, load_remote, sync_to_remote,
  device_key, enroll_remote,
}
use tummycrypt.Devices.Revoking.{find_by_id-enroll}

module _ (J : RegistryJson) (law : IsLawful J) where
  -- With a codec that reads back, as UTF-8, the registries it prints, a registry that was saved is
  -- loaded again.
  pub load-save :
      (r : DeviceRegistry) (path : Str) (d : Disk)
      → (save J r path d).0 ≡ ok tt
      → load J (save J r path d).1 path ≡ ok r
  unfolding load save
  load-save r path d h = go (J.print r) refl
    where
      go : (o : Option Str) → J.print r ≡ o → load J (save J r path d).1 path ≡ ok r
      go none q = absurd (ground arith)
      go (some json) q =
          let written : (Disk.write d path json).0 ≡ ok tt = ground arith in
          let after : (save J r path d).1 ≡ (Disk.write d path json).1 = ground arith in
          let found : Disk.read (Disk.write d path json).1 path ≡ ok json =
            ground (arith, write-reads d path json path written, eq_iff path path) in
          rw
            (
              after,
              read-exists (Disk.write d path json).1 path json found,
              found,
              law.print-is_utf8 r json q,
              law.parse-print r json q,
            )
            refl

  on_answer-print :
      (is_not_found : Error → Bool) (r : DeviceRegistry) (s : Str)
      → J.print r ≡ some s
      → on_answer J is_not_found (ok s) ≡ ok r
  unfolding on_answer
  on_answer-print is_not_found r s h = rw (law.print-is_utf8 r s h, law.parse-print r s h) refl

  module _ (O : Operator) (L : Remote.IsLawful O) (R : IsReliable O L) where
    sync_to_remote-stores :
        (r : DeviceRegistry) (meta_prefix : Str) (s : O.State)
        → (sync_to_remote J O r meta_prefix s).0 ≡ ok tt
        → (json : Str) × (J.print r ≡ some json)
          × (L.object (sync_to_remote J O r meta_prefix s).1 (registry_key meta_prefix) ≡ some json)
    unfolding sync_to_remote
    sync_to_remote-stores r meta_prefix s h = elim (Option-cases (J.print r)) [
      | inl q ↦ absurd (ground arith)
      | inr (json, q) ↦
          (json, q, ground (arith, q, L.object-write_ok s (registry_key meta_prefix) json))
    ]

    -- Over a lawful store that answers every request, and with such a codec, a device that was
    -- enrolled with success, under an identifier that no device of the caller's registry has, is found in the
    -- registry that is loaded from the store; that registry is the caller's with the device behind
    -- it, whatever the store had.
    pub load_remote-enroll_remote :
        (is_not_found : Error → Bool) (hash_hex : Str → Str) (uuid : Str) (now : ℕ)
        (r : DeviceRegistry) (name meta_prefix : Str) (s : O.State)
        → find_by_id r uuid ≡ none
        → (enroll_remote J O hash_hex uuid now r name meta_prefix s).0 ≡ ok uuid
        → let device = enrolled hash_hex uuid now name (device_key J O hash_hex name) none in
          ((load_remote J O is_not_found meta_prefix
              (enroll_remote J O hash_hex uuid now r name meta_prefix s).2).0
            ≡ ok (r ++ (device ∷ [])))
          × (find_by_id (r ++ (device ∷ [])) uuid ≡ some device)
    unfolding enroll_remote load_remote enroll add
    load_remote-enroll_remote is_not_found hash_hex uuid now r name meta_prefix s free h =
        let device = enrolled hash_hex uuid now name (device_key J O hash_hex name) none in
        let synced : (sync_to_remote J O (r ++ (device ∷ [])) meta_prefix s).0 ≡ ok tt =
          ground arith in
        let (json, printed, stored) =
          sync_to_remote-stores (r ++ (device ∷ [])) meta_prefix s synced in
        (
          rw (R.read-answers _ (registry_key meta_prefix) json stored)
              (on_answer-print is_not_found _ json printed),
          (find_by_id-enroll hash_hex uuid now r name (device_key J O hash_hex name) none free).0,
        )
