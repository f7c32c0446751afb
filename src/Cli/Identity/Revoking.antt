-- ===== src/Cli/Identity/Revoking.antt =====
-- crates/tcfs-cli/src/main.rs: what a revocation leaves.
use tummycrypt.Prelude.{
  ◌≡◌, ◌≢◌, refl, ◌∙◌, Bool, true, false, Option, none, some, Str, ◌==◌, arith, eq_iff, eq_refl,
  Option-cases, inl, inr,
}
use tummycrypt.Fallible.{ok, Result-cases}
use tummycrypt.Exec.{◌>>=◌}
use tummycrypt.Disk.{Disk}
use tummycrypt.Config.{TcfsConfig}
use tummycrypt.Devices.{DeviceRegistry, DeviceIdentity, revoke, find_device}
use tummycrypt.Devices.Revoking.{find_device-revoke, revoked_if}
use tummycrypt.Devices.Store.{RegistryJson, IsLawful, load, save}
use tummycrypt.Devices.Store.Sharing.{load-save}
use tummycrypt.Cli.{Environment, load_device_id, unwrap_or, id_or_default}
use tummycrypt.Cli.Identity.{Enrollment, cmd_device_revoke}

module _ (J : RegistryJson) (env : Environment) where
  -- The identifier of a device that is revoked is found as before.
  id_or_default-revoked_if :
      (b : Bool) (device : Option DeviceIdentity)
      → id_or_default (revoked_if b device) ≡ id_or_default device
  id_or_default-revoked_if b none = refl
  id_or_default-revoked_if true (some device) = refl
  id_or_default-revoked_if false (some device) = refl

  not_revoked :
      (name other : Str) (device : Option DeviceIdentity)
      → name ≢ other
      → revoked_if (name == other) device ≡ device
  not_revoked name other none apart = refl
  not_revoked name other (some device) apart = ground (arith, eq_iff name other)

  cmd_device_revoke-eq-ok :
      (draw : Enrollment) (name : Str) (d : Disk)
      → (cmd_device_revoke J env draw name d).0 ≡ ok tt
      → (r : DeviceRegistry) × (device : DeviceIdentity) × (load J d env.registry_path ≡ ok r)
        × (find_device r name ≡ some device)
        × ((save J (revoke r name).1 env.registry_path d).0 ≡ ok tt)
        × ((cmd_device_revoke J env draw name d).1
            ≡ (save J (revoke r name).1 env.registry_path d).1)
  unfolding cmd_device_revoke ◌>>=◌
  cmd_device_revoke-eq-ok draw name d h = elim (Result-cases (load J d env.registry_path)) [
    | inl (e, q) ↦ absurd (ground arith)
    | inr (r, q) ↦ elim (Option-cases (find_device r name)) [
      | inl p ↦ absurd (ground (arith, (find_device-revoke r name name).0))
      | inr (device, p) ↦
          let there = (find_device-revoke r name name).0 in
          (r, device, q, p, ground arith, ground arith)
    ]
  ]

  load_device_id-revoke :
      (r : DeviceRegistry) (name : Str) (d after : Disk) (config : TcfsConfig)
      → unwrap_or config.sync.device_identity env.registry_path ≡ env.registry_path
      → load J d env.registry_path ≡ ok r
      → load J after env.registry_path ≡ ok (revoke r name).1
      → load_device_id J env config after ≡ load_device_id J env config d
  unfolding load_device_id
  load_device_id-revoke r name d after config placed before loaded =
      let wanted = unwrap_or config.sync.device_name env.device_name in
      ground (
        arith,
        (find_device-revoke r name wanted).1,
        id_or_default-revoked_if (name == wanted) (find_device r wanted),
      )

  -- With a codec that reads back the registries it prints: a revocation that succeeds has found a
  -- device of the name in the registry that was loaded; in the registry that is loaded next it is
  -- revoked, and all others are found as before. Every configuration that names this registry, or none,
  -- still finds the identifier it found before, also that of the device that was revoked.
  pub cmd_device_revoke-ok :
      IsLawful J
      → (draw : Enrollment) (name : Str) (d : Disk)
      → (cmd_device_revoke J env draw name d).0 ≡ ok tt
      → let after = (cmd_device_revoke J env draw name d).1 in
        (old new : DeviceRegistry) × (device : DeviceIdentity) × (load J d env.registry_path
          ≡ ok old)
        × (load J after env.registry_path ≡ ok new)
        × (find_device old name ≡ some device)
        × (find_device new name ≡ some (record device { revoked = true }))
        × ((other : Str) → name ≢ other → find_device new other ≡ find_device old other)
        × ((config : TcfsConfig)
            → unwrap_or config.sync.device_identity env.registry_path ≡ env.registry_path
            → load_device_id J env config after ≡ load_device_id J env config d)
  cmd_device_revoke-ok law draw name d h =
      let (r, device, before, found, saved, q) = cmd_device_revoke-eq-ok draw name d h in
      let loaded : load J (cmd_device_revoke J env draw name d).1 env.registry_path
          ≡ ok (revoke r name).1 =
        rw q (load-save J law (revoke r name).1 env.registry_path d saved) in
      (
        r,
        (revoke r name).1,
        device,
        before,
        loaded,
        found,
        ground (arith, (find_device-revoke r name name).1, eq_refl name),
        (λ other apart. (find_device-revoke r name other).1 ∙ not_revoked name other _ apart),
        λ config placed. load_device_id-revoke r name d _ config placed before loaded,
      )
