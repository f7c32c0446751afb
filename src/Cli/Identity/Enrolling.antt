-- ===== src/Cli/Identity/Enrolling.antt =====
-- crates/tcfs-cli/src/main.rs: what the commands on the registry of devices leave for the others.
use tummycrypt.Prelude.{
  ◌≡◌, refl, sym, Bool, Option, none, some, [], ◌∷◌, ◌++◌, Str, str, arith, eq_refl, inl, inr,
}
use tummycrypt.Fallible.{ok, err, Result-cases, already_enrolled}
use tummycrypt.Exec.{◌>>=◌}
use tummycrypt.Disk.{Disk}
use tummycrypt.Config.{TcfsConfig}
use tummycrypt.Devices.{DeviceRegistry, DeviceIdentity, add, enroll, enrolled, find_device}
use tummycrypt.Devices.Store.{RegistryJson, IsLawful, load, save}
use tummycrypt.Devices.Store.Sharing.{load-save}
use tummycrypt.Cli.{Environment, load_device_id, unwrap_or}
use tummycrypt.Cli.Identity.{
  Enrollment, Setup, short_hash, enroll_and_save, ensure_new, cmd_device_enroll, cmd_init,
}

-- The first device of a new name is the one that is added.
find_device-add :
    (r : DeviceRegistry) (d : DeviceIdentity)
    → find_device r d.name ≡ none
    → find_device (add r d) d.name ≡ some d
unfolding find_device add
find_device-add [] d f = ground (arith, eq_refl d.name)
find_device-add (x ∷ r) d f = ground (arith, find_device-add r d)

module _ (J : RegistryJson) (env : Environment) where
  -- What an enrollment leaves: every configuration that names the device, and no other registry,
  -- finds the identifier, and the name is taken.
  abbrev pub IsEnrolled : Str → Str → Disk → Type 0
  IsEnrolled name device_id d =
      ((config : TcfsConfig)
        → unwrap_or config.sync.device_name env.device_name ≡ name
        → unwrap_or config.sync.device_identity env.registry_path ≡ env.registry_path
        → load_device_id J env config d ≡ device_id)
      × ((draw : Enrollment)
          → cmd_device_enroll J env draw (some name) d ≡ (err already_enrolled, d))

  IsEnrolled-load :
      (r : DeviceRegistry) (device : DeviceIdentity) (name : Str) (d : Disk)
      → load J d env.registry_path ≡ ok r
      → find_device r name ≡ some device
      → IsEnrolled name device.device_id d
  unfolding load_device_id cmd_device_enroll ensure_new ◌>>=◌
  IsEnrolled-load r device name d loaded found =
      ((λ config named placed. ground arith), λ draw. ground arith)

  module _ (law : IsLawful J) (draw : Enrollment) where
    IsEnrolled-enroll_and_save :
        (r : DeviceRegistry) (name device_id : Str) (d : Disk)
        → ensure_new J env draw r name ≡ ok tt
        → (enroll_and_save J env draw r name d).0 ≡ ok device_id
        → (device_id ≡ draw.uuid)
          × IsEnrolled name device_id (enroll_and_save J env draw r name d).1
    unfolding ensure_new enroll_and_save enroll
    IsEnrolled-enroll_and_save r name device_id d new h =
        let device =
          enrolled draw.hash_hex draw.uuid d.now name
            (str "age1-device-" ++ short_hash J env draw name) none in
        let absent : find_device r name ≡ none = ground arith in
        let saved : (save J (add r device) env.registry_path d).0 ≡ ok tt = ground arith in
        let after : (enroll_and_save J env draw r name d).1
            ≡ (save J (add r device) env.registry_path d).1 =
          ground arith in
        let same : draw.uuid ≡ device_id = ground arith in
        (
          sym same,
          rw (after, ← same)
              (IsEnrolled-load (add r device) device name _
                (load-save J law (add r device) env.registry_path d saved)
                (find_device-add r device absent)),
        )

    -- What both commands come down to.
    abbrev Adds : Str → Str → Disk → Disk → Type 0
    Adds name device_id d after =
        (r : DeviceRegistry) × (load J d env.registry_path ≡ ok r)
        × (ensure_new J env draw r name ≡ ok tt)
        × ((enroll_and_save J env draw r name d).0 ≡ ok device_id)
        × (after ≡ (enroll_and_save J env draw r name d).1)

    Adds-IsEnrolled :
        (name device_id : Str) (d after : Disk)
        → Adds name device_id d after
        → (device_id ≡ draw.uuid) × IsEnrolled name device_id after
    Adds-IsEnrolled name device_id d after (r, _, new, done, q) =
        rw q (IsEnrolled-enroll_and_save r name device_id d new done)

    cmd_device_enroll-Adds :
        (name : Option Str) (device_id : Str) (d : Disk)
        → (cmd_device_enroll J env draw name d).0 ≡ ok device_id
        → Adds (unwrap_or name env.device_name) device_id d (cmd_device_enroll J env draw name d).1
    unfolding cmd_device_enroll ◌>>=◌
    cmd_device_enroll-Adds name device_id d h = elim (Result-cases (load J d env.registry_path)) [
      | inl (e, q) ↦ absurd (ground arith)
      | inr (r, q) ↦
          elim (Result-cases (ensure_new J env draw r (unwrap_or name env.device_name))) [
            | inl (e, p) ↦ absurd (ground arith)
            | inr (tt, p) ↦ (r, q, p, ground arith, ground arith)
          ]
    ]

    cmd_init-Adds :
        (setup : Setup) (name : Option Str) (non_interactive : Bool) (password : Option Str)
        (phrase device_id : Str) (d : Disk)
        → (cmd_init J env draw setup name non_interactive password d).0 ≡ ok (phrase, device_id)
        → Adds
            (unwrap_or name env.device_name)
            device_id
            d
            (cmd_init J env draw setup name non_interactive password d).1
    unfolding cmd_init ◌>>=◌
    cmd_init-Adds setup name non_interactive password phrase device_id d h =
        elim (Result-cases (load J d env.registry_path)) [
          | inl (e, q) ↦ absurd (ground arith)
          | inr (r, q) ↦
              elim (Result-cases (ensure_new J env draw r (unwrap_or name env.device_name))) [
                | inl (e, p) ↦ absurd (ground arith)
                | inr (tt, p) ↦ (r, q, p, ground arith, ground arith)
              ]
        ]

    -- With a codec that reads back the registries it prints: an enrollment that succeeds gives the
    -- identifier that it drew; every configuration that names the device, and no other registry,
    -- then finds that identifier, and another enrollment under the name is refused and changes
    -- nothing.
    pub cmd_device_enroll-ok :
        (name : Option Str) (device_id : Str) (d : Disk)
        → (cmd_device_enroll J env draw name d).0 ≡ ok device_id
        → (device_id ≡ draw.uuid)
          × IsEnrolled
              (unwrap_or name env.device_name)
              device_id
              (cmd_device_enroll J env draw name d).1
    cmd_device_enroll-ok name device_id d h =
        Adds-IsEnrolled _ device_id d _ (cmd_device_enroll-Adds name device_id d h)

    -- With a codec that reads back the registries it prints: an initialization that succeeds gives
    -- the identifier that it drew; every configuration that names the device, and no other registry,
    -- then finds that identifier, and an enrollment under the name is refused and changes nothing.
    pub cmd_init-ok :
        (setup : Setup) (name : Option Str) (non_interactive : Bool) (password : Option Str)
        (phrase device_id : Str) (d : Disk)
        → (cmd_init J env draw setup name non_interactive password d).0 ≡ ok (phrase, device_id)
        → (device_id ≡ draw.uuid)
          × IsEnrolled
              (unwrap_or name env.device_name)
              device_id
              (cmd_init J env draw setup name non_interactive password d).1
    cmd_init-ok setup name non_interactive password phrase device_id d h =
        Adds-IsEnrolled _ device_id d _
          (cmd_init-Adds setup name non_interactive password phrase device_id d h)

    -- The passphrase, the phrase that is shown and the keys that are derived leave no trace: two
    -- runs of `init` that succeed, from the same disk and at the same time, under the same
    -- name and with the same identifier drawn, leave the same disk, whatever key setup and
    -- passphrases they meet.
    pub cmd_init-forgets :
        (setup other : Setup) (name : Option Str) (b c : Bool) (password secret : Option Str)
        (d : Disk) (x y : Str × Str)
        → (cmd_init J env draw setup name b password d).0 ≡ ok x
        → (cmd_init J env draw other name c secret d).0 ≡ ok y
        → (cmd_init J env draw setup name b password d).1
          ≡ (cmd_init J env draw other name c secret d).1
    cmd_init-forgets setup other name b c password secret d x y h k =
        let (r, p, _, _, after) = cmd_init-Adds setup name b password x.0 x.1 d h in
        let (s, q, _, _, then_) = cmd_init-Adds other name c secret y.0 y.1 d k in
        let same : r ≡ s = ground arith in rw (after, then_, same) refl
