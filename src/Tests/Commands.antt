-- ===== src/Tests/Commands.antt =====
-- The commands that give up a file, and those on the registry of devices.
use native.Mathlib.Decide.{ℕ_discrete}
use tummycrypt.Prelude.{
  ◌≡◌, ◌≢◌, refl, sym, ap, true, false, Option, none, some, [], ◌∷◌, Str, str, ◌==◌, if◌then◌else◌,
  arith, All,
}
use tummycrypt.Prelude.Dict.{lookup, insert, erase}
use tummycrypt.Prelude.Text.Utf8.{is_utf8}
use tummycrypt.Prelude.Text.FilePath.{parent, file_name, extension, with_extension}
use tummycrypt.Prelude.Text.Trim.{strip_prefix}
use tummycrypt.Prelude.Text.Decimal.{to_string, digits}
use tummycrypt.Fallible.{ok}
use tummycrypt.Exec.{◌>>=◌}
use tummycrypt.Disk
use tummycrypt.Disk.{Disk}
use tummycrypt.Config.{default_tcfs_config, TcfsConfig}
use tummycrypt.Conflict.{new}
use tummycrypt.State
use tummycrypt.State.{SyncState, StateJson, open_cache}
use tummycrypt.Fuse.Stub.{is_stub_path, parse_stub, blake3_hex, StubMeta}
use tummycrypt.Devices.{DeviceRegistry, DeviceIdentity, enrolled, enroll, add, revoke, find_device}
use tummycrypt.Devices.Store
use tummycrypt.Devices.Store.{RegistryJson, load, save}
use tummycrypt.Cli.{Environment, load_device_id, unwrap_or, resolve_state_path, expand_tilde}
use tummycrypt.Cli.Unsync.{
  cmd_unsync, unsync_hydrated, replace_by_stub, ensure_filename, check_unless, check_tracked,
  check_entry,
}
use tummycrypt.Cli.Unsync.Recovering.{cmd_unsync-ok, cmd_unsync-failed, IsTracked}
use tummycrypt.Cli.Identity.{
  Enrollment, Setup, cmd_init, cmd_device_revoke, ensure_new, enroll_and_save, passphrase,
}
use tummycrypt.Cli.Identity.Enrolling.{cmd_init-ok, cmd_init-forgets, IsEnrolled}
use tummycrypt.Cli.Identity.Revoking.{cmd_device_revoke-ok}
use tummycrypt.Tests.Codec.{plain_hash, one_map}

abbrev env : Environment
env = record {
  home = some (str "/h");
  user_profile = none;
  device_name = str "laptop";
  registry_path = str "/r";
}

abbrev synced : SyncState
synced = record {
  blake3 = str "hab";
  size = 2;
  mtime = 1;
  chunk_count = 1;
  remote_path = str "p/manifests/hab";
  last_synced = 1;
  vclock = new;
  device_id = [];
}

abbrev json : StateJson
json = one_map ((str "/d/f", synced) ∷ [])

abbrev state_file : Str
state_file = str "/h/.local/share/tcfsd/state.json"

abbrev disk : Disk
disk = record {
  files =
      (str "/d/f", record { content = str "ab"; modified = some 1 })
      ∷ (state_file, record { content = str "{}"; modified = some 1 })
      ∷ (str "/d/g", record { content = str "cd"; modified = some 1 })
      ∷ [];
  refuses = λ p. p == str "/d/f";
  hides = λ _. false;
  leaves = λ _. none;
  canonical = λ p. some p;
  now = 9;
}

unfoldable commands : Unit {0}
unfolding ◌>>=◌ cmd_unsync unsync_hydrated replace_by_stub ensure_filename check_unless
    check_tracked check_entry open_cache is_utf8 is_stub_path extension parent file_name
    with_extension strip_prefix expand_tilde resolve_state_path lookup insert erase Disk.read
    Disk.write Disk.remove_file Disk.exists State.get to_string digits ◌==◌
commands = tt

abbrev permissive : Disk
permissive = record disk { refuses = λ _. false }

hash-line : All (λ c. (c ≢ 10) × (c ≢ 13)) (str "hab")
hash-line = ground arith

cmd_unsync-ok_example :
    let after =
      (cmd_unsync json plain_hash env default_tcfs_config (str "/d/f") false permissive).1 in
    (text : Str) × (stub : StubMeta) × (Disk.read after (str "/d/f.tc") ≡ ok text)
    × (parse_stub text ≡ ok stub)
    × (blake3_hex stub ≡ some (str "hab"))
    × (stub.size ≡ 2)
    × (Disk.exists after (str "/d/f") ≡ false)
    × ((other : Str)
        → str "/d/f" ≢ other
        → str "/d/f.tc" ≢ other
        → Disk.read after other ≡ Disk.read permissive other)
    × (false ≡ false
        → IsTracked json plain_hash env default_tcfs_config (str "/d/f") (str "hab") permissive)
unfolding commands
cmd_unsync-ok_example =
    cmd_unsync-ok json plain_hash env default_tcfs_config (str "/d/f") false (str "ab") permissive
      refl refl (omega arith) (ground arith) hash-line refl

-- The system does not let the file go.
cmd_unsync-failed_example :
    let after = (cmd_unsync json plain_hash env default_tcfs_config (str "/d/f") false disk).1 in
    (Disk.read after (str "/d/f") ≡ Disk.read disk (str "/d/f"))
    × ((other : Str) → str "/d/f.tc" ≢ other → Disk.read after other ≡ Disk.read disk other)
unfolding commands
cmd_unsync-failed_example =
    cmd_unsync-failed json plain_hash env default_tcfs_config (str "/d/f") false disk (λ e. cc e)

abbrev laptop : DeviceIdentity
laptop = enrolled (λ s. s) (str "id1") 3 (str "laptop") (str "age1-device-laptop") none

abbrev active : DeviceRegistry
active = laptop ∷ []

abbrev revoked : DeviceRegistry
revoked = record laptop { revoked = true } ∷ []

-- A codec that knows two registries.
unfoldable registry_discrete : Discrete DeviceRegistry
registry_discrete = hlevel ℕ_discrete

abbrev printed : (r : DeviceRegistry) → Dec (r ≡ active) → Dec (r ≡ revoked) → Option Str
printed r (yes p) e = some (str "[1]")
printed r (no p) (yes q) = some (str "[2]")
printed r (no p) (no q) = none

abbrev parsed : Str → Option DeviceRegistry
parsed s = if s == str "[1]" then some active else if s == str "[2]" then some revoked else none

abbrev registry_json : RegistryJson
registry_json = record {
  parse = parsed;
  print = λ r. printed r (registry_discrete r active) (registry_discrete r revoked);
}

registry_json-IsLawful : Store.IsLawful registry_json
unfolding is_utf8 ◌==◌
registry_json-IsLawful = record {
  print-is_utf8 = λ r s e. go_utf8 r s (registry_discrete r active) (registry_discrete r revoked) e;
  parse-print = λ r s e. go r s (registry_discrete r active) (registry_discrete r revoked) e;
}
  where
    go_utf8 :
        (r : DeviceRegistry) (s : Str) (d : Dec (r ≡ active)) (e : Dec (r ≡ revoked))
        → printed r d e ≡ some s
        → is_utf8 s ≡ true
    go_utf8 r s (yes p) f e = let same : str "[1]" ≡ s = cc e in rw (← same) refl
    go_utf8 r s (no p) (yes q) e = let same : str "[2]" ≡ s = cc e in rw (← same) refl
    go_utf8 r s (no p) (no q) e = absurd (cc e)

    go :
        (r : DeviceRegistry) (s : Str) (d : Dec (r ≡ active)) (e : Dec (r ≡ revoked))
        → printed r d e ≡ some s
        → parsed s ≡ some r
    go r s (yes p) f e = let same : str "[1]" ≡ s = cc e in rw (← same) (ap some (sym p))
    go r s (no p) (yes q) e = let same : str "[2]" ≡ s = cc e in rw (← same) (ap some (sym q))
    go r s (no p) (no q) e = absurd (cc e)

unfoldable registry : Unit {0}
unfolding ◌>>=◌ cmd_init cmd_device_revoke ensure_new enroll_and_save passphrase load save enroll
    add revoke find_device registry_discrete ℕ_discrete is_utf8 parent lookup insert Disk.read
    Disk.write Disk.exists Disk.create_dir_all ◌==◌
registry = tt

abbrev draw : Enrollment
draw = record { hash_hex = λ s. s; uuid = str "id1" }

abbrev setup : Setup
setup = record {
  prompt = ok (str "secret");
  confirmation = ok (str "secret");
  mnemonic = ok (str "one two", str "key");
  derive_master_key = λ p. ok p;
  wrap_file_key = λ k. ok k;
}

abbrev bare : Disk
bare = record permissive { files = []; now = 3 }

cmd_init-ok_example :
    (str "id1" ≡ str "id1")
    × IsEnrolled registry_json env
        (str "laptop")
        (str "id1")
        (cmd_init registry_json env draw setup none false none bare).1
unfolding registry
cmd_init-ok_example =
    cmd_init-ok registry_json env registry_json-IsLawful draw setup none false none (str "one two")
      (str "id1") bare refl

-- The passphrase from the command line, and another phrase.
abbrev other_setup : Setup
other_setup = record setup { mnemonic = ok (str "three four", str "lock") }

cmd_init-forgets_example :
    (cmd_init registry_json env draw setup none false none bare).1
    ≡ (cmd_init registry_json env draw other_setup none true (some (str "pass")) bare).1
unfolding registry
cmd_init-forgets_example =
    cmd_init-forgets registry_json env registry_json-IsLawful draw setup other_setup none false true
      none (some (str "pass")) bare (str "one two", str "id1") (str "three four", str "id1") refl
      refl

abbrev enrolled_disk : Disk
enrolled_disk = record bare {
  files = (str "/r", record { content = str "[1]"; modified = some 1 }) ∷ [];
}

cmd_device_revoke-ok_example :
    let after = (cmd_device_revoke registry_json env draw (str "laptop") enrolled_disk).1 in
    (old : DeviceRegistry) × (new : DeviceRegistry) × (device : DeviceIdentity) × (load
        registry_json enrolled_disk
        (str "/r")
      ≡ ok old)
    × (load registry_json after (str "/r") ≡ ok new)
    × (find_device old (str "laptop") ≡ some device)
    × (find_device new (str "laptop") ≡ some (record device { revoked = true }))
    × ((other : Str) → str "laptop" ≢ other → find_device new other ≡ find_device old other)
    × ((config : TcfsConfig)
        → unwrap_or config.sync.device_identity (str "/r") ≡ str "/r"
        → load_device_id registry_json env config after
          ≡ load_device_id registry_json env config enrolled_disk)
unfolding registry
cmd_device_revoke-ok_example =
    cmd_device_revoke-ok registry_json env registry_json-IsLawful draw (str "laptop") enrolled_disk
      refl
