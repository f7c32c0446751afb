-- ===== src/Devices.antt =====
-- crates/tcfs-secrets/src/device.rs: the registry of enrolled devices. `uuid`, the clock
-- and `blake3` are parameters.
pub mod Revoking
pub mod Store
use tummycrypt.Prelude.{
  ℕ, Bool, true, false, not, Option, none, some, List, [], ◌∷◌, ◌++◌, Str, ◌==◌, find, keep, take,
}

pub record DeviceIdentity : Type 0 where
  pub name : Str
  pub device_id : Str
  pub public_key : Str
  pub signing_key_hash : Str
  pub description : Option Str
  pub enrolled_at : ℕ
  pub revoked : Bool
  pub last_nats_seq : ℕ

abbrev pub DeviceRegistry : Type 0
DeviceRegistry = List DeviceIdentity

unfoldable pub add : DeviceRegistry → DeviceIdentity → DeviceRegistry
add devices device = devices ++ (device ∷ [])

unfoldable pub active_devices : DeviceRegistry → List DeviceIdentity
active_devices devices = keep (λ d. not d.revoked) devices

-- The first device of the name is revoked; the answer says whether there is one.
unfoldable pub revoke : DeviceRegistry → Str → Bool × DeviceRegistry
revoke [] name = (false, [])
revoke (d ∷ devices) name =
    let rest = revoke devices name in
    elim (d.name == name) [
      | true ↦ (true, record d { revoked = true } ∷ devices)
      | false ↦ (rest.0, d ∷ rest.1)
    ]

unfoldable pub find_device : DeviceRegistry → Str → Option DeviceIdentity
find_device devices name = find (λ d. d.name == name) devices

unfoldable pub find_by_id : DeviceRegistry → Str → Option DeviceIdentity
find_by_id devices device_id = find (λ d. d.device_id == device_id) devices

-- What `enroll` adds: `uuid` and `now` are what it draws and reads, `hash_hex` is the hash.
abbrev pub enrolled : (Str → Str) → Str → ℕ → Str → Str → Option Str → DeviceIdentity
enrolled hash_hex uuid now name public_key description = record {
  name = name;
  device_id = uuid;
  public_key = public_key;
  signing_key_hash = take 16 (hash_hex public_key);
  description = description;
  enrolled_at = now;
  revoked = false;
  last_nats_seq = 0;
}

unfoldable pub enroll :
    (Str → Str) → Str → ℕ → DeviceRegistry → Str → Str → Option Str → Str × DeviceRegistry
unfolding add
enroll hash_hex uuid now devices name public_key description =
    (uuid, add devices (enrolled hash_hex uuid now name public_key description))
