-- ===== src/Devices/Revoking.antt =====
-- What a revocation changes.
use tummycrypt.Prelude.{
  ◌≡◌, refl, Bool, true, false, Option, none, some, [], ◌∷◌, ◌++◌, Str, ◌==◌, eq_iff, eq_refl,
  arith, ℕ,
}
use tummycrypt.Prelude.Dict.{has}
use tummycrypt.Devices.{
  DeviceIdentity, DeviceRegistry, add, active_devices, revoke, find_device, find_by_id, enroll,
  enrolled,
}

abbrev pub revoked_if : Bool → Option DeviceIdentity → Option DeviceIdentity
revoked_if b none = none
revoked_if true (some d) = some (record d { revoked = true })
revoked_if false (some d) = some d

-- A revocation answers whether there is a device of the name; after it the device found under the
-- name is the same one, revoked, and under every other name the same one as before.
pub find_device-revoke :
    (r : DeviceRegistry) (name other : Str)
    → ((revoke r name).0 ≡ has (find_device r name))
      × (find_device (revoke r name).1 other ≡ revoked_if (name == other) (find_device r other))
unfolding revoke find_device
find_device-revoke [] name other = (refl, refl)
find_device-revoke (d ∷ r) name other = ground (
  arith,
  find_device-revoke r name other,
  eq_iff d.name name,
  eq_iff d.name other,
  eq_iff name other,
  eq_refl name,
)

-- A device that is enrolled under an identifier that no device has is found by it and comes last
-- among the active devices, and every device that was found by its name before is still found.
pub find_by_id-enroll :
    (hash_hex : Str → Str) (uuid : Str) (now : ℕ) (r : DeviceRegistry) (name public_key : Str)
    (description : Option Str)
    → find_by_id r uuid ≡ none
    → (find_by_id (enroll hash_hex uuid now r name public_key description).1 uuid
        ≡ some (enrolled hash_hex uuid now name public_key description))
      × ((other : Str) (d : DeviceIdentity)
          → find_device r other ≡ some d
          → find_device (enroll hash_hex uuid now r name public_key description).1 other ≡ some d)
      × (active_devices (enroll hash_hex uuid now r name public_key description).1
          ≡ active_devices r ++ (enrolled hash_hex uuid now name public_key description ∷ []))
unfolding find_by_id find_device enroll add active_devices
find_by_id-enroll hash_hex uuid now [] name public_key description f =
    (ground (arith, eq_refl uuid), (λ other d e. absurd (cc e)), refl)
find_by_id-enroll hash_hex uuid now (x ∷ r) name public_key description f =
    let (found, kept, active) : (find_by_id
            (enroll hash_hex uuid now r name public_key description).1 uuid
          ≡ some (enrolled hash_hex uuid now name public_key description))
        × ((other : Str) (d : DeviceIdentity)
            → find_device r other ≡ some d
            → find_device (enroll hash_hex uuid now r name public_key description).1 other ≡ some d)
        × (active_devices (enroll hash_hex uuid now r name public_key description).1
            ≡ active_devices r ++ (enrolled hash_hex uuid now name public_key description ∷ [])) =
      find_by_id-enroll hash_hex uuid now r name public_key description (ground arith) in
    (ground arith, (λ other d e. ground (arith, kept other d)), ground arith)
