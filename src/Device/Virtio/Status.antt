-- ===== src/Device/Virtio/Status.antt =====
-- The status register of virtio.cpp.
use kxemu.Base.Shared.{ℕ, ◌≤◌, ◌≡◌, arith}
use kxemu.Base.Word.{has_bit}
use kxemu.Device.Virtio.{
  Virtio, State, idle, acknowledged, drivered, features_ok, driver_ok, read_status, write_status,
  reset, from_idle, from_acknowledged, from_drivered, from_features_ok,
}

-- The steps of the driver that a state stands for.
abbrev pub steps : State → ℕ
steps idle = 0
steps acknowledged = 1
steps drivered = 2
steps features_ok = 3
steps driver_ok = 4

-- The status register in a state: ACKNOWLEDGE (1), DRIVER (2), FEATURES_OK (8) and DRIVER_OK (4).
abbrev pub status_of : State → ℕ
status_of idle = 0
status_of acknowledged = 1
status_of drivered = 3
status_of features_ok = 11
status_of driver_ok = 15

module _ {ℓ} {S : Type ℓ} where
  -- A driver that writes the status of a state that is not behind the device's brings the device to that state,
  -- and reads back what it wrote.
  pub read_status-write_status :
      (target : State) (v : Virtio S)
      → steps v.state ≤ steps target
      → let v' = write_status (status_of target) v in
        (v'.state ≡ target) × (read_status v'.state ≡ status_of target)
  unfolding read_status write_status reset from_idle from_acknowledged from_drivered
      from_features_ok has_bit
  read_status-write_status target v h = ground arith
