-- ===== src/Device/Virtio.antt =====
-- class VirtIO of src/device/virtio/virtio.cpp and include/device/virtio/virtio.hpp: the registers of a
-- device, its status and the features. `h` stands for the virtual methods of the class that is built on
-- it, with the state `S`. A write to the notify register returns the queue whose requests are to be
-- handled; `none` is PANIC or an access past the array of queues.
pub mod Status
pub mod Halves
pub mod Registers
pub mod Queue
pub mod Block
mod Tests
use kxemu.Base.Shared.{
  ℕ, zero, suc, ◌+◌, ◌-◌, ◌*◌, ◌^◌, bit_and, bit_or, min, Bool, true, false, not, ◌&&◌, ◌==◌, ltb,
  leb, if◌then◌else◌, Option, none, some,
}
use kxemu.Base.Word.{u32, u64, add64, has_bit, of_bool, not64, ◌<<<◌}
use kxemu.Device.Bus.Block.{is_width, read_le, write_le}

pub data State : Type 0 where
  idle acknowledged drivered features_ok driver_ok : State

pub record VirtQueue : Type 0 where
  pub p_desc : ℕ
  pub p_avail : ℕ
  pub p_used : ℕ
  pub queue_num : ℕ
  pub ready : Bool
  pub last_avail_index : ℕ

-- get_device_features_bit, set_driver_features_bit and update_configuration, and the bytes at `configuration`.
pub record Methods {ℓ} (S : Type ℓ) : Type ℓ where
  pub get_device_features_bit : ℕ → S → Bool
  pub set_driver_features_bit : ℕ → Bool → S → S
  pub update_configuration : (ℕ → ℕ) → S → S
  pub configuration : S → ℕ → ℕ

pub record Virtio {ℓ} (S : Type ℓ) : Type ℓ where
  pub state : State
  pub device_id : ℕ
  pub device_features_select : ℕ
  pub driver_features_select : ℕ
  pub queue_select : ℕ
  pub sizeof_configuration : ℕ
  pub features_num_max : ℕ
  pub queue_count : ℕ
  pub virt_queues : ℕ → VirtQueue
  pub interrupt : Bool
  pub device : S

abbrev magic : ℕ
magic = 0x74726976

abbrev vendor : ℕ
vendor = 0x554d4551

abbrev queue_num_max : ℕ
queue_num_max = 12

unfoldable pub set_upper : ℕ → ℕ → ℕ
set_upper value upper = bit_or (bit_and value 0xffff_ffff) (upper <<< 32)

unfoldable pub set_lower : ℕ → ℕ → ℕ
set_lower value lower = bit_or (bit_and value (not64 0xffff_ffff)) (bit_and lower 0xffff_ffff)

-- The cases of the switch of write_status, which fall through.
unfoldable pub from_features_ok : ℕ → State
from_features_ok value = if has_bit value 2 then driver_ok else features_ok

unfoldable pub from_drivered : ℕ → State
unfolding from_features_ok
from_drivered value = if has_bit value 3 then from_features_ok value else drivered

unfoldable pub from_acknowledged : ℕ → State
unfolding from_drivered
from_acknowledged value = if has_bit value 1 then from_drivered value else acknowledged

unfoldable pub from_idle : ℕ → State
unfolding from_acknowledged
from_idle value = if has_bit value 0 then from_acknowledged value else idle

unfoldable pub read_status : State → ℕ
read_status driver_ok = bit_or (bit_or (bit_or 4 8) 2) 1
read_status features_ok = bit_or (bit_or 8 2) 1
read_status drivered = bit_or 2 1
read_status acknowledged = 1
read_status idle = 0

-- `features |= bit(start + i) << i`, for i below `n`
unfoldable pub collect : ℕ → (ℕ → Bool) → ℕ
collect zero bit = 0
collect (suc n) bit = bit_or (collect n bit) (of_bool (bit n) <<< n)

module _ {ℓ} {S : Type ℓ} where
  unfoldable pub reset : Virtio S → Virtio S
  reset v = record v {
    state = idle;
    virt_queues = λ i.
        if ltb i v.queue_count
        then record (v.virt_queues i) { last_avail_index = 0 }
        else v.virt_queues i;
  }

  unfoldable pub write_status : ℕ → Virtio S → Virtio S
  unfolding reset from_idle from_acknowledged from_drivered from_features_ok
  write_status value v = if value == 0 then reset v else record v {
    state = elim (v.state) [
      | idle ↦ from_idle value
      | acknowledged ↦ from_acknowledged value
      | drivered ↦ from_drivered value
      | features_ok ↦ from_features_ok value
      | driver_ok ↦ driver_ok
    ];
  }

  unfoldable pub is_drivered : Virtio S → Bool
  is_drivered v = elim (v.state) [ drivered ↦ true | _ ↦ false ]

  -- The features from `start` on that fit in a word.
  unfoldable pub window : ℕ → Virtio S → ℕ
  window start v = min (u32 (start + 32)) v.features_num_max - start

  unfoldable pub in_configuration : ℕ → ℕ → Virtio S → Bool
  in_configuration offset size v =
      leb 0x100 offset && leb (add64 offset size) (add64 0x100 v.sizeof_configuration)

  -- virtQueues[queueSelect]
  unfoldable pub selected : Virtio S → Option VirtQueue
  selected v =
      if ltb v.queue_select v.queue_count then some (v.virt_queues v.queue_select) else none

  unfoldable pub set_selected : (VirtQueue → VirtQueue) → Virtio S → Option (Virtio S)
  unfolding selected
  set_selected f v = elim (selected v) [
    | none ↦ none
    | some q ↦
        some (record v { virt_queues = λ i. if i == v.queue_select then f q else v.virt_queues i })
  ]

  module _ (h : Methods S) where
    unfoldable pub read_device_features : Virtio S → ℕ
    unfolding is_drivered window collect
    read_device_features v =
        let start = u32 (v.device_features_select * 32) in
        if not (is_drivered v)
        then 0
        else if leb v.features_num_max start
        then 0
        else collect (window start v) (λ i. h.get_device_features_bit (start + i) v.device)

    unfoldable pub set_features : ℕ → ℕ → ℕ → S → S
    set_features zero start features s = s
    set_features (suc n) start features s =
        h.set_driver_features_bit (start + n) (has_bit features n) (set_features n start features s)

    unfoldable pub write_driver_features : ℕ → Virtio S → Virtio S
    unfolding is_drivered window set_features
    write_driver_features features v =
        let start = u32 (v.driver_features_select * 32) in
        if not (is_drivered v)
        then v
        else if leb v.features_num_max start
        then v
        else record v { device = set_features (window start v) start features v.device }

    -- The inner `none` is `valid = false`.
    unfoldable pub read : ℕ → ℕ → Virtio S → Option (Option ℕ)
    unfolding in_configuration read_device_features selected read_status
    read offset size v =
        if in_configuration offset size v
        then if is_width size
          then some (some (read_le (h.configuration v.device) (offset - 0x100) size))
          else none
        else if not (size == 4)
        then some none
        else if offset == 0x00
        then some (some magic)
        else if offset == 0x04
        then some (some 2)
        else if offset == 0x08
        then some (some v.device_id)
        else if offset == 0x0c
        then some (some vendor)
        else if offset == 0x10
        then some (some (read_device_features v))
        else if offset == 0x30
        then some (some v.queue_select)
        else if offset == 0x34
        then some (some queue_num_max)
        else if offset == 0x44
        then elim (selected v) [ none ↦ none | some q ↦ some (some (of_bool q.ready)) ]
        else if offset == 0x60
        then some (some 0)
        else if offset == 0x70
        then some (some (read_status v.state))
        else some none

    -- A write to the configuration: the other bytes of the new array are those that `new` left in it.
    unfoldable pub write_configuration :
        (ℕ → ℕ) → ℕ → ℕ → ℕ → Virtio S → Option (Bool × Virtio S × Option ℕ)
    write_configuration garbage offset value size v =
        if v.sizeof_configuration == 0
        then some (false, v, none)
        else if is_width size
        then some (
          true,
          record v {
            device = h.update_configuration (write_le garbage (offset - 0x100) value size) v.device;
          },
          none,
        )
        else none

    -- A register of the selected queue.
    unfoldable pub write_queue :
        (VirtQueue → VirtQueue) → Virtio S → Option (Bool × Virtio S × Option ℕ)
    unfolding set_selected
    write_queue f v = elim (set_selected f v) [ none ↦ none | some v' ↦ some (true, v', none) ]

    unfoldable pub write_register : ℕ → ℕ → Virtio S → Option (Bool × Virtio S × Option ℕ)
    unfolding write_driver_features write_queue write_status set_lower set_upper
    write_register offset value v =
        let word = u32 value in
        if offset == 0x14
        then some (true, record v { device_features_select = word }, none)
        else if offset == 0x20
        then some (true, write_driver_features word v, none)
        else if offset == 0x24
        then some (true, record v { driver_features_select = word }, none)
        else if offset == 0x30
        then some
            (true, (if leb v.queue_count value then v else record v { queue_select = word }), none)
        else if offset == 0x38
        then write_queue (λ q. record q { queue_num = word }) v
        else if offset == 0x44
        then write_queue (λ q. record q { ready = value == 1 }) v
        else if offset == 0x50
        then some (true, v, some word)
        else if offset == 0x64
        then some (true, v, none)
        else if offset == 0x70
        then some (true, write_status value v, none)
        else if offset == 0x80
        then write_queue (λ q. record q { p_desc = set_lower q.p_desc word }) v
        else if offset == 0x84
        then write_queue (λ q. record q { p_desc = set_upper q.p_desc word }) v
        else if offset == 0x90
        then write_queue (λ q. record q { p_avail = set_lower q.p_avail word }) v
        else if offset == 0x94
        then write_queue (λ q. record q { p_avail = set_upper q.p_avail word }) v
        else if offset == 0xa0
        then write_queue (λ q. record q { p_used = set_lower q.p_used word }) v
        else if offset == 0xa4
        then write_queue (λ q. record q { p_used = set_upper q.p_used word }) v
        else some (false, v, none)

    -- VirtIO::write up to its call of notify_queue, which `Queue.write` makes.
    unfoldable pub write_registers :
        (ℕ → ℕ) → ℕ → ℕ → ℕ → Virtio S → Option (Bool × Virtio S × Option ℕ)
    unfolding write_configuration write_register in_configuration
    write_registers garbage offset value size v =
        if in_configuration offset size v
        then write_configuration garbage offset value size v
        else if not (size == 4)
        then some (false, v, none)
        else write_register offset value v
