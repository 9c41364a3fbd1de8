-- ===== src/Device/Mmio.antt =====
-- What the bus can map: the virtual methods of class MMIODev (include/device/mmio.hpp), by the
-- classes that override them. A device without a method has the base class's.
use kxemu.Base.Shared.{ℕ, Bool, false, none, some}
use kxemu.Device.Uart
use kxemu.Device.Uart.{Uart, Poll}
use kxemu.Device.Bus.Block.{Access, done, invalid, outside}

-- `apart` is a device with a model of its own (the PLIC, the ACLINT, a VirtIO device): the bus knows
-- only what it answers to `interrupt_pending`, and an access to it is `outside`.
pub data Device : Type 0 where
  uart : Uart → Device
  apart : Bool → Device

pub read : ℕ → ℕ → Device → Access ℕ × Device
read offset size (uart u) =
    let (v, u') = Uart.read offset size u in (elim v [ none ↦ invalid | some x ↦ done x ], uart u')
read offset size (apart pending) = (outside, apart pending)

pub write : ℕ → ℕ → ℕ → Device → Access Bool × Device
write offset value size (uart u) = let (b, u') = Uart.write offset value size u in (done b, uart u')
write offset value size (apart pending) = (outside, apart pending)

-- Of the devices apart only the ACLINT has an `update`, which its own model has.
pub update : Poll → Device → Device
update p (uart u) = uart (Uart.update p u)
update p (apart pending) = apart pending

unfoldable pub interrupt_pending : Device → Bool
interrupt_pending (uart u) = Uart.interrupt_pending u
interrupt_pending (apart pending) = pending

-- The base class's method does nothing, where nothing is ever pending.
pub clear_interrupt : Device → Device
clear_interrupt (uart u) = uart (Uart.clear_interrupt u)
clear_interrupt (apart pending) = apart false
