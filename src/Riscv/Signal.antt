-- ===== src/Riscv/Signal.antt =====
-- The calls by which the interrupt controllers set and clear interrupts of a core:
-- set_timer_interrupt_m to clear_external_interrupt_s of src/cpu/riscv/privileged/interrupt.cpp.
use kxemu.Base.Shared.{ℕ, ◌==◌, if◌then◌else◌}
use kxemu.Riscv.Core.{RvCore, set_interrupt, clear_interrupt}

-- The number of the core, and the code of the interrupt.
pub data Signal : Type 0 where
  quiet : Signal
  raise lower : ℕ → ℕ → Signal

-- What core `i` makes of it.
unfoldable pub deliver : Signal → ℕ → RvCore → RvCore
deliver quiet i core = core
deliver (raise target code) i core = if target == i then set_interrupt code core else core
deliver (lower target code) i core = if target == i then clear_interrupt code core else core
