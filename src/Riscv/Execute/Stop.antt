-- ===== src/Riscv/Execute/Stop.antt =====
-- When the loops of execute.cpp end.
use kxemu.Base.Shared.{ℕ, ◌≡◌, true, List}
use kxemu.Riscv.Core.{breakpoint}
use kxemu.Riscv.Execute.Machine.{Machine}
use kxemu.Riscv.Execute.Run.{contains}

-- The core stands at one of the breakpoints, and says so.
pub record IsStopped (breakpoints : List ℕ) (m : Machine) : Type 0 where
  pub found : contains m.core.pc breakpoints ≡ true
  pub state : m.core.state ≡ breakpoint
  pub halt_pc : m.core.halt_pc ≡ m.core.pc
  pub halt_code : m.core.halt_code ≡ 0
