-- ===== src/Riscv/Execute.antt =====
-- src/cpu/riscv/execute.cpp, without the instruction cache: one instruction with its traps, and the loops
-- over instructions. `d0` is what the local `decodeInfo` holds before it is set, and `other` what the
-- instruction functions do that are not part of the model.
pub mod Rd
pub mod Zero
pub mod Machine
pub mod Catch
pub mod Run
pub mod Steps
pub mod Stop
mod Tests
use Prim.{Unit, tt}
use kxemu.Base.Shared.{ℕ, bit_and, Bool, not, ◌==◌, if◌then◌else◌, List, Option, none, some}
use kxemu.Base.Word.{add64}
use kxemu.Riscv.Def
use kxemu.Riscv.Core.{RvCore, M, Result, ok, trap, panic, undefined, ◌>>=◌, throw}
use kxemu.Riscv.Decode.{DecodeInfo}
use kxemu.Riscv.Decode.Ranges.{decode_insttype}
use kxemu.Riscv.Memory.{memory_fetch}
use kxemu.Riscv.Trap.{enter_trap, do_invalid_inst}
use kxemu.Riscv.Inst.Exec.{exec}
use kxemu.Riscv.Dispatch.{decode}
use kxemu.Riscv.Dispatch.Rows.{Group, Target, typed, plain, outside, invalid, Outside}
use kxemu.Riscv.Dispatch.Base.{base_table}
use kxemu.Riscv.Dispatch.Compressed.{compressed_table}

-- The handler of a TrapException.
unfoldable pub catch : Result (Unit {0}) × RvCore → Result (Unit {0}) × RvCore
catch (ok a, core) = (ok a, core)
catch (trap code value, core) = (ok tt, enter_trap code value core)
catch (panic, core) = (panic, core)
catch (undefined, core) = (undefined, core)

module _ (d0 : DecodeInfo) (other : Outside → M (Unit {0})) where
  unfoldable pub run_target : Target → M (Unit {0})
  run_target (typed i t) core = exec i (decode_insttype t core.inst core.pc d0) core
  run_target (plain i) core = exec i d0 core
  run_target (outside o) core = other o core
  run_target invalid core = do_invalid_inst core

  -- The decoders return nullptr where no `case` is taken.
  unfoldable pub dispatch : List Group → M (Unit {0})
  unfolding run_target
  dispatch groups core = elim (decode groups core.inst) [
    | some t ↦ run_target t core
    | none ↦ do_invalid_inst core
  ]

  -- decode_and_exec_c cuts `inst` to its low half.
  unfoldable pub run_fetched : M (Unit {0})
  unfolding dispatch
  run_fetched core =
      if bit_and core.inst 3 == 3
      then dispatch base_table (record core { npc = add64 core.pc 4 })
      else dispatch compressed_table
          (record core { npc = add64 core.pc 2; inst = bit_and core.inst 0xffff })

  -- The body of the `try`.
  unfoldable pub try_execute : M (Unit {0})
  unfolding run_fetched
  try_execute core =
      if not (bit_and core.pc 1 == 0)
      then throw Def.inst_addr_misaligned core.pc core
      else (memory_fetch >>= λ _. run_fetched) core

  unfoldable pub execute : M (Unit {0})
  unfolding try_execute
  execute core = catch (try_execute core)
