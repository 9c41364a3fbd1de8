-- ===== src/Riscv/Inst.antt =====
-- What the instruction functions of src/cpu/riscv/inst share (local-decoder.h): SRC1, SRC2, DEST, IMM.
-- Signed overflow of `int` is taken to wrap, as it does on the hosts.
pub mod Alu
pub mod Base
pub mod Mul
pub mod Compressed
pub mod Atomic
pub mod Fence
pub mod Exec
pub mod Zero
pub mod Arith
mod Tests
use Prim.{Unit, tt}
use kxemu.Base.Shared.{ℕ, Bool, if◌then◌else◌}
use kxemu.Riscv.Core.{RvCore, M, Result, ok, set_gpr}
use kxemu.Riscv.Decode.{DecodeInfo}

abbrev pub src1 : DecodeInfo → RvCore → ℕ
src1 d core = core.gpr d.rs1

abbrev pub src2 : DecodeInfo → RvCore → ℕ
src2 d core = core.gpr d.rs2

-- The value of DEST before it is written.
abbrev pub old_dest : DecodeInfo → RvCore → ℕ
old_dest d core = core.gpr d.rd

-- `DEST = v`
abbrev pub set_dest : DecodeInfo → ℕ → M (Unit {0})
set_dest d v core = (ok tt, set_gpr d.rd v core)

-- `this->npc = v` and `if (cond) this->npc = v`
abbrev pub jump : ℕ → M (Unit {0})
jump v core = (ok tt, record core { npc = v })

abbrev pub jump_if : Bool → ℕ → M (Unit {0})
jump_if b v core = if b then jump v core else (ok tt, core)
