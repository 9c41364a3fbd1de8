-- ===== src/Riscv/Inst/Compressed.antt =====
-- src/cpu/riscv/inst/compressed.cpp, but for its floating-point loads and stores.
use Prim.{Unit, tt}
use kxemu.Base.Shared.{ℕ, ◌+◌, ◌-◌, ◌^◌, bit_and, bit_or, bit_xor, Bool, not, ◌==◌, if◌then◌else◌}
use kxemu.Base.Word.{u32, u64, add64, sub64, ◌<<<◌, ◌>>>◌}
use kxemu.Base.Signed.{to_signed, of_signed, shr_ℤ, sext}
use kxemu.Riscv.Core.{RvCore, M, ok, ◌>>=◌, set_gpr}
use kxemu.Riscv.Decode.{DecodeInfo}
use kxemu.Riscv.Memory.{memory_load, memory_store}
use kxemu.Riscv.Trap.{do_invalid_inst}
use kxemu.Riscv.Zicsr.{rd_is_x0, rs1_is_x0}
use kxemu.Riscv.Inst.{src1, src2, old_dest, set_dest, jump, jump_if}

-- SP
abbrev pub sp : RvCore → ℕ
sp core = core.gpr 2

-- REQUIRE
abbrev pub require : Bool → M (Unit {0}) → M (Unit {0})
require b next core = if b then next core else do_invalid_inst core

unfoldable pub do_c_lwsp : DecodeInfo → M (Unit {0})
do_c_lwsp d core =
    require (not (rd_is_x0 d))
      (λ core. (memory_load (add64 (sp core) d.imm) 4 >>= λ v. set_dest d (sext 32 v)) core) core

unfoldable pub do_c_swsp : DecodeInfo → M (Unit {0})
do_c_swsp d core = memory_store (add64 (sp core) d.imm) (src2 d core) 4 core

unfoldable pub do_c_lw : DecodeInfo → M (Unit {0})
do_c_lw d core = (memory_load (add64 (src1 d core) d.imm) 4 >>= λ v. set_dest d (sext 32 v)) core

unfoldable pub do_c_sw : DecodeInfo → M (Unit {0})
do_c_sw d core = memory_store (add64 (src1 d core) d.imm) (src2 d core) 4 core

unfoldable pub do_c_j : DecodeInfo → M (Unit {0})
do_c_j d core = jump d.npc core

unfoldable pub do_c_jal : DecodeInfo → M (Unit {0})
do_c_jal d core = jump d.npc (set_gpr 1 (add64 core.pc 2) core)

unfoldable pub do_c_jr : DecodeInfo → M (Unit {0})
do_c_jr d core = require (not (rs1_is_x0 d)) (λ core. jump (src1 d core) core) core

unfoldable pub do_c_jalr : DecodeInfo → M (Unit {0})
do_c_jalr d core = (ok tt, set_gpr 1 d.npc (record core { npc = src1 d core }))

unfoldable pub do_c_beqz : DecodeInfo → M (Unit {0})
do_c_beqz d core = jump_if (src1 d core == 0) d.npc core

unfoldable pub do_c_bnez : DecodeInfo → M (Unit {0})
do_c_bnez d core = jump_if (not (src1 d core == 0)) d.npc core

unfoldable pub do_c_li : DecodeInfo → M (Unit {0})
do_c_li d core = require (not (rd_is_x0 d)) (λ core. set_dest d d.imm core) core

unfoldable pub do_c_lui : DecodeInfo → M (Unit {0})
do_c_lui d = require (not (rd_is_x0 d)) (require (not (d.imm == 0)) (set_dest d d.imm))

unfoldable pub do_c_addi : DecodeInfo → M (Unit {0})
do_c_addi d core = set_dest d (add64 (old_dest d core) d.imm) core

unfoldable pub do_c_addi16sp : DecodeInfo → M (Unit {0})
do_c_addi16sp d core =
    require (not (d.imm == 0)) (λ core. (ok tt, set_gpr 2 (add64 (sp core) d.imm) core)) core

unfoldable pub do_c_addi4spn : DecodeInfo → M (Unit {0})
do_c_addi4spn d core =
    require (not (d.imm == 0)) (λ core. set_dest d (add64 (sp core) d.imm) core) core

unfoldable pub do_c_slli : DecodeInfo → M (Unit {0})
do_c_slli d core =
    require (not (rd_is_x0 d)) (λ core. set_dest d (u64 (old_dest d core <<< d.imm)) core) core

unfoldable pub do_c_srli : DecodeInfo → M (Unit {0})
do_c_srli d core = set_dest d (old_dest d core >>> d.imm) core

unfoldable pub do_c_srai : DecodeInfo → M (Unit {0})
do_c_srai d core = set_dest d (of_signed 64 (shr_ℤ (to_signed 64 (old_dest d core)) d.imm)) core

unfoldable pub do_c_andi : DecodeInfo → M (Unit {0})
do_c_andi d core = set_dest d (bit_and (old_dest d core) d.imm) core

unfoldable pub do_c_mv : DecodeInfo → M (Unit {0})
do_c_mv d core = require (not (rd_is_x0 d)) (λ core. set_dest d (src2 d core) core) core

unfoldable pub do_c_add : DecodeInfo → M (Unit {0})
do_c_add d core =
    require (not (rd_is_x0 d)) (λ core. set_dest d (add64 (old_dest d core) (src2 d core)) core)
      core

unfoldable pub do_c_sub : DecodeInfo → M (Unit {0})
do_c_sub d core = set_dest d (sub64 (old_dest d core) (src2 d core)) core

unfoldable pub do_c_xor : DecodeInfo → M (Unit {0})
do_c_xor d core = set_dest d (bit_xor (old_dest d core) (src2 d core)) core

unfoldable pub do_c_or : DecodeInfo → M (Unit {0})
do_c_or d core = set_dest d (bit_or (old_dest d core) (src2 d core)) core

unfoldable pub do_c_and : DecodeInfo → M (Unit {0})
do_c_and d core = set_dest d (bit_and (old_dest d core) (src2 d core)) core

unfoldable pub do_c_nop : DecodeInfo → M (Unit {0})
do_c_nop d core = (ok tt, core)

unfoldable pub do_c_ldsp : DecodeInfo → M (Unit {0})
do_c_ldsp d core =
    require (not (rd_is_x0 d)) (λ core. (memory_load (add64 (sp core) d.imm) 8 >>= set_dest d) core)
      core

unfoldable pub do_c_sdsp : DecodeInfo → M (Unit {0})
do_c_sdsp d core = memory_store (add64 (sp core) d.imm) (src2 d core) 8 core

unfoldable pub do_c_ld : DecodeInfo → M (Unit {0})
do_c_ld d core = (memory_load (add64 (src1 d core) d.imm) 8 >>= set_dest d) core

unfoldable pub do_c_sd : DecodeInfo → M (Unit {0})
do_c_sd d core = memory_store (add64 (src1 d core) d.imm) (src2 d core) 8 core

unfoldable pub do_c_addiw : DecodeInfo → M (Unit {0})
do_c_addiw d core =
    require (not (rd_is_x0 d))
      (λ core. set_dest d (sext 32 (u64 (sext 32 (old_dest d core) + d.imm))) core) core

unfoldable pub do_c_addw : DecodeInfo → M (Unit {0})
do_c_addw d core = set_dest d (sext 32 (u32 (old_dest d core) + u32 (src2 d core))) core

unfoldable pub do_c_subw : DecodeInfo → M (Unit {0})
do_c_subw d core = set_dest d (sext 32 (u32 (old_dest d core) + 2 ^ 32 - u32 (src2 d core))) core
