-- ===== src/Riscv/Inst/Base.antt =====
-- The loads, stores, branches and jumps of src/cpu/riscv/inst/base.cpp.
use Prim.{Unit, tt}
use kxemu.Base.Shared.{ℕ, not, ◌==◌, ltb}
use kxemu.Base.Word.{add64}
use kxemu.Base.Int.{ltb_ℤ}
use kxemu.Base.Signed.{to_signed, sext}
use kxemu.Riscv.Core.{RvCore, M, ok, ◌>>=◌, set_gpr}
use kxemu.Riscv.Decode.{DecodeInfo}
use kxemu.Riscv.Memory.{memory_load, memory_store}
use kxemu.Riscv.Inst.{src1, src2, set_dest, jump_if}

-- ADDR
abbrev pub address : DecodeInfo → RvCore → ℕ
address d core = add64 (src1 d core) d.imm

unfoldable pub do_lb : DecodeInfo → M (Unit {0})
do_lb d core = (memory_load (address d core) 1 >>= λ v. set_dest d (sext 8 v)) core

unfoldable pub do_lbu : DecodeInfo → M (Unit {0})
do_lbu d core = (memory_load (address d core) 1 >>= λ v. set_dest d v) core

unfoldable pub do_lh : DecodeInfo → M (Unit {0})
do_lh d core = (memory_load (address d core) 2 >>= λ v. set_dest d (sext 16 v)) core

unfoldable pub do_lhu : DecodeInfo → M (Unit {0})
do_lhu d core = (memory_load (address d core) 2 >>= λ v. set_dest d v) core

unfoldable pub do_lw : DecodeInfo → M (Unit {0})
do_lw d core = (memory_load (address d core) 4 >>= λ v. set_dest d (sext 32 v)) core

unfoldable pub do_lwu : DecodeInfo → M (Unit {0})
do_lwu d core = (memory_load (address d core) 4 >>= λ v. set_dest d v) core

unfoldable pub do_ld : DecodeInfo → M (Unit {0})
do_ld d core = (memory_load (address d core) 8 >>= λ v. set_dest d v) core

unfoldable pub do_sb : DecodeInfo → M (Unit {0})
do_sb d core = memory_store (address d core) (src2 d core) 1 core

unfoldable pub do_sh : DecodeInfo → M (Unit {0})
do_sh d core = memory_store (address d core) (src2 d core) 2 core

unfoldable pub do_sw : DecodeInfo → M (Unit {0})
do_sw d core = memory_store (address d core) (src2 d core) 4 core

unfoldable pub do_sd : DecodeInfo → M (Unit {0})
do_sd d core = memory_store (address d core) (src2 d core) 8 core

unfoldable pub do_beq : DecodeInfo → M (Unit {0})
do_beq d core = jump_if (src1 d core == src2 d core) d.npc core

unfoldable pub do_bne : DecodeInfo → M (Unit {0})
do_bne d core = jump_if (not (src1 d core == src2 d core)) d.npc core

unfoldable pub do_bge : DecodeInfo → M (Unit {0})
do_bge d core =
    jump_if (not (ltb_ℤ (to_signed 64 (src1 d core)) (to_signed 64 (src2 d core)))) d.npc core

unfoldable pub do_bgeu : DecodeInfo → M (Unit {0})
do_bgeu d core = jump_if (not (ltb (src1 d core) (src2 d core))) d.npc core

unfoldable pub do_blt : DecodeInfo → M (Unit {0})
do_blt d core = jump_if (ltb_ℤ (to_signed 64 (src1 d core)) (to_signed 64 (src2 d core))) d.npc core

unfoldable pub do_bltu : DecodeInfo → M (Unit {0})
do_bltu d core = jump_if (ltb (src1 d core) (src2 d core)) d.npc core

unfoldable pub do_jal : DecodeInfo → M (Unit {0})
do_jal d core = (ok tt, record (set_gpr d.rd (add64 core.pc 4) core) { npc = add64 core.pc d.imm })

unfoldable pub do_jalr : DecodeInfo → M (Unit {0})
do_jalr d core = set_dest d (add64 core.pc 4) (record core { npc = add64 (src1 d core) d.imm })
