-- ===== src/Riscv/Inst/Alu.antt =====
-- The register instructions of src/cpu/riscv/inst/base.cpp.
use Prim.{Unit}
use kxemu.Base.Shared.{◌+◌, ◌-◌, ◌^◌, bit_and, bit_or, bit_xor, ltb}
use kxemu.Base.Word.{u32, u64, add64, sub64, of_bool, ◌<<<◌, ◌>>>◌}
use kxemu.Base.Int.{ltb_ℤ}
use kxemu.Base.Signed.{to_signed, of_signed, shr_ℤ, sext}
use kxemu.Riscv.Core.{M}
use kxemu.Riscv.Decode.{DecodeInfo}
use kxemu.Riscv.Inst.{src1, src2, set_dest}

unfoldable pub do_add : DecodeInfo → M (Unit {0})
do_add d core = set_dest d (add64 (src1 d core) (src2 d core)) core

unfoldable pub do_sub : DecodeInfo → M (Unit {0})
do_sub d core = set_dest d (sub64 (src1 d core) (src2 d core)) core

unfoldable pub do_and : DecodeInfo → M (Unit {0})
do_and d core = set_dest d (bit_and (src1 d core) (src2 d core)) core

unfoldable pub do_or : DecodeInfo → M (Unit {0})
do_or d core = set_dest d (bit_or (src1 d core) (src2 d core)) core

unfoldable pub do_xor : DecodeInfo → M (Unit {0})
do_xor d core = set_dest d (bit_xor (src1 d core) (src2 d core)) core

unfoldable pub do_sll : DecodeInfo → M (Unit {0})
do_sll d core = set_dest d (u64 (src1 d core <<< bit_and (src2 d core) 0x3f)) core

unfoldable pub do_srl : DecodeInfo → M (Unit {0})
do_srl d core = set_dest d (src1 d core >>> bit_and (src2 d core) 0x3f) core

unfoldable pub do_sra : DecodeInfo → M (Unit {0})
do_sra d core =
    set_dest d (of_signed 64 (shr_ℤ (to_signed 64 (src1 d core)) (bit_and (src2 d core) 0x3f))) core

unfoldable pub do_slt : DecodeInfo → M (Unit {0})
do_slt d core =
    set_dest d (of_bool (ltb_ℤ (to_signed 64 (src1 d core)) (to_signed 64 (src2 d core)))) core

unfoldable pub do_sltu : DecodeInfo → M (Unit {0})
do_sltu d core = set_dest d (of_bool (ltb (src1 d core) (src2 d core))) core

-- The instructions on the low words.
unfoldable pub do_addw : DecodeInfo → M (Unit {0})
do_addw d core = set_dest d (sext 32 (u32 (src1 d core) + u32 (src2 d core))) core

unfoldable pub do_subw : DecodeInfo → M (Unit {0})
do_subw d core = set_dest d (sext 32 (u32 (src1 d core) + 2 ^ 32 - u32 (src2 d core))) core

unfoldable pub do_sllw : DecodeInfo → M (Unit {0})
do_sllw d core = set_dest d (u64 (sext 32 (u32 (src1 d core)) <<< bit_and (src2 d core) 0x1f)) core

unfoldable pub do_srlw : DecodeInfo → M (Unit {0})
do_srlw d core = set_dest d (sext 32 (u32 (src1 d core) >>> bit_and (src2 d core) 0x1f)) core

unfoldable pub do_sraw : DecodeInfo → M (Unit {0})
do_sraw d core =
    set_dest d
      (of_signed 64 (shr_ℤ (to_signed 32 (u32 (src1 d core))) (bit_and (src2 d core) 0x1f))) core

-- With an immediate.
unfoldable pub do_addi : DecodeInfo → M (Unit {0})
do_addi d core = set_dest d (add64 (src1 d core) d.imm) core

unfoldable pub do_andi : DecodeInfo → M (Unit {0})
do_andi d core = set_dest d (bit_and (src1 d core) d.imm) core

unfoldable pub do_ori : DecodeInfo → M (Unit {0})
do_ori d core = set_dest d (bit_or (src1 d core) d.imm) core

unfoldable pub do_xori : DecodeInfo → M (Unit {0})
do_xori d core = set_dest d (bit_xor (src1 d core) d.imm) core

unfoldable pub do_slli : DecodeInfo → M (Unit {0})
do_slli d core = set_dest d (u64 (src1 d core <<< d.imm)) core

unfoldable pub do_srli : DecodeInfo → M (Unit {0})
do_srli d core = set_dest d (src1 d core >>> d.imm) core

unfoldable pub do_srai : DecodeInfo → M (Unit {0})
do_srai d core = set_dest d (of_signed 64 (shr_ℤ (to_signed 64 (src1 d core)) d.imm)) core

unfoldable pub do_slti : DecodeInfo → M (Unit {0})
do_slti d core = set_dest d (of_bool (ltb_ℤ (to_signed 64 (src1 d core)) (to_signed 64 d.imm))) core

unfoldable pub do_sltiu : DecodeInfo → M (Unit {0})
do_sltiu d core = set_dest d (of_bool (ltb (src1 d core) d.imm)) core

unfoldable pub do_addiw : DecodeInfo → M (Unit {0})
do_addiw d core = set_dest d (sext 32 (u32 (src1 d core) + u32 d.imm)) core

unfoldable pub do_slliw : DecodeInfo → M (Unit {0})
do_slliw d core = set_dest d (sext 32 (u32 (src1 d core) <<< d.imm)) core

unfoldable pub do_srliw : DecodeInfo → M (Unit {0})
do_srliw d core = set_dest d (sext 32 (u32 (src1 d core) >>> d.imm)) core

unfoldable pub do_sraiw : DecodeInfo → M (Unit {0})
do_sraiw d core = set_dest d (of_signed 64 (shr_ℤ (to_signed 32 (u32 (src1 d core))) d.imm)) core

unfoldable pub do_lui : DecodeInfo → M (Unit {0})
do_lui d core = set_dest d (d.imm) core

unfoldable pub do_auipc : DecodeInfo → M (Unit {0})
do_auipc d core = set_dest d (d.imm) core
