-- ===== src/Riscv/Inst/Tests.antt =====
-- Instructions on a concrete core, and each theorem on them at one.
use kxemu.Base.Shared.{◌+◌, ◌-◌, ◌%◌, ◌*◌, ◌^◌, ◌<◌, ◌⊎◌, ◌≡◌, refl, arith}
use kxemu.Base.Word.{u64}
use kxemu.Riscv.Core.{RvCore}
use kxemu.Riscv.Core.Sample.{core_with}
use kxemu.Riscv.Decode.{DecodeInfo}
use kxemu.Riscv.Inst.{src1, src2}
use kxemu.Riscv.Inst.Mul.{do_mul, do_mulhu, do_divu, do_remu}
use kxemu.Riscv.Inst.Arith
use kxemu.Riscv.Inst.Arith.{result, high_signed_unsigned}

abbrev user_core : RvCore
user_core = core_with 0 (λ a. 0)

-- Registers 11 and 2 hold 33 and 6.
abbrev info : DecodeInfo
info = record { rd = 5; rs1 = 11; rs2 = 2; flag = 0; csr = 0; imm = 4; npc = 0; rs3 = 0 }

divu_runs : (result do_divu info user_core ≡ 5) × (result do_remu info user_core ≡ 3)
unfolding do_divu do_remu
divu_runs = (refl, refl)

mulhu-mul_example :
    result do_mulhu info user_core * 2 ^ 64 + result do_mul info user_core
    ≡ src1 info user_core * src2 info user_core
mulhu-mul_example = Arith.mulhu-mul info user_core (omega arith) (omega arith)

divu-remu_example :
    (u64 (result do_divu info user_core * src2 info user_core + result do_remu info user_core)
      ≡ src1 info user_core)
    × (((src2 info user_core ≡ 0) × (result do_divu info user_core ≡ 2 ^ 64 - 1))
        ⊎ ((0 < src2 info user_core) × (result do_remu info user_core < src2 info user_core)))
divu-remu_example = Arith.divu-remu info user_core (omega arith)

-- Register 11 holds -11 as a signed number, register 2 holds 2^64 - 2.
abbrev negative_core : RvCore
negative_core = record user_core { gpr = λ i. (2 ^ 64 - i) % 2 ^ 64 }
