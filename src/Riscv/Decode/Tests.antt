-- ===== src/Riscv/Decode/Tests.antt =====
-- Decoding concrete instruction words, and each theorem on the decoder at one.
use kxemu.Base.Shared.{◌+◌, ◌^◌, ◌-◌, ◌≡◌, refl, arith, ◌==◌, ltb, if◌then◌else◌}
use kxemu.Base.Bits.{bit_at}
use kxemu.Base.Signed.{to_signed, of_signed, shr_ℤ}
use kxemu.Riscv.Decode.{DecodeInfo, bits, sext_from, rd_of, imm_b, decode_i, decode_b}
use kxemu.Riscv.Decode.Immediates
use kxemu.Riscv.Decode.Ranges

abbrev blank : DecodeInfo
blank = record { rd = 0; rs1 = 0; rs2 = 0; flag = 0; csr = 0; imm = 0; npc = 0; rs3 = 0 }

-- addi x0, a0, -1 writes to element 32.
addi_to_x0 : decode_i 0xfff50013 0 blank ≡ record blank { rd = 32; rs1 = 10; imm = 2 ^ 64 - 1 }
unfolding decode_i bits sext_from rd_of to_signed of_signed shr_ℤ
addi_to_x0 = refl

-- beq a0, a1, -4 at 0x80000010.
beq_back : (decode_b 0xfeb50ee3 0x8000_0010 blank).npc ≡ 0x8000_000c
unfolding decode_b imm_b bits sext_from to_signed of_signed shr_ℤ
beq_back = refl

imm_b_digits_example : bit_at (imm_b 0xfeb50ee3) 11 ≡ (
    if 11 == 0
    then 0
    else if ltb 11 5
    then bit_at 0xfeb50ee3 (7 + 11)
    else if ltb 11 11
    then bit_at 0xfeb50ee3 (20 + 11)
    else if 11 == 11
    then bit_at 0xfeb50ee3 7
    else bit_at 0xfeb50ee3 31)
imm_b_digits_example = Immediates.imm_b_digits 0xfeb50ee3 11 (omega arith)
