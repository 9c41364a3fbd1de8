-- ===== src/Riscv/Dispatch/Compressed.antt =====
-- src/cpu/riscv/instpat/compressed.instpat as the switches that scripts/riscv-decoder-gen makes of it: the
-- patterns of each group by their mask, without those for 32 bits.
use kxemu.Base.Shared.{List, [], ◌∷◌}
use kxemu.Riscv.Decode.Ranges.{InstType}
use kxemu.Riscv.Inst.Exec.{Inst}
use kxemu.Riscv.Dispatch.Rows.{Outside, Row, row, Group, group, typed, plain, outside, invalid}

abbrev compressed_0 : List Row
compressed_0 =
    row 0x0 invalid ∷ row 0x9002 (plain Inst.i_ebreak) ∷ row 0x1 (plain Inst.i_c_nop) ∷ []

abbrev compressed_1 : List Row
compressed_1 =
    row 0x4002 (typed Inst.i_c_lwsp InstType.c_lwsp)
    ∷ row 0xc002 (typed Inst.i_c_swsp InstType.c_swsp)
    ∷ row 0x6002 (typed Inst.i_c_ldsp InstType.c_ldsp)
    ∷ row 0xe002 (typed Inst.i_c_sdsp InstType.c_sdsp)
    ∷ row 0x2002 (outside Outside.c_fldsp)
    ∷ row 0xa002 (outside Outside.c_fsdsp)
    ∷ row 0x4000 (typed Inst.i_c_lw InstType.c_lwsw)
    ∷ row 0xc000 (typed Inst.i_c_sw InstType.c_lwsw)
    ∷ row 0x6000 (typed Inst.i_c_ld InstType.c_ldsd)
    ∷ row 0xe000 (typed Inst.i_c_sd InstType.c_ldsd)
    ∷ row 0x2000 (outside Outside.c_fld)
    ∷ row 0xa000 (outside Outside.c_fsd)
    ∷ []

abbrev compressed_2 : List Row
compressed_2 =
    row 0xa001 (typed Inst.i_c_j InstType.c_j)
    ∷ row 0xc001 (typed Inst.i_c_beqz InstType.c_b)
    ∷ row 0xe001 (typed Inst.i_c_bnez InstType.c_b)
    ∷ row 0x1 (typed Inst.i_c_addi InstType.c_addi)
    ∷ row 0x0 (typed Inst.i_c_addi4spn InstType.c_addi4spn)
    ∷ []

abbrev compressed_3 : List Row
compressed_3 =
    row 0x8002 (typed Inst.i_c_jr InstType.c_j)
    ∷ row 0x9002 (typed Inst.i_c_jalr InstType.c_jalr)
    ∷ []

abbrev compressed_4 : List Row
compressed_4 = row 0x6101 (typed Inst.i_c_addi16sp InstType.c_addi16sp) ∷ []

abbrev compressed_5 : List Row
compressed_5 =
    row 0x4001 (typed Inst.i_c_li InstType.c_li)
    ∷ row 0x6001 (typed Inst.i_c_lui InstType.c_lui)
    ∷ row 0x2 (typed Inst.i_c_slli InstType.c_slli)
    ∷ row 0x2001 (typed Inst.i_c_addiw InstType.c_addi)
    ∷ []

abbrev compressed_6 : List Row
compressed_6 =
    row 0x8001 (typed Inst.i_c_srli InstType.c_shifti)
    ∷ row 0x8401 (typed Inst.i_c_srai InstType.c_shifti)
    ∷ row 0x8801 (typed Inst.i_c_andi InstType.c_i)
    ∷ []

abbrev compressed_7 : List Row
compressed_7 =
    row 0x8002 (typed Inst.i_c_mv InstType.c_mvadd)
    ∷ row 0x9002 (typed Inst.i_c_add InstType.c_mvadd)
    ∷ []

abbrev compressed_8 : List Row
compressed_8 = []

abbrev compressed_9 : List Row
compressed_9 =
    row 0x8c01 (typed Inst.i_c_sub InstType.c_r)
    ∷ row 0x8c21 (typed Inst.i_c_xor InstType.c_r)
    ∷ row 0x8c41 (typed Inst.i_c_or InstType.c_r)
    ∷ row 0x8c61 (typed Inst.i_c_and InstType.c_r)
    ∷ row 0x9c21 (typed Inst.i_c_addw InstType.c_r)
    ∷ row 0x9c01 (typed Inst.i_c_subw InstType.c_r)
    ∷ []

-- The masks, in the order of their first patterns.
abbrev pub compressed_table : List Group
compressed_table =
    group 0xffff compressed_0
    ∷ group 0xe003 compressed_1
    ∷ group 0xe003 compressed_2
    ∷ group 0xf07f compressed_3
    ∷ group 0xef83 compressed_4
    ∷ group 0xe003 compressed_5
    ∷ group 0xec03 compressed_6
    ∷ group 0xf003 compressed_7
    ∷ group 0xfc03 compressed_8
    ∷ group 0xfc63 compressed_9
    ∷ []
