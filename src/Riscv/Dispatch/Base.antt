-- ===== src/Riscv/Dispatch/Base.antt =====
-- src/cpu/riscv/instpat/base.instpat as the switches that scripts/riscv-decoder-gen makes of it: the
-- patterns of each group by their mask, without those for 32 bits.
use kxemu.Base.Shared.{List, [], ◌∷◌}
use kxemu.Riscv.Decode.Ranges.{InstType}
use kxemu.Riscv.Inst.Exec.{Inst}
use kxemu.Riscv.Dispatch.Rows.{Outside, Row, row, Group, group, typed, plain, outside}

abbrev base_0 : List Row
base_0 =
    row 0x33 (typed Inst.i_add InstType.r)
    ∷ row 0x40000033 (typed Inst.i_sub InstType.r)
    ∷ row 0x7033 (typed Inst.i_and InstType.r)
    ∷ row 0x6033 (typed Inst.i_or InstType.r)
    ∷ row 0x4033 (typed Inst.i_xor InstType.r)
    ∷ row 0x1033 (typed Inst.i_sll InstType.r)
    ∷ row 0x5033 (typed Inst.i_srl InstType.r)
    ∷ row 0x40005033 (typed Inst.i_sra InstType.r)
    ∷ row 0x2033 (typed Inst.i_slt InstType.r)
    ∷ row 0x3033 (typed Inst.i_sltu InstType.r)
    ∷ row 0x3b (typed Inst.i_addw InstType.r)
    ∷ row 0x4000003b (typed Inst.i_subw InstType.r)
    ∷ row 0x103b (typed Inst.i_sllw InstType.r)
    ∷ row 0x503b (typed Inst.i_srlw InstType.r)
    ∷ row 0x4000503b (typed Inst.i_sraw InstType.r)
    ∷ row 0x101b (typed Inst.i_slliw InstType.shiftiw)
    ∷ row 0x501b (typed Inst.i_srliw InstType.shiftiw)
    ∷ row 0x4000501b (typed Inst.i_sraiw InstType.shiftiw)
    ∷ row 0x2000033 (typed Inst.i_mul InstType.r)
    ∷ row 0x2001033 (typed Inst.i_mulh InstType.r)
    ∷ row 0x2002033 (typed Inst.i_mulhsu InstType.r)
    ∷ row 0x2003033 (typed Inst.i_mulhu InstType.r)
    ∷ row 0x2004033 (typed Inst.i_div InstType.r)
    ∷ row 0x2005033 (typed Inst.i_divu InstType.r)
    ∷ row 0x2006033 (typed Inst.i_rem InstType.r)
    ∷ row 0x2007033 (typed Inst.i_remu InstType.r)
    ∷ row 0x200003b (typed Inst.i_mulw InstType.r)
    ∷ row 0x200403b (typed Inst.i_divw InstType.r)
    ∷ row 0x200503b (typed Inst.i_divuw InstType.r)
    ∷ row 0x200603b (typed Inst.i_remw InstType.r)
    ∷ row 0x200703b (typed Inst.i_remuw InstType.r)
    ∷ row 0x20000053 (outside Outside.fsgnj_s)
    ∷ row 0x20001053 (outside Outside.fsgnjn_s)
    ∷ row 0x20002053 (outside Outside.fsgnjx_s)
    ∷ row 0x28000053 (outside Outside.fmin_s)
    ∷ row 0x28001053 (outside Outside.fmax_s)
    ∷ row 0xa0002053 (outside Outside.feq_s)
    ∷ row 0xa0001053 (outside Outside.flt_s)
    ∷ row 0xa0000053 (outside Outside.fle_s)
    ∷ row 0x22000053 (outside Outside.fsgnj_d)
    ∷ row 0x22001053 (outside Outside.fsgnjn_d)
    ∷ row 0x22002053 (outside Outside.fsgnjx_d)
    ∷ row 0x2a000053 (outside Outside.fmin_d)
    ∷ row 0x2a001053 (outside Outside.fmax_d)
    ∷ row 0xa2002053 (outside Outside.feq_d)
    ∷ row 0xa2001053 (outside Outside.flt_d)
    ∷ row 0xa2000053 (outside Outside.fle_d)
    ∷ []

abbrev base_1 : List Row
base_1 =
    row 0x13 (typed Inst.i_addi InstType.i)
    ∷ row 0x7013 (typed Inst.i_andi InstType.i)
    ∷ row 0x6013 (typed Inst.i_ori InstType.i)
    ∷ row 0x4013 (typed Inst.i_xori InstType.i)
    ∷ row 0x2013 (typed Inst.i_slti InstType.i)
    ∷ row 0x3013 (typed Inst.i_sltiu InstType.i)
    ∷ row 0x1b (typed Inst.i_addiw InstType.i)
    ∷ row 0x3 (typed Inst.i_lb InstType.i)
    ∷ row 0x4003 (typed Inst.i_lbu InstType.i)
    ∷ row 0x1003 (typed Inst.i_lh InstType.i)
    ∷ row 0x5003 (typed Inst.i_lhu InstType.i)
    ∷ row 0x2003 (typed Inst.i_lw InstType.i)
    ∷ row 0x6003 (typed Inst.i_lwu InstType.i)
    ∷ row 0x3003 (typed Inst.i_ld InstType.i)
    ∷ row 0x23 (typed Inst.i_sb InstType.s)
    ∷ row 0x1023 (typed Inst.i_sh InstType.s)
    ∷ row 0x2023 (typed Inst.i_sw InstType.s)
    ∷ row 0x3023 (typed Inst.i_sd InstType.s)
    ∷ row 0x63 (typed Inst.i_beq InstType.b)
    ∷ row 0x1063 (typed Inst.i_bne InstType.b)
    ∷ row 0x5063 (typed Inst.i_bge InstType.b)
    ∷ row 0x7063 (typed Inst.i_bgeu InstType.b)
    ∷ row 0x4063 (typed Inst.i_blt InstType.b)
    ∷ row 0x6063 (typed Inst.i_bltu InstType.b)
    ∷ row 0x67 (typed Inst.i_jalr InstType.i)
    ∷ row 0x2007 (outside Outside.flw)
    ∷ row 0x2027 (outside Outside.fsw)
    ∷ row 0x3007 (outside Outside.fld)
    ∷ row 0x3027 (outside Outside.fsd)
    ∷ row 0x1073 (typed Inst.i_csrrw InstType.csrr)
    ∷ row 0x2073 (typed Inst.i_csrrs InstType.csrr)
    ∷ row 0x3073 (typed Inst.i_csrrc InstType.csrr)
    ∷ row 0x5073 (typed Inst.i_csrrwi InstType.csri)
    ∷ row 0x6073 (typed Inst.i_csrrsi InstType.csri)
    ∷ row 0x7073 (typed Inst.i_csrrci InstType.csri)
    ∷ row 0xf (plain Inst.i_fence)
    ∷ row 0x100f (plain Inst.i_fence_i)
    ∷ []

abbrev base_2 : List Row
base_2 =
    row 0x1013 (typed Inst.i_slli InstType.shifti)
    ∷ row 0x5013 (typed Inst.i_srli InstType.shifti)
    ∷ row 0x40005013 (typed Inst.i_srai InstType.shifti)
    ∷ []

abbrev base_3 : List Row
base_3 =
    row 0x6f (typed Inst.i_jal InstType.j)
    ∷ row 0x17 (typed Inst.i_auipc InstType.auipc)
    ∷ row 0x37 (typed Inst.i_lui InstType.lui)
    ∷ []

abbrev base_4 : List Row
base_4 =
    row 0x43 (outside Outside.fmadd_s)
    ∷ row 0x47 (outside Outside.fmsub_s)
    ∷ row 0x4b (outside Outside.fnmsub_s)
    ∷ row 0x4f (outside Outside.fnmadd_s)
    ∷ row 0x2000043 (outside Outside.fmadd_d)
    ∷ row 0x2000047 (outside Outside.fmadd_d)
    ∷ row 0x200004b (outside Outside.fnmsub_d)
    ∷ row 0x200004f (outside Outside.fnmadd_d)
    ∷ []

abbrev base_5 : List Row
base_5 =
    row 0x53 (outside Outside.fadd_s)
    ∷ row 0x8000053 (outside Outside.fsub_s)
    ∷ row 0x10000053 (outside Outside.fmul_s)
    ∷ row 0x18000053 (outside Outside.fdiv_s)
    ∷ row 0x2000053 (outside Outside.fadd_d)
    ∷ row 0xa000053 (outside Outside.fsub_d)
    ∷ row 0x12000053 (outside Outside.fmul_d)
    ∷ row 0x1a000053 (outside Outside.fdiv_d)
    ∷ []

abbrev base_6 : List Row
base_6 =
    row 0x58000053 (outside Outside.fsqrt_s)
    ∷ row 0xc0000053 (outside Outside.fcvt_w_s)
    ∷ row 0xc0100053 (outside Outside.fcvt_wu_s)
    ∷ row 0xc0200053 (outside Outside.fcvt_l_s)
    ∷ row 0xc0300053 (outside Outside.fcvt_lu_s)
    ∷ row 0xe0000053 (outside Outside.fmv_x_w)
    ∷ row 0xd0000053 (outside Outside.fcvt_s_w)
    ∷ row 0xd0100053 (outside Outside.fcvt_s_wu)
    ∷ row 0xd0200053 (outside Outside.fcvt_s_l)
    ∷ row 0xd0300053 (outside Outside.fcvt_s_lu)
    ∷ row 0x5a000053 (outside Outside.fsqrt_d)
    ∷ row 0x40100053 (outside Outside.fcvt_s_d)
    ∷ row 0x40000053 (outside Outside.fcvt_d_s)
    ∷ row 0xc2000053 (outside Outside.fcvt_w_d)
    ∷ row 0xc2100053 (outside Outside.fcvt_wu_d)
    ∷ row 0xc2200053 (outside Outside.fcvt_l_d)
    ∷ row 0xc2300053 (outside Outside.fcvt_lu_d)
    ∷ row 0xd2000053 (outside Outside.fcvt_d_w)
    ∷ row 0xd2100053 (outside Outside.fcvt_d_wu)
    ∷ row 0xd2200053 (outside Outside.fcvt_d_l)
    ∷ row 0xd2300053 (outside Outside.fcvt_d_lu)
    ∷ []

abbrev base_7 : List Row
base_7 =
    row 0xe0001053 (outside Outside.fclass_s)
    ∷ row 0xf0000053 (outside Outside.fmv_w_x)
    ∷ row 0xe2001053 (outside Outside.fclass_d)
    ∷ row 0xe2000053 (outside Outside.fmv_x_d)
    ∷ row 0xf2000053 (outside Outside.fmv_d_x)
    ∷ []

abbrev base_8 : List Row
base_8 =
    row 0x73 (plain Inst.i_ecall)
    ∷ row 0x100073 (plain Inst.i_ebreak)
    ∷ row 0x30200073 (plain Inst.i_mret)
    ∷ row 0x10200073 (plain Inst.i_sret)
    ∷ row 0x10500073 (outside Outside.wfi)
    ∷ []

abbrev base_9 : List Row
base_9 =
    row 0x1000202f (typed Inst.i_lr_w InstType.r)
    ∷ row 0x1000302f (typed Inst.i_lr_d InstType.r)
    ∷ []

abbrev base_10 : List Row
base_10 =
    row 0x1800202f (typed Inst.i_sc_w InstType.r)
    ∷ row 0x800202f (typed Inst.i_amoswap_w InstType.r)
    ∷ row 0x202f (typed Inst.i_amoadd_w InstType.r)
    ∷ row 0x2000202f (typed Inst.i_amoxor_w InstType.r)
    ∷ row 0x6000202f (typed Inst.i_amoand_w InstType.r)
    ∷ row 0x4000202f (typed Inst.i_amoor_w InstType.r)
    ∷ row 0x8000202f (typed Inst.i_amomin_w InstType.r)
    ∷ row 0xa000202f (typed Inst.i_amomax_w InstType.r)
    ∷ row 0xc000202f (typed Inst.i_amominu_w InstType.r)
    ∷ row 0xe000202f (typed Inst.i_amomaxu_w InstType.r)
    ∷ row 0x1800302f (typed Inst.i_sc_d InstType.r)
    ∷ row 0x800302f (typed Inst.i_amoswap_d InstType.r)
    ∷ row 0x302f (typed Inst.i_amoadd_d InstType.r)
    ∷ row 0x2000302f (typed Inst.i_amoxor_d InstType.r)
    ∷ row 0x6000302f (typed Inst.i_amoand_d InstType.r)
    ∷ row 0x4000302f (typed Inst.i_amoor_d InstType.r)
    ∷ row 0x8000302f (typed Inst.i_amomin_d InstType.r)
    ∷ row 0xa000302f (typed Inst.i_amomax_d InstType.r)
    ∷ row 0xc000302f (typed Inst.i_amominu_d InstType.r)
    ∷ row 0xe000302f (typed Inst.i_amomaxu_d InstType.r)
    ∷ []

abbrev base_11 : List Row
base_11 = row 0x12000073 (plain Inst.i_sfence_vma) ∷ []

-- The masks, in the order of their first patterns.
abbrev pub base_table : List Group
base_table =
    group 0xfe00707f base_0
    ∷ group 0x707f base_1
    ∷ group 0xfc00707f base_2
    ∷ group 0x7f base_3
    ∷ group 0x600007f base_4
    ∷ group 0xfe00007f base_5
    ∷ group 0xfff0007f base_6
    ∷ group 0xfff0707f base_7
    ∷ group 0xffffffff base_8
    ∷ group 0xf9f0707f base_9
    ∷ group 0xf800707f base_10
    ∷ group 0xfe007fff base_11
    ∷ []
