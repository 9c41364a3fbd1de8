-- ===== src/Riscv/Inst/Exec.antt =====
-- The instruction functions of src/cpu/riscv/inst that `do_inst` can point to, but for the
-- floating-point and the waiting ones.
use Prim.{Unit}
use kxemu.Riscv.Core.{M, modify}
use kxemu.Riscv.Decode.{DecodeInfo}
use kxemu.Riscv.Trap
use kxemu.Riscv.Zicsr
use kxemu.Riscv.Inst.Alu
use kxemu.Riscv.Inst.Base
use kxemu.Riscv.Inst.Mul
use kxemu.Riscv.Inst.Compressed
use kxemu.Riscv.Inst.Atomic
use kxemu.Riscv.Inst.Fence

pub data Inst : Type 0 where
  i_add i_sub i_and i_or i_xor i_sll i_srl i_sra : Inst
  i_slt i_sltu i_addw i_subw i_sllw i_srlw i_sraw i_addi : Inst
  i_andi i_ori i_xori i_slli i_srli i_srai i_slti i_sltiu : Inst
  i_addiw i_slliw i_srliw i_sraiw i_lui i_auipc i_lb i_lbu : Inst
  i_lh i_lhu i_lw i_lwu i_ld i_sb i_sh i_sw : Inst
  i_sd i_beq i_bne i_bge i_bgeu i_blt i_bltu i_jal : Inst
  i_jalr i_mul i_mulh i_mulhsu i_mulhu i_div i_divu i_rem : Inst
  i_remu i_mulw i_divw i_divuw i_remw i_remuw i_c_lwsp i_c_swsp : Inst
  i_c_lw i_c_sw i_c_j i_c_jal i_c_jr i_c_jalr i_c_beqz i_c_bnez : Inst
  i_c_li i_c_lui i_c_addi i_c_addi16sp i_c_addi4spn i_c_slli i_c_srli i_c_srai : Inst
  i_c_andi i_c_mv i_c_add i_c_sub i_c_xor i_c_or i_c_and i_c_nop : Inst
  i_c_ldsp i_c_sdsp i_c_ld i_c_sd i_c_addiw i_c_addw i_c_subw i_csrrw : Inst
  i_csrrs i_csrrc i_csrrwi i_csrrsi i_csrrci i_ecall i_ebreak i_mret : Inst
  i_sret : Inst
  i_lr_w i_sc_w i_amoswap_w i_amoadd_w i_amoxor_w i_amoand_w i_amoor_w i_amomin_w : Inst
  i_amomax_w i_amominu_w i_amomaxu_w i_lr_d i_sc_d i_amoswap_d i_amoadd_d i_amoxor_d : Inst
  i_amoand_d i_amoor_d i_amomin_d i_amomax_d i_amominu_d i_amomaxu_d : Inst
  i_sfence_vma i_fence i_fence_i : Inst

unfoldable pub exec : Inst → DecodeInfo → M (Unit {0})
exec i_add = Alu.do_add
exec i_sub = Alu.do_sub
exec i_and = Alu.do_and
exec i_or = Alu.do_or
exec i_xor = Alu.do_xor
exec i_sll = Alu.do_sll
exec i_srl = Alu.do_srl
exec i_sra = Alu.do_sra
exec i_slt = Alu.do_slt
exec i_sltu = Alu.do_sltu
exec i_addw = Alu.do_addw
exec i_subw = Alu.do_subw
exec i_sllw = Alu.do_sllw
exec i_srlw = Alu.do_srlw
exec i_sraw = Alu.do_sraw
exec i_addi = Alu.do_addi
exec i_andi = Alu.do_andi
exec i_ori = Alu.do_ori
exec i_xori = Alu.do_xori
exec i_slli = Alu.do_slli
exec i_srli = Alu.do_srli
exec i_srai = Alu.do_srai
exec i_slti = Alu.do_slti
exec i_sltiu = Alu.do_sltiu
exec i_addiw = Alu.do_addiw
exec i_slliw = Alu.do_slliw
exec i_srliw = Alu.do_srliw
exec i_sraiw = Alu.do_sraiw
exec i_lui = Alu.do_lui
exec i_auipc = Alu.do_auipc
exec i_lb = Base.do_lb
exec i_lbu = Base.do_lbu
exec i_lh = Base.do_lh
exec i_lhu = Base.do_lhu
exec i_lw = Base.do_lw
exec i_lwu = Base.do_lwu
exec i_ld = Base.do_ld
exec i_sb = Base.do_sb
exec i_sh = Base.do_sh
exec i_sw = Base.do_sw
exec i_sd = Base.do_sd
exec i_beq = Base.do_beq
exec i_bne = Base.do_bne
exec i_bge = Base.do_bge
exec i_bgeu = Base.do_bgeu
exec i_blt = Base.do_blt
exec i_bltu = Base.do_bltu
exec i_jal = Base.do_jal
exec i_jalr = Base.do_jalr
exec i_mul = Mul.do_mul
exec i_mulh = Mul.do_mulh
exec i_mulhsu = Mul.do_mulhsu
exec i_mulhu = Mul.do_mulhu
exec i_div = Mul.do_div
exec i_divu = Mul.do_divu
exec i_rem = Mul.do_rem
exec i_remu = Mul.do_remu
exec i_mulw = Mul.do_mulw
exec i_divw = Mul.do_divw
exec i_divuw = Mul.do_divuw
exec i_remw = Mul.do_remw
exec i_remuw = Mul.do_remuw
exec i_c_lwsp = Compressed.do_c_lwsp
exec i_c_swsp = Compressed.do_c_swsp
exec i_c_lw = Compressed.do_c_lw
exec i_c_sw = Compressed.do_c_sw
exec i_c_j = Compressed.do_c_j
exec i_c_jal = Compressed.do_c_jal
exec i_c_jr = Compressed.do_c_jr
exec i_c_jalr = Compressed.do_c_jalr
exec i_c_beqz = Compressed.do_c_beqz
exec i_c_bnez = Compressed.do_c_bnez
exec i_c_li = Compressed.do_c_li
exec i_c_lui = Compressed.do_c_lui
exec i_c_addi = Compressed.do_c_addi
exec i_c_addi16sp = Compressed.do_c_addi16sp
exec i_c_addi4spn = Compressed.do_c_addi4spn
exec i_c_slli = Compressed.do_c_slli
exec i_c_srli = Compressed.do_c_srli
exec i_c_srai = Compressed.do_c_srai
exec i_c_andi = Compressed.do_c_andi
exec i_c_mv = Compressed.do_c_mv
exec i_c_add = Compressed.do_c_add
exec i_c_sub = Compressed.do_c_sub
exec i_c_xor = Compressed.do_c_xor
exec i_c_or = Compressed.do_c_or
exec i_c_and = Compressed.do_c_and
exec i_c_nop = Compressed.do_c_nop
exec i_c_ldsp = Compressed.do_c_ldsp
exec i_c_sdsp = Compressed.do_c_sdsp
exec i_c_ld = Compressed.do_c_ld
exec i_c_sd = Compressed.do_c_sd
exec i_c_addiw = Compressed.do_c_addiw
exec i_c_addw = Compressed.do_c_addw
exec i_c_subw = Compressed.do_c_subw
exec i_csrrw = Zicsr.do_csrrw
exec i_csrrs = Zicsr.do_csrrs
exec i_csrrc = Zicsr.do_csrrc
exec i_csrrwi = Zicsr.do_csrrwi
exec i_csrrsi = Zicsr.do_csrrsi
exec i_csrrci = Zicsr.do_csrrci
exec i_ecall = λ d. Trap.do_ecall
exec i_ebreak = λ d. Trap.do_ebreak
exec i_mret = λ d. modify Trap.mret
exec i_sret = λ d. modify Trap.sret
exec i_lr_w = Atomic.do_lr_w
exec i_sc_w = Atomic.do_sc_w
exec i_amoswap_w = Atomic.do_amoswap_w
exec i_amoadd_w = Atomic.do_amoadd_w
exec i_amoxor_w = Atomic.do_amoxor_w
exec i_amoand_w = Atomic.do_amoand_w
exec i_amoor_w = Atomic.do_amoor_w
exec i_amomin_w = Atomic.do_amomin_w
exec i_amomax_w = Atomic.do_amomax_w
exec i_amominu_w = Atomic.do_amominu_w
exec i_amomaxu_w = Atomic.do_amomaxu_w
exec i_lr_d = Atomic.do_lr_d
exec i_sc_d = Atomic.do_sc_d
exec i_amoswap_d = Atomic.do_amoswap_d
exec i_amoadd_d = Atomic.do_amoadd_d
exec i_amoxor_d = Atomic.do_amoxor_d
exec i_amoand_d = Atomic.do_amoand_d
exec i_amoor_d = Atomic.do_amoor_d
exec i_amomin_d = Atomic.do_amomin_d
exec i_amomax_d = Atomic.do_amomax_d
exec i_amominu_d = Atomic.do_amominu_d
exec i_amomaxu_d = Atomic.do_amomaxu_d
exec i_sfence_vma = λ d. Fence.do_sfence_vma
exec i_fence = λ d. Fence.do_fence
exec i_fence_i = λ d. Fence.do_fence_i
