-- ===== src/Riscv/Zicsr/Safe.antt =====
-- When the instructions of zicsr.cpp leave the control registers alone.
use kxemu.Base.Shared.{◌≡◌, arith, true}
use kxemu.Riscv.Def
use kxemu.Riscv.Def.{csr_read_only}
use kxemu.Riscv.Core.{RvCore, trap, read_csr}
use kxemu.Riscv.Decode.{DecodeInfo}
use kxemu.Riscv.Trap.{do_invalid_inst}
use kxemu.Riscv.Zicsr.{
  do_csrrw, do_csrrs, do_csrrc, do_csrrwi, do_csrrsi, do_csrrci, write_checked, read_checked,
}

-- A read-only address: none of the six instructions changes a control register, whatever its
-- operands, and csrrw and csrrwi trap as illegal instructions before any register is written.
pub read_only_kept :
    (d : DecodeInfo) (core : RvCore)
    → csr_read_only d.csr ≡ true
    → (do_csrrw d core ≡ (trap Def.illegal_inst core.inst, core))
      × (do_csrrwi d core ≡ (trap Def.illegal_inst core.inst, core))
      × ((do_csrrs d core).1.csr ≡ core.csr)
      × ((do_csrrc d core).1.csr ≡ core.csr)
      × ((do_csrrsi d core).1.csr ≡ core.csr)
      × ((do_csrrci d core).1.csr ≡ core.csr)
unfolding do_csrrw do_csrrwi do_csrrs do_csrrc do_csrrsi do_csrrci write_checked read_checked
    do_invalid_inst
read_only_kept d core h =
    (ground arith, ground arith, ground arith, ground arith, ground arith, ground arith)

-- csrrs and csrrc with rs1 = x0, and csrrsi and csrrci with a zero immediate, only read: they change no
-- control register, and where the register can be read they put its value into the destination, also
-- for a read-only address.
pub read_only_access :
    (d : DecodeInfo) (core : RvCore)
    → d.rs1 ≡ 0
    → d.imm ≡ 0
    → (read_csr d.csr core).0 ≡ true
    → ((do_csrrs d core).1.csr ≡ core.csr)
      × ((do_csrrs d core).1.gpr d.rd ≡ (read_csr d.csr core).1)
      × (do_csrrc d core ≡ do_csrrs d core)
      × (do_csrrsi d core ≡ do_csrrs d core)
      × (do_csrrci d core ≡ do_csrrs d core)
unfolding do_csrrs do_csrrc do_csrrsi do_csrrci read_checked
read_only_access d core h k r =
    (ground arith, ground arith, ground arith, ground arith, ground arith)
