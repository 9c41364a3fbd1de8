-- ===== src/Riscv/Zicsr.antt =====
-- src/cpu/riscv/inst/zicsr.cpp: the six instructions on the control registers.
pub mod Safe
mod Tests
use Prim.{Unit, tt}
use kxemu.Base.Shared.{ℕ, bit_and, bit_or, Bool, true, false, not, ◌==◌, if◌then◌else◌}
use kxemu.Base.Word.{not64}
use kxemu.Riscv.Def.{csr_read_only}
use kxemu.Riscv.Core.{RvCore, M, Result, ok, get_gpr, set_gpr, read_csr, write_csr}
use kxemu.Riscv.Decode.{DecodeInfo}
use kxemu.Riscv.Trap.{do_invalid_inst}

abbrev pub rd_is_x0 : DecodeInfo → Bool
rd_is_x0 d = d.rd == 32

abbrev pub rs1_is_x0 : DecodeInfo → Bool
rs1_is_x0 d = d.rs1 == 0

abbrev set_dest : DecodeInfo → ℕ → M (Unit {0})
set_dest d v core = (ok tt, set_gpr d.rd v core)

-- REQUIRE_WRITABLE, the write, CHECK_SUCCESS, and what follows on the core that the write left.
unfoldable pub write_checked : ℕ → ℕ → M (Unit {0}) → M (Unit {0})
write_checked a v next core =
    if csr_read_only a
    then do_invalid_inst core
    else (let (s, core') = write_csr a v core in if s then next core' else do_invalid_inst core')

-- The read and CHECK_SUCCESS.
unfoldable pub read_checked : ℕ → (ℕ → M (Unit {0})) → M (Unit {0})
read_checked a next core =
    let (s, v) = read_csr a core in if s then next v core else do_invalid_inst core

unfoldable pub do_csrrw : DecodeInfo → M (Unit {0})
do_csrrw d core =
    if csr_read_only d.csr
    then do_invalid_inst core
    else if rd_is_x0 d
    then write_checked d.csr (get_gpr d.rs1 core) (set_dest d 0) core
    else read_checked d.csr (λ v c. write_checked d.csr (get_gpr d.rs1 c) (set_dest d v) c) core

unfoldable pub do_csrrs : DecodeInfo → M (Unit {0})
do_csrrs d = read_checked d.csr (λ v core.
    if rs1_is_x0 d
    then set_dest d v core
    else write_checked d.csr (bit_or v (get_gpr d.rs1 core)) (set_dest d v) core)

unfoldable pub do_csrrc : DecodeInfo → M (Unit {0})
do_csrrc d = read_checked d.csr (λ v core.
    if rs1_is_x0 d
    then set_dest d v core
    else write_checked d.csr (bit_and v (not64 (get_gpr d.rs1 core))) (set_dest d v) core)

-- rd is written before the register is, so it keeps the value read even if the write fails.
unfoldable pub do_csrrwi : DecodeInfo → M (Unit {0})
do_csrrwi d core =
    if csr_read_only d.csr
    then do_invalid_inst core
    else if rd_is_x0 d
    then write_checked d.csr d.imm (λ c. (ok tt, c)) core
    else read_checked d.csr
        (λ v c. write_checked d.csr d.imm (λ c'. (ok tt, c')) (set_gpr d.rd v c)) core

unfoldable pub do_csrrsi : DecodeInfo → M (Unit {0})
do_csrrsi d = read_checked d.csr (λ v core.
    if d.imm == 0
    then set_dest d v core
    else write_checked d.csr (bit_or v d.imm) (set_dest d v) core)

unfoldable pub do_csrrci : DecodeInfo → M (Unit {0})
do_csrrci d = read_checked d.csr (λ v core.
    if d.imm == 0
    then set_dest d v core
    else write_checked d.csr (bit_and v (not64 d.imm)) (set_dest d v) core)
