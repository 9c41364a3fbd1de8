-- ===== src/Riscv/Zicsr/Tests.antt =====
-- The theorems on the control register instructions at a concrete core.
use kxemu.Base.Shared.{◌≡◌, refl, true}
use kxemu.Riscv.Def
use kxemu.Riscv.Def.{csr_read_only}
use kxemu.Riscv.Csr
use kxemu.Riscv.Core.{RvCore, read_csr}
use kxemu.Riscv.Core.Sample.{core_with}
use kxemu.Riscv.Decode.{DecodeInfo}

abbrev machine_core : RvCore
machine_core = core_with 3 (λ a. a)

-- mhartid, which is read-only
abbrev info : DecodeInfo
info = record { rd = 5; rs1 = 0; rs2 = 0; flag = 0; csr = Def.mhartid; imm = 0; npc = 0; rs3 = 0 }

mhartid_read_only : csr_read_only Def.mhartid ≡ true
unfolding csr_read_only
mhartid_read_only = refl

mhartid_readable : (read_csr Def.mhartid machine_core).0 ≡ true
unfolding read_csr Csr.read_csr Csr.find_csr Csr.csr_table Csr.add_csrs Csr.call_read
mhartid_readable = refl
