-- ===== src/Riscv/Csr/Pmp.antt =====
-- reload_pmpcfg of csr.cpp writes `pmpCfgArray[pmpCfgCount]` with no check of its own.
use kxemu.Base.Shared.{ℕ, zero, suc, ◌+◌, ◌≤◌, arith, length}
use kxemu.Riscv.Csr.{Rvcsr, pmp_regions, reload_pmpcfg}

length-pmp_regions : (c : Rvcsr) (count index : ℕ) → length (pmp_regions c count index) ≤ count
unfolding pmp_regions
length-pmp_regions c zero index = omega arith
length-pmp_regions c (suc count) index = ground (arith, length-pmp_regions c count (index + 1))

-- However the configuration registers are set, at most 64 regions are stored, which is the size
-- of the array.
pub reload_pmpcfg_bounded : (c : Rvcsr) → length (reload_pmpcfg c).pmp_cfg ≤ 64
unfolding reload_pmpcfg
reload_pmpcfg_bounded c = length-pmp_regions c 64 0
