-- ===== src/Riscv/Inst/Fence.antt =====
-- src/cpu/riscv/inst/fence.cpp. The calls of icache_fence do nothing without the instruction cache.
use Prim.{Unit, tt}
use kxemu.Base.Shared.{◌==◌, if◌then◌else◌}
use kxemu.Riscv.Def.{user}
use kxemu.Riscv.Core.{M, ok, priv_mode, tlb_fence, modify}
use kxemu.Riscv.Trap.{do_invalid_inst}

unfoldable pub do_sfence_vma : M (Unit {0})
do_sfence_vma core = if priv_mode core == user then do_invalid_inst core else modify tlb_fence core

unfoldable pub do_fence : M (Unit {0})
do_fence core = (ok tt, core)

unfoldable pub do_fence_i : M (Unit {0})
do_fence_i core = (ok tt, core)
