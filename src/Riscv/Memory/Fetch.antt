-- ===== src/Riscv/Memory/Fetch.antt =====
-- What fetching in memory.cpp leaves alone.
use Prim.{Unit, tt}
use kxemu.Base.Shared.{
  ℕ, refl, not, ◌==◌, bit_and, bit_or, if◌then◌else◌, Bool-cases, inl, inr, arith,
}
use kxemu.Base.Word.{u32, add64, ◌<<<◌}
use kxemu.Riscv.Def
use kxemu.Riscv.Def.{machine}
use kxemu.Riscv.Core.{RvCore, M, ok, ◌>>=◌, priv_mode}
use kxemu.Riscv.Memory.{
  vaddr_translate_core, or_throw, fetch, pm_read, pm_read_check, pm_fetch, bus_read, vm_fetch,
  memory_fetch, access_page_unaligned,
}
use kxemu.Riscv.Memory.Frame.{
  IsSame, Keeps, bind-Keeps, choose-Keeps, or_throw-Keeps, pm_read-Keeps,
  vaddr_translate_core-Keeps,
}

pm_fetch-Keeps : (addr : ℕ) → Keeps (pm_fetch addr)
unfolding pm_fetch bus_read
pm_fetch-Keeps addr core = ground arith

set_inst-Keeps : (v : ℕ) → Keeps {A = Unit {0}} (λ c. (ok tt, record c { inst = u32 v }))
set_inst-Keeps v core = record { gpr = refl; csr = refl; pc = refl; npc = refl; state = refl }

vm_fetch-Keeps : Keeps vm_fetch
unfolding vm_fetch pm_read_check
vm_fetch-Keeps core =
    let vaddr = core.pc in
    let throws = or_throw Def.inst_access_fault Def.inst_page_fault vaddr in
    let translate : ℕ → M ℕ = λ a. vaddr_translate_core a fetch >>= throws in
    let set_inst : ℕ → M (Unit {0}) = λ v c. (ok tt, record c { inst = u32 v }) in
    let translate-Keeps : (a : ℕ) → Keeps (translate a) = λ a.
      bind-Keeps (vaddr_translate_core a fetch) throws (vaddr_translate_core-Keeps a fetch)
        (or_throw-Keeps Def.inst_access_fault Def.inst_page_fault vaddr) in
    let both : ℕ → ℕ → M (Unit {0}) = λ low high. set_inst (bit_or (u32 (high <<< 16)) low) in
    let second : ℕ → ℕ → M (Unit {0}) = λ low addr. pm_read addr 2 >>= both low in
    let first : ℕ → M (Unit {0}) = λ low.
      if not (bit_and low 0x3 == 0x3)
      then set_inst low
      else (translate (add64 vaddr 2) >>= second low) in
    let rest : ℕ → M (Unit {0}) = λ addr.
      if access_page_unaligned vaddr 4
      then (pm_read addr 2 >>= first)
      else (pm_read addr 4 >>= set_inst) in
    bind-Keeps (translate vaddr) rest (translate-Keeps vaddr)
      (λ addr.
        choose-Keeps (access_page_unaligned vaddr 4) (pm_read addr 2 >>= first)
          (pm_read addr 4 >>= set_inst)
          (bind-Keeps (pm_read addr 2) first (pm_read-Keeps addr 2) (λ low.
            choose-Keeps (not (bit_and low 0x3 == 0x3)) (set_inst low)
              (translate (add64 vaddr 2) >>= second low) (set_inst-Keeps low)
              (bind-Keeps (translate (add64 vaddr 2)) (second low) (translate-Keeps (add64 vaddr 2))
                (λ addr2.
                  bind-Keeps (pm_read addr2 2) (both low) (pm_read-Keeps addr2 2)
                    (λ high. set_inst-Keeps (bit_or (u32 (high <<< 16)) low))))))
          (bind-Keeps (pm_read addr 4) set_inst (pm_read-Keeps addr 4) set_inst-Keeps))
      core

-- A fetch in any privilege mode and from any address, whether it succeeds, faults or throws, leaves the
-- general registers, the CSRs, `pc` and `npc` as they were; the instruction word goes to `inst` alone.
pub memory_fetch_keeps_registers : (core : RvCore) → IsSame (memory_fetch core).1 core
unfolding memory_fetch
memory_fetch_keeps_registers core = elim (Bool-cases (priv_mode core == machine)) [
  | inl p ↦ rw p (pm_fetch-Keeps core.pc core)
  | inr p ↦ rw p (vm_fetch-Keeps core)
]
