-- ===== src/Riscv/Core.antt =====
-- class RVCore of include/cpu/riscv/core.hpp and src/cpu/riscv/core.cpp: the state of a core, how an
-- instruction ends, and what the privileged functions share (privileged/csr.cpp, set_priv_mode).
-- The array `gpr` is a function of the index: 0 to 31, and 32 for writes to x0. Of the interrupt
-- controllers only the bus is part of the state; calls of `aclint->register_stimer` are recorded.
pub mod Vm
pub mod Registers
pub mod Sample
mod Tests
use Prim.{Unit, tt}
use kxemu.Base.Shared.{
  ℕ, ◌*◌, ◌^◌, Bool, true, false, ◌==◌, ltb, if◌then◌else◌, ◌≡◌, ap, List, [], ◌∷◌, Option, none,
  some,
}
use kxemu.Base.Word.{u64}
use kxemu.Device.Bus.{Bus}
use kxemu.Riscv.Def
use kxemu.Riscv.Field.MStatus
use kxemu.Riscv.Field.Mip
use kxemu.Riscv.Field.Satp
use kxemu.Riscv.Csr
use kxemu.Riscv.Csr.{
  Rvcsr, set_csr_value, Callback, no_callback, update_stimecmp, update_vm_translate, update_mstatus,
}

-- enum state_t
pub data State : Type 0 where
  idle running error breakpoint halt : State

-- `vaddr_translate_func`; `unreachable` is what no case of the switch sets.
pub data Translate : Type 0 where
  bare sv39 sv48 sv57 unreachable : Translate

pub record TlbBlock : Type 0 where
  pub paddr : ℕ
  pub tag : ℕ
  pub pte_addr : ℕ
  pub valid : Bool
  pub flag : ℕ

-- `mie`, `sie` and `sum` are the copies in `mstatus`.
pub record RvCore : Type 0 where
  pub core_id : ℕ
  pub state : State
  pub halt_pc : ℕ
  pub halt_code : ℕ
  pub inst : ℕ
  pub pc : ℕ
  pub npc : ℕ
  pub gpr : ℕ → ℕ
  pub csr : Rvcsr
  pub mie : Bool
  pub sie : Bool
  pub sum : Bool
  pub page_table_base : ℕ
  pub vaddr_translate_func : Translate
  pub tlb : ℕ → TlbBlock
  pub reserved_memory : ℕ → Option ℕ
  pub stimers : List (ℕ × ℕ)
  pub bus : Bus

-- How a member function ends: TrapException with its code and value, PANIC (the program exits), or
-- undefined behaviour.
pub data Result (A : Type 0) : Type 0 where
  ok : A → Result A
  trap : ℕ → ℕ → Result A
  panic : Result A
  undefined : Result A

-- A throw keeps what was changed before it.
abbrev pub M : Type 0 → Type 0
M A = RvCore → Result A × RvCore

infixl 5 ◌>>=◌ ◌>>◌
abbrev pub ◌>>=◌ : {A B : Type 0} → M A → (A → M B) → M B
◌>>=◌ m f core =
    let (r, core') = m core in
    elim r [
      | ok a ↦ f a core'
      | trap code value ↦ (trap code value, core')
      | panic ↦ (panic, core')
      | undefined ↦ (undefined, core')
    ]

pub bind-ok :
    {A B : Type 0} (m : M A) (f : A → M B) (a : A) (core core' : RvCore)
    → m core ≡ (ok a, core')
    → (m >>= f) core ≡ f a core'
bind-ok m f a core core' e = ap (λ p. ((λ _. p) >>= f) core) e

abbrev pub ◌>>◌ : {B : Type 0} → M (Unit {0}) → M B → M B
m >> k = m >>= λ _. k

abbrev pub pure : {A : Type 0} → A → M A
pure a core = (ok a, core)

abbrev pub throw : {A : Type 0} → ℕ → ℕ → M A
throw code value core = (trap code value, core)

-- A change of the state that cannot fail.
abbrev pub modify : (RvCore → RvCore) → M (Unit {0})
modify f core = (ok tt, f core)

abbrev pub priv_mode : RvCore → ℕ
priv_mode core = core.csr.priv_mode

abbrev pub get_gpr : ℕ → RvCore → ℕ
get_gpr i core = core.gpr i

abbrev pub set_gpr : ℕ → ℕ → RvCore → RvCore
set_gpr i v core = record core { gpr = λ j. if j == i then v else core.gpr j }

abbrev pub get_csr : RvCore → ℕ → ℕ
get_csr core a = core.csr.value a

abbrev pub set_csr : ℕ → ℕ → RvCore → RvCore
set_csr a v core = record core { csr = set_csr_value core.csr a v }

-- tlb_fence
unfoldable pub tlb_fence : RvCore → RvCore
tlb_fence core = record core { tlb = λ i. record (core.tlb i) { valid = false } }

-- The switch of update_vm_translate.
unfoldable pub translate_of : ℕ → Translate
translate_of mode =
    if mode == Satp.bare
    then bare
    else if mode == Satp.sv39
    then sv39
    else if mode == Satp.sv48
    then sv48
    else if mode == Satp.sv57
    then sv57
    else unreachable

unfoldable pub vm_translate : RvCore → RvCore
vm_translate core =
    let satp = get_csr core Def.satp in
    tlb_fence (record core {
      page_table_base = u64 (Satp.ppn satp * Def.pgsize);
      vaddr_translate_func =
          if priv_mode core == Def.machine then bare else translate_of (Satp.mode satp);
    })

-- set_priv_mode
unfoldable pub set_priv_mode : ℕ → RvCore → RvCore
set_priv_mode mode core =
    vm_translate (record core { csr = record (core.csr) { priv_mode = mode } })

-- update_mstatus
unfoldable pub refresh_mstatus : RvCore → RvCore
refresh_mstatus core =
    let status = get_csr core Def.mstatus in
    record core { mie = MStatus.mie status; sie = MStatus.sie status; sum = MStatus.sum status }

unfoldable pub set_interrupt : ℕ → RvCore → RvCore
set_interrupt code core = set_csr Def.mip (Mip.set_pending (get_csr core Def.mip) code) core

unfoldable pub clear_interrupt : ℕ → RvCore → RvCore
clear_interrupt code core = set_csr Def.mip (Mip.clear_pending (get_csr core Def.mip) code) core

-- update_stimecmp of interrupt.cpp
unfoldable pub stimecmp_written : RvCore → RvCore
stimecmp_written core = clear_interrupt Def.timer_s (record core {
  stimers = (core.core_id, (Csr.read_csr Def.stimecmp core.csr).1) ∷ core.stimers;
})

-- The callback that RVCSR::write_csr ends with.
unfoldable pub run_callback : Callback → RvCore → RvCore
run_callback no_callback core = core
run_callback update_stimecmp core = stimecmp_written core
run_callback update_vm_translate core = vm_translate core
run_callback update_mstatus core = refresh_mstatus core

unfoldable pub read_csr : ℕ → RvCore → Bool × ℕ
read_csr a core = Csr.read_csr a core.csr

unfoldable pub write_csr : ℕ → ℕ → RvCore → Bool × RvCore
write_csr a v core =
    let (valid, csr', callback) = Csr.write_csr a v core.csr in
    (valid, run_callback callback (record core { csr = csr' }))

-- reset; the copies of mstatus and the translation keep their old values.
unfoldable pub reset : ℕ → RvCore → RvCore
reset entry core = tlb_fence (record core {
  pc = entry;
  state = running;
  csr = record (Csr.reset core.csr) { priv_mode = Def.machine };
  gpr = λ i. if i == 10 then core.core_id else 0;
})
