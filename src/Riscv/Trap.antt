-- ===== src/Riscv/Trap.antt =====
-- src/cpu/riscv/privileged/trap.cpp, privileged/interrupt.cpp and inst/privileged.cpp: entering a
-- trap, taking an interrupt, and the instructions that return from either.
pub mod Status
pub mod Return
pub mod Frame
pub mod Pending
pub mod Scan
pub mod Stale
mod Tests
use Prim.{Unit, tt}
use kxemu.Base.Shared.{
  ℕ, ◌*◌, ◌^◌, bit_and, Bool, true, false, not, ◌&&◌, ◌||◌, ◌==◌, ltb, if◌then◌else◌, List, [], ◌∷◌,
  Option, none, some, ◌+◌,
}
use kxemu.Base.Word.{u64, add64, not64, has_bit, ◌<<<◌}
use kxemu.Riscv.Def
use kxemu.Riscv.Def.{
  machine, supervisor, user, external_m, software_m, timer_m, external_s, software_s, timer_s,
}
use kxemu.Riscv.Field.MStatus
use kxemu.Riscv.Field.Other.{vec, vec_mode, vectored, interrupt_cause}
use kxemu.Riscv.Csr
use kxemu.Riscv.Core.{
  RvCore, M, undefined, throw, priv_mode, get_csr, set_csr, set_priv_mode, set_interrupt,
  clear_interrupt, write_csr,
}

-- The status word after a trap or an interrupt to S-mode from mode `priv`.
unfoldable pub status_s : ℕ → ℕ → ℕ
status_s priv status =
    let status = MStatus.set_spp status (not (priv == user)) in
    let status = MStatus.set_spie status (MStatus.sie status) in MStatus.set_sie status false

-- The same for M-mode.
unfoldable pub status_m : ℕ → ℕ → ℕ
status_m priv status =
    let status = MStatus.set_mpp status priv in
    let status = MStatus.set_mpie status (MStatus.mie status) in MStatus.set_mie status false

-- Where a vector register leads for a cause.
unfoldable pub vector_target : ℕ → ℕ → ℕ
vector_target tvec cause =
    if vec_mode tvec == vectored then add64 (vec tvec) (cause <<< 2) else vec tvec

-- The two branches of enter_trap, each with the writes that follow for its registers.
unfoldable pub enter_trap_s : ℕ → ℕ → RvCore → RvCore
enter_trap_s cause value core =
    let status = get_csr core Def.mstatus in
    let core' = set_csr Def.mstatus (status_s (priv_mode core) status) (
      set_csr Def.stinst core.inst (
        set_csr Def.stval value
          (set_csr Def.scause cause (set_csr Def.sepc core.pc (set_priv_mode supervisor core))))) in
    record core' { npc = vector_target (get_csr core' Def.stvec) cause }

unfoldable pub enter_trap_m : ℕ → ℕ → RvCore → RvCore
enter_trap_m cause value core =
    let status = get_csr core Def.mstatus in
    let core' = set_csr Def.mstatus (status_m (priv_mode core) status) (
      set_csr Def.mtinst core.inst (
        set_csr Def.mtval value
          (set_csr Def.mcause cause (set_csr Def.mepc core.pc (set_priv_mode machine core))))) in
    record core' { npc = vector_target (get_csr core' Def.mtvec) cause }

unfoldable pub enter_trap : ℕ → ℕ → RvCore → RvCore
enter_trap cause value core =
    if has_bit (get_csr core Def.medeleg) cause
    then enter_trap_s cause value core
    else enter_trap_m cause value core

unfoldable pub interrupt_m : ℕ → RvCore → RvCore
interrupt_m code core =
    let core1 =
      set_csr Def.mcause (interrupt_cause code)
        (set_csr Def.mtval 0 (set_csr Def.mepc core.npc core)) in
    let core2 =
      set_priv_mode machine
        (set_csr Def.mstatus (status_m (priv_mode core1) (get_csr core1 Def.mstatus)) core1) in
    record core2 { npc = vector_target (get_csr core2 Def.mtvec) code }

-- The writes go through RVCSR::write_csr, the last one through RVCore::write_csr.
unfoldable pub interrupt_s : ℕ → RvCore → RvCore
interrupt_s code core =
    let csr1 = (Csr.write_csr Def.sepc core.npc core.csr).1 in
    let csr2 = (Csr.write_csr Def.scause (interrupt_cause code) csr1).1 in
    let csr3 = (Csr.write_csr Def.stval 0 csr2).1 in
    let core1 = record core { csr = csr3 } in
    let status = status_s (priv_mode core1) (Csr.read_csr Def.mstatus csr3).1 in
    let core2 = set_priv_mode supervisor (write_csr Def.mstatus status core1).1 in
    record core2 { npc = vector_target (get_csr core2 Def.stvec) code }

-- INTER_BITS_M and INTER_BITS_S
abbrev pub inter_bits_m : List ℕ
inter_bits_m = external_m ∷ software_m ∷ timer_m ∷ external_s ∷ software_s ∷ timer_s ∷ []

abbrev pub inter_bits_s : List ℕ
inter_bits_s = external_s ∷ software_s ∷ timer_s ∷ []

-- The loops of scan_interrupt: the first code whose bit is set.
unfoldable pub first_pending : ℕ → List ℕ → Option ℕ
first_pending pending [] = none
first_pending pending (code ∷ codes) =
    let rest = first_pending pending codes in if has_bit pending code then some code else rest

unfoldable pub pending_m : RvCore → ℕ
pending_m core =
    bit_and (bit_and (get_csr core Def.mip) (get_csr core Def.mie))
      (not64 (get_csr core Def.mideleg))

unfoldable pub pending_s : RvCore → ℕ
pending_s core =
    bit_and (bit_and (get_csr core Def.mip) (get_csr core Def.mie)) (get_csr core Def.mideleg)

-- `pending` being 0 skips the loop, which would find nothing.
unfoldable pub select_m : RvCore → Option ℕ
select_m core =
    if (ltb (priv_mode core) machine || core.mie) && not (pending_m core == 0)
    then first_pending (pending_m core) inter_bits_m
    else none

unfoldable pub select_s : RvCore → Option ℕ
select_s core =
    if (ltb (priv_mode core) supervisor || (priv_mode core == supervisor) && core.sie)
      && not (pending_s core == 0)
    then first_pending (pending_s core) inter_bits_s
    else none

unfoldable pub scan_interrupt : RvCore → Bool × RvCore
scan_interrupt core = if get_csr core Def.mip == 0 then (false, core) else elim (select_m core) [
  | some code ↦ (true, interrupt_m code core)
  | none ↦ elim (select_s core) [ some code ↦ (true, interrupt_s code core) | none ↦ (false, core) ]
]

unfoldable pub do_ecall : M (Unit {0})
do_ecall core =
    if priv_mode core == machine
    then throw Def.ecall_m 0 core
    else if priv_mode core == supervisor
    then throw Def.ecall_s 0 core
    else if priv_mode core == user
    then throw Def.ecall_u 0 core
    else (undefined, core)

unfoldable pub status_mret : ℕ → ℕ
status_mret status =
    let status = MStatus.set_mie status (MStatus.mpie status) in
    let status = MStatus.set_mpie status true in MStatus.set_mpp status user

unfoldable pub mret : RvCore → RvCore
mret core =
    let status = get_csr core Def.mstatus in
    let core1 =
      set_csr Def.mstatus (status_mret status) (set_priv_mode (MStatus.mpp status) core) in
    record core1 { npc = get_csr core1 Def.mepc }

unfoldable pub status_sret : ℕ → ℕ
status_sret status =
    let status = MStatus.set_sie status (MStatus.spie status) in
    let status = MStatus.set_spie status true in
    let status = MStatus.set_spp status false in MStatus.set_mprv status false

unfoldable pub sret : RvCore → RvCore
sret core =
    let status = get_csr core Def.mstatus in
    let core1 =
      set_csr Def.mstatus (status_sret status)
        (set_priv_mode (if MStatus.spp status == 0 then user else supervisor) core) in
    record core1 { npc = get_csr core1 Def.sepc }

unfoldable pub do_invalid_inst : {A : Type 0} → M A
do_invalid_inst core = throw Def.illegal_inst core.inst core

unfoldable pub do_ebreak : M (Unit {0})
do_ebreak = throw Def.breakpoint 0
