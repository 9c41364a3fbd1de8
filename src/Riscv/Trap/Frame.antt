-- ===== src/Riscv/Trap/Frame.antt =====
-- What enter_trap of trap.cpp leaves alone, and where a trap or an interrupt leads.
use kxemu.Base.Shared.{ℕ, ◌/◌, ◌%◌, ◌≡◌, refl, arith, Bool, false, ◌||◌, ◌==◌, Bool-cases, inl, inr}
use kxemu.Base.Bits.{bit_and_step}
use kxemu.Base.Word.{has_bit, not64}
use kxemu.Riscv.Def
use kxemu.Riscv.Def.{machine, supervisor, user}
use kxemu.Riscv.Field.Other.{vec}
use kxemu.Riscv.Core.{RvCore, get_csr, set_priv_mode, vm_translate, tlb_fence}
use kxemu.Riscv.Trap.{
  enter_trap, interrupt_m, interrupt_s, enter_trap_m, enter_trap_s, vector_target,
}
use kxemu.Riscv.Trap.Return.{enter_trap-eq-m, enter_trap-eq-s}

-- The registers that a trap can write.
abbrev pub is_trap_csr : ℕ → Bool
is_trap_csr a =
    a == Def.mstatus
    || a == Def.mepc
    || a == Def.mcause
    || a == Def.mtval
    || a == Def.mtinst
    || a == Def.sepc
    || a == Def.scause
    || a == Def.stval
    || a == Def.stinst

frame_m :
    (cause value a : ℕ) (core : RvCore)
    → is_trap_csr a ≡ false
    → get_csr (enter_trap_m cause value core) a ≡ get_csr core a
unfolding enter_trap_m set_priv_mode vm_translate tlb_fence
frame_m cause value a core h = ground arith

keeps_m :
    (cause value : ℕ) (core : RvCore)
    → ((enter_trap_m cause value core).gpr ≡ core.gpr)
      × ((enter_trap_m cause value core).bus ≡ core.bus)
unfolding enter_trap_m set_priv_mode vm_translate tlb_fence
keeps_m cause value core = (refl, refl)

keeps_s :
    (cause value : ℕ) (core : RvCore)
    → ((enter_trap_s cause value core).gpr ≡ core.gpr)
      × ((enter_trap_s cause value core).bus ≡ core.bus)
unfolding enter_trap_s set_priv_mode vm_translate tlb_fence
keeps_s cause value core = (refl, refl)

frame_s :
    (cause value a : ℕ) (core : RvCore)
    → is_trap_csr a ≡ false
    → get_csr (enter_trap_s cause value core) a ≡ get_csr core a
unfolding enter_trap_s set_priv_mode vm_translate tlb_fence
frame_s cause value a core h = ground arith

-- A trap keeps every control register but mstatus and the epc, cause, tval and tinst registers of
-- the two modes, and all of the general registers and the memory.
pub enter_trap-frame :
    (cause value a : ℕ) (core : RvCore)
    → is_trap_csr a ≡ false
    → (get_csr (enter_trap cause value core) a ≡ get_csr core a)
      × ((enter_trap cause value core).gpr ≡ core.gpr)
      × ((enter_trap cause value core).bus ≡ core.bus)
enter_trap-frame cause value a core h =
    elim (Bool-cases (has_bit (get_csr core Def.medeleg) cause)) [
      | inl d ↦
          let (g, b) = keeps_s cause value core in
          rw (enter_trap-eq-s cause value core d) (frame_s cause value a core h, g, b)
      | inr d ↦
          let (g, b) = keeps_m cause value core in
          rw (enter_trap-eq-m cause value core d) (frame_m cause value a core h, g, b)
    ]

vec-mod-four : (v : ℕ) → vec v % 4 ≡ 0
vec-mod-four v = omega (arith, bit_and_step v (not64 0x3), bit_and_step (v / 2) 0x7ffffffffffffffe)

vector_target_aligned : (tvec cause : ℕ) → vector_target tvec cause % 4 ≡ 0
unfolding vector_target
vector_target_aligned tvec cause = ground (arith, vec-mod-four tvec)

-- Traps and interrupts, in either mode and whatever the vector registers hold, lead to a multiple of
-- four: the handler's first fetch is never misaligned.
pub handler_aligned :
    (cause value : ℕ) (core : RvCore)
    → ((enter_trap cause value core).npc % 4 ≡ 0)
      × ((interrupt_m cause core).npc % 4 ≡ 0)
      × ((interrupt_s cause core).npc % 4 ≡ 0)
unfolding enter_trap enter_trap_m enter_trap_s interrupt_m interrupt_s
handler_aligned cause value core = (
  elim (Bool-cases (has_bit (get_csr core Def.medeleg) cause)) [
    | inl d ↦ rw d (vector_target_aligned _ cause)
    | inr d ↦ rw d (vector_target_aligned _ cause)
  ],
  vector_target_aligned _ cause,
  vector_target_aligned _ cause,
)
