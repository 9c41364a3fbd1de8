-- ===== src/Riscv/Aclint/Timer.antt =====
-- From a timer task of aclint.cpp to the interrupt of its core.
use kxemu.Base.Shared.{
  ℕ, ◌<◌, ◌≡◌, refl, arith, Bool-cases, inl, inr, not, ◌&&◌, Bool, true, false, ◌==◌, ltb,
  if◌then◌else◌, ◌^◌,
}
use kxemu.Base.Bits.{bit_at-or, bit_at-pow, bit_at-lt}
use kxemu.Base.Word.{has_bit, has_bit_digit}
use kxemu.Riscv.Def
use kxemu.Riscv.Field.Mip
use kxemu.Riscv.Core.{RvCore, get_csr, set_interrupt}
use kxemu.Riscv.Aclint.{Aclint, TimerTask, mtimer, stimer, fire, update_core, update, set_object}

-- The code of the interrupt that a task raises, and its core.
abbrev pub code_of : TimerTask → ℕ
code_of (mtimer i) = Def.timer_m
code_of (stimer i) = Def.timer_s

abbrev pub core_of : TimerTask → ℕ
core_of (mtimer i) = i
core_of (stimer i) = i

has_bit-set_pending :
    (v code other : ℕ)
    → has_bit (Mip.set_pending v code) other ≡ (if code == other then true else has_bit v other)
has_bit-set_pending v code other =
    rw (has_bit_digit (Mip.set_pending v code) other, has_bit_digit v other)
      (rw (bit_at-or v (2 ^ code) other, bit_at-pow code other) (ground (arith, bit_at-lt v other)))

set_interrupt-pending :
    (code : ℕ) (core : RvCore) → has_bit (get_csr (set_interrupt code core) Def.mip) code ≡ true
unfolding set_interrupt
set_interrupt-pending code core =
    ground (arith, has_bit-set_pending (get_csr core Def.mip) code code)

-- Raising one interrupt keeps another.
set_interrupt-keeps :
    (code other : ℕ) (core : RvCore)
    → has_bit (get_csr core Def.mip) other ≡ true
    → has_bit (get_csr (set_interrupt code core) Def.mip) other ≡ true
unfolding set_interrupt
set_interrupt-keeps code other core h =
    ground (arith, has_bit-set_pending (get_csr core Def.mip) code other)

perhaps-keeps :
    (b : Bool) (code other : ℕ) (core : RvCore)
    → has_bit (get_csr core Def.mip) other ≡ true
    → has_bit (get_csr (if b then set_interrupt code core else core) Def.mip) other ≡ true
perhaps-keeps true code other core h = set_interrupt-keeps code other core h
perhaps-keeps false code other core h = h

kept-lost : (b : Bool) {c : Bool} → (b ≡ true → c ≡ true) → b && not c ≡ false
kept-lost b h = elim (Bool-cases b) [ inl p ↦ rw (p, h p) refl | inr p ↦ rw p refl ]

-- When the timer has run a task of a core in range, the next update makes the interrupt of the task pending
-- in that core, beside those that were pending, and the update after it changes nothing.
pub update-fire :
    (t : TimerTask) (a : Aclint) (core : RvCore) (other : ℕ)
    → core_of t < a.core_count
    → (has_bit (get_csr (update_core (core_of t) (fire t a) core) Def.mip) (code_of t) ≡ true)
      × (update_core (core_of t) (update (fire t a)) core ≡ core)
      × (has_bit (get_csr core Def.mip) other
            && not (has_bit (get_csr (update_core (core_of t) (fire t a) core) Def.mip) other)
          ≡ false)
unfolding update_core update fire set_object
update-fire (mtimer i) a core other h =
    let self : (i == i) ≡ true = ground arith in
    let inside : ltb i a.core_count ≡ true = ground arith in
    rw (self, inside)
      (
        perhaps-keeps (a.core_objects i).stip Def.timer_s Def.timer_m
            (set_interrupt Def.timer_m core) (set_interrupt-pending Def.timer_m core),
        refl,
        kept-lost (has_bit (get_csr core Def.mip) other) (λ p.
            perhaps-keeps (a.core_objects i).stip Def.timer_s other (set_interrupt Def.timer_m core)
              (set_interrupt-keeps Def.timer_m other core p)),
      )
update-fire (stimer i) a core other h =
    let self : (i == i) ≡ true = ground arith in
    let inside : ltb i a.core_count ≡ true = ground arith in
    rw (self, inside)
      (
        set_interrupt-pending Def.timer_s
            (if (a.core_objects i).mtip then set_interrupt Def.timer_m core else core),
        refl,
        kept-lost (has_bit (get_csr core Def.mip) other) (λ p.
            set_interrupt-keeps Def.timer_s other
              (if (a.core_objects i).mtip then set_interrupt Def.timer_m core else core)
              (perhaps-keeps (a.core_objects i).mtip Def.timer_m other core p)),
      )
