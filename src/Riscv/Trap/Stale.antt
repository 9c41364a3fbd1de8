-- ===== src/Riscv/Trap/Stale.antt =====
-- scan_interrupt reads the copies of MIE and SIE that update_mstatus makes; trap.cpp, interrupt_m and
-- privileged.cpp write mstatus without it.
use kxemu.Base.Shared.{ℕ, ◌≡◌, refl, arith, Bool, true, false, ◌∙◌, ap, sym, List, [], ◌∷◌, ◌++◌}
use kxemu.Base.Word.{has_bit, has_bit_digit}
use kxemu.Riscv.Def
use kxemu.Riscv.Field.MStatus
use kxemu.Riscv.Core.{RvCore, get_csr, priv_mode, set_priv_mode, vm_translate, tlb_fence}
use kxemu.Riscv.Trap.{enter_trap, enter_trap_m, scan_interrupt, interrupt_m, inter_bits_m, status_m}
use kxemu.Riscv.Trap.Status.{bit_at-status_m}
use kxemu.Riscv.Trap.Return.{enter_trap-eq-m}
use kxemu.Riscv.Trap.Scan.{Scanned, scan_interrupt-Scanned, due_m}
use kxemu.Riscv.Trap.Pending.{elem, IsFirst, interruptible_m}

elem-append : (c : ℕ) (before after : List ℕ) → elem c (before ++ (c ∷ after)) ≡ true
elem-append c [] after = ground arith
elem-append c (d ∷ before) after = ground (arith, elem-append c before after)

IsFirst-elem :
    (test : ℕ → Bool) (code : ℕ) (codes : List ℕ) → IsFirst test code codes → elem code codes ≡ true
IsFirst-elem test code codes f = ap (λ l. elem code l) f.splits ∙ elem-append code f.before f.after

-- The scan takes an M-mode interrupt when one is due and can interrupt.
Scanned-true :
    (core : RvCore) (code : ℕ) (r : Bool × RvCore)
    → Scanned core r
    → elem code inter_bits_m ≡ true
    → interruptible_m core ≡ true
    → due_m core code ≡ true
    → (taken : ℕ) × (elem taken inter_bits_m ≡ true)
      × (due_m core taken ≡ true)
      × (r ≡ (true, interrupt_m taken core))
Scanned-true core code _ (Scanned.took_m c i f) e p d =
    (c, IsFirst-elem (due_m core) c inter_bits_m f, f.passes, refl)
Scanned-true core code _ (Scanned.took_s c n i f) e p d = absurd (let q = n code e p in cc)
Scanned-true core code _ (Scanned.took_none m s) e p d = absurd (let q = m code e p in cc)

stale_m :
    (cause value : ℕ) (core : RvCore)
    → (MStatus.mie (get_csr (enter_trap_m cause value core) Def.mstatus) ≡ false)
      × ((enter_trap_m cause value core).mie ≡ core.mie)
      × ((code : ℕ) → due_m (enter_trap_m cause value core) code ≡ due_m core code)
unfolding enter_trap_m set_priv_mode vm_translate tlb_fence
stale_m cause value core =
    let status = get_csr core Def.mstatus in
    (
      ground (
        arith,
        has_bit_digit (status_m (priv_mode core) status) 3,
        bit_at-status_m (priv_mode core) status 3,
      ),
      refl,
      λ code. refl,
    )

-- A trap to M-mode clears MIE of mstatus, but not its copy: if the copy was set before, and an M-mode
-- interrupt was pending, enabled and not delegated, the next scan takes such an interrupt to M-mode, on
-- top of the trap.
pub scan_interrupt-enter_trap :
    (cause value code : ℕ) (core : RvCore)
    → has_bit (get_csr core Def.medeleg) cause ≡ false
    → core.mie ≡ true
    → elem code inter_bits_m ≡ true
    → due_m core code ≡ true
    → (MStatus.mie (get_csr (enter_trap cause value core) Def.mstatus) ≡ false)
      × ((taken : ℕ) × (elem taken inter_bits_m ≡ true)
          × (has_bit (get_csr core Def.mip) taken ≡ true)
          × (has_bit (get_csr core Def.mie) taken ≡ true)
          × (has_bit (get_csr core Def.mideleg) taken ≡ false)
          × (scan_interrupt (enter_trap cause value core)
              ≡ (true, interrupt_m taken (enter_trap cause value core))))
scan_interrupt-enter_trap cause value code core d m e due =
    let (cleared, kept, same) = stale_m cause value core in
    let core' = enter_trap_m cause value core in
    let (taken, listed, pending, scanned) =
      Scanned-true core' code (scan_interrupt core') (scan_interrupt-Scanned core') e (ground arith)
        (same code ∙ due) in
    let before : due_m core taken ≡ true = sym (same taken) ∙ pending in
    rw (enter_trap-eq-m cause value core d) (
      cleared,
      (
        taken,
        listed,
        ground (arith, before),
        ground (arith, before),
        ground (arith, before),
        scanned,
      ),
    )
