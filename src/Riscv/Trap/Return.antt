-- ===== src/Riscv/Trap/Return.antt =====
-- mret and sret of privileged.cpp undo enter_trap of trap.cpp.
use kxemu.Base.Shared.{ℕ, ◌+◌, ◌*◌, ◌<◌, ◌≡◌, refl, arith, true, false, ◌||◌, ◌==◌, if◌then◌else◌}
use kxemu.Base.Bits.{bit_at}
use kxemu.Base.Word.{has_bit}
use kxemu.Riscv.Def
use kxemu.Riscv.Def.{machine, supervisor, user}
use kxemu.Riscv.Core.{RvCore, priv_mode, get_csr, set_priv_mode, vm_translate, tlb_fence}
use kxemu.Riscv.Trap.{enter_trap, enter_trap_m, enter_trap_s, mret, sret, status_m, status_s}
use kxemu.Riscv.Trap.Status.{
  mpp_digits, spp_digit, bit_at-status_m, bit_at-status_s, bit_at-status_mret, bit_at-status_sret,
}

low_mode : (p : ℕ) → p < 4 → p ≡ bit_at p 0 + 2 * bit_at p 1
unfolding bit_at
low_mode p h = omega arith

mret-enter_trap_m :
    (cause value : ℕ) (core : RvCore)
    → priv_mode core < 4
    → (priv_mode (enter_trap_m cause value core) ≡ machine)
      × ((mret (enter_trap_m cause value core)).npc ≡ core.pc)
      × (priv_mode (mret (enter_trap_m cause value core)) ≡ priv_mode core)
      × ((j : ℕ)
          → j < 64
          → bit_at (get_csr (mret (enter_trap_m cause value core)) Def.mstatus) j ≡ (
              if j == 7
              then 1
              else if j == 11 || j == 12
              then 0
              else bit_at (get_csr core Def.mstatus) j))
unfolding enter_trap_m mret set_priv_mode vm_translate tlb_fence
mret-enter_trap_m cause value core p =
    let status = get_csr core Def.mstatus in
    let inner = status_m (priv_mode core) status in
    (
      refl,
      refl,
      omega (
        arith,
        mpp_digits inner,
        bit_at-status_m (priv_mode core) status 11,
        bit_at-status_m (priv_mode core) status 12,
        low_mode (priv_mode core) p,
      ),
      λ j h. ground (
        arith,
        bit_at-status_mret inner j h,
        bit_at-status_m (priv_mode core) status j h,
        bit_at-status_m (priv_mode core) status 7,
      ),
    )

sret-enter_trap_s :
    (cause value : ℕ) (core : RvCore)
    → priv_mode core < 2
    → (priv_mode (enter_trap_s cause value core) ≡ supervisor)
      × ((sret (enter_trap_s cause value core)).npc ≡ core.pc)
      × (priv_mode (sret (enter_trap_s cause value core)) ≡ priv_mode core)
      × ((j : ℕ)
          → j < 64
          → bit_at (get_csr (sret (enter_trap_s cause value core)) Def.mstatus) j ≡ (
              if j == 5
              then 1
              else if j == 8 || j == 17
              then 0
              else bit_at (get_csr core Def.mstatus) j))
unfolding enter_trap_s sret set_priv_mode vm_translate tlb_fence
sret-enter_trap_s cause value core p =
    let status = get_csr core Def.mstatus in
    let inner = status_s (priv_mode core) status in
    (
      refl,
      refl,
      ground (arith, spp_digit inner, bit_at-status_s (priv_mode core) status 8),
      λ j h. ground (
        arith,
        bit_at-status_sret inner j h,
        bit_at-status_s (priv_mode core) status j h,
        bit_at-status_s (priv_mode core) status 5,
      ),
    )

pub enter_trap-eq-m :
    (cause value : ℕ) (core : RvCore)
    → has_bit (get_csr core Def.medeleg) cause ≡ false
    → enter_trap cause value core ≡ enter_trap_m cause value core
unfolding enter_trap
enter_trap-eq-m cause value core d = rw d refl

pub enter_trap-eq-s :
    (cause value : ℕ) (core : RvCore)
    → has_bit (get_csr core Def.medeleg) cause ≡ true
    → enter_trap cause value core ≡ enter_trap_s cause value core
unfolding enter_trap
enter_trap-eq-s cause value core d = rw d refl

-- A trap that is not delegated enters M-mode; mret then goes back to the instruction that trapped
-- and to its mode. Of mstatus, MIE included, only MPIE, which is then 1, and MPP, which is 0, can
-- differ from what was there before the trap. MPRV (bit 17) is kept too, also on a return to a mode below M,
-- where the comment above do_mret says that xRET clears it.
pub mret-enter_trap :
    (cause value : ℕ) (core : RvCore)
    → has_bit (get_csr core Def.medeleg) cause ≡ false
    → priv_mode core < 4
    → (priv_mode (enter_trap cause value core) ≡ machine)
      × ((mret (enter_trap cause value core)).npc ≡ core.pc)
      × (priv_mode (mret (enter_trap cause value core)) ≡ priv_mode core)
      × ((j : ℕ)
          → j < 64
          → bit_at (get_csr (mret (enter_trap cause value core)) Def.mstatus) j ≡ (
              if j == 7
              then 1
              else if j == 11 || j == 12
              then 0
              else bit_at (get_csr core Def.mstatus) j))
mret-enter_trap cause value core d p =
    rw (enter_trap-eq-m cause value core d) (mret-enter_trap_m cause value core p)

-- A delegated trap from S-mode or U-mode enters S-mode; sret then goes back to the instruction that
-- trapped and to its mode. Of mstatus, SIE included, only SPIE, which is then 1, SPP and MPRV, which
-- are 0, can differ from what was there before the trap.
pub sret-enter_trap :
    (cause value : ℕ) (core : RvCore)
    → has_bit (get_csr core Def.medeleg) cause ≡ true
    → priv_mode core < 2
    → (priv_mode (enter_trap cause value core) ≡ supervisor)
      × ((sret (enter_trap cause value core)).npc ≡ core.pc)
      × (priv_mode (sret (enter_trap cause value core)) ≡ priv_mode core)
      × ((j : ℕ)
          → j < 64
          → bit_at (get_csr (sret (enter_trap cause value core)) Def.mstatus) j ≡ (
              if j == 5
              then 1
              else if j == 8 || j == 17
              then 0
              else bit_at (get_csr core Def.mstatus) j))
sret-enter_trap cause value core d p =
    rw (enter_trap-eq-s cause value core d) (sret-enter_trap_s cause value core p)

lowers-enter_trap_s :
    (cause value : ℕ) (core : RvCore)
    → priv_mode core ≡ machine
    → (priv_mode (enter_trap_s cause value core) ≡ supervisor)
      × (priv_mode (sret (enter_trap_s cause value core)) ≡ supervisor)
unfolding enter_trap_s sret set_priv_mode vm_translate tlb_fence
lowers-enter_trap_s cause value core p =
    let status = get_csr core Def.mstatus in
    let inner = status_s (priv_mode core) status in
    (refl, ground (arith, spp_digit inner, bit_at-status_s (priv_mode core) status 8))

-- medeleg is asked whatever the mode: a delegated trap takes a core that runs in M-mode down to
-- S-mode, and sret from there ends in S-mode, not in M-mode.
pub enter_trap_lowers :
    (cause value : ℕ) (core : RvCore)
    → has_bit (get_csr core Def.medeleg) cause ≡ true
    → priv_mode core ≡ machine
    → (priv_mode (enter_trap cause value core) ≡ supervisor)
      × (priv_mode (sret (enter_trap cause value core)) ≡ supervisor)
enter_trap_lowers cause value core d p =
    rw (enter_trap-eq-s cause value core d) (lowers-enter_trap_s cause value core p)
