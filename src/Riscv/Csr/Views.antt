-- ===== src/Riscv/Csr/Views.antt =====
-- What the supervisor's registers of csr.cpp show of the machine's, and what a write through them
-- can change.
use kxemu.Base.Shared.{
  ℕ, zero, suc, ◌^◌, ◌<◌, ◌≡◌, refl, sym, arith, bit_and, bit_or, Bool, true, false, not, ◌&&◌,
  ◌==◌, if◌then◌else◌, Bool-cases, inl, inr, ◌||◌,
}
use kxemu.Base.Bits.{bit_at, bit_at-lt, bit_at-and, bit_at-or, bit_at-pow, four_digits, bit_at-zero}
use kxemu.Base.Word.{not64, put_mask, bit_at-put_mask, ◌<<<◌}
use kxemu.Riscv.Def
use kxemu.Riscv.Field.MStatus.{sstatus_mask}
use kxemu.Riscv.Field.Mip
use kxemu.Riscv.Field.Satp
use kxemu.Riscv.Field.Mie
use kxemu.Riscv.Csr.{
  Rvcsr, csr_table, find_csr, read_csr, write_csr, call_read, call_write, add_csrs,
}

-- The supervisor's fields of mstatus by their places: SIE, SPIE, SPP, FS, XS, SUM, MXR, SPELP, SDT, UXL
-- and SD.
abbrev pub is_supervisor_bit : ℕ → Bool
is_supervisor_bit j =
    j == 1
    || j == 5
    || j == 8
    || j == 13
    || j == 14
    || j == 15
    || j == 16
    || j == 18
    || j == 19
    || j == 23
    || j == 24
    || j == 32
    || j == 33
    || j == 63

-- A statement on the numbers below `n`, checked one by one.
below : (n : ℕ) → (ℕ → Bool) → Bool
below zero test = true
below (suc n) test = test n && below n test

below-all : (n j : ℕ) (test : ℕ → Bool) → below n test ≡ true → j < n → test j ≡ true
unfolding below
below-all zero j test h k = absurd (omega arith)
below-all (suc n) j test h k = elim (Bool-cases (j == n)) [
  | inl p ↦ let e : j ≡ n = ground arith in rw e (ground arith)
  | inr p ↦ below-all n j test (ground arith) (ground arith)
]

same_test : Bool → Bool → Bool
same_test a b = if a then b else not b

same_test-eq : (a b : Bool) → same_test a b ≡ true → a ≡ b
unfolding same_test
same_test-eq true b h = ground arith
same_test-eq false b h = ground arith

sstatus_mask_checked :
    below 64 (λ j. same_test (bit_at sstatus_mask j == 1) (is_supervisor_bit j)) ≡ true
unfolding below same_test bit_at
sstatus_mask_checked = refl

sstatus_mask_digits : (j : ℕ) → j < 64 → (bit_at sstatus_mask j == 1) ≡ is_supervisor_bit j
sstatus_mask_digits j h = same_test-eq (bit_at sstatus_mask j == 1) (is_supervisor_bit j) (
    below-all 64 j (λ i. same_test (bit_at sstatus_mask i == 1) (is_supervisor_bit i))
      sstatus_mask_checked h)

-- A write to sstatus sets exactly the supervisor's bits of mstatus (1, 5, 8, 13 to 16, 18, 19, 23, 24, 32,
-- 33 and 63), and keeps all others, the machine's.
pub write_csr-sstatus :
    (v : ℕ) (c : Rvcsr) (j : ℕ)
    → j < 64
    → bit_at ((write_csr Def.sstatus v c).1.value Def.mstatus) j
      ≡ (if is_supervisor_bit j then bit_at v j else bit_at (c.value Def.mstatus) j)
unfolding write_csr call_write find_csr csr_table add_csrs
write_csr-sstatus v c j h =
    rw (sym (sstatus_mask_digits j h)) (bit_at-put_mask (c.value Def.mstatus) sstatus_mask v j h)

-- Reading sstatus back after writing it shows the written value, cut to the supervisor's bits.
pub read_csr-write_csr-sstatus :
    (v : ℕ) (c : Rvcsr) (j : ℕ)
    → j < 64
    → ((read_csr Def.sstatus (write_csr Def.sstatus v c).1).0 ≡ true)
      × (bit_at (read_csr Def.sstatus (write_csr Def.sstatus v c).1).1 j
          ≡ bit_at (bit_and v sstatus_mask) j)
unfolding write_csr call_write read_csr call_read find_csr csr_table add_csrs
read_csr-write_csr-sstatus v c j h = (
  refl,
  ground (
    arith,
    bit_at-and (put_mask (c.value Def.mstatus) sstatus_mask v) sstatus_mask j,
    bit_at-and v sstatus_mask j,
    bit_at-put_mask (c.value Def.mstatus) sstatus_mask v j h,
    bit_at-lt sstatus_mask j,
  ),
)

-- A write to mip changes no pending bit but STIP and SSIP: the guest cannot raise or clear the
-- interrupts that the devices drive.
pub write_csr-mip :
    (v : ℕ) (c : Rvcsr) (j : ℕ)
    → j < 64
    → bit_at ((write_csr Def.mip v c).1.value Def.mip) j ≡ (
        if (j == Def.timer_s) || (j == Def.software_s)
        then bit_at v j
        else bit_at (c.value Def.mip) j)
unfolding write_csr call_write find_csr csr_table add_csrs
write_csr-mip v c j h =
    ground (arith, bit_at-put_mask (c.value Def.mip) Mip.rw_mask v j h, rw_mask_digits j h)
  where
    rw_mask_digits :
        (j : ℕ)
        → j < 64
        → (bit_at Mip.rw_mask j == 1) ≡ ((j == Def.timer_s) || (j == Def.software_s))
    rw_mask_digits j h = ground (arith, bit_at-or (2 ^ 5) (2 ^ 0) j, bit_at-pow 5 j, bit_at-pow 0 j)

-- sie is written through to mie, but read from a register of its own: a read after any write
-- still shows what sie held before it.
pub read_csr-write_csr-sie :
    (v : ℕ) (c : Rvcsr)
    → (read_csr Def.sie (write_csr Def.sie v c).1 ≡ (true, c.value Def.sie))
      × ((write_csr Def.sie v c).1.value Def.mie ≡ Mie.set_sie (Mie.of_word (c.value Def.mie)) v)
unfolding write_csr call_write read_csr call_read find_csr csr_table add_csrs
read_csr-write_csr-sie v c = (refl, refl)

-- The digits of a word that a mask keeps at one place.
kept :
    (v mask w j : ℕ)
    → bit_at mask j ≡ 1
    → bit_at w j ≡ 0
    → bit_at (bit_or (bit_and v mask) w) j ≡ bit_at v j
kept v mask w j p q =
    omega (arith, bit_at-or (bit_and v mask) w j, bit_at-and v mask j, bit_at-lt v j)

not_asid_digits :
    (bit_at (not64 (0x1ff <<< 44)) 60 ≡ 1)
    × (bit_at (not64 (0x1ff <<< 44)) 61 ≡ 1)
    × (bit_at (not64 (0x1ff <<< 44)) 62 ≡ 1)
    × (bit_at (not64 (0x1ff <<< 44)) 63 ≡ 1)
unfolding bit_at
not_asid_digits = (refl, refl, refl, refl)

not_mode_digits :
    (bit_at (not64 (0xf <<< 60)) 60 ≡ 0)
    × (bit_at (not64 (0xf <<< 60)) 61 ≡ 0)
    × (bit_at (not64 (0xf <<< 60)) 62 ≡ 0)
    × (bit_at (not64 (0xf <<< 60)) 63 ≡ 0)
unfolding bit_at
not_mode_digits = (refl, refl, refl, refl)

mode-set_asid : (w : ℕ) → Satp.mode (Satp.set_asid w 0) ≡ Satp.mode w
mode-set_asid w =
    let m = not_asid_digits in
    omega (
      arith,
      four_digits (Satp.set_asid w 0) 60,
      four_digits w 60,
      kept w (not64 (0x1ff <<< 44)) 0 60 m.0 (bit_at-zero 60),
      kept w (not64 (0x1ff <<< 44)) 0 61 m.1 (bit_at-zero 61),
      kept w (not64 (0x1ff <<< 44)) 0 62 m.2 (bit_at-zero 62),
      kept w (not64 (0x1ff <<< 44)) 0 63 m.3 (bit_at-zero 63),
    )

dropped : (v mask j : ℕ) → bit_at mask j ≡ 0 → bit_at (bit_or (bit_and v mask) 0) j ≡ 0
dropped v mask j p =
    omega (arith, bit_at-or (bit_and v mask) 0 j, bit_at-and v mask j, bit_at-zero j)

mode-set_mode : (v : ℕ) → Satp.mode (Satp.set_mode v Satp.bare) ≡ Satp.bare
mode-set_mode v =
    let m = not_mode_digits in
    omega (
      arith,
      four_digits (Satp.set_mode v Satp.bare) 60,
      dropped v (not64 (0xf <<< 60)) 60 m.0,
      dropped v (not64 (0xf <<< 60)) 61 m.1,
      dropped v (not64 (0xf <<< 60)) 62 m.2,
      dropped v (not64 (0xf <<< 60)) 63 m.3,
    )

mode-of_word : (v : ℕ) → Satp.is_valid_mode (Satp.mode (Satp.of_word v)) ≡ true
unfolding Satp.of_word
mode-of_word v = elim (Bool-cases (Satp.is_valid_mode (Satp.mode v))) [
  | inl p ↦ rw (p) (p)
  | inr p ↦ rw (p, mode-set_mode v) refl
]

-- Whatever is written to satp, the stored mode is one of Bare, Sv39, Sv48 and Sv57.
pub write_csr-satp_mode :
    (v : ℕ) (c : Rvcsr)
    → Satp.is_valid_mode (Satp.mode ((write_csr Def.satp v c).1.value Def.satp)) ≡ true
unfolding write_csr call_write find_csr csr_table add_csrs
write_csr-satp_mode v c = rw (mode-set_asid (Satp.of_word v)) (mode-of_word v)
