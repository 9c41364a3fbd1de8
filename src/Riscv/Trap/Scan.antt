-- ===== src/Riscv/Trap/Scan.antt =====
-- Which interrupt scan_interrupt of interrupt.cpp takes.
use kxemu.Base.Shared.{
  ℕ, ◌≡◌, refl, arith, Bool, true, false, not, ◌&&◌, ◌==◌, Option, none, some, inl, inr, Bool-cases,
  sym, ◌∙◌,
}
use kxemu.Riscv.Def
use kxemu.Riscv.Def.{machine, supervisor}
use kxemu.Riscv.Core.{RvCore, get_csr}
use kxemu.Riscv.Trap.{
  inter_bits_m, inter_bits_s, pending_m, pending_s, select_m, select_s, scan_interrupt, interrupt_m,
  interrupt_s,
}
use kxemu.Riscv.Trap.Pending.{
  elem, IsFirst, first_pending-IsFirst, first_pending-none, pending_m_lem, pending_s_lem,
  has_bit-zero, guard-some, guard-none, first_pending-lt, IsFirst-cong, interruptible_m,
  interruptible_s, is_due, is_delegated,
}

abbrev pub due_m : RvCore → ℕ → Bool
due_m core code = is_due code core && not (is_delegated code core)

abbrev pub due_s : RvCore → ℕ → Bool
due_s core code = is_due code core && is_delegated code core

select_m-some :
    (core : RvCore) (code : ℕ)
    → select_m core ≡ some code
    → (interruptible_m core ≡ true) × IsFirst (due_m core) code inter_bits_m
unfolding select_m
select_m-some core code h =
    let (p, q) = guard-some (interruptible_m core && not (pending_m core == 0)) _ code h in
    let lt = first_pending-lt (pending_m core) code inter_bits_m q (λ c e. ground arith) in
    (
      ground arith,
      IsFirst-cong (pending_m_lem core) lt
          (first_pending-IsFirst (pending_m core) code inter_bits_m q),
    )

select_s-some :
    (core : RvCore) (code : ℕ)
    → select_s core ≡ some code
    → (interruptible_s core ≡ true) × IsFirst (due_s core) code inter_bits_s
unfolding select_s
select_s-some core code h =
    let (p, q) = guard-some (interruptible_s core && not (pending_s core == 0)) _ code h in
    let lt = first_pending-lt (pending_s core) code inter_bits_s q (λ c e. ground arith) in
    (
      ground arith,
      IsFirst-cong (λ c l. pending_s_lem core c) lt
          (first_pending-IsFirst (pending_s core) code inter_bits_s q),
    )

select_m-none :
    (core : RvCore) (code : ℕ)
    → select_m core ≡ none
    → elem code inter_bits_m ≡ true
    → interruptible_m core ≡ true
    → due_m core code ≡ false
unfolding select_m
select_m-none core code h m c =
    sym (pending_m_lem core code (ground arith))
    ∙ elim (guard-none (interruptible_m core && not (pending_m core == 0)) _ h) [
      | inl p ↦ has_bit-zero (pending_m core) code (ground arith)
      | inr q ↦ first_pending-none (pending_m core) code inter_bits_m q m
    ]

select_s-none :
    (core : RvCore) (code : ℕ)
    → select_s core ≡ none
    → elem code inter_bits_s ≡ true
    → interruptible_s core ≡ true
    → due_s core code ≡ false
unfolding select_s
select_s-none core code h m c =
    sym (pending_s_lem core code)
    ∙ elim (guard-none (interruptible_s core && not (pending_s core == 0)) _ h) [
      | inl p ↦ has_bit-zero (pending_s core) code (ground arith)
      | inr q ↦ first_pending-none (pending_s core) code inter_bits_s q m
    ]

-- The three outcomes of a scan.
pub data Scanned (core : RvCore) : Bool × RvCore → Type 0 where
  took_m :
      (code : ℕ)
      → interruptible_m core ≡ true
      → IsFirst (due_m core) code inter_bits_m
      → Scanned core (true, interrupt_m code core)
  took_s :
      (code : ℕ)
      → ((c : ℕ) → elem c inter_bits_m ≡ true → interruptible_m core ≡ true → due_m core c ≡ false)
      → interruptible_s core ≡ true
      → IsFirst (due_s core) code inter_bits_s
      → Scanned core (true, interrupt_s code core)
  took_none :
      ((c : ℕ) → elem c inter_bits_m ≡ true → interruptible_m core ≡ true → due_m core c ≡ false)
      → ((c : ℕ) → elem c inter_bits_s ≡ true → interruptible_s core ≡ true → due_s core c ≡ false)
      → Scanned core (false, core)

nothing_due : (core : RvCore) (c : ℕ) → get_csr core Def.mip ≡ 0 → is_due c core ≡ false
nothing_due core c h = ground (arith, has_bit-zero (get_csr core Def.mip) c h)

selected :
    (core : RvCore) (m s : Option ℕ)
    → select_m core ≡ m
    → select_s core ≡ s
    → Scanned core (elim m [
      | some code ↦ (true, interrupt_m code core)
      | none ↦ elim s [ some code ↦ (true, interrupt_s code core) | none ↦ (false, core) ]
    ])
selected core (some code) s p q = let (i, f) = select_m-some core code p in Scanned.took_m code i f
selected core none (some code) p q =
    let (i, f) = select_s-some core code q in Scanned.took_s code (λ c. select_m-none core c p) i f
selected core none none p q =
    Scanned.took_none (λ c. select_m-none core c p) (λ c. select_s-none core c q)

-- Whatever the registers hold, scan_interrupt takes the highest-priority interrupt that is pending
-- and enabled and is not delegated, if the mode or the cached MIE lets M-mode interrupt; else the
-- highest-priority one that is delegated, if the mode or the cached SIE lets S-mode interrupt; and
-- it leaves the core as it was only when there is neither.
pub scan_interrupt-Scanned : (core : RvCore) → Scanned core (scan_interrupt core)
unfolding scan_interrupt
scan_interrupt-Scanned core = elim (Bool-cases (get_csr core Def.mip == 0)) [
  | inl p ↦
      let z : get_csr core Def.mip ≡ 0 = ground arith in
      rw p (
        Scanned.took_none (λ c e i. ground (arith, nothing_due core c z))
          (λ c e i. ground (arith, nothing_due core c z)))
  | inr p ↦ rw p (selected core (select_m core) (select_s core) refl refl)
]
