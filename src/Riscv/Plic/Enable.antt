-- ===== src/Riscv/Plic/Enable.antt =====
-- What the registers of plic.cpp read after a write.
use native.Mathlib.Nat.{one-le-pow}
use kxemu.Base.Shared.{
  ℕ, zero, suc, ◌+◌, ◌-◌, ◌*◌, ◌/◌, ◌%◌, ◌^◌, ◌<◌, ◌≡◌, refl, sym, ◌∙◌, inl, inr, arith, Bool, true,
  false, ◌&&◌, not, leb, ltb, ◌==◌, if◌then◌else◌, Bool-cases, bit_and, some,
}
use kxemu.Base.Bits.{bit_at, bit_at-lt, bit_at-or, bit_at-pow, bit_at-zero, bit_and-pow}
use kxemu.Base.Digits.{bit_and-top}
use kxemu.Base.Word.{of_bool}
use kxemu.Riscv.Signal.{quiet}
use kxemu.Riscv.Plic.{Plic, read, write, gather, shifted_one, set_enables, in_space, plic_enable}

bit_at-gather :
    (n j : ℕ) (test : ℕ → Bool)
    → bit_at (gather n test) j ≡ (if ltb j n then of_bool (test j) else 0)
unfolding gather
bit_at-gather zero j test = rw (bit_at-zero j) (ground arith)
bit_at-gather (suc n) j test = elim (Bool-cases (test n)) [
  | inl p ↦ rw p (
      rw (bit_at-or (gather n test) (2 ^ n) j, bit_at-pow n j)
        (elim (Bool-cases (n == j)) [
          | inl e ↦
              let f : n ≡ j = ground arith in
              rw (sym f) (rw p (ground (arith, bit_at-gather n n test)))
          | inr e ↦ rw e (ground (arith, bit_at-gather n j test))
        ]))
  | inr p ↦ rw p (elim (Bool-cases (n == j)) [
    | inl e ↦
        let f : n ≡ j = ground arith in rw (sym f) (rw p (ground (arith, bit_at-gather n n test)))
    | inr e ↦ ground (arith, bit_at-gather n j test)
  ])
]

digit_test : (d p : ℕ) → d < 2 → 0 < p → of_bool (not (d * p == 0)) ≡ d
digit_test zero p h k = let e : 0 * p ≡ 0 = omega arith in rw e refl
digit_test (suc zero) p h k = let e : 1 * p ≡ p = omega arith in rw e (ground arith)
digit_test (suc (suc d)) p h k = absurd (omega arith)

-- The test of the loop in PLIC::write on digit `i`.
bit_and-shifted_one :
    (v i : ℕ)
    → v < 2 ^ 64
    → i < 32
    → of_bool (not (bit_and v (shifted_one i) == 0))
      ≡ (if i == 31 then if ltb v (2 ^ 31) then 0 else 1 else bit_at v i)
unfolding shifted_one
bit_and-shifted_one v i h l = elim (Bool-cases (i == 31)) [
  | inl p ↦ rw (p, shifted_one) (rw (bit_and-top v h) (ground arith))
  | inr p ↦ rw p (
      rw (bit_and-pow v i)
        (digit_test (bit_at v i) (2 ^ i) (bit_at-lt v i) (one-le-pow i 2 (omega arith))))
]

enables-test :
    (context value i : ℕ) (plic : Plic)
    → value < 2 ^ 64
    → i < 32
    → of_bool (((set_enables context value plic).interrupt_sources i).enable context)
      ≡ (if i == 31 then if ltb value (2 ^ 31) then 0 else 1 else bit_at value i)
unfolding set_enables
enables-test context value i plic h l =
    let same : (context == context) ≡ true = ground arith in
    let inside : ltb i 32 ≡ true = ground arith in
    rw (same, inside) (bit_and-shifted_one value i h l)

write_enable :
    (context value : ℕ) (plic : Plic)
    → context < 32
    → write (plic_enable + 0x80 * context) value 4 plic
      ≡ some (true, set_enables context value plic, quiet)
unfolding write in_space
write_enable context value plic h =
    let place : (plic_enable + 0x80 * context - plic_enable) / 0x80 ≡ context = omega arith in
    let low : leb 0 (plic_enable + 0x80 * context)
          && ltb (plic_enable + 0x80 * context) (0 + 0x1000)
        ≡ false =
      ground arith in
    let mid : leb plic_enable (plic_enable + 0x80 * context)
          && ltb (plic_enable + 0x80 * context) (plic_enable + 0x1f0000)
        ≡ true =
      ground arith in
    let zero_index : ((plic_enable + 0x80 * context - plic_enable) % 0x80 == 0) ≡ true =
      ground arith in
    let inside : ltb context 32 ≡ true = ground arith in
    rw (low, mid, zero_index, place, inside) refl

read_enable :
    (context : ℕ) (plic : Plic)
    → context < 32
    → read (plic_enable + 0x80 * context) 4 plic
      ≡ some (some (gather 32 (λ i. (plic.interrupt_sources i).enable context)))
unfolding read in_space
read_enable context plic h =
    let place : (plic_enable + 0x80 * context - plic_enable) / 0x80 ≡ context = omega arith in
    let low : leb 0 (plic_enable + 0x80 * context)
          && ltb (plic_enable + 0x80 * context) (0 + 0x1000)
        ≡ false =
      ground arith in
    let pending : leb 0x1000 (plic_enable + 0x80 * context)
          && ltb (plic_enable + 0x80 * context) (0x1000 + 0x80)
        ≡ false =
      ground arith in
    let mid : leb plic_enable (plic_enable + 0x80 * context)
          && ltb (plic_enable + 0x80 * context) (plic_enable + 0x1f0000)
        ≡ true =
      ground arith in
    let zero_index : ((plic_enable + 0x80 * context - plic_enable) % 0x80 == 0) ≡ true =
      ground arith in
    let inside : ltb context 32 ≡ true = ground arith in
    rw (low, pending, mid, zero_index, place, inside) refl

-- Enabling sources for a context: a 32-bit read of the register gives the written digits 0 to 30; digit
-- 31 is set exactly when the written 64-bit value is 2^31 or more, since `1 << 31` is negative.
pub read-write-enable :
    (context value i : ℕ) (plic : Plic)
    → context < 32
    → value < 2 ^ 64
    → i < 31
    → (plic' : Plic) × (word : ℕ) × (write (plic_enable + 0x80 * context) value 4 plic
        ≡ some (true, plic', quiet))
      × (read (plic_enable + 0x80 * context) 4 plic' ≡ some (some word))
      × (bit_at word i ≡ bit_at value i)
      × (bit_at word 31 ≡ (if ltb value (2 ^ 31) then 0 else 1))
read-write-enable context value i plic h k below =
    let plic' = set_enables context value plic in
    let test : ℕ → Bool = λ i. (plic'.interrupt_sources i).enable context in
    let inside : ltb i 32 ≡ true = ground arith in
    let other : (i == 31) ≡ false = ground arith in
    (
      plic',
      gather 32 test,
      write_enable context value plic h,
      read_enable context plic' h,
      bit_at-gather 32 i test
          ∙ rw inside (enables-test context value i plic k (omega arith) ∙ rw other refl),
      bit_at-gather 32 31 test ∙ enables-test context value 31 plic k (omega arith),
    )
