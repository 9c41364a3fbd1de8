-- ===== src/Device/Virtio/Halves.antt =====
-- set_lower and set_upper of virtio.cpp: the halves of a 64-bit address.
use kxemu.Base.Shared.{
  ℕ, ◌-◌, ◌*◌, ◌^◌, ◌<◌, bit_and, bit_or, ◌≡◌, arith, ltb, if◌then◌else◌, Bool-cases, inl, inr,
}
use kxemu.Base.Bits.{
  bit_at, bit_at_ext, bit_and-mask, bit_at-lt, bit_at-and, bit_at-or, bit_at-shl, bit_at-ones,
}
use kxemu.Base.Digits.{bit_at-above, bit_or-lt}
use kxemu.Base.Word.{not64, bit_at-not64}
use kxemu.Device.Virtio.{set_lower, set_upper}

-- A digit of the low half.
low_digit : (k : ℕ) → bit_at 0xffff_ffff k ≡ (if ltb k 32 then 1 else 0)
low_digit k = elim (Bool-cases (ltb k 32)) [
  | inl p ↦ rw p (bit_at-ones 32 k (ground arith))
  | inr p ↦ rw p (bit_at-above 32 0xffff_ffff k (omega arith) (ground arith))
]

bit_at-set_lower :
    (old low k : ℕ)
    → k < 64
    → bit_at (set_lower old low) k ≡ (if ltb k 32 then bit_at low k else bit_at old k)
unfolding set_lower
bit_at-set_lower old low k h = ground (
  arith,
  bit_at-or (bit_and old (not64 0xffff_ffff)) (bit_and low 0xffff_ffff) k,
  bit_at-and old (not64 0xffff_ffff) k,
  bit_at-and low 0xffff_ffff k,
  bit_at-not64 0xffff_ffff k h,
  low_digit k,
  bit_at-lt old k,
  bit_at-lt low k,
)

bit_at-set_upper :
    (old high k : ℕ)
    → bit_at (set_upper old high) k ≡ (if ltb k 32 then bit_at old k else bit_at high (k - 32))
unfolding set_upper
bit_at-set_upper old high k = ground (
  arith,
  bit_at-or (bit_and old 0xffff_ffff) (high * 2 ^ 32) k,
  bit_at-and old 0xffff_ffff k,
  bit_at-shl high 32 k,
  low_digit k,
  bit_at-lt old k,
  bit_at-lt high (k - 32),
)

set_upper-lt : (old high : ℕ) → high < 2 ^ 32 → set_upper old high < 2 ^ 64
unfolding set_upper
set_upper-lt old high h =
    bit_or-lt 64 (bit_and old 0xffff_ffff) (high * 2 ^ 32) (omega (arith, bit_and-mask 32 old))
      (omega arith)

pub set_upper-set_lower :
    (old low high : ℕ)
    → old < 2 ^ 64
    → low < 2 ^ 32
    → high < 2 ^ 32
    → set_upper (set_lower old low) high ≡ bit_or (high * 2 ^ 32) low
set_upper-set_lower old low high a b c =
    bit_at_ext 64 (set_upper (set_lower old low) high) (bit_or (high * 2 ^ 32) low)
      (set_upper-lt (set_lower old low) high c)
      (bit_or-lt 64 (high * 2 ^ 32) low (omega arith) (omega arith))
      (λ k l. ground (
        arith,
        bit_at-set_upper (set_lower old low) high k,
        bit_at-set_lower old low k l,
        bit_at-or (high * 2 ^ 32) low k,
        bit_at-shl high 32 k,
        bit_at-above 32 low k b,
        bit_at-lt low k,
        bit_at-lt high (k - 32),
      ))
