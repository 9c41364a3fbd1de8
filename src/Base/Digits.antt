-- ===== src/Base/Digits.antt =====
-- Digits of fields and of sign-extended words.
use native.Mathlib.Nat.{pow-suc, one-le-pow}
use kxemu.Base.Shared.{
  ℕ, zero, suc, ◌+◌, ◌-◌, ◌*◌, ◌/◌, ◌^◌, ◌≤◌, ◌<◌, ◌≡◌, refl, arith, bit_and, bit_or, ltb, ltb→lt,
  Bool-cases, inl, inr, sym, ap, ◌∙◌, false, if◌then◌else◌,
}
use kxemu.Base.Bits.{
  bit_at, bit_at-lt, bit_at-and, bit_at-zero, bit_at-ones, bit_at-shr, bit_or_step, bit_and_step,
  bit_at_ext, bit_at-shl,
}

pub bit_at-above : (n v k : ℕ) → v < 2 ^ n → n ≤ k → bit_at v k ≡ 0
unfolding bit_at
bit_at-above zero v k h l = let e : v ≡ 0 = omega arith in rw e (bit_at-zero k)
bit_at-above (suc n) v zero h l = absurd (omega arith)
bit_at-above (suc n) v (suc k) h l =
    bit_at-above n (v / 2) k (omega (arith, pow-suc 2 n)) (omega arith)

-- Digits of the complement.
pub bit_at-complement : (n v j : ℕ) → v < 2 ^ n → j < n → bit_at (2 ^ n - 1 - v) j ≡ 1 - bit_at v j
unfolding bit_at
bit_at-complement zero v j h l = absurd (omega arith)
bit_at-complement (suc n) v zero h l = omega (arith, pow-suc 2 n, one-le-pow n 2)
bit_at-complement (suc n) v (suc j) h l =
    let e : (2 ^ suc n - 1 - v) / 2 ≡ 2 ^ n - 1 - v / 2 =
      omega (arith, pow-suc 2 n, one-le-pow n 2) in
    rw e (bit_at-complement n (v / 2) j (omega (arith, pow-suc 2 n)) (omega arith))

-- The highest digit says on which side of the middle a number is.
pub bit_at-top : (n v : ℕ) → v < 2 ^ suc n → bit_at v n ≡ (if ltb v (2 ^ n) then 0 else 1)
unfolding bit_at
bit_at-top zero v h = ground arith
bit_at-top (suc n) v h = ground (arith, bit_at-top n (v / 2), pow-suc 2 n, pow-suc 2 (suc n))

pow_mono : (n m : ℕ) → n < m → 2 * 2 ^ n ≤ 2 ^ m
pow_mono n zero h = absurd (omega arith)
pow_mono zero (suc m) h = omega (arith, pow-suc 2 m, one-le-pow m 2)
pow_mono (suc n) (suc m) h = omega (arith, pow-suc 2 n, pow-suc 2 m, pow_mono n m (omega arith))

-- A number with its sign digit repeated up to 64 digits.
pub bit_at-sign_extended :
    (n v j : ℕ)
    → n < 64
    → v < 2 ^ suc n
    → j < 64
    → bit_at (if ltb v (2 ^ n) then v else 2 ^ 64 - 1 - (2 ^ suc n - 1 - v)) j
      ≡ (if ltb j n then bit_at v j else bit_at v n)
bit_at-sign_extended n v j k h l = elim (Bool-cases (ltb v (2 ^ n))) [
  | inl p ↦ ground (arith, bit_at-top n v h, bit_at-above n v j (ltb→lt v (2 ^ n) p))
  | inr p ↦ ground (
    arith,
    bit_at-top n v h,
    bit_at-complement 64 (2 ^ suc n - 1 - v) j
        (omega (arith, pow_mono n 64 k, pow-suc 2 n, one-le-pow n 2)) l,
    bit_at-complement (suc n) v j h,
    bit_at-above (suc n) (2 ^ suc n - 1 - v) j (omega (arith, one-le-pow (suc n) 2)),
    bit_at-lt v j,
  )
]

-- The digits of a field of `n` digits.
pub bit_at-field :
    (n v lo j : ℕ)
    → bit_at (bit_and (v / 2 ^ lo) (2 ^ n - 1)) j ≡ (if ltb j n then bit_at v (lo + j) else 0)
bit_at-field n v lo j = ground (
  arith,
  bit_at-and (v / 2 ^ lo) (2 ^ n - 1) j,
  bit_at-ones n j,
  bit_at-above n (2 ^ n - 1) j (omega (arith, one-le-pow n 2)),
  bit_at-shr lo v j,
  bit_at-lt v (lo + j),
)

pub bit_or-zero : (n v : ℕ) → v < 2 ^ n → bit_or v 0 ≡ v
bit_or-zero zero v h = let e : v ≡ 0 = omega arith in rw e refl
bit_or-zero (suc n) v h =
    omega (arith, bit_or_step v 0, bit_or-zero n (v / 2) (omega (arith, pow-suc 2 n)))

pub bit_or-lt : (n a b : ℕ) → a < 2 ^ n → b < 2 ^ n → bit_or a b < 2 ^ n
bit_or-lt zero a b h k =
    let e : a ≡ 0 = omega arith in let f : b ≡ 0 = omega arith in rw (e, f) (omega arith)
bit_or-lt (suc n) a b h k = omega (
  arith,
  pow-suc 2 n,
  bit_or_step a b,
  bit_or-lt n (a / 2) (b / 2) (omega (arith, pow-suc 2 n)) (omega (arith, pow-suc 2 n)),
)

-- A digit of a field cut out by a mask.
pub bit_at-cut :
    (x n k j : ℕ) → n ≤ j → j < n + k → bit_at (bit_and x ((2 ^ k - 1) * 2 ^ n)) j ≡ bit_at x j
bit_at-cut x n k j h l =
    let below : ltb j n ≡ false = ground arith in
    rw (bit_at-and x ((2 ^ k - 1) * 2 ^ n) j, bit_at-shl (2 ^ k - 1) n j, below)
      (rw (bit_at-ones k (j - n) (omega arith)) (ground (arith, bit_at-lt x j)))

zero-bit_and : (b : ℕ) → bit_and 0 b ≡ 0
zero-bit_and b = below b b (omega arith)
  where
    below : (n x : ℕ) → x ≤ n → bit_and 0 x ≡ 0
    below zero x h = let e : x ≡ 0 = omega arith in rw e refl
    below (suc n) x h = omega (arith, bit_and_step 0 x, below n (x / 2) (omega arith))

pub bit_and-lt : (n a b : ℕ) → a < 2 ^ n → bit_and a b < 2 ^ n
bit_and-lt zero a b h = let e : a ≡ 0 = omega arith in rw e (omega (arith, zero-bit_and b))
bit_and-lt (suc n) a b h = omega (
  arith,
  pow-suc 2 n,
  bit_and_step a b,
  bit_and-lt n (a / 2) (b / 2) (omega (arith, pow-suc 2 n)),
)

-- The digits of a 64-bit word from bit 31 on.
pub bit_and-top : (v : ℕ) → v < 2 ^ 64 → bit_and v (2 ^ 64 - 2 ^ 31) ≡ v / 2 ^ 31 * 2 ^ 31
bit_and-top v h =
    bit_at_ext 64 (bit_and v ((2 ^ 33 - 1) * 2 ^ 31)) (v / 2 ^ 31 * 2 ^ 31)
      (bit_and-lt 64 v ((2 ^ 33 - 1) * 2 ^ 31) h) (omega arith)
      (λ j l. elim (Bool-cases (ltb j 31)) [
        | inl p ↦
            rw (bit_at-and v ((2 ^ 33 - 1) * 2 ^ 31) j)
              (rw (bit_at-shl (2 ^ 33 - 1) 31 j, bit_at-shl (v / 2 ^ 31) 31 j, p) (omega arith))
        | inr p ↦
            let above : 31 ≤ j = ground arith in
            let place : 31 + (j - 31) ≡ j = omega arith in
            bit_at-cut v 31 33 j above l
            ∙ rw (bit_at-shl (v / 2 ^ 31) 31 j, p)
                (rw (bit_at-shr 31 v (j - 31)) (sym (ap (λ t. bit_at v t) place)))
      ])
