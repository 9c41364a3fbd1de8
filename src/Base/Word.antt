-- ===== src/Base/Word.antt =====
-- Machine words. A `uint64_t` is a number below `2 ^ 64`; casts and shifts cut it off where C++
-- does. `~` is an exclusive or with all ones.
use native.Mathlib.Nat.{one-le-pow}
use kxemu.Base.Shared.{
  ℕ, ◌+◌, ◌-◌, ◌*◌, ◌/◌, ◌%◌, ◌^◌, ◌<◌, bit_and, bit_or, bit_xor, ◌≡◌, arith, Bool, true, false,
  not, ◌==◌, if◌then◌else◌,
}
use kxemu.Base.Bits.{
  bit_at, bit_at-lt, bit_at-and, bit_at-or, bit_at-xor, bit_at-pow, bit_at-ones, bit_at-shl,
  bit_and-pow, bit_at-below_two,
}

abbrev pub u8 : ℕ → ℕ
u8 n = n % 2 ^ 8

abbrev pub u16 : ℕ → ℕ
u16 n = n % 2 ^ 16

abbrev pub u32 : ℕ → ℕ
u32 n = n % 2 ^ 32

abbrev pub u64 : ℕ → ℕ
u64 n = n % 2 ^ 64

abbrev pub not64 : ℕ → ℕ
not64 x = bit_xor x (2 ^ 64 - 1)

infixl 75 ◌<<<◌ ◌>>>◌
abbrev pub ◌<<<◌ : ℕ → ℕ → ℕ
x <<< k = x * 2 ^ k

abbrev pub ◌>>>◌ : ℕ → ℕ → ℕ
x >>> k = x / 2 ^ k

-- `uint64_t` addition and subtraction wrap.
abbrev pub add64 : ℕ → ℕ → ℕ
add64 a b = u64 (a + b)

abbrev pub sub64 : ℕ → ℕ → ℕ
sub64 a b = u64 (a + 2 ^ 64 - u64 b)

-- A `bool` of C++ as the integer it becomes in an expression.
abbrev pub of_bool : Bool → ℕ
of_bool true = 1
of_bool false = 0

-- An integer of C++ as the `bool` it becomes in a condition.
abbrev pub to_bool : ℕ → Bool
to_bool n = not (n == 0)

-- `v & (1 << k)` as a condition.
unfoldable pub has_bit : ℕ → ℕ → Bool
has_bit v k = to_bool (bit_and v (2 ^ k))

-- `(v & ~(1 << k)) | (b << k)`.
unfoldable pub put_bit : ℕ → ℕ → ℕ → ℕ
put_bit v k b = bit_or (bit_and v (not64 (2 ^ k))) (b <<< k)

-- `(v & ~mask) | (w & mask)`.
unfoldable pub put_mask : ℕ → ℕ → ℕ → ℕ
put_mask v mask w = bit_or (bit_and v (not64 mask)) (bit_and w mask)

pub has_bit_digit : (v k : ℕ) → has_bit v k ≡ (bit_at v k == 1)
unfolding has_bit
has_bit_digit v k = ground (arith, bit_and-pow v k, bit_at-lt v k, one-le-pow k 2)

pub bit_at-not64 : (v j : ℕ) → j < 64 → bit_at (not64 v) j ≡ 1 - bit_at v j
bit_at-not64 v j h = omega (arith, bit_at-xor v (2 ^ 64 - 1) j, bit_at-ones 64 j h, bit_at-lt v j)

pub bit_at-put_mask :
    (v mask w j : ℕ)
    → j < 64
    → bit_at (put_mask v mask w) j ≡ (if bit_at mask j == 1 then bit_at w j else bit_at v j)
unfolding put_mask
bit_at-put_mask v mask w j h = ground (
  arith,
  bit_at-or (bit_and v (not64 mask)) (bit_and w mask) j,
  bit_at-and v (not64 mask) j,
  bit_at-and w mask j,
  bit_at-not64 mask j h,
  bit_at-lt mask j,
  bit_at-lt w j,
  bit_at-lt v j,
)

pub bit_at-put_bit :
    (v k b j : ℕ) → j < 64 → b < 2 → bit_at (put_bit v k b) j ≡ (if k == j then b else bit_at v j)
unfolding put_bit
bit_at-put_bit v k b j h p = ground (
  arith,
  bit_at-or (bit_and v (not64 (2 ^ k))) (b <<< k) j,
  bit_at-and v (not64 (2 ^ k)) j,
  bit_at-not64 (2 ^ k) j h,
  bit_at-pow k j,
  bit_at-shl b k j,
  bit_at-below_two b (j - k) p,
  bit_at-lt v j,
)

-- `bool` values as digits.
pub of_bool-lt : (b : Bool) → of_bool b < 2
of_bool-lt b = ground arith

-- A field of the word that keeps all other digits.
pub has_bit-put_bit :
    (v k j : ℕ) (b : Bool)
    → j < 64
    → has_bit (put_bit v k (of_bool b)) j ≡ (if k == j then b else has_bit v j)
has_bit-put_bit v k j b h = ground (
  arith,
  has_bit_digit (put_bit v k (of_bool b)) j,
  has_bit_digit v j,
  bit_at-put_bit v k (of_bool b) j h,
)
