-- ===== src/Base/Bits.antt =====
-- `&`, `|` and `^` of C++ on words, bit by bit: the native operations have no laws at variables,
-- so each is read through its lowest digit and then through `bit_at`.
use Prim.Native.Nat.{digits, bitwise, differ, bit_and-bitwise, bit_or-bitwise, bit_xor-bitwise}
use native.Mathlib.Nat.{
  le_refl, pow-suc, one-le-pow, add-mul-mod_self_left, mod-eq_of_lt, div-add-mod, mod-lt,
  div-div-eq-div-mul,
}
use kxemu.Base.Shared.{
  ℕ, zero, suc, ◌+◌, ◌-◌, ◌*◌, ◌/◌, ◌%◌, ◌^◌, ◌≤◌, ◌<◌, min, max, bit_and, bit_or, bit_xor, ◌≡◌,
  refl, sym, ap, ◌∙◌, arith, ◌==◌, ltb, if◌then◌else◌,
}

-- A spare unit of fuel changes nothing once the fuel covers the first operand.
module _ (rest : ℕ → ℕ) (op : ℕ → ℕ → ℕ) where
  no_digits : (fuel y : ℕ) → digits rest op fuel 0 y ≡ rest y
  no_digits zero y = refl
  no_digits (suc fuel) y = refl

  spare_fuel :
      (fuel spare x y : ℕ) → x ≤ fuel → digits rest op fuel x y ≡ digits rest op (spare + fuel) x y
  spare_fuel fuel spare zero y within = no_digits fuel y ∙ sym (no_digits (spare + fuel) y)
  spare_fuel zero spare (suc x) y within = absurd (omega arith)
  spare_fuel (suc fuel) spare (suc x) y within =
      let e : spare + suc fuel ≡ suc (spare + fuel) = omega arith in
      rw (e, spare_fuel fuel spare (suc x / 2) (y / 2) (omega arith)) refl

  -- What the operation does to a positive number, in one step on the halves.
  halved :
      (x y : ℕ)
      → digits rest op (suc x) (suc x) y
        ≡ digits rest op (suc x / 2) (suc x / 2) (y / 2) * 2 + op (suc x % 2) (y % 2)
  halved x y =
      let h = suc x / 2 in
      let e : x - h + h ≡ x = omega arith in rw (spare_fuel h (x - h) h (y / 2) (le_refl h), e) refl

-- The lowest digit of each operation, and the rest of them.
pub bit_or_step : (a b : ℕ) → bit_or a b ≡ bit_or (a / 2) (b / 2) * 2 + max (a % 2) (b % 2)
bit_or_step a b = simp bit_or-bitwise (positive a)
  where
    positive :
        (x : ℕ)
        → bitwise (λ y. y) max x b ≡ bitwise (λ y. y) max (x / 2) (b / 2) * 2 + max (x % 2) (b % 2)
    positive zero = omega arith
    positive (suc x) = halved (λ y. y) max x b

pub bit_and_step : (a b : ℕ) → bit_and a b ≡ bit_and (a / 2) (b / 2) * 2 + min (a % 2) (b % 2)
bit_and_step a b = simp bit_and-bitwise (positive a)
  where
    positive :
        (x : ℕ)
        → bitwise (λ y. 0) min x b ≡ bitwise (λ y. 0) min (x / 2) (b / 2) * 2 + min (x % 2) (b % 2)
    positive zero = omega arith
    positive (suc x) = halved (λ y. 0) min x b

differ_lem : (a b : ℕ) → a < 2 → b < 2 → differ a b ≡ (a + b) % 2
differ_lem zero zero p q = refl
differ_lem zero (suc b) p q = omega arith
differ_lem (suc a) zero p q = omega arith
differ_lem (suc a) (suc b) p q = let e : a ≡ 0 = omega arith in rw e (omega arith)

pub bit_xor_step : (a b : ℕ) → bit_xor a b ≡ bit_xor (a / 2) (b / 2) * 2 + (a % 2 + b % 2) % 2
bit_xor_step a b = simp bit_xor-bitwise (positive a)
  where
    positive :
        (x : ℕ)
        → bitwise (λ y. y) differ x b
          ≡ bitwise (λ y. y) differ (x / 2) (b / 2) * 2 + (x % 2 + b % 2) % 2
    positive zero = omega arith
    positive (suc x) = omega (arith, halved (λ y. y) differ x b, differ_lem (suc x % 2) (b % 2))

-- By halving: `n` halvings are enough for a number of at most `n`.
pub bit_and-zero : (a : ℕ) → bit_and a 0 ≡ 0
bit_and-zero a = halving a a (omega arith)
  where
    halving : (n x : ℕ) → x ≤ n → bit_and x 0 ≡ 0
    halving zero x within = let e : x ≡ 0 = omega arith in rw e refl
    halving (suc n) x within = omega (arith, bit_and_step x 0, halving n (x / 2) (omega arith))

double_pow : (m k : ℕ) → m * 2 ^ suc k ≡ 2 * (m * 2 ^ k)
double_pow m k = omega (arith, ap (λ (t : ℕ). m * t) (pow-suc 2 k))

half_shl : (m k : ℕ) → m * 2 ^ suc k / 2 ≡ m * 2 ^ k
half_shl m k = omega (arith, double_pow m k)

-- The binary digit of weight `2 ^ k`.
unfoldable pub bit_at : ℕ → ℕ → ℕ
bit_at a zero = a % 2
bit_at a (suc k) = bit_at (a / 2) k

pub bit_at-lt : (a k : ℕ) → bit_at a k < 2
unfolding bit_at
bit_at-lt a zero = omega arith
bit_at-lt a (suc k) = bit_at-lt (a / 2) k

and_half : (a b : ℕ) → bit_and a b / 2 ≡ bit_and (a / 2) (b / 2)
and_half a b = omega (arith, bit_and_step a b)

or_half : (a b : ℕ) → bit_or a b / 2 ≡ bit_or (a / 2) (b / 2)
or_half a b = omega (arith, bit_or_step a b)

xor_half : (a b : ℕ) → bit_xor a b / 2 ≡ bit_xor (a / 2) (b / 2)
xor_half a b = omega (arith, bit_xor_step a b)

pub bit_at-and : (a b k : ℕ) → bit_at (bit_and a b) k ≡ min (bit_at a k) (bit_at b k)
unfolding bit_at
bit_at-and a b zero = omega (arith, bit_and_step a b)
bit_at-and a b (suc k) = rw and_half (bit_at-and (a / 2) (b / 2) k)

pub bit_at-or : (a b k : ℕ) → bit_at (bit_or a b) k ≡ max (bit_at a k) (bit_at b k)
unfolding bit_at
bit_at-or a b zero = omega (arith, bit_or_step a b)
bit_at-or a b (suc k) = rw or_half (bit_at-or (a / 2) (b / 2) k)

pub bit_at-xor : (a b k : ℕ) → bit_at (bit_xor a b) k ≡ (bit_at a k + bit_at b k) % 2
unfolding bit_at
bit_at-xor a b zero = omega (arith, bit_xor_step a b)
bit_at-xor a b (suc k) = rw xor_half (bit_at-xor (a / 2) (b / 2) k)

pub bit_at-zero : (k : ℕ) → bit_at 0 k ≡ 0
unfolding bit_at
bit_at-zero zero = refl
bit_at-zero (suc k) = bit_at-zero k

half_pow : (n : ℕ) → 2 ^ suc n / 2 ≡ 2 ^ n
half_pow n = omega (arith, pow-suc 2 n)

pub bit_at-pow : (n k : ℕ) → bit_at (2 ^ n) k ≡ (if n == k then 1 else 0)
unfolding bit_at
bit_at-pow zero zero = refl
bit_at-pow zero (suc k) = ground (arith, bit_at-zero k)
bit_at-pow (suc n) zero = ground (arith, pow-suc 2 n)
bit_at-pow (suc n) (suc k) = rw half_pow (ground (arith, bit_at-pow n k))

half_ones : (n : ℕ) → (2 ^ suc n - 1) / 2 ≡ 2 ^ n - 1
half_ones n = omega (arith, pow-suc 2 n, one-le-pow n 2)

pub bit_at-ones : (n k : ℕ) → k < n → bit_at (2 ^ n - 1) k ≡ 1
unfolding bit_at
bit_at-ones zero k h = absurd (omega arith)
bit_at-ones (suc n) zero h = omega (arith, pow-suc 2 n, one-le-pow n 2)
bit_at-ones (suc n) (suc k) h = rw half_ones (bit_at-ones n k (omega arith))

-- A word is determined by its digits.
pub bit_at_ext :
    (n a b : ℕ) → a < 2 ^ n → b < 2 ^ n → ((k : ℕ) → k < n → bit_at a k ≡ bit_at b k) → a ≡ b
unfolding bit_at
bit_at_ext zero a b ha hb h = omega arith
bit_at_ext (suc n) a b ha hb h = omega (
  arith,
  h 0 (omega arith),
  bit_at_ext n (a / 2) (b / 2) (omega (arith, pow-suc 2 n)) (omega (arith, pow-suc 2 n))
      (λ k p. h (suc k) (omega arith)),
)

-- `m << k` puts the digits of `m` from weight `2 ^ k` on.
pub bit_at-shl : (m k j : ℕ) → bit_at (m * 2 ^ k) j ≡ (if ltb j k then 0 else bit_at m (j - k))
unfolding bit_at
bit_at-shl m zero j =
    let e : m * 1 ≡ m = omega arith in rw e (let f : j - 0 ≡ j = omega arith in rw f (ground arith))
bit_at-shl m (suc k) zero = ground (arith, double_pow m k)
bit_at-shl m (suc k) (suc j) = rw (half_shl m k) (ground (arith, bit_at-shl m k j))

-- `x & (1 << k)` is the digit, in its place.
pub bit_and-pow : (v k : ℕ) → bit_and v (2 ^ k) ≡ bit_at v k * 2 ^ k
unfolding bit_at
bit_and-pow v zero = omega (arith, bit_and_step v 1, bit_and-zero (v / 2))
bit_and-pow v (suc k) = omega (
  arith,
  bit_and_step v (2 ^ suc k),
  pow-suc 2 k,
  ap (λ t. bit_and (v / 2) t) (half_pow k),
  bit_and-pow (v / 2) k,
  ap (λ t. bit_at (v / 2) k * t) (pow-suc 2 k),
)

-- A single digit has no others above it.
pub bit_at-below_two : (b j : ℕ) → b < 2 → bit_at b j ≡ (if j == 0 then b else 0)
unfolding bit_at
bit_at-below_two b zero h = omega arith
bit_at-below_two b (suc j) h =
    let e : b / 2 ≡ 0 = omega arith in rw e (ground (arith, bit_at-zero j))

-- Division by two splits off the lowest digit of a remainder.
low_digit : (v m : ℕ) → 0 < m → v % 2 + 2 * (v / 2 % m) ≡ v % (2 * m)
low_digit v m h = omega (
  arith,
  ap (λ t. t % (2 * m)) split,
  add-mul-mod_self_left (2 * (v / 2 % m) + v % 2) (2 * m) (v / 2 / m),
  mod-eq_of_lt fits,
)
  where
    split : v ≡ 2 * (v / 2 % m) + v % 2 + 2 * m * (v / 2 / m)
    split = omega (arith, div-add-mod (v / 2) m)

    fits : 2 * (v / 2 % m) + v % 2 < 2 * m
    fits = omega (arith, mod-lt (v / 2) h)

twice_pow : (k : ℕ) → 2 ^ suc k ≡ 2 * 2 ^ k
twice_pow k = omega (arith, pow-suc 2 k)

-- A mask of `k` ones at the low end is the remainder by `2 ^ k`.
pub bit_and-mask : (k a : ℕ) → bit_and a (2 ^ k - 1) ≡ a % 2 ^ k
bit_and-mask zero a = omega (arith, bit_and-zero a)
bit_and-mask (suc k) a = omega (
  arith,
  bit_and_step a (2 ^ suc k - 1),
  ap (λ t. bit_and (a / 2) t) (half_ones k),
  bit_and-mask k (a / 2),
  low_digit a (2 ^ k) (one-le-pow k 2 (omega arith)),
  pow-suc 2 k,
  one-le-pow k 2 (omega arith),
  ap (λ t. a % t) (twice_pow k),
)

-- `v >> k` moves the digits down.
pub bit_at-shr : (k v j : ℕ) → bit_at (v / 2 ^ k) j ≡ bit_at v (k + j)
unfolding bit_at
bit_at-shr zero v j =
    let e : v / 1 ≡ v = omega arith in let f : 0 + j ≡ j = omega arith in rw (e, f)
bit_at-shr (suc k) v j =
    let e : v / 2 ^ suc k ≡ v / 2 / 2 ^ k =
      rw (twice_pow k) (sym (div-div-eq-div-mul v 2 (2 ^ k))) in
    let f : suc k + j ≡ suc (k + j) = omega arith in rw (e, f) (bit_at-shr k (v / 2) j)

-- A field of four digits.
pub four_digits :
    (v k : ℕ)
    → bit_and (v / 2 ^ k) 0xf
      ≡ bit_at v (k + 0) + 2 * bit_at v (k + 1) + 4 * bit_at v (k + 2) + 8 * bit_at v (k + 3)
unfolding bit_at
four_digits v k = omega (
  arith,
  bit_and-mask 4 (v / 2 ^ k),
  bit_at-shr k v 0,
  bit_at-shr k v 1,
  bit_at-shr k v 2,
  bit_at-shr k v 3,
)
