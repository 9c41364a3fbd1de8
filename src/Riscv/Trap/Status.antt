-- ===== src/Riscv/Trap/Status.antt =====
-- The digits of the status words that trap.cpp, interrupt.cpp and inst/privileged.cpp build.
use kxemu.Base.Shared.{
  ℕ, zero, suc, ◌+◌, ◌-◌, ◌*◌, ◌/◌, ◌%◌, ◌^◌, ◌<◌, ◌≡◌, refl, arith, bit_and, true, false, not,
  ◌==◌, ltb, if◌then◌else◌,
}
use kxemu.Base.Bits.{
  bit_at, bit_at-lt, bit_at-and, bit_at-or, bit_at-shl, bit_at-shr, bit_at-zero, bit_and-mask,
}
use kxemu.Base.Word.{
  not64, bit_at-not64, has_bit, put_bit, has_bit_digit, bit_at-put_bit, of_bool, of_bool-lt, ◌<<<◌,
}
use kxemu.Riscv.Def.{user}
use kxemu.Riscv.Field.MStatus
use kxemu.Riscv.Trap.{status_m, status_s, status_mret, status_sret}

bit_at-three : (k : ℕ) → bit_at 3 k ≡ (if ltb k 2 then 1 else 0)
unfolding bit_at
bit_at-three zero = refl
bit_at-three (suc zero) = refl
bit_at-three (suc (suc k)) = ground (arith, bit_at-zero k)

pub bit_at-set_mpp :
    (v m j : ℕ)
    → j < 64
    → bit_at (MStatus.set_mpp v m) j
      ≡ (if j == 11 then bit_at m 0 else if j == 12 then bit_at m 1 else bit_at v j)
bit_at-set_mpp v m j h = ground (
  arith,
  bit_at-or (bit_and v (not64 (3 <<< 11))) (bit_and m 0x3 <<< 11) j,
  bit_at-and v (not64 (3 <<< 11)) j,
  bit_at-not64 (3 <<< 11) j h,
  bit_at-shl 3 11 j,
  bit_at-three (j - 11),
  bit_at-shl (bit_and m 0x3) 11 j,
  bit_at-and m 0x3 (j - 11),
  bit_at-lt v j,
  bit_at-lt m 0,
  bit_at-lt m 1,
  bit_at-lt m (j - 11),
)

low_digits : (v : ℕ) → (v % 4 ≡ bit_at v 0 + 2 * bit_at v 1) × (v % 2 ≡ bit_at v 0)
unfolding bit_at
low_digits v = (omega arith, refl)

-- A field of two digits.
pub mpp_digits : (v : ℕ) → MStatus.mpp v ≡ bit_at v 11 + 2 * bit_at v 12
mpp_digits v = omega (
  arith,
  bit_and-mask 2 (v / 2 ^ 11),
  (low_digits (v / 2 ^ 11)).0,
  bit_at-shr 11 v 0,
  bit_at-shr 11 v 1,
)

pub spp_digit : (v : ℕ) → MStatus.spp v ≡ bit_at v 8
spp_digit v =
    omega (arith, bit_and-mask 1 (v / 2 ^ 8), (low_digits (v / 2 ^ 8)).1, bit_at-shr 8 v 0)

-- A digit copied from another place.
bit_at-copy :
    (v k w i j : ℕ)
    → j < 64
    → bit_at (put_bit v k (of_bool (has_bit w i))) j ≡ (if k == j then bit_at w i else bit_at v j)
bit_at-copy v k w i j h = ground (
  arith,
  has_bit_digit w i,
  bit_at-lt w i,
  bit_at-put_bit v k (of_bool (has_bit w i)) j h (of_bool-lt (has_bit w i)),
)

-- One digit of each status word.
pub bit_at-status_m :
    (p v j : ℕ)
    → j < 64
    → bit_at (status_m p v) j ≡ (
        if j == 3
        then 0
        else if j == 7
        then bit_at v 3
        else if j == 11
        then bit_at p 0
        else if j == 12
        then bit_at p 1
        else bit_at v j)
unfolding status_m
bit_at-status_m p v j h =
    let w = MStatus.set_mpp v p in
    let u = MStatus.set_mpie w (MStatus.mie w) in
    ground (
      arith,
      bit_at-put_bit u 3 0 j h,
      bit_at-copy w 7 w 3 j h,
      bit_at-set_mpp v p j h,
      bit_at-set_mpp v p 3,
    )

pub bit_at-status_s :
    (p v j : ℕ)
    → j < 64
    → bit_at (status_s p v) j ≡ (
        if j == 1
        then 0
        else if j == 5
        then bit_at v 1
        else if j == 8
        then of_bool (not (p == user))
        else bit_at v j)
unfolding status_s
bit_at-status_s p v j h =
    let w = MStatus.set_spp v (not (p == user)) in
    let u = MStatus.set_spie w (MStatus.sie w) in
    ground (
      arith,
      bit_at-put_bit u 1 0 j h,
      bit_at-copy w 5 w 1 j h,
      bit_at-put_bit v 8 (of_bool (not (p == user))) j h (of_bool-lt (not (p == user))),
      bit_at-put_bit v 8 (of_bool (not (p == user))) 1,
    )

pub bit_at-status_mret :
    (v j : ℕ)
    → j < 64
    → bit_at (status_mret v) j ≡ (
        if j == 3
        then bit_at v 7
        else if j == 7
        then 1
        else if j == 11
        then 0
        else if j == 12
        then 0
        else bit_at v j)
unfolding status_mret
bit_at-status_mret v j h =
    let w = MStatus.set_mie v (MStatus.mpie v) in
    let u = MStatus.set_mpie w true in
    ground (
      arith,
      bit_at-set_mpp u user j h,
      bit_at-zero 0,
      bit_at-zero 1,
      bit_at-put_bit w 7 1 j h,
      bit_at-copy v 3 v 7 j h,
    )

pub bit_at-status_sret :
    (v j : ℕ)
    → j < 64
    → bit_at (status_sret v) j ≡ (
        if j == 1
        then bit_at v 5
        else if j == 5
        then 1
        else if j == 8
        then 0
        else if j == 17
        then 0
        else bit_at v j)
unfolding status_sret
bit_at-status_sret v j h =
    let w = MStatus.set_sie v (MStatus.spie v) in
    let u = MStatus.set_spie w true in
    let t = MStatus.set_spp u false in
    ground (
      arith,
      bit_at-put_bit t 17 0 j h,
      bit_at-put_bit u 8 0 j h,
      bit_at-put_bit w 5 1 j h,
      bit_at-copy v 1 v 5 j h,
    )
