-- ===== src/Base/Signed.antt =====
-- Two's complement: what the casts between `intN_t` and `uintN_t` do, and `>>` on signed integers.
use kxemu.Base.Shared.{ℕ, ◌-◌, ◌/◌, ◌%◌, ◌^◌, ltb, if◌then◌else◌}
use kxemu.Base.Int.{ℤ, pos, negsuc}

unfoldable pub to_signed : ℕ → ℕ → ℤ
to_signed w v = if ltb v (2 ^ (w - 1)) then pos v else negsuc (2 ^ w - 1 - v)

unfoldable pub of_signed : ℕ → ℤ → ℕ
of_signed w (pos n) = n % 2 ^ w
of_signed w (negsuc n) = 2 ^ w - 1 - n % 2 ^ w

-- An arithmetic shift rounds down.
unfoldable pub shr_ℤ : ℤ → ℕ → ℤ
shr_ℤ (pos n) k = pos (n / 2 ^ k)
shr_ℤ (negsuc n) k = negsuc (n / 2 ^ k)

-- `(sword_t)(int32_t)v` and the narrower ones, back as a word
unfoldable pub sext : ℕ → ℕ → ℕ
sext w v = of_signed 64 (to_signed w (v % 2 ^ w))
