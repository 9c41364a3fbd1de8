-- ===== src/Riscv/Field/Satp.antt =====
-- class Satp of include/cpu/riscv/csr-field.hpp (the 64-bit layout).
use kxemu.Base.Shared.{ℕ, ◌-◌, ◌^◌, bit_and, bit_or, Bool, ◌||◌, ◌==◌, if◌then◌else◌}
use kxemu.Base.Word.{not64, ◌<<<◌, ◌>>>◌}

abbrev pub bare : ℕ
bare = 0

abbrev pub sv39 : ℕ
sv39 = 8

abbrev pub sv48 : ℕ
sv48 = 9

abbrev pub sv57 : ℕ
sv57 = 10

abbrev pub ppn : ℕ → ℕ
ppn v = bit_and v (2 ^ 44 - 1)

abbrev pub asid : ℕ → ℕ
asid v = bit_and (v >>> 44) 0x1ff

abbrev pub mode : ℕ → ℕ
mode v = bit_and (v >>> 60) 0xf

abbrev pub set_asid : ℕ → ℕ → ℕ
set_asid v a = bit_or (bit_and v (not64 (0x1ff <<< 44))) (bit_and a 0x1ff <<< 44)

abbrev pub set_mode : ℕ → ℕ → ℕ
set_mode v m = bit_or (bit_and v (not64 (0xf <<< 60))) (bit_and m 0xf <<< 60)

-- `validMode`, searched in order
abbrev pub is_valid_mode : ℕ → Bool
is_valid_mode m = m == bare || m == sv39 || m == sv48 || m == sv57

-- The constructor: a mode that is not supported becomes Bare.
unfoldable pub of_word : ℕ → ℕ
of_word v = if is_valid_mode (mode v) then v else set_mode v bare
