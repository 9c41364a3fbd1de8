-- ===== src/Device/Bus/Block.antt =====
-- class Bus::MemoryBlock of src/device/bus.cpp. Values are stored least significant byte first, as
-- the pointer casts of the source do on the little-endian hosts it runs on.
use kxemu.Base.Shared.{
  ℕ, zero, suc, ◌+◌, ◌-◌, ◌*◌, ◌/◌, ◌%◌, ◌^◌, min, max, bit_and, bit_or, bit_xor, Bool, not, ◌&&◌,
  ◌||◌, ◌==◌, ltb, leb, if◌then◌else◌,
}
use kxemu.Base.Word.{u64, add64, sub64}

-- The outcome of an access: `invalid` is `valid = false` or std::nullopt, `panic` ends the program.
-- `outside` is an access past the array of a block, which C++ leaves undefined, or one to a device that
-- has a model of its own apart from the bus: nothing is said of what it does.
pub data Access {ℓ} (A : Type ℓ) : Type ℓ where
  done : A → Access A
  invalid : Access A
  panic : Access A
  outside : Access A

pub record MemoryBlock : Type 0 where
  pub start : ℕ
  pub end : ℕ
  pub contents : ℕ → ℕ

pub create : ℕ → ℕ → (ℕ → ℕ) → MemoryBlock
create start size contents = record { start = start; end = add64 start size; contents = contents }

unfoldable pub in_range : MemoryBlock → ℕ → ℕ → Bool
in_range m addr length = leb m.start addr && leb (add64 addr length) m.end

pub get_ptr_length : MemoryBlock → ℕ → ℕ
get_ptr_length m addr = sub64 m.end addr

-- `n` bytes from an offset on
unfoldable pub read_le : (ℕ → ℕ) → ℕ → ℕ → ℕ
read_le bytes offset zero = 0
read_le bytes offset (suc n) = bytes offset % 256 + 256 * read_le bytes (offset + 1) n

unfoldable pub write_le : (ℕ → ℕ) → ℕ → ℕ → ℕ → ℕ → ℕ
write_le bytes offset value zero = bytes
write_le bytes offset value (suc n) =
    let rest = write_le bytes (offset + 1) (value / 256) n in
    λ i. if i == offset then value % 256 else rest i

-- The access widths of the switches.
unfoldable pub is_width : ℕ → Bool
is_width n = n == 1 || n == 2 || n == 4 || n == 8

-- An access stays inside the array of `end - start` bytes. `in_range` says so too, unless `addr + length`
-- wraps around.
unfoldable pub is_inside : MemoryBlock → ℕ → ℕ → Bool
is_inside m addr length = leb (sub64 addr m.start + length) (sub64 m.end m.start)

unfoldable pub read : MemoryBlock → ℕ → ℕ → Access ℕ
read m addr length =
    if not (is_width length)
    then panic
    else if is_inside m addr length
    then done (read_le m.contents (sub64 addr m.start) length)
    else outside

unfoldable pub write : MemoryBlock → ℕ → ℕ → ℕ → Access MemoryBlock
write m addr value length =
    if not (is_width length)
    then panic
    else if is_inside m addr length
    then done (record m { contents = write_le m.contents (sub64 addr m.start) value length })
    else outside

-- enum class AMO
pub data Amo : Type 0 where
  swap add and or xor min_s max_s min_u max_u : Amo

-- `(intN_t)a < (intN_t)b` on `n` bytes: the sign bit counts the other way.
abbrev pub bytes_mod : ℕ → ℕ
bytes_mod n = 2 ^ (8 * n)

unfoldable pub signed_ltb : ℕ → ℕ → ℕ → Bool
signed_ltb n a b =
    let half = 2 ^ (8 * n - 1) in ltb ((a + half) % bytes_mod n) ((b + half) % bytes_mod n)

-- The new value that the `__atomic_fetch_…` of the switch stores.
unfoldable pub amo_result : Amo → ℕ → ℕ → ℕ → ℕ
amo_result swap n old value = value
amo_result add n old value = (old + value) % bytes_mod n
amo_result and n old value = bit_and old value
amo_result or n old value = bit_or old value
amo_result xor n old value = bit_xor old value
amo_result min_s n old value = if signed_ltb n old value then old else value
amo_result max_s n old value = if signed_ltb n old value then value else old
amo_result min_u n old value = min old value
amo_result max_u n old value = max old value

-- The signed cases return an `intN_t`, which widens to `word_t` with its sign.
unfoldable pub amo_return : Amo → ℕ → ℕ → ℕ
amo_return amo n old =
    let signed = u64 (if ltb old (2 ^ (8 * n - 1)) then old else (old + 2 ^ 64 - bytes_mod n)) in
    elim amo [ min_s ↦ signed | max_s ↦ signed | _ ↦ old ]

unfoldable pub do_atomic : MemoryBlock → ℕ → ℕ → ℕ → Amo → Access (ℕ × MemoryBlock)
do_atomic m addr value length amo =
    let offset = sub64 addr m.start in
    let old = read_le m.contents offset length in
    let new = amo_result amo length old (value % bytes_mod length) in
    if not (is_width length)
    then panic
    else if is_inside m addr length
    then done
        (amo_return amo length old, record m { contents = write_le m.contents offset new length })
    else outside
