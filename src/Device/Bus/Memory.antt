-- ===== src/Device/Bus/Memory.antt =====
-- Memory as seen through the bus of bus.cpp: what is written is read back, and nothing else changes.
use native.Mathlib.Nat.{
  pow-suc, one-le-pow, add-mul-mod_self_left, mod-eq_of_lt, div-add-mod, mod-lt,
}
use kxemu.Base.Shared.{
  ℕ, zero, suc, ◌+◌, ◌*◌, ◌/◌, ◌%◌, ◌^◌, ◌≤◌, ◌<◌, ◌≡◌, refl, ap, arith, ◌⊎◌, true, List, [], ◌∷◌,
  none, some,
}
use kxemu.Base.Word.{sub64}
use kxemu.Device.Bus.Block
use kxemu.Device.Bus.Block.{
  MemoryBlock, Access, done, invalid, panic, in_range, read_le, write_le, is_width, is_inside,
}
use kxemu.Device.Bus.{Bus, match_memory, replace_memory, read, write}

write_le-outside :
    (n i : ℕ) (bytes : ℕ → ℕ) (offset value : ℕ)
    → (i < offset) ⊎ (offset + n ≤ i)
    → write_le bytes offset value n i ≡ bytes i
unfolding write_le
write_le-outside zero i bytes offset value h = refl
write_le-outside (suc n) i bytes offset value h =
    ground (arith, write_le-outside n i bytes (offset + 1) (value / 256))

read_le_ext :
    (n : ℕ) (b c : ℕ → ℕ) (offset : ℕ)
    → ((i : ℕ) → offset ≤ i → i < offset + n → b i ≡ c i)
    → read_le b offset n ≡ read_le c offset n
unfolding read_le
read_le_ext zero b c offset h = refl
read_le_ext (suc n) b c offset h =
    ground
      (arith, h offset, read_le_ext n b c (offset + 1) (λ i p q. h i (omega arith) (omega arith)))

low_byte : (v m : ℕ) → 0 < m → v % 256 + 256 * (v / 256 % m) ≡ v % (256 * m)
low_byte v m h = omega (
  arith,
  ap (λ t. t % (256 * m)) split,
  add-mul-mod_self_left (256 * (v / 256 % m) + v % 256) (256 * m) (v / 256 / m),
  mod-eq_of_lt fits,
)
  where
    split : v ≡ 256 * (v / 256 % m) + v % 256 + 256 * m * (v / 256 / m)
    split = omega (arith, div-add-mod (v / 256) m)

    fits : 256 * (v / 256 % m) + v % 256 < 256 * m
    fits = omega (arith, mod-lt (v / 256) h)

pub read_le-write_le :
    (n : ℕ) (bytes : ℕ → ℕ) (offset value : ℕ)
    → read_le (write_le bytes offset value n) offset n ≡ value % 256 ^ n
unfolding read_le write_le
read_le-write_le zero bytes offset value = omega arith
read_le-write_le (suc n) bytes offset value = ground (
  arith,
  read_le_ext n (write_le bytes offset value (suc n)) (write_le bytes (offset + 1) (value / 256) n)
      (offset + 1) (λ i p q. ground arith),
  read_le-write_le n bytes (offset + 1) (value / 256),
  low_byte value (256 ^ n) (one-le-pow n 256 (omega arith)),
  pow-suc 256 n,
)

-- The bytes of a block that two accesses share none of.
abbrev pub Apart : ℕ → ℕ → ℕ → ℕ → Type 0
Apart a n b m = (a + n ≤ b) ⊎ (b + m ≤ a)

read_le-write_le-Apart :
    (n m : ℕ) (bytes : ℕ → ℕ) (o o' value : ℕ)
    → Apart o n o' m
    → read_le (write_le bytes o value n) o' m ≡ read_le bytes o' m
read_le-write_le-Apart n m bytes o o' value h =
    read_le_ext m (write_le bytes o value n) bytes o'
      (λ i p q. write_le-outside n i bytes o value (omega arith))

-- `match_memory` still finds the block that was written to.
pub match-replace :
    (ms : List MemoryBlock) (addr length : ℕ) (m m' : MemoryBlock)
    → match_memory ms addr length ≡ some m
    → m'.start ≡ m.start
    → m'.end ≡ m.end
    → match_memory (replace_memory ms addr length m') addr length ≡ some m'
unfolding match_memory replace_memory in_range
match-replace [] addr length m m' h s e = cc
match-replace (b ∷ ms) addr length m m' h s e = ground (arith, match-replace ms addr length m m')

-- An access that in_range accepts stays inside the block, when neither its end nor the block's wraps.
pub in_range-is_inside :
    (m : MemoryBlock) (addr length : ℕ)
    → in_range m addr length ≡ true
    → addr + length < 2 ^ 64
    → m.end < 2 ^ 64
    → is_inside m addr length ≡ true
unfolding in_range is_inside
in_range-is_inside m addr length h a e = ground arith

-- The block that match_memory finds has the range.
pub match-in_range :
    (ms : List MemoryBlock) (addr len : ℕ) (m : MemoryBlock)
    → match_memory ms addr len ≡ some m
    → in_range m addr len ≡ true
unfolding match_memory
match-in_range [] addr len m e = cc
match-in_range (b ∷ ms) addr len m e = ground (arith, match-in_range ms addr len m)

pub match-is_inside :
    (ms : List MemoryBlock) (addr length : ℕ) (m : MemoryBlock)
    → match_memory ms addr length ≡ some m
    → addr + length < 2 ^ 64
    → m.end < 2 ^ 64
    → is_inside m addr length ≡ true
match-is_inside ms addr length m found a e =
    in_range-is_inside m addr length (match-in_range ms addr length m found) a e

-- A write of a supported width to mapped memory, where neither the access nor the end of the block wraps
-- around the address space, stays inside the block and succeeds, and the same access reads back the value,
-- cut off at the width.
pub read-write :
    (bus : Bus) (addr value length : ℕ) (m : MemoryBlock)
    → match_memory bus.memory_maps addr length ≡ some m
    → is_width length ≡ true
    → addr + length < 2 ^ 64
    → m.end < 2 ^ 64
    → ((write addr value length bus).0 ≡ done true)
      × ((read addr length (write addr value length bus).1).0 ≡ done (value % 256 ^ length))
unfolding read write Block.read Block.write is_inside
read-write bus addr value length m h w a e =
    let inside : is_inside m addr length ≡ true =
      match-is_inside bus.memory_maps addr length m h a e in
    let m' : MemoryBlock = record m {
      contents = write_le m.contents (sub64 addr m.start) value length;
    } in
    (
      ground arith,
      ground (
        arith,
        match-replace bus.memory_maps addr length m m' h refl refl,
        read_le-write_le length m.contents (sub64 addr m.start) value,
      ),
    )

-- What a read of memory gives, over the list of blocks.
abbrev read_maps : List MemoryBlock → ℕ → ℕ → Access ℕ
read_maps ms addr length = elim (match_memory ms addr length) [
  | none ↦ invalid
  | some m ↦ Block.read m addr length
]

abbrev updated : MemoryBlock → ℕ → ℕ → ℕ → MemoryBlock
updated m addr value length = record m {
  contents = write_le m.contents (sub64 addr m.start) value length;
}

block-Apart :
    (b : MemoryBlock) (addr value length addr' length' : ℕ)
    → b.start ≤ addr
    → b.start ≤ addr'
    → addr < 2 ^ 64
    → addr' < 2 ^ 64
    → Apart addr length addr' length'
    → Block.read (updated b addr value length) addr' length' ≡ Block.read b addr' length'
unfolding Block.read is_inside
block-Apart b addr value length addr' length' p q r s h = rw (
    read_le-write_le-Apart length length' b.contents (sub64 addr b.start) (sub64 addr' b.start)
      value (omega arith))

in_range-start : (b : MemoryBlock) (a n : ℕ) → in_range b a n ≡ true → b.start ≤ a
unfolding in_range
in_range-start b a n h = ground arith

in_range-updated :
    (b : MemoryBlock) (addr value length addr' length' : ℕ)
    → in_range (updated b addr value length) addr' length' ≡ in_range b addr' length'
unfolding in_range
in_range-updated b addr value length addr' length' = refl

read_maps-replace :
    (ms : List MemoryBlock) (addr value length addr' length' : ℕ) (m : MemoryBlock)
    → match_memory ms addr length ≡ some m
    → addr < 2 ^ 64
    → addr' < 2 ^ 64
    → Apart addr length addr' length'
    → read_maps (replace_memory ms addr length (updated m addr value length)) addr' length'
      ≡ read_maps ms addr' length'
unfolding match_memory replace_memory
read_maps-replace [] addr value length addr' length' m e r s h = cc
read_maps-replace (b ∷ ms) addr value length addr' length' m e r s h = ground (
  arith,
  in_range-updated b addr value length addr' length',
  block-Apart b addr value length addr' length',
  in_range-start b addr length,
  in_range-start b addr' length',
  read_maps-replace ms addr value length addr' length' m,
)

-- A write to mapped memory and a read of mapped memory, of supported widths, that share no byte, in the same
-- block or in two, where neither access and neither block's end wraps around the address space: both stay
-- inside their blocks and succeed, and the read gives the same after the write as before it.
pub read-write-Apart :
    (bus : Bus) (addr value length addr' length' : ℕ) (m m' : MemoryBlock)
    → match_memory bus.memory_maps addr length ≡ some m
    → match_memory bus.memory_maps addr' length' ≡ some m'
    → is_width length ≡ true
    → is_width length' ≡ true
    → addr + length < 2 ^ 64
    → addr' + length' < 2 ^ 64
    → m.end < 2 ^ 64
    → m'.end < 2 ^ 64
    → Apart addr length addr' length'
    → ((write addr value length bus).0 ≡ done true)
      × ((read addr' length' bus).0 ≡ done (read_le m'.contents (sub64 addr' m'.start) length'))
      × ((read addr' length' (write addr value length bus).1).0 ≡ (read addr' length' bus).0)
unfolding read write Block.read Block.write
read-write-Apart bus addr value length addr' length' m m' e e' w w' r s b b' h =
    let inside : is_inside m addr length ≡ true =
      match-is_inside bus.memory_maps addr length m e r b in
    let inside' : is_inside m' addr' length' ≡ true =
      match-is_inside bus.memory_maps addr' length' m' e' s b' in
    (
      ground arith,
      ground arith,
      ground (arith, read_maps-replace bus.memory_maps addr value length addr' length' m),
    )
