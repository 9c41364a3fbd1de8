-- ===== src/Device/Bus/Atomic.antt =====
-- Bus::do_atomic on mapped memory, against the reads before and after it.
use native.Mathlib.Nat.{pow-suc}
use kxemu.Base.Shared.{
  ℕ, zero, suc, ◌+◌, ◌%◌, ◌^◌, ◌<◌, ◌≡◌, refl, ap, sym, ◌∙◌, arith, true, List, [], ◌∷◌, some,
  Bool-cases, inl, inr,
}
use kxemu.Base.Word.{sub64}
use kxemu.Device.Bus.{Bus, match_memory, replace_memory, read, do_atomic}
use kxemu.Device.Bus.Block
use kxemu.Device.Bus.Block.{
  MemoryBlock, Access, done, Amo, read_le, write_le, is_width, in_range, is_inside, amo_result,
  amo_return, bytes_mod,
}
use kxemu.Device.Bus.Memory.{match-replace, match-in_range, read_le-write_le}

pub read_le-lt : (bytes : ℕ → ℕ) (o n : ℕ) → read_le bytes o n < 256 ^ n
unfolding read_le
read_le-lt bytes o zero = omega arith
read_le-lt bytes o (suc n) = omega (arith, pow-suc 256 n, read_le-lt bytes (o + 1) n)

-- A read of mapped memory gives its bytes.
pub read-mapped :
    (bus : Bus) (addr length : ℕ) (m : MemoryBlock)
    → match_memory bus.memory_maps addr length ≡ some m
    → is_width length ≡ true
    → is_inside m addr length ≡ true
    → (read addr length bus).0 ≡ done (read_le m.contents (sub64 addr m.start) length)
unfolding read Block.read
read-mapped bus addr length m found w inside = ground arith

-- Reading memory does not change the bus.
pub read-mapped_bus :
    (bus : Bus) (addr length old : ℕ) (m : MemoryBlock)
    → match_memory bus.memory_maps addr length ≡ some m
    → is_width length ≡ true
    → (read addr length bus).0 ≡ done old
    → read addr length bus ≡ (done old, bus)
unfolding read Block.read
read-mapped_bus bus addr length old m found w e = ground arith

-- A read of a supported width that answers is inside the block.
pub done-is_inside :
    (bus : Bus) (addr length old : ℕ) (m : MemoryBlock)
    → match_memory bus.memory_maps addr length ≡ some m
    → is_width length ≡ true
    → (read addr length bus).0 ≡ done old
    → is_inside m addr length ≡ true
unfolding read Block.read
done-is_inside bus addr length old m found w e = elim (Bool-cases (is_inside m addr length)) [
  | inl p ↦ p
  | inr p ↦ absurd (ground arith)
]

pub read_le-old :
    (bus : Bus) (addr length old : ℕ) (m : MemoryBlock)
    → match_memory bus.memory_maps addr length ≡ some m
    → is_width length ≡ true
    → (read addr length bus).0 ≡ done old
    → read_le m.contents (sub64 addr m.start) length ≡ old
read_le-old bus addr length old m found w e =
    let same : done (read_le m.contents (sub64 addr m.start) length) ≡ done old =
      sym (read-mapped bus addr length m found w (done-is_inside bus addr length old m found w e))
      ∙ e in
    cc

pub read-lt :
    (bus : Bus) (addr length old : ℕ) (m : MemoryBlock)
    → match_memory bus.memory_maps addr length ≡ some m
    → is_width length ≡ true
    → (read addr length bus).0 ≡ done old
    → old < 256 ^ length
read-lt bus addr length old m found w e =
    let bytes = read_le-old bus addr length old m found w e in
    rw (sym bytes) (read_le-lt m.contents (sub64 addr m.start) length)

pub is_inside_same :
    (m m' : MemoryBlock) (addr length : ℕ)
    → m'.start ≡ m.start
    → m'.end ≡ m.end
    → is_inside m addr length ≡ true
    → is_inside m' addr length ≡ true
unfolding is_inside
is_inside_same m m' addr length s e h = ground arith

-- An atomic operation of a supported width on mapped memory answers the old value, as the operation
-- widens it, and the next read gives the combination of the old value and the operand.
pub do_atomic-read :
    (bus : Bus) (addr value length old : ℕ) (amo : Amo) (m : MemoryBlock)
    → match_memory bus.memory_maps addr length ≡ some m
    → is_width length ≡ true
    → (read addr length bus).0 ≡ done old
    → ((do_atomic addr value length amo bus).0 ≡ done (amo_return amo length old))
      × ((read addr length (do_atomic addr value length amo bus).1).0
          ≡ done (amo_result amo length old (value % bytes_mod length) % 256 ^ length))
unfolding do_atomic Block.do_atomic
do_atomic-read bus addr value length old amo m found w e =
    let bytes = read_le-old bus addr length old m found w e in
    let inside = done-is_inside bus addr length old m found w e in
    let new : ℕ = amo_result amo length old (value % bytes_mod length) in
    let m' : MemoryBlock = record m {
      contents = write_le m.contents (sub64 addr m.start) new length;
    } in
    let bus' : Bus = record bus { memory_maps = replace_memory bus.memory_maps addr length m' } in
    let after : (do_atomic addr value length amo bus).1 ≡ bus' = ground arith in
    (
      ground arith,
      ap (λ b. (read addr length b).0) after
          ∙ read-mapped bus' addr length m'
              (match-replace bus.memory_maps addr length m m' found refl refl) w
              (is_inside_same m m' addr length refl refl inside)
          ∙ rw (read_le-write_le length m.contents (sub64 addr m.start) new) refl,
    )

-- get_ptr gives the block that an access of `len` bytes finds.
pub match-replace_start :
    (ms : List MemoryBlock) (addr len : ℕ) (m m' : MemoryBlock)
    → match_memory ms addr len ≡ some m
    → match_memory ms addr 0 ≡ some m
    → m'.start ≡ m.start
    → m'.end ≡ m.end
    → match_memory (replace_memory ms addr 0 m') addr len ≡ some m'
unfolding match_memory replace_memory in_range
match-replace_start [] addr len m m' found ptr s e = cc
match-replace_start (b ∷ ms) addr len m m' found ptr s e = ground (
  arith,
  match-in_range ms addr len m,
  match-in_range ms addr 0 m,
  match-replace_start ms addr len m m',
)
