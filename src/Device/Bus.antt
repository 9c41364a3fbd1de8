-- ===== src/Device/Bus.antt =====
-- class Bus of src/device/bus.cpp and include/device/bus.hpp: memory blocks and mapped devices.
-- The array of a block is a function from offsets to bytes; an access past its end is `outside`. Addresses are `uint64_t`, and `addr + length` wraps as in the source.
pub mod Block
pub mod Memory
pub mod Maps
pub mod Atomic
mod Tests
use kxemu.Base.Shared.{
  ℕ, ◌+◌, ◌-◌, ◌<◌, Bool, true, false, not, ◌&&◌, ◌||◌, ◌==◌, ltb, leb, if◌then◌else◌, List, [],
  ◌∷◌, ◌++◌, Option, none, some,
}
use kxemu.Base.Word.{u64, add64, sub64}
use kxemu.Device.Uart.{Poll}
use kxemu.Device.Mmio
use kxemu.Device.Mmio.{Device}
use Block.{MemoryBlock, Access, done, invalid, panic, outside, in_range, Amo}

-- struct MMIOMapBlock
pub record MmioMapBlock : Type 0 where
  pub start : ℕ
  pub size : ℕ
  pub id : ℕ
  pub dev : Device

pub record Bus : Type 0 where
  pub memory_maps : List MemoryBlock
  pub mmio_maps : List MmioMapBlock

pub mmio_in_range : MmioMapBlock → ℕ → ℕ → Bool
mmio_in_range m addr length = leb m.start addr && leb (add64 addr length) (add64 m.start m.size)

unfoldable pub match_memory : List MemoryBlock → ℕ → ℕ → Option MemoryBlock
match_memory [] addr length = none
match_memory (m ∷ ms) addr length =
    if in_range m addr length then some m else match_memory ms addr length

pub match_mmio : List MmioMapBlock → ℕ → ℕ → Option MmioMapBlock
match_mmio [] addr length = none
match_mmio (m ∷ ms) addr length =
    if mmio_in_range m addr length then some m else match_mmio ms addr length

-- The block that `match_memory` finds, replaced: the pointer it returns is written through.
unfoldable pub replace_memory : List MemoryBlock → ℕ → ℕ → MemoryBlock → List MemoryBlock
replace_memory [] addr length m' = []
replace_memory (m ∷ ms) addr length m' =
    if in_range m addr length then m' ∷ ms else m ∷ replace_memory ms addr length m'

pub replace_mmio : List MmioMapBlock → ℕ → ℕ → Device → List MmioMapBlock
replace_mmio [] addr length d = []
replace_mmio (m ∷ ms) addr length d =
    if mmio_in_range m addr length
    then record m { dev = d } ∷ ms
    else m ∷ replace_mmio ms addr length d

pub overlaps_memory : List MemoryBlock → ℕ → ℕ → Bool
overlaps_memory [] start size = false
overlaps_memory (m ∷ ms) start size =
    in_range m start 0 || in_range m (add64 start size) 0 || overlaps_memory ms start size

pub overlaps_mmio : List MmioMapBlock → ℕ → ℕ → Bool
overlaps_mmio [] start length = false
overlaps_mmio (m ∷ ms) start length =
    leb m.start start && ltb start (add64 m.start m.size)
    || leb start m.start && ltb m.start (add64 start length)
    || overlaps_mmio ms start length

-- The contents of a new block are what the allocator leaves there.
pub add_memory_map : ℕ → ℕ → (ℕ → ℕ) → Bus → Bool × Bus
add_memory_map start size contents bus =
    if overlaps_memory bus.memory_maps start size then (false, bus) else (
      true,
      record bus { memory_maps = bus.memory_maps ++ (Block.create start size contents ∷ []) },
    )

pub add_mmio_map : ℕ → ℕ → ℕ → Device → Bus → Bool × Bus
add_mmio_map id start length dev bus =
    if overlaps_mmio bus.mmio_maps start length then (false, bus) else (
      true,
      record bus {
        mmio_maps =
            bus.mmio_maps ++ (record { start = start; size = length; id = id; dev = dev } ∷ []);
      },
    )

read_mmio : ℕ → ℕ → Bus → Access ℕ × Bus
read_mmio addr length bus = elim (match_mmio bus.mmio_maps addr length) [
  | none ↦ (invalid, bus)
  | some m ↦
      let (v, d) = Mmio.read (sub64 addr m.start) length m.dev in
      (v, record bus { mmio_maps = replace_mmio bus.mmio_maps addr length d })
]

unfoldable pub read : ℕ → ℕ → Bus → Access ℕ × Bus
unfolding read_mmio
read addr length bus = elim (match_memory bus.memory_maps addr length) [
  | some m ↦ (Block.read m addr length, bus)
  | none ↦ read_mmio addr length bus
]

write_mmio : ℕ → ℕ → ℕ → Bus → Access Bool × Bus
write_mmio addr value length bus = elim (match_mmio bus.mmio_maps addr length) [
  | none ↦ (done false, bus)
  | some m ↦
      let (b, d) = Mmio.write (sub64 addr m.start) value length m.dev in
      (b, record bus { mmio_maps = replace_mmio bus.mmio_maps addr length d })
]

unfoldable pub write : ℕ → ℕ → ℕ → Bus → Access Bool × Bus
unfolding write_mmio
write addr value length bus = elim (match_memory bus.memory_maps addr length) [
  | some m ↦ elim (Block.write m addr value length) [
    | done m' ↦
        (done true, record bus { memory_maps = replace_memory bus.memory_maps addr length m' })
    | invalid ↦ (invalid, bus)
    | panic ↦ (panic, bus)
    | outside ↦ (outside, bus)
  ]
  | none ↦ write_mmio addr value length bus
]

-- `update` asks the system once for each device.
pub update_maps : List Poll → List MmioMapBlock → List MmioMapBlock
update_maps ps [] = []
update_maps [] (m ∷ ms) = m ∷ ms
update_maps (p ∷ ps) (m ∷ ms) = record m { dev = Mmio.update p m.dev } ∷ update_maps ps ms

pub update : List Poll → Bus → Bus
update ps bus = record bus { mmio_maps = update_maps ps bus.mmio_maps }

-- `invalid` is std::nullopt.
pub do_atomic : ℕ → ℕ → ℕ → Amo → Bus → Access ℕ × Bus
do_atomic addr value length amo bus = elim (match_memory bus.memory_maps addr length) [
  | none ↦ (invalid, bus)
  | some m ↦ elim (Block.do_atomic m addr value length amo) [
    | done (old, m') ↦
        (done old, record bus { memory_maps = replace_memory bus.memory_maps addr length m' })
    | invalid ↦ (invalid, bus)
    | panic ↦ (panic, bus)
    | outside ↦ (outside, bus)
  ]
]

-- get_ptr: the block that the pointer is into. No device overrides its own get_ptr, so a device
-- answers nullptr.
unfoldable pub get_ptr : ℕ → Bus → Option MemoryBlock
get_ptr addr bus = match_memory bus.memory_maps addr 0

-- get_ptr_length, over both kinds of map
pub get_ptr_length : ℕ → Bus → ℕ
get_ptr_length addr bus = elim (match_memory bus.memory_maps addr 0) [
  | some m ↦ Block.get_ptr_length m addr
  | none ↦ elim (match_mmio bus.mmio_maps addr 0) [
    | some m ↦ sub64 m.size (sub64 addr m.start)
    | none ↦ 0
  ]
]
