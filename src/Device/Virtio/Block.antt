-- ===== src/Device/Virtio/Block.antt =====
-- class VirtIOBlock of src/device/virtio/block.cpp: a disk on a file of the host. `fails` is what the
-- stream answers; `none` is an access past the memory block of a pointer, or through a null pointer.
pub mod Sectors
mod Tests
use kxemu.Base.Shared.{
  ℕ, zero, suc, ◌+◌, ◌-◌, ◌*◌, ◌%◌, bit_and, Bool, true, false, not, ◌&&◌, ◌==◌, ltb, leb,
  if◌then◌else◌, List, [], ◌∷◌, Option, none, some,
}
use kxemu.Base.Word.{u32, u64}
use kxemu.Device.Bus
use kxemu.Device.Bus.{Bus, replace_memory}
use kxemu.Device.Bus.Block.{MemoryBlock}
use kxemu.Device.Virtio.Queue.{Buffer, ◌>>=◌, load, store}

pub record Disk : Type 0 where
  pub image : ℕ → ℕ
  pub img_size : ℕ

-- memcpy, of `n` bytes between two functions of the place.
unfoldable pub copy : (ℕ → ℕ) → ℕ → (ℕ → ℕ) → ℕ → ℕ → ℕ → ℕ
copy dest to src from n = λ i. if leb to i && ltb i (to + n) then src (from + (i - to)) else dest i

-- `sector * 512` in 32 bits
unfoldable pub sector_start : ℕ → ℕ
sector_start sector = u32 (sector * 512)

unfoldable pub set_status : ℕ → Bus → Option Bus
unfolding store
set_status status bus = store bus status 0 1 0

unfoldable pub blk_read : Bool → ℕ → ℕ → ℕ → ℕ → Disk → Bus → Option (Bool × Disk × Bus)
unfolding set_status sector_start copy
blk_read fails sector len buffer_addr status disk bus =
    let start = sector_start sector in
    if not (bit_and len 511 == 0)
    then some (false, disk, bus)
    else elim (Bus.get_ptr buffer_addr bus) [
      | none ↦ some (false, disk, bus)
      | some m ↦
          let m' = record m {
            contents = copy m.contents (buffer_addr - m.start) disk.image start len;
          } in
          let bus' = record bus { memory_maps = replace_memory bus.memory_maps buffer_addr 0 m' } in
          if leb disk.img_size (start + len)
          then (set_status status bus >>= λ bus1. some (true, disk, bus1))
          else if fails
          then some (false, disk, bus)
          else if leb (buffer_addr + len) m.end
          then (set_status status bus' >>= λ bus1. some (true, disk, bus1))
          else none
    ]

unfoldable pub blk_write : Bool → ℕ → ℕ → ℕ → ℕ → Disk → Bus → Option (Bool × Disk × Bus)
unfolding set_status sector_start copy
blk_write fails sector len buffer_addr status disk bus =
    let start = sector_start sector in
    if not (bit_and len 511 == 0)
    then some (false, disk, bus)
    else elim (Bus.get_ptr buffer_addr bus) [
      | none ↦ some (false, disk, bus)
      | some m ↦
          let disk' = record disk {
            image = copy disk.image start m.contents (buffer_addr - m.start) len;
          } in
          if leb disk.img_size (start + len)
          then (set_status status bus >>= λ bus1. some (true, disk, bus1))
          else if not (leb (buffer_addr + len) m.end)
          then none
          else if fails
          then some (false, disk, bus)
          else (set_status status bus >>= λ bus1. some (true, disk', bus1))
    ]

-- From three buffers on; the head holds the type (at 0) and the sector (at 8).
unfoldable pub handle_request :
    Bool → Buffer → Buffer → Buffer → Disk → Bus → Option (Bool × Disk × Bus)
unfolding blk_read blk_write load
handle_request fails b0 b1 b2 disk bus = elim (Bus.get_ptr b0.addr bus) [
  | none ↦ some (false, disk, bus)
  | some _ ↦ load bus b0.addr 0 4 >>= λ type. load bus b0.addr 8 8 >>= λ sector.
      if type == 0
      then blk_read fails (u32 sector) b1.len b1.addr b2.addr disk bus
      else if type == 1
      then blk_write fails (u32 sector) b1.len b1.addr b2.addr disk bus
      else some (false, disk, bus)
]

-- The log of a request with fewer than three buffers is left out; without a buffer it reads past the array.
unfoldable pub virtio_handle_req : Bool → List Buffer → Disk → Bus → Option (Bool × Disk × Bus)
unfolding handle_request
virtio_handle_req fails [] disk bus = none
virtio_handle_req fails (b0 ∷ []) disk bus = some (true, disk, bus)
virtio_handle_req fails (b0 ∷ b1 ∷ []) disk bus = some (true, disk, bus)
virtio_handle_req fails (b0 ∷ b1 ∷ b2 ∷ rest) disk bus = handle_request fails b0 b1 b2 disk bus
