-- ===== src/Device/Virtio/Block/Sectors.antt =====
-- The disk of block.cpp as a store of sectors.
use kxemu.Base.Shared.{
  ℕ, ◌+◌, ◌-◌, ◌*◌, ◌^◌, ◌≤◌, ◌<◌, ◌≡◌, refl, ◌∙◌, arith, bit_and, true, false, ◌&&◌, ◌==◌, ltb,
  leb, some, ◌⊎◌,
}
use kxemu.Device.Bus
use kxemu.Device.Bus.{Bus, replace_memory}
use kxemu.Device.Bus.Block.{MemoryBlock}
use kxemu.Device.Virtio.Queue.{◌>>=◌}
use kxemu.Device.Virtio.Block.{Disk, copy, sector_start, set_status, blk_read, blk_write}

sector_start-small : (sector : ℕ) → sector < 2 ^ 23 → sector_start sector ≡ sector * 512
unfolding sector_start
sector_start-small sector h = omega arith

copy-inside :
    (dest src : ℕ → ℕ) (to from n i : ℕ) → i < n → copy dest to src from n (to + i) ≡ src (from + i)
unfolding copy
copy-inside dest src to from n i h =
    let at : leb to (to + i) && ltb (to + i) (to + n) ≡ true = ground arith in
    let place : to + i - to ≡ i = omega arith in rw (at, place) refl

copy-outside :
    (dest src : ℕ → ℕ) (to from n j : ℕ)
    → (j < to) ⊎ (to + n ≤ j)
    → copy dest to src from n j ≡ dest j
unfolding copy
copy-outside dest src to from n j h =
    let off : leb to j && ltb j (to + n) ≡ false = ground arith in rw off refl

-- A write of whole sectors from guest memory, followed by a read of the same sectors into any buffer, of a
-- sector below 2^23, inside the file, with buffers inside their blocks and a stream that accepts: byte `i`
-- of the second buffer is then byte `i` of the first, the write changes no byte `j` of the file outside the
-- 512-byte sectors, the read changes no byte `k` of its block outside the buffer, and both answer success
-- when their status can be set.
pub blk_read-blk_write :
    (sector len from to status status' i j k : ℕ) (disk : Disk) (bus bus' : Bus)
    (m m' : MemoryBlock)
    → bit_and len 511 ≡ 0
    → sector < 2 ^ 23
    → sector * 512 + len < disk.img_size
    → Bus.get_ptr from bus ≡ some m
    → from + len ≤ m.end
    → Bus.get_ptr to bus' ≡ some m'
    → to + len ≤ m'.end
    → i < len
    → (j < sector * 512) ⊎ (sector * 512 + len ≤ j)
    → (k < to - m'.start) ⊎ (to - m'.start + len ≤ k)
    → (written : Disk) × (loaded : MemoryBlock) × (blk_write false sector len from status disk bus
        ≡ (set_status status bus >>= λ b. some (true, written, b)))
      × (written.image j ≡ disk.image j)
      × (blk_read false sector len to status' written bus' ≡ (
          set_status status'
            (record bus' { memory_maps = replace_memory bus'.memory_maps to 0 loaded })
          >>= λ b. some (true, written, b)))
      × (loaded.contents (to - m'.start + i) ≡ m.contents (from - m.start + i))
      × (loaded.contents k ≡ m'.contents k)
unfolding blk_write blk_read
blk_read-blk_write sector len from to status status' i j k disk bus bus' m m' whole low room found
      inside found' inside' within outside outside' =
    let start : ℕ = sector * 512 in
    let written : Disk = record disk {
      image = copy disk.image start m.contents (from - m.start) len;
    } in
    let loaded : MemoryBlock = record m' {
      contents = copy m'.contents (to - m'.start) written.image start len;
    } in
    let at : sector_start sector ≡ start = sector_start-small sector low in
    let aligned : (bit_and len 511 == 0) ≡ true = ground arith in
    let fits : leb disk.img_size (start + len) ≡ false = ground arith in
    let mapped : leb (from + len) m.end ≡ true = ground arith in
    let mapped' : leb (to + len) m'.end ≡ true = ground arith in
    (
      written,
      loaded,
      rw (aligned, blk_write) (rw (found, blk_write) (rw at (rw (fits, mapped) refl))),
      copy-outside disk.image m.contents start (from - m.start) len j outside,
      rw (aligned, blk_read) (rw (found', blk_read) (rw at (rw (fits, mapped') refl))),
      copy-inside m'.contents written.image (to - m'.start) start len i within
          ∙ copy-inside disk.image m.contents start (from - m.start) len i within,
      copy-outside m'.contents written.image (to - m'.start) start len k outside',
    )
