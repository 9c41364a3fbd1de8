-- ===== src/Device/Virtio/Block/Tests.antt =====
-- A disk of four sectors with guest memory, and the theorem on it.
use kxemu.Base.Shared.{◌+◌, ◌-◌, ◌%◌, ◌≡◌, refl, arith, true, false, [], ◌∷◌, some, inl, inr}
use kxemu.Device.Bus
use kxemu.Device.Bus.{Bus, match_memory, replace_memory}
use kxemu.Device.Bus.Block
use kxemu.Device.Bus.Block.{MemoryBlock}
use kxemu.Device.Virtio.Queue.{◌>>=◌}
use kxemu.Device.Virtio.Block.{Disk, set_status, blk_read, blk_write}
use kxemu.Device.Virtio.Block.Sectors.{blk_read-blk_write}

abbrev memory : MemoryBlock
memory = record { start = 0; end = 0x4000; contents = λ i. i % 256 }

abbrev bus : Bus
bus = record { memory_maps = memory ∷ []; mmio_maps = [] }

abbrev disk : Disk
disk = record { image = λ i. 0; img_size = 2048 }

memory_found : Bus.get_ptr 0x1000 bus ≡ some memory
unfolding Bus.get_ptr match_memory Block.in_range
memory_found = refl

buffer_found : Bus.get_ptr 0x2000 bus ≡ some memory
unfolding Bus.get_ptr match_memory Block.in_range
buffer_found = refl

-- Sector 1 goes from 0x1000 to the file and from there to 0x2000; the status bytes stand at 0x10 and 0x11.
blk_read-blk_write_example :
    (written : Disk) × (loaded : MemoryBlock) × (blk_write false 1 512 0x1000 0x10 disk bus
      ≡ (set_status 0x10 bus >>= λ b. some (true, written, b)))
    × (written.image 1500 ≡ disk.image 1500)
    × (blk_read false 1 512 0x2000 0x11 written bus ≡ (
        set_status 0x11
          (record bus { memory_maps = replace_memory bus.memory_maps 0x2000 0 loaded })
        >>= λ b. some (true, written, b)))
    × (loaded.contents (0x2000 - 0 + 7) ≡ memory.contents (0x1000 - 0 + 7))
    × (loaded.contents 0x1fff ≡ memory.contents 0x1fff)
blk_read-blk_write_example =
    blk_read-blk_write 1 512 0x1000 0x2000 0x10 0x11 7 1500 0x1fff disk bus bus memory memory refl
      (omega arith) (omega arith) memory_found (omega arith) buffer_found (omega arith)
      (omega arith) (inr (omega arith)) (inl (omega arith))
