-- ===== src/Device/Virtio/Queue/Tests.antt =====
-- A queue with one request in guest memory, and the theorem on it.
use kxemu.Base.Shared.{
  ℕ, ◌+◌, ◌≡◌, refl, arith, Bool, true, false, ◌==◌, if◌then◌else◌, List, [], ◌∷◌, Option, none,
  some,
}
use kxemu.Base.Word.{has_bit}
use kxemu.Device.Bus
use kxemu.Device.Bus.{Bus, match_memory, replace_memory}
use kxemu.Device.Bus.Block
use kxemu.Device.Bus.Block.{MemoryBlock}
use kxemu.Device.Virtio.{Virtio, driver_ok}
use kxemu.Device.Virtio.Queue.{
  Buffer, ◌>>=◌, ◌>->◌, from, returns, load, store, descriptor, chain, virtio_handle_done,
  advance_queue, serve_one, serve, notify_queue,
}
use kxemu.Device.Virtio.Queue.Serve.{Gives, Served, notify_queue-Served}

-- The index of the available ring, at 0x2002, is 1; all other bytes are zero.
abbrev memory : MemoryBlock
memory = record { start = 0; end = 0x4000; contents = λ i. if i == 0x2002 then 1 else 0 }

abbrev bus : Bus
bus = record { memory_maps = memory ∷ []; mmio_maps = [] }

-- The device counts its requests.
abbrev count : List Buffer → ℕ → Bus → Option (Bool × ℕ × ℕ × Bus)
count buffers n bus = some (true, 512, n + 1, bus)

abbrev device_after : ℕ → ℕ → Bool → Virtio ℕ
device_after n last interrupt = record {
  state = driver_ok;
  device_id = 2;
  device_features_select = 0;
  driver_features_select = 0;
  queue_select = 0;
  sizeof_configuration = 0;
  features_num_max = 15;
  queue_count = 1;
  virt_queues = λ i. record {
    p_desc = 0x1000;
    p_avail = 0x2000;
    p_used = 0x3000;
    queue_num = 12;
    ready = true;
    last_avail_index = if i == 0 then last else 0;
  };
  interrupt = interrupt;
  device = n;
}

abbrev bus_after : Bus
bus_after = elim (virtio_handle_done 512 0 0 (device_after 1 0 false) bus) [
  | none ↦ bus
  | some after ↦ after.1
]

index_loaded : load bus 0x2000 2 2 ≡ some 1
unfolding load Bus.get_ptr match_memory Block.in_range Block.read_le ◌>>=◌
index_loaded = refl

table_found : Bus.get_ptr 0x1000 bus ≡ some memory
unfolding Bus.get_ptr match_memory Block.in_range
table_found = refl

ring_found : Bus.get_ptr 0x2000 bus ≡ some memory
unfolding Bus.get_ptr match_memory Block.in_range
ring_found = refl

one_served :
    notify_queue count 5 0 (device_after 0 0 false) bus
    ≡ returns (advance_queue 0 (device_after 1 0 true), bus_after)
unfolding notify_queue serve serve_one advance_queue virtio_handle_done chain descriptor load store
    Bus.get_ptr match_memory Block.in_range Block.read_le Block.write_le replace_memory has_bit
    ◌>>=◌ ◌>->◌ from
one_served = refl

counted :
    (buffers : List Buffer) (n : ℕ) (b : Bus)
    → Gives (λ answer. answer.2 ≡ n + 1) (count buffers n b)
counted buffers n b = λ answer h. cc

notify_queue-Served_example :
    Served count 5
      (λ n. n)
      counted
      1
      0
      (device_after 0 0 false)
      (notify_queue count 5 0 (device_after 0 0 false) bus)
notify_queue-Served_example =
    notify_queue-Served count 5 (λ n. n) counted 0 1 (device_after 0 0 false) bus memory memory
      (omega arith) (omega arith) ring_found table_found index_loaded
