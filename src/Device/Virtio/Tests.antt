-- ===== src/Device/Virtio/Tests.antt =====
-- A device with two queues, whose driver features are kept as a number, and each theorem on it.
use kxemu.Base.Shared.{
  ℕ, ◌+◌, ◌^◌, ◌≡◌, refl, arith, true, false, if◌then◌else◌, some, Bool, List, [], Option,
}
use kxemu.Device.Bus.{Bus}
use kxemu.Device.Bus.Block
use kxemu.Device.Virtio.{
  Virtio, Methods, VirtQueue, acknowledged, driver_ok, read, read_status, write_status,
  in_configuration,
}
use kxemu.Device.Virtio.Queue
use kxemu.Device.Virtio.Queue.{Buffer}
use kxemu.Device.Virtio.Status.{status_of, read_status-write_status}

abbrev methods : Methods ℕ
methods = record {
  get_device_features_bit = λ i s. true;
  set_driver_features_bit = λ i b s. if b then s + 2 ^ i else s;
  update_configuration = λ bytes s. s;
  configuration = λ s i. 0;
}

abbrev queue : VirtQueue
queue = record {
  p_desc = 0;
  p_avail = 0;
  p_used = 0;
  queue_num = 12;
  ready = false;
  last_avail_index = 0;
}

abbrev device : Virtio ℕ
device = record {
  state = acknowledged;
  device_id = 2;
  device_features_select = 0;
  driver_features_select = 0;
  queue_select = 1;
  sizeof_configuration = 0;
  features_num_max = 15;
  queue_count = 2;
  virt_queues = λ i. queue;
  interrupt = false;
  device = 0;
}

-- The magic number reads as "virt".
magic_word : read methods 0 4 device ≡ some (some 0x74726976)
unfolding read in_configuration
magic_word = refl

read_status-write_status_example :
    let v' = write_status (status_of driver_ok) device in
    (v'.state ≡ driver_ok) × (read_status v'.state ≡ status_of driver_ok)
read_status-write_status_example = read_status-write_status driver_ok device (omega arith)

-- A handler that does nothing.
abbrev idle_handler : List Buffer → ℕ → Bus → Option (Bool × ℕ × ℕ × Bus)
idle_handler buffers n b = some (true, 0, n, b)

abbrev no_memory : Bus
no_memory = record { memory_maps = []; mmio_maps = [] }
