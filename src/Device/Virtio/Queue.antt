-- ===== src/Device/Virtio/Queue.antt =====
-- notify_queue and virtio_handle_done of src/device/virtio/virtio.cpp: the rings of requests in guest
-- memory. Reads and writes through pointers give `none` where they leave the memory block of the pointer,
-- which C++ leaves undefined.
pub mod Chain
pub mod Serve
mod Tests
use kxemu.Base.Shared.{
  ℕ, zero, suc, ◌+◌, ◌-◌, ◌*◌, ◌%◌, ◌^◌, Bool, true, false, not, ◌==◌, ltb, leb, if◌then◌else◌,
  List, [], ◌∷◌, Option, none, some,
}
use kxemu.Base.Word.{u16, u32, has_bit}
use kxemu.Device.Bus
use kxemu.Device.Bus.{Bus, replace_memory}
use kxemu.Device.Bus.Block.{read_le, write_le}
use kxemu.Device.Virtio
use kxemu.Device.Virtio.{Virtio, VirtQueue, Methods}

pub record Descriptor : Type 0 where
  pub addr : ℕ
  pub len : ℕ
  pub flags : ℕ
  pub next : ℕ

pub record Buffer : Type 0 where
  pub addr : ℕ
  pub len : ℕ
  pub write : Bool

-- Why a call gives no result: `fails` is what C++ leaves undefined (also a queue of no entries, or one past
-- the array) and what ends the program (PANIC, NOT_IMPLEMENTED), `unfinished` a loop with more turns than
-- its fuel.
pub data Stop : Type 0 where
  fails unfinished : Stop

pub data Outcome {ℓ} (A : Type ℓ) : Type ℓ where
  returns : A → Outcome A
  ends : Stop → Outcome A

-- The outcome of a step that fails at `none`.
unfoldable pub from {ℓ} : {A : Type ℓ} → Option A → Outcome A
from none = ends fails
from (some a) = returns a

infixl 20 ◌>->◌
unfoldable pub ◌>->◌ {ℓ κ} : {A : Type ℓ} {B : Type κ} → Outcome A → (A → Outcome B) → Outcome B
ends s >-> f = ends s
returns a >-> f = f a

infixl 20 ◌>>=◌
unfoldable pub ◌>>=◌ {ℓ κ} : {A : Type ℓ} {B : Type κ} → Option A → (A → Option B) → Option B
none >>= f = none
some a >>= f = f a

-- `n` bytes at an offset from the pointer that get_ptr gives for `base`.
unfoldable pub load : Bus → ℕ → ℕ → ℕ → Option ℕ
load bus base offset n = Bus.get_ptr base bus >>= λ m.
    if leb (base + offset + n) m.end
    then some (read_le m.contents (base + offset - m.start) n)
    else none

unfoldable pub store : Bus → ℕ → ℕ → ℕ → ℕ → Option Bus
store bus base offset n value = Bus.get_ptr base bus >>= λ m.
    let m' = record m { contents = write_le m.contents (base + offset - m.start) value n } in
    if leb (base + offset + n) m.end
    then some (record bus { memory_maps = replace_memory bus.memory_maps base 0 m' })
    else none

-- descriptors[i]
unfoldable pub descriptor : Bus → ℕ → ℕ → Option Descriptor
unfolding load
descriptor bus p_desc i = load bus p_desc (16 * i) 8 >>= λ addr.
    load bus p_desc (16 * i + 8) 4 >>= λ len. load bus p_desc (16 * i + 12) 2 >>= λ flags.
    load bus p_desc (16 * i + 14) 2 >>= λ next.
    some (record { addr = addr; len = len; flags = flags; next = next })

abbrev pub buffer_of : Descriptor → Buffer
buffer_of d = record { addr = d.addr; len = d.len; write = has_bit d.flags 1 }

-- The inner loop, from descriptor `i` on.
unfoldable pub chain : ℕ → Bus → ℕ → ℕ → Outcome (List Buffer)
chain zero bus p_desc i = ends unfinished
chain (suc fuel) bus p_desc i =
    let rest : ℕ → Outcome (List Buffer) = λ next. chain fuel bus p_desc next in
    from (descriptor bus p_desc i) >-> λ d.
    if has_bit d.flags 0
    then (rest d.next >-> λ buffers. returns (buffer_of d ∷ buffers))
    else returns (buffer_of d ∷ [])

module _ {ℓ} {S : Type ℓ} where
  -- virtio_handle_done
  unfoldable pub virtio_handle_done : ℕ → ℕ → ℕ → Virtio S → Bus → Option (Virtio S × Bus)
  unfolding load store
  virtio_handle_done len queue_index desc_index v bus =
      let q = v.virt_queues queue_index in
      load bus q.p_used 0 2 >>= λ flags. load bus q.p_used 2 2 >>= λ index.
      let ring = 4 + 8 * (index % q.queue_num) in
      if q.queue_num == 0
      then none
      else store bus q.p_used ring 4 desc_index >>= λ bus1.
          store bus1 q.p_used (ring + 4) 4 len >>= λ bus2. load bus2 q.p_used 2 2 >>= λ index'.
          store bus2 q.p_used 2 2 (u16 (index' + 1)) >>= λ bus3.
          some ((if has_bit flags 0 then v else record v { interrupt = true }), bus3)

  unfoldable pub advance_queue : ℕ → Virtio S → Virtio S
  advance_queue queue_index v = record v {
    virt_queues = λ i.
        if i == queue_index
        then record (v.virt_queues i) {
          last_avail_index = u16 ((v.virt_queues i).last_avail_index + 1);
        }
        else v.virt_queues i;
  }

  -- `handle` is virtio_handle_req, with the length it leaves; `none` where it does not return. `fuel` is that
  -- of the inner loop.
  module _ (handle : List Buffer → S → Bus → Option (Bool × ℕ × S × Bus)) (fuel : ℕ) where
    -- One turn of the outer loop.
    unfoldable pub serve_one : ℕ → Virtio S → Bus → Outcome (Virtio S × Bus)
    unfolding advance_queue virtio_handle_done chain descriptor load
    serve_one queue_index v bus =
        let q = v.virt_queues queue_index in
        let done : ℕ → ℕ → Virtio S → Bus → Option (Virtio S × Bus) =
          λ len desc_index. virtio_handle_done len queue_index desc_index in
        if q.queue_num == 0
        then ends fails
        else from (load bus q.p_avail (4 + 2 * (q.last_avail_index % q.queue_num)) 2)
          >-> λ desc_index. from (descriptor bus q.p_desc desc_index) >-> λ d.
              if has_bit d.flags 2
              then ends fails
              else chain fuel bus q.p_desc desc_index >-> λ buffers.
                  from (handle buffers v.device bus) >-> λ answer.
                  let (handled, len, device, bus1) = answer in
                  from (
                    if handled
                    then done len desc_index (record v { device = device }) bus1
                    else some (record v { device = device }, bus1))
                  >-> λ after. returns (advance_queue queue_index after.0, after.1)

    -- The outer loop: `while (queue.lastAvailIndex != availIndex)`.
    unfoldable pub serve : ℕ → ℕ → ℕ → Virtio S → Bus → Outcome (Virtio S × Bus)
    serve zero avail_index queue_index v bus =
        if (v.virt_queues queue_index).last_avail_index == avail_index
        then returns (v, bus)
        else ends unfinished
    serve (suc n) avail_index queue_index v bus =
        let rest : Virtio S × Bus → Outcome (Virtio S × Bus) =
          λ after. serve n avail_index queue_index after.0 after.1 in
        if (v.virt_queues queue_index).last_avail_index == avail_index
        then returns (v, bus)
        else serve_one queue_index v bus >-> rest

    -- The index wraps at 16 bits, so that many turns are enough.
    unfoldable pub notify_queue : ℕ → Virtio S → Bus → Outcome (Virtio S × Bus)
    unfolding serve
    notify_queue queue_index v bus =
        let q = v.virt_queues queue_index in
        if ltb v.queue_count queue_index
        then returns (v, bus)
        else if queue_index == v.queue_count
        then ends fails
        else elim (Bus.get_ptr q.p_avail bus) [
          | none ↦ returns (v, bus)
          | some _ ↦ from (load bus q.p_avail 2 2) >-> λ avail_index.
              elim (Bus.get_ptr q.p_desc bus) [
                | none ↦ returns (v, bus)
                | some _ ↦ serve (2 ^ 16) avail_index queue_index v bus
              ]
        ]

  -- VirtIO::write, with its call of notify_queue.
  module _ (handle : List Buffer → S → Bus → Option (Bool × ℕ × S × Bus)) (fuel : ℕ)
      (h : Methods S) where
    unfoldable pub write : (ℕ → ℕ) → ℕ → ℕ → ℕ → Virtio S → Bus → Outcome (Bool × Virtio S × Bus)
    unfolding notify_queue
    write garbage offset value size v bus =
        from (Virtio.write_registers h garbage offset value size v) >-> λ written.
        let (accepted, v1, notified) = written in
        elim notified [
          | none ↦ returns (accepted, v1, bus)
          | some queue_index ↦ notify_queue handle fuel queue_index v1 bus >-> λ after.
              returns (accepted, after.0, after.1)
        ]
