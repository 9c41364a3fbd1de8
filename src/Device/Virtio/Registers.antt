-- ===== src/Device/Virtio/Registers.antt =====
-- The queue registers of virtio.cpp.
use kxemu.Base.Shared.{
  ℕ, ◌*◌, ◌^◌, ◌<◌, bit_or, ◌≡◌, refl, ap, arith, Bool, true, ltb, ◌==◌, if◌then◌else◌, Option,
  none, some,
}
use kxemu.Base.Word.{u32}
use kxemu.Device.Bus.{Bus}
use kxemu.Device.Virtio.Halves.{set_upper-set_lower}
use kxemu.Device.Virtio.{
  Virtio, Methods, VirtQueue, write_register, write_queue, set_selected, selected, set_lower,
  set_upper,
}

-- An access that calls nothing returns a device whose selected queue exists.
abbrev Returns {ℓ} : {S : Type ℓ} → Option (Bool × Virtio S × Option ℕ) → Type ℓ
Returns {S = S} o =
    (accepted : Bool) × (v' : Virtio S) × (o ≡ some (accepted, v', none))
    × (v'.queue_select < v'.queue_count)

module _ {ℓ} {S : Type ℓ} (h : Methods S) where
  write_queue-inside :
      (f : VirtQueue → VirtQueue) (v : Virtio S)
      → v.queue_select < v.queue_count
      → write_queue h f v
        ≡ some (
          true,
          record v {
            virt_queues = λ i.
                if i == v.queue_select then f (v.virt_queues v.queue_select) else v.virt_queues i;
          },
          none,
        )
  unfolding write_queue set_selected selected
  write_queue-inside f v k =
      let inside : ltb v.queue_select v.queue_count ≡ true = ground arith in
      rw (inside, write_queue) refl

  -- Writing the two halves of the address of the descriptor table of the selected queue, the low half first,
  -- gives the queue the whole address, whatever it had.
  pub write-write-p_desc :
      (low high : ℕ) (v : Virtio S)
      → low < 2 ^ 32
      → high < 2 ^ 32
      → v.queue_select < v.queue_count
      → (v.virt_queues v.queue_select).p_desc < 2 ^ 64
      → (v1 v2 : Virtio S) × (write_register h 0x80 low v ≡ some (true, v1, none))
        × (write_register h 0x84 high v1 ≡ some (true, v2, none))
        × (selected v2
            ≡ some (record (v.virt_queues v.queue_select) { p_desc = bit_or (high * 2 ^ 32) low }))
  unfolding write_register write_queue set_selected selected
  write-write-p_desc low high v a b k c =
      let q = v.virt_queues v.queue_select in
      let inside : ltb v.queue_select v.queue_count ≡ true = ground arith in
      let self : (v.queue_select == v.queue_select) ≡ true = ground arith in
      let q1 : VirtQueue = record q { p_desc = set_lower q.p_desc (u32 low) } in
      let v1 : Virtio S = record v {
        virt_queues = λ i. if i == v.queue_select then q1 else v.virt_queues i;
      } in
      let q1' = v1.virt_queues v.queue_select in
      let q2 : VirtQueue = record q1' { p_desc = set_upper q1'.p_desc (u32 high) } in
      let v2 : Virtio S = record v {
        virt_queues = λ i. if i == v.queue_select then q2 else v1.virt_queues i;
      } in
      let low' : u32 low ≡ low = omega arith in
      let high' : u32 high ≡ high = omega arith in
      let whole : set_upper (set_lower q.p_desc (u32 low)) (u32 high) ≡ bit_or (high * 2 ^ 32) low =
        rw (low', high') (set_upper-set_lower q.p_desc low high c a b) in
      (
        v1,
        v2,
        write_queue-inside (λ r. record r { p_desc = set_lower r.p_desc (u32 low) }) v k,
        write_queue-inside (λ r. record r { p_desc = set_upper r.p_desc (u32 high) }) v1 k,
        rw (inside, self, selected) (ap (λ d. some (record q { p_desc = d })) whole),
      )
