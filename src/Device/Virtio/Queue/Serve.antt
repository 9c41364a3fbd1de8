-- ===== src/Device/Virtio/Queue/Serve.antt =====
-- What notify_queue of virtio.cpp does with the requests of a queue.
use kxemu.Base.Shared.{
  ℕ, zero, suc, ◌+◌, ◌-◌, ◌^◌, ◌≤◌, ◌<◌, ◌≡◌, ◌≢◌, refl, ap, ◌∙◌, arith, Bool, true, false, ◌==◌,
  ltb, leb, if◌then◌else◌, List, Option, none, some, Bool-cases, inl, inr,
}
use kxemu.Base.Word.{u16, has_bit}
use kxemu.Device.Bus
use kxemu.Device.Bus.{Bus}
use kxemu.Device.Bus.Block.{MemoryBlock, read_le}
use kxemu.Device.Bus.Atomic.{read_le-lt}
use kxemu.Device.Virtio.{Virtio}
use kxemu.Device.Virtio.Queue.{
  Buffer, Stop, Outcome, returns, ends, fails, from, ◌>->◌, ◌>>=◌, load, virtio_handle_done,
  advance_queue, serve_one, serve, notify_queue,
}

-- Whatever comes out has the property.
abbrev pub Gives {ℓ κ} : {A : Type ℓ} → (A → Type κ) → Option A → Type (ℓ ⊔ κ)
Gives {A = A} P o = (a : A) → o ≡ some a → P a

bind-Gives {ℓ κ μ} :
    {A : Type ℓ} {B : Type κ} (P : B → Type μ) (o : Option A) (f : A → Option B)
    → ((a : A) → Gives P (f a))
    → Gives P (o >>= f)
unfolding ◌>>=◌
bind-Gives P none f k = λ b h. cc
bind-Gives P (some a) f k = k a

some-Gives {ℓ κ} : {A : Type ℓ} (P : A → Type κ) (a : A) → P a → Gives P (some a)
some-Gives P a p = λ b h. let e : a ≡ b = ap (λ o. elim o [ none ↦ a | some x ↦ x ]) h in rw e at p

none-Gives {ℓ κ} : {A : Type ℓ} (P : A → Type κ) → Gives P none
none-Gives P = λ b h. cc

if-Gives {ℓ κ} :
    {A : Type ℓ} (P : A → Type κ) (b : Bool) (x y : Option A)
    → Gives P x
    → Gives P y
    → Gives P (if b then x else y)
if-Gives P true x y p q = p
if-Gives P false x y p q = q

load-lt : (bus : Bus) (base offset n x : ℕ) → load bus base offset n ≡ some x → x < 256 ^ n
unfolding load
load-lt bus base offset n x h =
    bind-Gives (λ y. y < 256 ^ n) (Bus.get_ptr base bus) _
      (λ m.
        if-Gives (λ y. y < 256 ^ n) (leb (base + offset + n) m.end) _ _
          (some-Gives (λ y. y < 256 ^ n) (read_le m.contents (base + offset - m.start) n)
            (read_le-lt m.contents (base + offset - m.start) n))
          (none-Gives (λ y. y < 256 ^ n)))
      x h

-- If it is a result, it has the property.
abbrev Leaves {ℓ κ} : {A : Type ℓ} → (A → Type κ) → Outcome A → Type (ℓ ⊔ κ)
Leaves {A = A} P o = (a : A) → o ≡ returns a → P a

bind-Leaves {ℓ κ μ} :
    {A : Type ℓ} {B : Type κ} (P : B → Type μ) (o : Outcome A) (f : A → Outcome B)
    → ((a : A) → Leaves P (f a))
    → Leaves P (o >-> f)
unfolding ◌>->◌
bind-Leaves P (ends s) f k = λ b h. cc
bind-Leaves P (returns a) f k = k a

from-Leaves {ℓ κ μ ν} :
    {A : Type ℓ} {B : Type κ} (Q : A → Type ν) (P : B → Type μ) (o : Option A) (f : A → Outcome B)
    → Gives Q o
    → ((a : A) → Q a → Leaves P (f a))
    → Leaves P (from o >-> f)
unfolding ◌>->◌ from
from-Leaves Q P none f q k = λ b h. cc
from-Leaves Q P (some a) f q k = k a (q a refl)

returns-Leaves {ℓ κ} : {A : Type ℓ} (P : A → Type κ) (a : A) → P a → Leaves P (returns a)
returns-Leaves P a p =
    λ b h. let e : a ≡ b = ap (λ o. elim o [ ends s ↦ a | returns x ↦ x ]) h in rw e at p

ends-Leaves {ℓ κ} : {A : Type ℓ} (P : A → Type κ) (s : Stop) → Leaves P (ends s)
ends-Leaves P s = λ b h. cc

if-Leaves {ℓ κ} :
    {A : Type ℓ} (P : A → Type κ) (b : Bool) (x y : Outcome A)
    → Leaves P x
    → Leaves P y
    → Leaves P (if b then x else y)
if-Leaves P true x y p q = p
if-Leaves P false x y p q = q

-- The requests that the driver has made available and the device has not served.
abbrev pub waiting : ℕ → ℕ → ℕ
waiting avail_index last = u16 (avail_index + 2 ^ 16 - last)

-- The last index of a queue.
abbrev pub last_index {ℓ} : {S : Type ℓ} → ℕ → Virtio S → ℕ
last_index queue_index v = (v.virt_queues queue_index).last_avail_index

module _ {ℓ} {S : Type ℓ} where
  done-keeps :
      (len queue_index desc_index : ℕ) (v : Virtio S) (bus : Bus)
      → Gives
          (λ after. (after.0.virt_queues ≡ v.virt_queues) × (after.0.device ≡ v.device))
          (virtio_handle_done len queue_index desc_index v bus)
  unfolding virtio_handle_done
  done-keeps len queue_index desc_index v bus =
      let P : Virtio S × Bus → Type ℓ =
        λ after. (after.0.virt_queues ≡ v.virt_queues) × (after.0.device ≡ v.device) in
      let kept : (b : Bool) (bus3 : Bus)
          → Gives P (some ((if b then v else record v { interrupt = true }), bus3)) =
        λ b bus3.
          some-Gives P ((if b then v else record v { interrupt = true }), bus3)
            (elim (Bool-cases b) [ inl p ↦ rw p (refl, refl) | inr p ↦ rw p (refl, refl) ]) in
      bind-Gives P _ _ (λ flags. bind-Gives P _ _ (λ index. if-Gives P _ _ _ (none-Gives P) (
        bind-Gives P _ _ (λ bus1. bind-Gives P _ _ (λ bus2.
          bind-Gives P _ _ (λ index'. bind-Gives P _ _ (λ bus3. kept (has_bit flags 0) bus3)))))))

  module _ (handle : List Buffer → S → Bus → Option (Bool × ℕ × S × Bus)) (fuel : ℕ) (count : S → ℕ)
      (counts : (buffers : List Buffer) (s : S) (bus : Bus)
        → Gives (λ answer. count answer.2 ≡ count s + 1) (handle buffers s bus)) where
    -- One turn moves the index on by one and calls the handler once.
    serve_one-Leaves :
        (queue_index : ℕ) (v : Virtio S) (bus : Bus)
        → Leaves
            (λ after.
              (last_index queue_index after.0 ≡ u16 (last_index queue_index v + 1))
              × (count after.0.device ≡ count v.device + 1))
            (serve_one handle fuel queue_index v bus)
    unfolding serve_one advance_queue
    serve_one-Leaves queue_index v bus =
        let P : Virtio S × Bus → Type 0 = λ after.
          (last_index queue_index after.0 ≡ u16 (last_index queue_index v + 1))
          × (count after.0.device ≡ count v.device + 1) in
        let self : (queue_index == queue_index) ≡ true = ground arith in
        let advanced : Virtio S × Bus → Outcome (Virtio S × Bus) =
          λ after. returns (advance_queue queue_index after.0, after.1) in
        if-Leaves P _ _ _ (ends-Leaves P fails) (
          bind-Leaves P _ _ (λ desc_index. bind-Leaves P _ _ (λ d.
            if-Leaves P _ _ _ (ends-Leaves P fails) (
              bind-Leaves P _ _ (λ buffers.
                from-Leaves (λ answer. count answer.2 ≡ count v.device + 1) P
                  (handle buffers v.device bus) _ (counts buffers v.device bus)
                  (λ answer counted.
                    let v1 : Virtio S = record v { device = answer.2 } in
                    let Q : Virtio S × Bus → Type ℓ = λ after.
                      (after.0.virt_queues ≡ v.virt_queues) × (after.0.device ≡ answer.2) in
                    from-Leaves Q P _ advanced
                      (if-Gives Q answer.0 _ _
                        (done-keeps answer.1 queue_index desc_index v1 answer.3)
                        (some-Gives Q (v1, answer.3) (refl, refl)))
                      (λ after same.
                        returns-Leaves P (advance_queue queue_index after.0, after.1)
                          (
                            rw (self, last_index)
                                (ap (λ f. u16 ((f queue_index).last_avail_index + 1)) same.0),
                            ap count same.1 ∙ counted,
                          ))))))))

    -- What a call of notify_queue comes to: all waiting requests are served, or the one after the first
    -- `number` of them ends the call.
    pub data Served (avail_index queue_index : ℕ) (v : Virtio S) (r : Outcome (Virtio S × Bus))
        : Type ℓ where
      finished :
          (v' : Virtio S) (bus' : Bus)
          → r ≡ returns (v', bus')
          → last_index queue_index v' ≡ avail_index
          → count v'.device ≡ count v.device + waiting avail_index (last_index queue_index v)
          → Served avail_index queue_index v r
      stopped :
          (number : ℕ) (v' : Virtio S) (bus' : Bus) (s : Stop)
          → number < waiting avail_index (last_index queue_index v)
          → last_index queue_index v' ≡ u16 (last_index queue_index v + number)
          → count v'.device ≡ count v.device + number
          → serve_one handle fuel queue_index v' bus' ≡ ends s
          → r ≡ ends s
          → Served avail_index queue_index v r

    step-Served :
        (avail_index queue_index : ℕ) (v v1 : Virtio S) (r : Outcome (Virtio S × Bus))
        → last_index queue_index v < 2 ^ 16
        → avail_index < 2 ^ 16
        → last_index queue_index v ≢ avail_index
        → last_index queue_index v1 ≡ u16 (last_index queue_index v + 1)
        → count v1.device ≡ count v.device + 1
        → Served avail_index queue_index v1 r
        → Served avail_index queue_index v r
    step-Served avail_index queue_index v v1 r k a differ moved counted
          (Served.finished v' bus' e l c) =
        Served.finished v' bus' e l (omega (arith, moved, counted, c))
    step-Served avail_index queue_index v v1 r k a differ moved counted
          (Served.stopped number v' bus' s lt l c one e) =
        Served.stopped (number + 1) v' bus' s (omega (arith, moved)) (omega (arith, moved, l))
          (omega (arith, counted, c)) one e

    turn-Served :
        (avail_index queue_index : ℕ) (v : Virtio S) (bus : Bus)
        (rest : Virtio S × Bus → Outcome (Virtio S × Bus)) (o : Outcome (Virtio S × Bus))
        → serve_one handle fuel queue_index v bus ≡ o
        → last_index queue_index v < 2 ^ 16
        → avail_index < 2 ^ 16
        → last_index queue_index v ≢ avail_index
        → Leaves
            (λ after.
              (last_index queue_index after.0 ≡ u16 (last_index queue_index v + 1))
              × (count after.0.device ≡ count v.device + 1))
            o
        → ((after : Virtio S × Bus)
            → last_index queue_index after.0 ≡ u16 (last_index queue_index v + 1)
            → Served avail_index queue_index after.0 (rest after))
        → Served avail_index queue_index v (o >-> rest)
    unfolding ◌>->◌
    turn-Served avail_index queue_index v bus rest (ends s) one k a differ facts tail =
        Served.stopped 0 v bus s (omega arith) (omega arith) (omega arith) one refl
    turn-Served avail_index queue_index v bus rest (returns after) one k a differ facts tail =
        let (moved, counted) = facts after refl in
        step-Served avail_index queue_index v after.0 (rest after) k a differ moved counted
          (tail after moved)

    serve-Served :
        (n avail_index queue_index : ℕ) (v : Virtio S) (bus : Bus)
        → last_index queue_index v < 2 ^ 16
        → avail_index < 2 ^ 16
        → waiting avail_index (last_index queue_index v) ≤ n
        → Served avail_index queue_index v (serve handle fuel n avail_index queue_index v bus)
    unfolding serve
    serve-Served zero avail_index queue_index v bus k a enough =
        let same : last_index queue_index v ≡ avail_index = omega arith in
        let test : (last_index queue_index v == avail_index) ≡ true = ground arith in
        rw test (Served.finished v bus refl same (omega arith))
    serve-Served (suc n) avail_index queue_index v bus k a enough =
        elim (Bool-cases (last_index queue_index v == avail_index)) [
          | inl p ↦
              let same : last_index queue_index v ≡ avail_index = ground arith in
              rw p (Served.finished v bus refl same (omega arith))
          | inr p ↦
              let differ : last_index queue_index v ≢ avail_index = ground arith in
              let rest : Virtio S × Bus → Outcome (Virtio S × Bus) =
                λ after. serve handle fuel n avail_index queue_index after.0 after.1 in
              rw p (
                turn-Served avail_index queue_index v bus rest
                  (serve_one handle fuel queue_index v bus) refl k a differ
                  (serve_one-Leaves queue_index v bus)
                  (λ after moved.
                    serve-Served n avail_index queue_index after.0 after.1 (omega (arith, moved)) a
                      (omega (arith, moved))))
        ]

    -- notify_queue, on a queue of the device whose two rings are in memory, with a handler that counts its calls
    -- in the device: either it returns, and then it has called the handler exactly once for each request that
    -- was waiting (the index of the available ring less the queue's last index, modulo 2^16) and the last index
    -- is the index of the ring; or it has done so for the first `number` of them, fewer than all, and ends the
    -- way the turn of the next one ends. So the bound on the turns is never what ends it.
    pub notify_queue-Served :
        (queue_index avail_index : ℕ) (v : Virtio S) (bus : Bus) (avail desc : MemoryBlock)
        → queue_index < v.queue_count
        → last_index queue_index v < 2 ^ 16
        → Bus.get_ptr (v.virt_queues queue_index).p_avail bus ≡ some avail
        → Bus.get_ptr (v.virt_queues queue_index).p_desc bus ≡ some desc
        → load bus (v.virt_queues queue_index).p_avail 2 2 ≡ some avail_index
        → Served avail_index queue_index v (notify_queue handle fuel queue_index v bus)
    unfolding notify_queue ◌>->◌ from
    notify_queue-Served queue_index avail_index v bus avail desc inside k a d l =
        let below : ltb v.queue_count queue_index ≡ false = ground arith in
        let other : (queue_index == v.queue_count) ≡ false = ground arith in
        let small : avail_index < 2 ^ 16 =
          omega (arith, load-lt bus (v.virt_queues queue_index).p_avail 2 2 avail_index l) in
        rw (below, other, notify_queue)
          (rw (a, notify_queue)
            (rw (l, notify_queue)
              (rw (d, notify_queue)
                (serve-Served (2 ^ 16) avail_index queue_index v bus k small (omega arith)))))
