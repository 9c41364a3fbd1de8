-- ===== src/Device/Uart/Fifo.antt =====
-- What a guest reads from the receive register of uart.cpp against what the line delivered, and
-- when the device raises its interrupt.
use kxemu.Base.Shared.{
  ℕ, zero, suc, ◌+◌, ◌-◌, ◌≤◌, ◌<◌, ◌≡◌, refl, ap, ◌∙◌, arith, false, ◌&&◌, ◌||◌, ltb, leb,
  if◌then◌else◌, List, [], ◌∷◌, ◌++◌, length, length-append, Option, some,
}
use mathlib.Core.List.{append_assoc, append-nil}
use kxemu.Base.Word.{has_bit}
use kxemu.Device.Uart.{Uart, buffer_size, read_rbr, read, recv_byte, recv_bytes, dlab}

abbrev pub take : ℕ → List ℕ → List ℕ
take zero xs = []
take (suc n) [] = []
take (suc n) (x ∷ xs) = x ∷ take n xs

take-ge : (n : ℕ) (xs : List ℕ) → length xs ≤ n → take n xs ≡ xs
take-ge zero [] h = refl
take-ge zero (x ∷ xs) h = absurd (omega arith)
take-ge (suc n) [] h = refl
take-ge (suc n) (x ∷ xs) h = ap (λ t. x ∷ t) (take-ge n xs (omega arith))

take-pos : (n x : ℕ) (xs : List ℕ) → 0 < n → take n (x ∷ xs) ≡ x ∷ take (n - 1) xs
take-pos zero x xs h = absurd (omega arith)
take-pos (suc n) x xs h = ap (λ k. x ∷ take k xs) (omega arith)

queue-recv_byte :
    (c : ℕ) (u : Uart)
    → (recv_byte c u).queue
      ≡ (if leb buffer_size (length u.queue) then u.queue else u.queue ++ (c ∷ []))
unfolding recv_byte
queue-recv_byte c u = ground arith

lcr-recv_bytes : (cs : List ℕ) (u : Uart) → (recv_bytes cs u).lcr ≡ u.lcr
unfolding recv_bytes recv_byte
lcr-recv_bytes [] u = refl
lcr-recv_bytes (c ∷ cs) u = ground (arith, lcr-recv_bytes cs (recv_byte c u))

take-full : (n : ℕ) (xs : List ℕ) → n ≡ 0 → take n xs ≡ []
take-full zero xs h = refl
take-full (suc n) xs h = absurd (omega arith)

-- A batch of received bytes joins the queue in order, up to the room that is left of 1024
-- bytes; the rest is lost.
pub queue-recv_bytes :
    (cs : List ℕ) (u : Uart) → (recv_bytes cs u).queue ≡ u.queue ++ take (1024 - length u.queue) cs
unfolding recv_bytes
queue-recv_bytes [] u = ground (arith, append-nil u.queue, take_nil (buffer_size - length u.queue))
  where
    take_nil : (n : ℕ) → take n [] ≡ []
    take_nil zero = refl
    take_nil (suc n) = refl
queue-recv_bytes (c ∷ cs) u = ground (
  arith,
  queue-recv_bytes cs (recv_byte c u),
  queue-recv_byte c u,
  length-append u.queue (c ∷ []),
  append-nil u.queue,
  append_assoc u.queue (c ∷ []) (take (buffer_size - length u.queue - 1) cs),
  take-pos (buffer_size - length u.queue) c cs,
  take-full (buffer_size - length u.queue) (c ∷ cs),
  take-full (buffer_size - length u.queue) cs,
)

-- `n` reads of one byte at offset 0, with what each returned
pub drain : ℕ → Uart → List (Option ℕ) × Uart
drain zero u = ([], u)
drain (suc n) u = let (v, u') = read 0 1 u in let (vs, u'') = drain n u' in (v ∷ vs, u'')

abbrev pub all_some : List ℕ → List (Option ℕ)
all_some [] = []
all_some (x ∷ xs) = some x ∷ all_some xs

drain-queue :
    (q : List ℕ) (u : Uart)
    → dlab u ≡ false
    → u.queue ≡ q
    → ((drain (length q) u).0 ≡ all_some q) × ((drain (length q) u).1.queue ≡ [])
unfolding drain
drain-queue [] u l h = (refl, h)
drain-queue (c ∷ q) u l h = ground (arith, read_front, drain-queue q (read 0 1 u).1)
  where
    read_front :
        ((read 0 1 u).0 ≡ some c) × ((read 0 1 u).1.queue ≡ q) × (dlab (read 0 1 u).1 ≡ false)
    read_front = unfold read read_rbr in (ground arith, ground arith, ground arith)

-- On a device with an empty queue and the divisor latch off, a batch of at most 1024 received bytes
-- is read back through the receive register byte for byte, and leaves the queue empty.
pub drain-recv_bytes :
    (cs : List ℕ) (u : Uart)
    → dlab u ≡ false
    → u.queue ≡ []
    → length cs ≤ 1024
    → ((drain (length cs) (recv_bytes cs u)).0 ≡ all_some cs)
      × ((drain (length cs) (recv_bytes cs u)).1.queue ≡ [])
drain-recv_bytes cs u l e h =
    drain-queue cs (recv_bytes cs u) (ap (λ t. has_bit t 7) (lcr-recv_bytes cs u) ∙ l) (
      queue-recv_bytes cs u
      ∙ ap (λ q. q ++ take (buffer_size - length q) cs) e
      ∙ take-ge buffer_size cs h)

-- A received byte raises the interrupt exactly when it is not dropped, the trigger level is
-- reached with it, and the received-data interrupt is enabled; the identification register then
-- says so. Otherwise both stay as they were.
pub recv_byte-interrupt :
    (c : ℕ) (u : Uart)
    → let raised =
        ltb (length u.queue) buffer_size
        && leb u.recv_fifo_trigger (length u.queue + 1)
        && has_bit u.ier 0 in
      ((recv_byte c u).interrupt ≡ (raised || u.interrupt))
      × ((recv_byte c u).iir ≡ (if raised then 0b11000010 else u.iir))
unfolding recv_byte
recv_byte-interrupt c u = (ground arith, ground arith)
