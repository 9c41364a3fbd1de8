-- ===== src/Device/Uart/Inv.antt =====
-- The receive queue of uart.cpp never outgrows BUFFER_SIZE, and the data-ready bit of the line
-- status register tells whether the queue holds a byte.
use kxemu.Base.Shared.{
  ℕ, ◌≤◌, bit_and, bit_or, ◌≡◌, refl, arith, Bool, true, false, List, [], ◌∷◌, ◌++◌, length,
  length-append, some,
}
use kxemu.Base.Bits.{bit_at, bit_at-lt, bit_at-and, bit_at-or}
use kxemu.Base.Word.{u8, has_bit, has_bit_digit, not64, bit_at-not64}
use kxemu.Device.Uart.{
  Uart, rx_ready, tx_ready, clear_lsr, set_lsr, initial, read_rbr, read, send_byte, write_fcr,
  write, clear_interrupt, putch, recv_byte, recv_bytes, Poll, update, set_output_stream,
  open_socket, received,
}

abbrev pub is_nonempty : List ℕ → Bool
is_nonempty [] = false
is_nonempty (_ ∷ _) = true

pub record IsValid (u : Uart) : Type 0 where
  pub bounded : length u.queue ≤ 1024
  pub ready : has_bit u.lsr 0 ≡ is_nonempty u.queue

low_bit_u8 : (x : ℕ) → bit_at (u8 x) 0 ≡ bit_at x 0
unfolding bit_at
low_bit_u8 x = omega arith

one_digit : (bit_at 1 0 ≡ 1) × (bit_at 32 0 ≡ 0)
unfolding bit_at
one_digit = (refl, refl)

pub has_bit-set_rx : (l : ℕ) → has_bit (set_lsr l rx_ready) 0 ≡ true
has_bit-set_rx l = ground (
  arith,
  has_bit_digit (set_lsr l rx_ready) 0,
  low_bit_u8 (bit_or l 1),
  bit_at-or l 1 0,
  one_digit,
  bit_at-lt l 0,
)

pub has_bit-set_tx : (l : ℕ) → has_bit (set_lsr l tx_ready) 0 ≡ has_bit l 0
has_bit-set_tx l = ground (
  arith,
  has_bit_digit (set_lsr l tx_ready) 0,
  has_bit_digit l 0,
  low_bit_u8 (bit_or l 32),
  bit_at-or l 32 0,
  one_digit,
)

pub has_bit-clear_rx : (l : ℕ) → has_bit (clear_lsr l rx_ready) 0 ≡ false
has_bit-clear_rx l = ground (
  arith,
  has_bit_digit (clear_lsr l rx_ready) 0,
  low_bit_u8 (bit_and l (not64 1)),
  bit_at-and l (not64 1) 0,
  bit_at-not64 1 0,
  one_digit,
)

nonempty-snoc : (q : List ℕ) (c : ℕ) → is_nonempty (q ++ (c ∷ [])) ≡ true
nonempty-snoc [] c = refl
nonempty-snoc (x ∷ q) c = refl

initial-IsValid : (msr : ℕ) (i : Bool) → IsValid (initial msr i)
unfolding initial has_bit
initial-IsValid msr i = record { bounded = omega arith; ready = refl }

recv_byte-IsValid : (c : ℕ) (u : Uart) → IsValid u → IsValid (recv_byte c u)
unfolding recv_byte
recv_byte-IsValid c u v =
    ground (arith, length-append u.queue (c ∷ []), has_bit-set_rx u.lsr, nonempty-snoc u.queue c)

recv_bytes-IsValid : (cs : List ℕ) (u : Uart) → IsValid u → IsValid (recv_bytes cs u)
unfolding recv_bytes
recv_bytes-IsValid [] u v = v
recv_bytes-IsValid (c ∷ cs) u v = recv_bytes-IsValid cs (recv_byte c u) (recv_byte-IsValid c u v)

putch-IsValid : (c : ℕ) (u : Uart) → IsValid u → IsValid (putch c u).1
unfolding putch
putch-IsValid c u v =
    ground (arith, length-append u.queue (c ∷ []), has_bit-set_rx u.lsr, nonempty-snoc u.queue c)

read_rbr-IsValid : (u : Uart) → IsValid u → IsValid (read_rbr u).1
unfolding read_rbr
read_rbr-IsValid u v = ground (arith, has_bit-clear_rx u.lsr)

read-IsValid : (offset size : ℕ) (u : Uart) → IsValid u → IsValid (read offset size u).1
unfolding read
read-IsValid offset size u v = ground (arith, read_rbr-IsValid u v)

send_byte-IsValid : (c : ℕ) (u : Uart) → IsValid u → IsValid (send_byte c u)
unfolding send_byte
send_byte-IsValid c u v = ground arith

write_fcr-IsValid : (value : ℕ) (u : Uart) → IsValid u → IsValid (write_fcr value u)
unfolding write_fcr
write_fcr-IsValid value u v = ground (arith, has_bit-clear_rx u.lsr)

write-IsValid :
    (offset value size : ℕ) (u : Uart) → IsValid u → IsValid (write offset value size u).1
unfolding write
write-IsValid offset value size u v =
    ground (arith, write_fcr-IsValid value u v, send_byte-IsValid (u8 value) u v)

update-IsValid : (p : Poll) (u : Uart) → IsValid u → IsValid (update p u)
unfolding update
update-IsValid (received bytes) u v = ground (arith, recv_bytes-IsValid bytes u v)
update-IsValid p u v = ground arith

set_output_stream-IsValid : (u u' : Uart) → IsValid u → set_output_stream u ≡ some u' → IsValid u'
unfolding set_output_stream
set_output_stream-IsValid u u' v h = ground (arith, has_bit-set_tx u.lsr)

open_socket-IsValid :
    (connected b : Bool) (u u' : Uart)
    → IsValid u
    → open_socket connected u ≡ some (b, u')
    → IsValid u'
unfolding open_socket
open_socket-IsValid connected b u u' v h = ground (arith, has_bit-set_tx u.lsr)

-- One call of any public method.
pub data Step : Uart → Uart → Type 0 where
  reads : (offset size : ℕ) (u : Uart) → Step u (read offset size u).1
  writes : (offset value size : ℕ) (u : Uart) → Step u (write offset value size u).1
  puts : (c : ℕ) (u : Uart) → Step u (putch c u).1
  polls : (p : Poll) (u : Uart) → Step u (update p u)
  clears : (u : Uart) → Step u (clear_interrupt u)
  streams : {u u' : Uart} → set_output_stream u ≡ some u' → Step u u'
  connects : {u u' : Uart} (connected b : Bool) → open_socket connected u ≡ some (b, u') → Step u u'

pub data Reach : Uart → Type 0 where
  start : (msr : ℕ) (i : Bool) → Reach (initial msr i)
  next : {u u' : Uart} → Reach u → Step u u' → Reach u'

Step-IsValid : {u u' : Uart} → Step u u' → IsValid u → IsValid u'
unfolding clear_interrupt
Step-IsValid (reads offset size u) v = read-IsValid offset size u v
Step-IsValid (writes offset value size u) v = write-IsValid offset value size u v
Step-IsValid (puts c u) v = putch-IsValid c u v
Step-IsValid (polls p u) v = update-IsValid p u v
Step-IsValid (clears u) v = record { bounded = v.bounded; ready = v.ready }
Step-IsValid (streams h) v = set_output_stream-IsValid _ _ v h
Step-IsValid (connects connected b h) v = open_socket-IsValid connected b _ _ v h

-- After any sequence of calls from construction on, whatever the system answers: the queue holds
-- at most 1024 bytes, and bit 0 of the line status register is set exactly when it holds one.
pub Reach-IsValid : {u : Uart} → Reach u → IsValid u
Reach-IsValid (start msr i) = initial-IsValid msr i
Reach-IsValid (next r s) = Step-IsValid s (Reach-IsValid r)
