-- ===== src/Device/Uart.antt =====
-- class Uart16650 of src/device/uart.cpp and include/device/uart.hpp.
-- The mutexes are held for whole operations and have no state here. What the operating system
-- answers enters as an argument. `sent` holds the bytes given to the stream, to standard output or
-- to the socket, in order.
pub mod Inv
pub mod Fifo
mod Tests
use kxemu.Base.Shared.{
  ℕ, ◌+◌, ◌-◌, ◌*◌, ◌^◌, ◌/◌, bit_and, bit_or, Bool, true, false, not, ◌&&◌, ◌==◌, leb,
  if◌then◌else◌, List, [], ◌∷◌, ◌++◌, length, Option, none, some,
}
use kxemu.Base.Word.{u8, has_bit, not64, ◌>>>◌}

pub data Mode : Type 0 where
  none_mode stream socket : Mode

pub record Uart : Type 0 where
  pub mode : Mode
  pub queue : List ℕ
  pub sent : List ℕ
  pub lsb : ℕ
  pub msb : ℕ
  pub ier : ℕ
  pub iir : ℕ
  pub lcr : ℕ
  pub lsr : ℕ
  pub msr : ℕ
  pub interrupt : Bool
  pub recv_fifo_trigger : ℕ

abbrev pub buffer_size : ℕ
buffer_size = 1024

-- LSR_RX_READY is bit 0 and LSR_TX_READY bit 5 of the line status register.
abbrev pub rx_ready : ℕ
rx_ready = 1

abbrev pub tx_ready : ℕ
tx_ready = 32

-- `lsr &= ~mask` and `lsr |= mask` on a `uint8_t`
abbrev pub clear_lsr : ℕ → ℕ → ℕ
clear_lsr lsr mask = u8 (bit_and lsr (not64 mask))

abbrev pub set_lsr : ℕ → ℕ → ℕ
set_lsr lsr mask = u8 (bit_or lsr mask)

-- The initial values of the members; the class gives `msr` and `interrput` none, so they are
-- arguments.
pub initial : ℕ → Bool → Uart
initial msr interrupt = record {
  mode = none_mode;
  queue = [];
  sent = [];
  lsb = 0;
  msb = 0;
  ier = 0;
  iir = 0b11000001;
  lcr = 0b00000011;
  lsr = 0b00100000;
  msr = msr;
  interrupt = interrupt;
  recv_fifo_trigger = 1;
}

-- A read returns `-1` where it has no value.
abbrev pub minus_one : ℕ
minus_one = 2 ^ 64 - 1

-- `none` as a value is an invalid access. The whole of the RBR read.
pub read_rbr : Uart → ℕ × Uart
read_rbr u = elim u.queue [
  | [] ↦ (minus_one, u)
  | c ∷ rest ↦ (
    c,
    record u {
      queue = rest;
      iir = if has_bit u.ier 0 && (bit_and u.iir 0b00111111 == 0b10) then 0b11000000 else u.iir;
      lsr = elim rest [ [] ↦ clear_lsr u.lsr rx_ready | _ ∷ _ ↦ u.lsr ];
    },
  )
]

abbrev pub dlab : Uart → Bool
dlab u = has_bit u.lcr 7

-- `none` stands for `valid = false`.
pub read : ℕ → ℕ → Uart → Option ℕ × Uart
read offset size u =
    if not (size == 1)
    then (none, u)
    else if offset == 0
    then (if dlab u then (some u.lsb, u) else (let (v, u') = read_rbr u in (some v, u')))
    else if offset == 1
    then (some (if dlab u then u.msb else u.ier), u)
    else if offset == 2
    then (some u.iir, u)
    else if offset == 3
    then (some u.lcr, u)
    else if offset == 5
    then (some u.lsr, u)
    else if offset == 6
    then (some u.msr, u)
    else (none, u)

-- A failed `send` is only reported, so the byte counts as sent whatever the system answers.
pub send_byte : ℕ → Uart → Uart
send_byte c u = elim u.mode [ none_mode ↦ u | _ ↦ record u { sent = u.sent ++ (c ∷ []) } ]

abbrev pub trigger_level : ℕ → ℕ
trigger_level value =
    let level = bit_and value 0b11000000 >>> 6 in
    if level == 0 then 1 else if level == 1 then 4 else if level == 2 then 8 else 14

-- FCR: bit 1 empties the receive queue, bits 6 and 7 choose the trigger level.
pub write_fcr : ℕ → Uart → Uart
write_fcr value u =
    if has_bit value 1
    then record u {
      queue = [];
      lsr = clear_lsr u.lsr rx_ready;
      recv_fifo_trigger = trigger_level value;
    }
    else record u { recv_fifo_trigger = trigger_level value }

pub write : ℕ → ℕ → ℕ → Uart → Bool × Uart
write offset value size u =
    if not (size == 1)
    then (false, u)
    else if offset == 0
    then (true, if dlab u then record u { lsb = u8 value } else send_byte (u8 value) u)
    else if offset == 1
    then (true, if dlab u then record u { msb = u8 value } else record u { ier = u8 value })
    else if offset == 2
    then (true, write_fcr value u)
    else if offset == 3
    then (true, record u { lcr = u8 value })
    else (true, u)

unfoldable pub interrupt_pending : Uart → Bool
interrupt_pending u = u.interrupt

pub clear_interrupt : Uart → Uart
clear_interrupt u = record u { interrupt = false }

-- A byte that finds the queue full is refused.
pub putch : ℕ → Uart → Bool × Uart
putch c u =
    if leb buffer_size (length u.queue)
    then (false, u)
    else (true, record u { queue = u.queue ++ (c ∷ []); lsr = set_lsr u.lsr rx_ready })

pub recv_byte : ℕ → Uart → Uart
recv_byte c u =
    if leb buffer_size (length u.queue)
    then u
    else (let raise = leb u.recv_fifo_trigger (length u.queue + 1) && has_bit u.ier 0 in
        record u {
          queue = u.queue ++ (c ∷ []);
          lsr = set_lsr u.lsr rx_ready;
          iir = if raise then 0b11000010 else u.iir;
          interrupt = if raise then true else u.interrupt;
        })

-- `recv_byte` on each byte of the buffer in turn
pub recv_bytes : List ℕ → Uart → Uart
recv_bytes [] u = u
recv_bytes (c ∷ cs) u = recv_bytes cs (recv_byte c u)

-- What `select` and `read` answer: an error, nothing to read, a failed read, or up to 64 bytes.
pub data Poll : Type 0 where
  select_failed idle read_failed : Poll
  received : List ℕ → Poll

pub update : Poll → Uart → Uart
update p u = elim u.mode [
  | socket ↦ elim p [
    | select_failed ↦ u
    | idle ↦ u
    | read_failed ↦ record u { mode = none_mode }
    | received bytes ↦ recv_bytes bytes u
  ]
  | _ ↦ u
]

-- `none` is PANIC, which ends the program.
pub set_output_stream : Uart → Option Uart
set_output_stream u = elim u.mode [
  | socket ↦ none
  | _ ↦ some (record u { mode = stream; lsr = set_lsr u.lsr tx_ready })
]

-- The first argument tells whether the sending socket could be opened.
pub open_socket : Bool → Uart → Option (Bool × Uart)
open_socket connected u = elim u.mode [
  | none_mode ↦ some (
      if connected
      then (true, record u { mode = socket; lsr = set_lsr u.lsr tx_ready })
      else (false, u))
  | _ ↦ none
]
