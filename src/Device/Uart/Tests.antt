-- ===== src/Device/Uart/Tests.antt =====
-- Runs of the model of uart.cpp, and the theorems at concrete devices.
use kxemu.Base.Shared.{ℕ, ◌≡◌, refl, arith, false, List, [], ◌∷◌, some}
use kxemu.Base.Word.{has_bit}
use kxemu.Device.Uart.{
  Uart, stream, initial, read, read_rbr, write, write_fcr, recv_byte, recv_bytes, send_byte,
}
use kxemu.Device.Uart.Inv.{IsValid, start, next, reads, Reach-IsValid}
use kxemu.Device.Uart.Fifo.{drain, drain-recv_bytes, queue-recv_bytes}

abbrev fresh : Uart
fresh = record {
  mode = stream;
  queue = [];
  sent = [];
  lsb = 0;
  msb = 0;
  ier = 1;
  iir = 0b11000001;
  lcr = 3;
  lsr = 0b00100000;
  msr = 0;
  interrupt = false;
  recv_fifo_trigger = 1;
}

abbrev hello : List ℕ
hello = 104 ∷ 105 ∷ []

-- Reading an empty queue gives -1; a byte comes back, and the ready bit falls.
read_empty : (read 0 1 fresh).0 ≡ some 0xffff_ffff_ffff_ffff
unfolding read read_rbr has_bit
read_empty = refl

read_one : (read 0 1 (recv_byte 7 fresh)).0 ≡ some 7
unfolding read read_rbr recv_byte has_bit
read_one = refl

lsr_after : (read 5 1 (recv_byte 7 fresh)).0 ≡ some 0b00100001
unfolding read recv_byte has_bit
lsr_after = refl

fcr_clears : (write 2 0b11000010 1 (recv_byte 7 fresh)).1.queue ≡ []
unfolding write write_fcr recv_byte has_bit
fcr_clears = refl

sends : (write 0 65 1 fresh).1.sent ≡ 65 ∷ []
unfolding write send_byte has_bit
sends = refl

Reach-IsValid_example : IsValid (read 0 1 (initial 0 false)).1
Reach-IsValid_example = Reach-IsValid (next (start 0 false) (reads 0 1 (initial 0 false)))

drain-recv_bytes_example :
    ((drain 2 (recv_bytes hello fresh)).0 ≡ some 104 ∷ some 105 ∷ [])
    × ((drain 2 (recv_bytes hello fresh)).1.queue ≡ [])
unfolding has_bit
drain-recv_bytes_example = drain-recv_bytes hello fresh refl refl (omega arith)

queue-recv_bytes_example : (recv_bytes hello fresh).queue ≡ 104 ∷ 105 ∷ []
queue-recv_bytes_example = queue-recv_bytes hello fresh
