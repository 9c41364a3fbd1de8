-- ===== src/Riscv/Plic/Tests.antt =====
-- The interrupt controller of one core with two serial ports, and each theorem on it.
use kxemu.Base.Shared.{
  ℕ, ◌+◌, ◌*◌, ◌≡◌, refl, arith, true, false, ltb, ◌==◌, if◌then◌else◌, [], ◌∷◌, none, some, inl,
  ◌^◌,
}
use kxemu.Base.Bits.{bit_at}
use kxemu.Device.Mmio.{uart, interrupt_pending}
use kxemu.Device.Uart
use kxemu.Device.Uart.{stream}
use kxemu.Device.Bus.{Bus, MmioMapBlock}
use kxemu.Riscv.Signal.{raise, quiet}
use kxemu.Riscv.Plic.{
  Plic, consider, scan_maps, clear_at, claim_scanned, context_of, scan_and_set_interrupt,
  external_code, set_target, set_source, plic_enable, read, write,
}
use kxemu.Riscv.Plic.Claim.{IsBest, scan_and_set_interrupt-IsBest}
use kxemu.Riscv.Plic.Serve.{last_pending, scan_serves, scan_clears_last}
use kxemu.Riscv.Plic.Enable.{read-write-enable}

abbrev port : ℕ → ℕ → MmioMapBlock
port start id = record {
  start = start;
  size = 8;
  id = id;
  dev = uart (record {
    mode = stream;
    queue = [];
    sent = [];
    lsb = 0;
    msb = 0;
    ier = 1;
    iir = 0xc1;
    lcr = 3;
    lsr = 0x20;
    msr = 0;
    interrupt = true;
    recv_fifo_trigger = 1;
  });
}

-- Both ports have an interrupt pending.
abbrev ports : Bus
ports = record { memory_maps = []; mmio_maps = port 0x1000_0000 10 ∷ port 0x1000_1000 11 ∷ [] }

-- Source 10 has the priority 7, the others 3; context 0 is that of core 0 in M-mode.
abbrev controller : Plic
controller = record {
  interrupt_sources =
      λ i. record { priority = if i == 10 then 7 else 3; pending = false; enable = λ j. true };
  target_contexts = λ i. record { threshold = 1; claim = 0; core = some 0 };
}

-- What the scan makes of them: source 10 is claimed, and the port of source 11 is cleared.
abbrev scanned : Plic
scanned = record controller {
  interrupt_sources = λ i.
      if i == 11
      then record { priority = 3; pending = true; enable = λ j. true }
      else if i == 10
      then record { priority = 7; pending = true; enable = λ j. true }
      else controller.interrupt_sources i;
  target_contexts = λ i.
      if i == 0
      then record { threshold = 1; claim = 10; core = some 0 }
      else controller.target_contexts i;
}

abbrev cleared : Bus
cleared = record ports { mmio_maps = clear_at 1 ports.mmio_maps }

ports_scanned : scan_and_set_interrupt 0 3 controller ports ≡ some (scanned, cleared, raise 0 11)
unfolding interrupt_pending Uart.interrupt_pending scan_and_set_interrupt scan_maps consider
    claim_scanned set_target set_source context_of external_code
ports_scanned = refl

scan_and_set_interrupt-IsBest_example :
    IsBest controller
      (context_of 0 3)
      ports.mmio_maps
      (scanned.target_contexts (context_of 0 3)).claim
    × ((controller.target_contexts (context_of 0 3)).core ≡ some 0)
    × (11 ≡ external_code (context_of 0 3))
scan_and_set_interrupt-IsBest_example =
    scan_and_set_interrupt-IsBest 0 3 controller ports scanned cleared 0 11 ports_scanned

scan_clears_last_example :
    (place : ℕ) × (last_pending 0 ports.mmio_maps none ≡ some place)
    × (cleared.mmio_maps ≡ clear_at place ports.mmio_maps)
scan_clears_last_example = scan_clears_last 0 3 controller ports scanned cleared 0 11 ports_scanned

scan_serves_example :
    (plic' : Plic) × (bus' : Bus) × (scan_and_set_interrupt 0 3 controller ports
      ≡ some (plic', bus', raise 0 (external_code (context_of 0 3))))
unfolding context_of interrupt_pending Uart.interrupt_pending
scan_serves_example =
    scan_serves 0 3 0 controller ports (omega arith) refl refl
      ((λ p. (omega arith, omega arith)), ((λ p. (omega arith, omega arith)), refl)) (inl refl)

read-write-enable_example :
    (plic' : Plic) × (word : ℕ) × (write (plic_enable + 0x80 * 1) 0x8000_0400 4 controller
      ≡ some (true, plic', quiet))
    × (read (plic_enable + 0x80 * 1) 4 plic' ≡ some (some word))
    × (bit_at word 10 ≡ bit_at 0x8000_0400 10)
    × (bit_at word 31 ≡ (if ltb 0x8000_0400 (2 ^ 31) then 0 else 1))
read-write-enable_example =
    read-write-enable 1 0x8000_0400 10 controller (omega arith) (omega arith) (omega arith)
