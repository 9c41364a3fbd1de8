-- ===== src/Lib.antt =====
-- KXemu: the RISC-V core of the emulator and the devices it reaches over its bus.
--
-- The modelled build is riscv64 (KXEMU_ISA64) without CONFIG_DEBUG (so `Assert` does nothing),
-- without CONFIG_HALT_WHEN_* and CONFIG_DEBUG_DECODER, with the lookaside buffer of 32 sets and
-- without the instruction cache. PANIC exits the program and is a result of its own, `panic`; what
-- C++ leaves undefined (std::unreachable, a division that traps on the host, a shift past the width, an
-- access past the array of a memory block) is `undefined`, on the bus `outside`. Words are numbers, cut to their width where the source does so. Signed overflow of
-- `int` wraps, as on the hosts; stores are little-endian.
--
-- The parts. A core (class RVCore) executes instructions on its registers and on a CSR file (class
-- RVCSR); loads, stores and page table walks go over the bus (class Bus) to memory blocks or to
-- mapped devices. A function that may throw TrapException maps the core to a result and the core it
-- leaves: what was changed before the throw stays changed. Writing some CSRs calls back into the core.
--
--   Base      shared names, Boolean tests, lists, integers; the digits of numbers under `&`, `|`, `^`,
--             `~` and shifts (Bits, Digits), machine words (Word) and casts to signed types (Signed)
--   Utils.TaskTimer
--             src/utils/task-timer/task-timer.cpp: the queue of timed tasks and the turns of its thread
--   Device    src/device: Uart (uart.cpp: registers, receive queue, polling), Bus (bus.cpp: the maps)
--             with Block (a memory block) and Mmio (what a mapped device answers),
--             Virtio (virtio/virtio.cpp: registers, status, features and, in
--             Queue, the rings of requests;
--             virtio/block.cpp is in Block)
--   Riscv.Def, Riscv.Field
--             include/cpu/riscv/def.hpp and csr-field.hpp: addresses, codes and the fields of CSRs
--   Riscv.Csr src/cpu/riscv/csr: the table of registers, their read and write functions, PMP regions
--   Riscv.Core
--             include/cpu/riscv/core.hpp, src/cpu/riscv/core.cpp and privileged/csr.cpp: the state of a
--             core, its registers by name (Registers), the copies it keeps of CSR fields, set_priv_mode and update_vm_translate
--   Riscv.Trap
--             privileged/trap.cpp, privileged/interrupt.cpp, inst/privileged.cpp: enter_trap,
--             scan_interrupt, interrupt_m, interrupt_s, do_mret (mret), do_sret (sret), do_ecall
--   Riscv.Zicsr
--             inst/zicsr.cpp: do_csrrw to do_csrrci
--   Riscv.Decode
--             inst/decode.cpp: each DECODE(x) is decode_x, over `inst`, `pc` and the old decodeInfo
--   Riscv.Memory
--             memory.cpp with addr.hpp and pte.hpp: the TLB, the walk of Sv39, Sv48 and Sv57, fetch,
--             load and store
--   Riscv.Inst
--             inst/base.cpp (Alu, Base), inst/mul.cpp (Mul), inst/compressed.cpp (Compressed),
--             inst/atomic.cpp (Atomic), inst/fence.cpp (Fence); Exec names the functions that the
--             decoder may choose
--   Riscv.Dispatch
--             src/cpu/riscv/instpat: the tables of patterns as the switches that the decoder generator
--             makes of them, and the choice decode_and_exec makes for a word
--   Riscv.Signal, Riscv.Plic, Riscv.Aclint
--             plic.cpp and aclint.cpp: the interrupt controller and the timers; what they ask of a core
--             is a Signal, which privileged/interrupt.cpp carries out
--   Riscv.Execute
--             execute.cpp: execute with its traps, and (Machine, Run) step, run_step, update_device and
--             run, for a core with its PLIC and ACLINT, which hand it interrupts between instructions
--
-- Bounds and fuel. The loop of vaddr_translate_sv recurses on the levels left, at most five, and the
-- loops of reload_pmpcfg on the 64 entries; trailing_ones has the 64 digits of a word as its fuel.
-- The loops of the timer thread (`drain`) and of run take the number of their turns, or the list of
-- what the hosts answer in each; as many turns as tasks are enough for the first, and the second may go
-- on for ever. The chain of descriptors of a virtio request takes a fuel, for which the number of its
-- descriptors is enough; a circle, which the code follows for ever, comes to `unfinished`. The loop of
-- notify_queue has 2^16 turns as its fuel, enough because the index that it moves on wraps at 16 bits.
-- Every other recursion is on a list or on the 32 sources of
-- the PLIC. The register array has 33 elements, the last of which takes the writes to x0.
--
-- Not modelled: the floating-point instructions and wfi (a parameter of Riscv.Execute gives what they
-- do), the instruction cache, the threads of cpu.cpp, LoongArch, the debugger,
-- the tools and the other utilities. What sockets, streams, clocks and the allocator answer are arguments. Calls of
-- `register_stimer` are recorded by the core, and Riscv.Execute.Machine hands them to the ACLINT after
-- the instruction. Locks are left out, except that update_device may not get its lock. One core is
-- modelled; a Signal to another core is dropped. The PLIC and the ACLINT are part of the machine and,
-- like the VirtIO devices, have models of their own, which the bus does not call: an instruction whose
-- access reaches one of them is `undefined`, and what the device does then is in its own model alone.
pub mod Base
pub mod Utils
pub mod Device
pub mod Riscv
