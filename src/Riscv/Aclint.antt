-- ===== src/Riscv/Aclint.antt =====
-- class AClint of src/cpu/riscv/aclint.cpp: software interrupts and timers of the cores. `now` is what
-- utils::get_current_time answers and `clock` the clock of the timer. A core is named by its number, and
-- what is asked of it is a `Signal`. The locks are left out.
pub mod Registers
pub mod Timer
mod Tests
use kxemu.Base.Shared.{
  ℕ, zero, suc, ◌-◌, ◌/◌, ◌*◌, ◌^◌, ◌+◌, bit_and, Bool, true, false, not, ◌&&◌, ◌||◌, ◌==◌, ltb,
  leb, if◌then◌else◌, List, [], ◌∷◌, Option, none, some,
}
use kxemu.Base.Word.{u32, u64, sub64, of_bool}
use kxemu.Utils.TaskTimer
use kxemu.Utils.TaskTimer.{TaskTimer}
use kxemu.Riscv.Def
use kxemu.Riscv.Core.{RvCore, set_interrupt}
use kxemu.Riscv.Signal.{Signal, quiet, raise, lower}

-- The two lambda expressions that are given to the timer, for core `i`.
pub data TimerTask : Type 0 where
  mtimer stimer : ℕ → TimerTask

-- `(unsigned int)-1`
abbrev pub no_timer : ℕ
no_timer = 2 ^ 32 - 1

pub record CoreObject : Type 0 where
  pub msip : Bool
  pub ssip : Bool
  pub mtip : Bool
  pub stip : Bool
  pub mtimecmp : ℕ
  pub mtimer_id : ℕ
  pub stimer_id : ℕ

pub record Aclint : Type 0 where
  pub core_count : ℕ
  pub core_objects : ℕ → CoreObject
  pub timer_running : Bool
  pub boot_time : ℕ
  pub task_timer : TaskTimer TimerTask

abbrev pub fresh : CoreObject
fresh = record {
  msip = false;
  ssip = false;
  mtip = false;
  stip = false;
  mtimecmp = 2 ^ 64 - 1;
  mtimer_id = no_timer;
  stimer_id = no_timer;
}

-- init; the other members are what the constructor leaves.
unfoldable pub init : ℕ → Aclint → Aclint
init core_count a = record a { core_count = core_count; core_objects = λ i. fresh }

unfoldable pub set_object : ℕ → CoreObject → Aclint → Aclint
set_object i o a = record a { core_objects = λ j. if j == i then o else a.core_objects j }

unfoldable pub cancel : ℕ → Aclint → Aclint
cancel id a =
    if id == no_timer then a else record a { task_timer = TaskTimer.remove_task id a.task_timer }

-- reset, for the cores below `i`
unfoldable pub reset_objects : ℕ → Aclint → Aclint
unfolding cancel set_object
reset_objects zero a = a
reset_objects (suc i) a =
    let a' = reset_objects i a in
    let o = a'.core_objects i in set_object i fresh (cancel o.stimer_id (cancel o.mtimer_id a'))

unfoldable pub reset : Aclint → Aclint
unfolding reset_objects
reset a = record (reset_objects a.core_count a) { timer_running = false }

unfoldable pub get_uptime : ℕ → Aclint → ℕ
get_uptime now a = if a.timer_running then sub64 now a.boot_time else 0

unfoldable pub in_space : ℕ → ℕ → ℕ → Bool
in_space base size addr = leb base addr && ltb addr (base + size)

-- `none` is `valid = false`. A misaligned read of MTIME leaves `valid` as Bus::read has set it, true.
unfoldable pub read : ℕ → ℕ → ℕ → Aclint → Option ℕ
unfolding in_space get_uptime
read now addr size a =
    let mswi_core = u32 (addr / 4) in
    let sswi_core = u32 ((addr - 0xc000) / 4) in
    let mtimecmp_core = u32 ((addr - 0x4000) / 8) in
    if in_space 0 0x4000 addr
    then if not (size == 4) || leb a.core_count mswi_core
      then none
      else some (of_bool (a.core_objects mswi_core).msip)
    else if in_space 0xc000 0x4000 addr
    then if not (size == 4) || not (bit_and addr 3 == 0) || leb a.core_count sswi_core
      then none
      else some (of_bool (a.core_objects sswi_core).ssip)
    else if in_space 0x4000 0x4000 addr
    then if leb a.core_count mtimecmp_core || not (size == 8) || not (bit_and addr 7 == 0)
      then none
      else some (a.core_objects mtimecmp_core).mtimecmp
    else if in_space 0xbff8 8 addr
    then if not (size == 8) || not (bit_and addr 7 == 0)
      then some (2 ^ 64 - 1)
      else some (Def.realtime_to_mtime (get_uptime now a))
    else none

-- add_task, and the identity of the task
unfoldable pub schedule : ℕ → ℕ → TimerTask → Aclint → ℕ × Aclint
schedule clock delay task a =
    let (id, timer) = TaskTimer.add_task clock delay task a.task_timer in
    (id, record a { task_timer = timer })

-- update_core_mtimecmp for a core in range
unfoldable pub update_core_mtimecmp : ℕ → ℕ → ℕ → Aclint → Aclint × Signal
unfolding schedule cancel set_object get_uptime
update_core_mtimecmp now clock i a =
    let o = a.core_objects i in
    let delay = sub64 (Def.mtime_to_realtime o.mtimecmp) (get_uptime now a) in
    let (id, a') = schedule clock delay (mtimer i) (cancel o.mtimer_id a) in
    (set_object i (record o { mtimer_id = id }) a', lower i Def.timer_m)

-- register_stimer; `none` is PANIC.
unfoldable pub register_stimer : ℕ → ℕ → ℕ → ℕ → Aclint → Option Aclint
unfolding schedule cancel set_object get_uptime
register_stimer now clock i stimecmp a =
    let o = a.core_objects i in
    let a1 = cancel o.stimer_id a in
    let uptimecmp = Def.mtime_to_realtime stimecmp in
    let uptime = get_uptime now a in
    let (id, a2) = schedule clock (sub64 uptimecmp uptime) (stimer i) a1 in
    if leb a.core_count i
    then none
    else if leb uptimecmp uptime
    then some (set_object i (record o { stip = true; stimer_id = no_timer }) a1)
    else some (set_object i (record o { stimer_id = id }) a2)

-- A software interrupt: both devices do the same with the core's flag.
unfoldable pub software : ℕ → ℕ → ℕ → Signal
software value i code = if value == 0 then lower i code else raise i code

unfoldable pub write : ℕ → ℕ → ℕ → ℕ → ℕ → Aclint → Bool × Aclint × Signal
unfolding in_space set_object software update_core_mtimecmp
write now clock addr value size a =
    let mswi_core = u32 (addr / 4) in
    let sswi_core = u32 ((addr - 0xc000) / 4) in
    let mtimecmp_core = u32 ((addr - 0x4000) / 8) in
    if in_space 0 0x4000 addr
    then if not (size == 4) || not (value == 0 || value == 1) || leb a.core_count mswi_core
      then (false, a, quiet)
      else (
        true,
        set_object mswi_core (record (a.core_objects mswi_core) { msip = value == 1 }) a,
        software value mswi_core Def.software_m,
      )
    else if in_space 0xc000 0x4000 addr
    then if not (size == 4)
        || not (bit_and addr 3 == 0)
        || not (value == 0 || value == 1)
        || leb a.core_count sswi_core
      then (false, a, quiet)
      else (
        true,
        set_object sswi_core (record (a.core_objects sswi_core) { ssip = value == 1 }) a,
        software value sswi_core Def.software_s,
      )
    else if in_space 0x4000 0x4000 addr
    then if leb a.core_count mtimecmp_core || not (size == 8) || not (bit_and addr 7 == 0)
      then (false, a, quiet)
      else (let stored =
            set_object mtimecmp_core (record (a.core_objects mtimecmp_core) { mtimecmp = value })
              a in
          let (a', signal) = update_core_mtimecmp now clock mtimecmp_core stored in
          (true, a', signal))
    else (false, a, quiet)

-- What the tasks do when the timer runs them.
unfoldable pub fire : TimerTask → Aclint → Aclint
unfolding set_object
fire (mtimer i) a = set_object i (record (a.core_objects i) { mtip = true; mtimer_id = no_timer }) a
fire (stimer i) a = set_object i (record (a.core_objects i) { stip = true; stimer_id = no_timer }) a

-- update, as core `i` sees it
unfoldable pub update_core : ℕ → Aclint → RvCore → RvCore
update_core i a core =
    let o = a.core_objects i in
    let core1 = if o.mtip then set_interrupt Def.timer_m core else core in
    if ltb i a.core_count then if o.stip then set_interrupt Def.timer_s core1 else core1 else core

-- update, as the flags of the cores see it
unfoldable pub update : Aclint → Aclint
update a = record a {
  core_objects = λ i.
      if ltb i a.core_count
      then record (a.core_objects i) { mtip = false; stip = false }
      else a.core_objects i;
}

-- `none` is PANIC.
unfoldable pub start_timer : ℕ → Aclint → Option Aclint
start_timer now a =
    if a.timer_running
    then none
    else some (record a {
      timer_running = true;
      boot_time = now;
      task_timer = record (a.task_timer) { running = true };
    })

unfoldable pub stop_timer : Aclint → Option Aclint
stop_timer a =
    if not a.timer_running
    then none
    else some
        (record a { timer_running = false; task_timer = record (a.task_timer) { running = false } })
