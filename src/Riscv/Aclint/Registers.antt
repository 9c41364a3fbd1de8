-- ===== src/Riscv/Aclint/Registers.antt =====
-- Reading back the registers of aclint.cpp.
use kxemu.Base.Shared.{
  ℕ, ◌+◌, ◌-◌, ◌*◌, ◌/◌, ◌^◌, ◌<◌, ◌≤◌, ◌≡◌, refl, ap, ◌∙◌, arith, bit_and, true, false, ◌&&◌, ◌||◌,
  ◌==◌, ltb, leb, if◌then◌else◌, ◌∷◌, some, inl, inr, Bool-cases,
}
use kxemu.Base.Bits.{bit_and-mask}
use kxemu.Base.Word.{u32, u64, sub64, add64, of_bool}
use kxemu.Utils.TaskTimer
use kxemu.Utils.TaskTimer.{Task, push}
use kxemu.Riscv.Def
use kxemu.Riscv.Signal.{raise, lower}
use kxemu.Riscv.Aclint.{
  Aclint, TimerTask, no_timer, mtimer, get_uptime, schedule, cancel, update_core_mtimecmp, read,
  write, in_space, set_object, software,
}

-- The software interrupt register of a core in machine mode reads back the written 0 or 1, and the write
-- raises or lowers the core's machine software interrupt.
pub read-write-msip :
    (now clock i value : ℕ) (a : Aclint)
    → i < a.core_count
    → a.core_count ≤ 4096
    → value < 2
    → let (accepted, a', signal) = write now clock (4 * i) value 4 a in
      (accepted ≡ true)
      × (read now (4 * i) 4 a' ≡ some value)
      × (signal ≡ (if value == 0 then lower i Def.software_m else raise i Def.software_m))
unfolding read write in_space set_object software
read-write-msip now clock i value a h k v =
    let place : u32 (4 * i / 4) ≡ i = omega arith in
    let inside : leb 0 (4 * i) && ltb (4 * i) (0 + 0x4000) ≡ true = ground arith in
    let owned : leb a.core_count i ≡ false = ground arith in
    let bit : value == 0 || value == 1 ≡ true = ground arith in
    let self : (i == i) ≡ true = ground arith in
    let back : of_bool (value == 1) ≡ value = ground arith in
    rw (inside, place, owned, bit, self) (refl, rw owned (ap some back), refl)

time_left : (x u : ℕ) → x < 2 ^ 64 → u ≤ x → sub64 (u64 x) u ≡ x - u
time_left x u h k = omega arith

-- Writing the comparator of a core in machine mode, an aligned 64-bit register, with a value that has not
-- passed and whose nanoseconds (100 to a tick) fit 64 bits: it reads back the value, the core's machine
-- timer interrupt is lowered, a task that will raise it again is queued for the time that is left until the
-- value, and the task of an earlier write is cancelled.
pub read-write-mtimecmp :
    (now clock i value : ℕ) (a : Aclint)
    → i < a.core_count
    → a.core_count ≤ 2048
    → value * 100 < 2 ^ 64
    → get_uptime now a ≤ value * 100
    → let (accepted, a', signal) = write now clock (0x4000 + 8 * i) value 8 a in
      let left = value * 100 - get_uptime now a in
      let task : Task TimerTask = record {
        timepoint = add64 clock left;
        action = mtimer i;
        id = a.task_timer.counter;
      } in
      (accepted ≡ true)
      × (read now (0x4000 + 8 * i) 8 a' ≡ some value)
      × (signal ≡ lower i Def.timer_m)
      × (a'.task_timer.tasks ≡ push task a.task_timer.tasks)
      × ((a'.core_objects i).mtimer_id ≡ a.task_timer.counter)
      × (a'.task_timer.removed_tasks ≡ (
          if (a.core_objects i).mtimer_id == no_timer
          then a.task_timer.removed_tasks
          else (a.core_objects i).mtimer_id ∷ a.task_timer.removed_tasks))
unfolding read write in_space set_object update_core_mtimecmp schedule cancel TaskTimer.add_task
    TaskTimer.remove_task get_uptime
read-write-mtimecmp now clock i value a h k fits ahead =
    let time : sub64 (u64 (value * 100)) (get_uptime now a) ≡ value * 100 - get_uptime now a =
      time_left (value * 100) (get_uptime now a) fits ahead in
    let addr : ℕ = 0x4000 + 8 * i in
    let low : leb 0 addr && ltb addr (0 + 0x4000) ≡ false = ground arith in
    let high : leb 0xc000 addr && ltb addr (0xc000 + 0x4000) ≡ false = ground arith in
    let inside : leb 0x4000 addr && ltb addr (0x4000 + 0x4000) ≡ true = ground arith in
    let place : u32 ((addr - 0x4000) / 8) ≡ i = omega arith in
    let owned : leb a.core_count i ≡ false = ground arith in
    let aligned : bit_and addr 7 ≡ 0 = bit_and-mask 3 addr ∙ omega arith in
    let self : (i == i) ≡ true = ground arith in
    elim (Bool-cases ((a.core_objects i).mtimer_id == no_timer)) [
      | inl p ↦
          rw (low, high, inside, place, owned, aligned, self, p, time)
            (refl, rw owned refl, refl, refl, refl, refl)
      | inr p ↦
          rw (low, high, inside, place, owned, aligned, self, p, time)
            (refl, rw owned refl, refl, refl, refl, refl)
    ]
