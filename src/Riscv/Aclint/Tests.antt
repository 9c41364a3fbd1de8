-- ===== src/Riscv/Aclint/Tests.antt =====
-- Two cores' timers and software interrupts, and each theorem on them at one.
use kxemu.Base.Shared.{
  ◌+◌, ◌-◌, ◌*◌, ◌≡◌, refl, arith, not, ◌&&◌, ◌==◌, true, false, if◌then◌else◌, ◌∷◌, [], some,
}
use kxemu.Base.Word.{add64, has_bit}
use kxemu.Utils.TaskTimer.{push}
use kxemu.Riscv.Def
use kxemu.Riscv.Core.{get_csr}
use kxemu.Riscv.Core.Sample.{core_with}
use kxemu.Riscv.Signal.{lower}
use kxemu.Riscv.Aclint.{
  Aclint, mtimer, fresh, read, write, update_core, update, fire, get_uptime, no_timer,
}
use kxemu.Riscv.Aclint.Registers
use kxemu.Riscv.Aclint.Timer
use kxemu.Riscv.Aclint.Timer.{core_of, code_of}

abbrev two_cores : Aclint
two_cores = record {
  core_count = 2;
  core_objects = λ i. fresh;
  timer_running = true;
  boot_time = 1000;
  task_timer = record { tasks = []; counter = 7; removed_tasks = []; running = true };
}

uptime_at_5000 : get_uptime 5000 two_cores ≡ 4000
unfolding get_uptime
uptime_at_5000 = refl

read-write-mtimecmp_example :
    let (accepted, a', signal) = write 5000 100 (0x4000 + 8 * 1) 90 8 two_cores in
    let left = 90 * 100 - get_uptime 5000 two_cores in
    (accepted ≡ true)
    × (read 5000 (0x4000 + 8 * 1) 8 a' ≡ some 90)
    × (signal ≡ lower 1 Def.timer_m)
    × (a'.task_timer.tasks
        ≡ push (record { timepoint = add64 100 left; action = mtimer 1; id = 7 }) [])
    × ((a'.core_objects 1).mtimer_id ≡ 7)
    × (a'.task_timer.removed_tasks
        ≡ (if fresh.mtimer_id == no_timer then [] else fresh.mtimer_id ∷ []))
read-write-mtimecmp_example =
    Registers.read-write-mtimecmp 5000 100 1 90 two_cores (omega arith) (omega arith) (omega arith)
      (omega (arith, uptime_at_5000))

update-fire_example :
    let core = core_with 3 (λ a. 0) in
    (has_bit
        (get_csr (update_core (core_of (mtimer 1)) (fire (mtimer 1) two_cores) core) Def.mip)
        (code_of (mtimer 1))
      ≡ true)
    × (update_core (core_of (mtimer 1)) (update (fire (mtimer 1) two_cores)) core ≡ core)
    × (has_bit (get_csr core Def.mip) 3
          && not (
              has_bit
                (get_csr
                  (update_core (core_of (mtimer 1)) (fire (mtimer 1) two_cores) core)
                  Def.mip)
                3)
        ≡ false)
update-fire_example = Timer.update-fire (mtimer 1) two_cores (core_with 3 (λ a. 0)) 3 (omega arith)
