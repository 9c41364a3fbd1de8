-- ===== src/Utils/TaskTimer/Tests.antt =====
-- A timer with three tasks, and each theorem on it.
use kxemu.Base.Shared.{◌*◌, ℕ, ◌≡◌, refl, true, false, ◌∷◌, []}
use kxemu.Base.Word.{add64}
use kxemu.Utils.TaskTimer.{Task, TaskTimer, Turn, turn, finish, add_task, time_leb, contains}
use kxemu.Utils.TaskTimer.Race.{finish-add_task_loses}

abbrev at : ℕ → ℕ → Task ℕ
at time id = record { timepoint = time; action = id * 10; id = id }

-- Task 2 is removed.
abbrev timer : TaskTimer ℕ
timer = record {
  tasks = at 5 1 ∷ at 6 2 ∷ at 9 3 ∷ [];
  counter = 4;
  removed_tasks = 2 ∷ [];
  running = true;
}

first_runs : turn 5 timer ≡ Turn.runs (at 5 1)
unfolding turn contains time_leb
first_runs = refl

earlier : time_leb 5 (add64 3 1) ≡ false
unfolding time_leb
earlier = refl

finish-add_task_loses_example : (finish (add_task 3 1 70 timer).1).tasks ≡ timer.tasks
finish-add_task_loses_example = finish-add_task_loses timer (at 5 1) 5 3 1 70 first_runs earlier
