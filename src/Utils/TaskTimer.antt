-- ===== src/Utils/TaskTimer.antt =====
-- class TaskTimer of src/utils/task-timer/task-timer.cpp: tasks with a time, run by a thread of their
-- own. The priority queue is a list in the order of the times; which of two equal times stands first is
-- not fixed there, and here it is the older one. Times are those of the host's clock, an `int64_t` of
-- nanoseconds, as words; signed overflow wraps, as on the hosts.
pub mod Order
pub mod Race
mod Tests
use kxemu.Base.Shared.{
  ℕ, ◌+◌, ◌%◌, ◌^◌, Bool, true, false, not, ◌==◌, leb, if◌then◌else◌, List, [], ◌∷◌, Option, none,
  some,
}
use kxemu.Base.Word.{u32, add64}

module _ {ℓ} (A : Type ℓ) where
  -- `action` is what the closure does.
  pub record Task : Type ℓ where
    pub timepoint : ℕ
    pub action : A
    pub id : ℕ

  pub record TaskTimer : Type ℓ where
    pub tasks : List Task
    pub counter : ℕ
    pub removed_tasks : List ℕ
    pub running : Bool

  -- What one turn of the loop in timer_thread comes to, up to the call of the task.
  pub data Turn : Type ℓ where
    waits : Turn
    drops : TaskTimer → Turn
    runs : Task → Turn

-- `a <= b` on time points
unfoldable pub time_leb : ℕ → ℕ → Bool
time_leb a b = leb ((a + 2 ^ 63) % 2 ^ 64) ((b + 2 ^ 63) % 2 ^ 64)

unfoldable pub contains : ℕ → List ℕ → Bool
contains n [] = false
contains n (m ∷ ms) = if n == m then true else contains n ms

-- `removedTasks` is a set.
unfoldable pub erase : ℕ → List ℕ → List ℕ
erase n [] = []
erase n (m ∷ ms) = if n == m then erase n ms else m ∷ erase n ms

module _ {ℓ} {A : Type ℓ} where
  unfoldable pub push : Task A → List (Task A) → List (Task A)
  push t [] = t ∷ []
  push t (u ∷ us) = if time_leb u.timepoint t.timepoint then u ∷ push t us else t ∷ u ∷ us

  unfoldable pub pop : List (Task A) → List (Task A)
  pop [] = []
  pop (t ∷ ts) = ts

  -- `now` is the clock when the task is added.
  unfoldable pub add_task : ℕ → ℕ → A → TaskTimer A → ℕ × TaskTimer A
  unfolding push
  add_task now delay action timer = (
    timer.counter,
    record timer {
      tasks =
          push (record { timepoint = add64 now delay; action = action; id = timer.counter })
            timer.tasks;
      counter = u32 (timer.counter + 1);
    },
  )

  unfoldable pub remove_task : ℕ → TaskTimer A → TaskTimer A
  remove_task id timer = record timer { removed_tasks = id ∷ timer.removed_tasks }

  unfoldable pub turn : ℕ → TaskTimer A → Turn A
  turn now timer = elim (timer.tasks) [
    | [] ↦ Turn.waits
    | t ∷ ts ↦
        if contains t.id timer.removed_tasks
        then Turn.drops
            (record timer { tasks = ts; removed_tasks = erase t.id timer.removed_tasks })
        else if time_leb t.timepoint now
        then Turn.runs t
        else Turn.waits
  ]

  -- `tasks.pop()` after the task has run, with the lock taken again.
  unfoldable pub finish : TaskTimer A → TaskTimer A
  unfolding pop
  finish timer = record timer { tasks = pop timer.tasks }
