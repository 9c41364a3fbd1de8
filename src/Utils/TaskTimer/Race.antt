-- ===== src/Utils/TaskTimer/Race.antt =====
-- What timer_thread in task-timer.cpp does to a task that is added while it runs another.
use kxemu.Base.Shared.{ℕ, ◌≡◌, refl, arith, Bool, false, List, [], ◌∷◌, Bool-cases, inl, inr}
use kxemu.Base.Word.{add64}
use kxemu.Utils.TaskTimer.{
  Task, TaskTimer, Turn, turn, finish, pop, push, add_task, contains, time_leb,
}

top-turn {ℓ} :
    {A : Type ℓ} (now : ℕ) (removed : List ℕ) (counter : ℕ) (running : Bool) (tasks : List (Task A))
    (t : Task A)
    → turn now
        (record { tasks = tasks; counter = counter; removed_tasks = removed; running = running })
      ≡ Turn.runs t
    → (ts : List (Task A)) × (tasks ≡ t ∷ ts)
unfolding turn
top-turn now removed counter running [] t h = cc
top-turn now removed counter running (u ∷ us) t h = elim (Bool-cases (contains u.id removed)) [
  | inl gone ↦ absurd (ground arith)
  | inr here ↦ elim (Bool-cases (time_leb u.timepoint now)) [
    | inl due ↦ (us, ground arith)
    | inr early ↦ absurd (ground arith)
  ]
]

-- A task that is added while the timer runs `t`, to a time before that of `t`, is taken off the queue in
-- place of `t`: it never runs, and `t` stands at the top again.
pub finish-add_task_loses {ℓ} :
    {A : Type ℓ} (timer : TaskTimer A) (t : Task A) (now now' delay : ℕ) (action : A)
    → turn now timer ≡ Turn.runs t
    → time_leb t.timepoint (add64 now' delay) ≡ false
    → (finish (add_task now' delay action timer).1).tasks ≡ timer.tasks
unfolding finish pop add_task push
finish-add_task_loses timer t now now' delay action h e =
    let (ts, top) = top-turn now timer.removed_tasks timer.counter timer.running timer.tasks t h in
    rw top (rw (e, push) refl)
