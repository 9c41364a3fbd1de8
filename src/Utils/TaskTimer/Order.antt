-- ===== src/Utils/TaskTimer/Order.antt =====
-- The loop of timer_thread in task-timer.cpp while nobody adds or removes a task.
use kxemu.Base.Shared.{
  ℕ, zero, suc, ◌≡◌, ◌≢◌, arith, true, false, if◌then◌else◌, List, [], ◌∷◌, Bool-cases, inl, inr,
}
use kxemu.Utils.TaskTimer.{Task, TaskTimer, Turn, turn, finish, push, contains, time_leb}

-- The turns of the loop at a clock that stands at `now`, with the tasks that they run.
unfoldable pub drain {ℓ} : {A : Type ℓ} → ℕ → ℕ → TaskTimer A → List A × TaskTimer A
unfolding turn finish
drain zero now timer = ([], timer)
drain (suc fuel) now timer = elim (timer.running) [
  | false ↦ ([], timer)
  | true ↦ elim (turn now timer) [
    | Turn.waits ↦ ([], timer)
    | Turn.drops timer' ↦ drain fuel now timer'
    | Turn.runs t ↦ let (actions, end) = drain fuel now (finish timer) in (t.action ∷ actions, end)
  ]
]

-- The actions of the tasks that are not removed.
abbrev pub live {ℓ} : {A : Type ℓ} → List ℕ → List (Task A) → List A
live removed [] = []
live removed (t ∷ ts) =
    let rest = live removed ts in if contains t.id removed then rest else t.action ∷ rest

abbrev pub AllTasks {ℓ κ} : {A : Type ℓ} → (Task A → Type κ) → List (Task A) → Type κ
AllTasks P [] = Unit
AllTasks P (t ∷ ts) = P t × AllTasks P ts

-- No two tasks have the same identity.
abbrev pub IsDistinct {ℓ} : {A : Type ℓ} → List (Task A) → Type 0
IsDistinct [] = Unit
IsDistinct (t ∷ ts) = AllTasks (λ u. u.id ≢ t.id) ts × IsDistinct ts

abbrev pub IsSorted {ℓ} : {A : Type ℓ} → List (Task A) → Type 0
IsSorted [] = Unit
IsSorted (t ∷ ts) = AllTasks (λ u. time_leb t.timepoint u.timepoint ≡ true) ts × IsSorted ts

time_leb_trans : (a b c : ℕ) → time_leb a b ≡ true → time_leb b c ≡ true → time_leb a c ≡ true
unfolding time_leb
time_leb_trans a b c h k = ground arith

time_leb-total : (a b : ℕ) → time_leb a b ≡ false → time_leb b a ≡ true
unfolding time_leb
time_leb-total a b h = ground arith

AllTasks-trans {ℓ} :
    {A : Type ℓ} (a b : ℕ) (ts : List (Task A))
    → time_leb a b ≡ true
    → AllTasks (λ u. time_leb b u.timepoint ≡ true) ts
    → AllTasks (λ u. time_leb a u.timepoint ≡ true) ts
AllTasks-trans a b [] h k = tt
AllTasks-trans a b (t ∷ ts) h k =
    (time_leb_trans a b t.timepoint h k.0, AllTasks-trans a b ts h k.1)

AllTasks-push {ℓ} :
    {A : Type ℓ} (a : ℕ) (t : Task A) (ts : List (Task A))
    → time_leb a t.timepoint ≡ true
    → AllTasks (λ u. time_leb a u.timepoint ≡ true) ts
    → AllTasks (λ u. time_leb a u.timepoint ≡ true) (push t ts)
unfolding push
AllTasks-push a t [] h k = (h, tt)
AllTasks-push a t (u ∷ us) h k = elim (Bool-cases (time_leb u.timepoint t.timepoint)) [
  | inl p ↦ rw p (k.0, AllTasks-push a t us h k.1)
  | inr p ↦ rw p (h, (k.0, k.1))
]

-- A task that is added takes its place by time.
pub push-IsSorted {ℓ} :
    {A : Type ℓ} (t : Task A) (ts : List (Task A)) → IsSorted ts → IsSorted (push t ts)
unfolding push
push-IsSorted t [] s = (tt, tt)
push-IsSorted t (u ∷ us) s = elim (Bool-cases (time_leb u.timepoint t.timepoint)) [
  | inl p ↦ rw p (AllTasks-push u.timepoint t us p s.0, push-IsSorted t us s.1)
  | inr p ↦
      let q = time_leb-total u.timepoint t.timepoint p in
      rw p ((q, AllTasks-trans t.timepoint u.timepoint us q s.0), (s.0, s.1))
]
