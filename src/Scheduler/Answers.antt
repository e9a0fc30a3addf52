-- ===== src/Scheduler/Answers.antt =====
-- src/bridge/core/LogScheduler.cpp: what a fired closure and a cancellation do, on every branch.
use levilamina_rust_loader.Base.{
  ℕ, ◌≡◌, ◌≢◌, refl, true, false, not, ◌||◌, ◌&&◌, Option, none, some, ◌∷◌, if◌then◌else◌, ◌==◌,
  nat_eq, arith, Option-cases, Bool-cases, inl, inr, ◌⊎◌, eq_self,
}
use levilamina_rust_loader.Base.Assoc.{find, find-erase}
use levilamina_rust_loader.Base.Mods.{World, still_is}
use levilamina_rust_loader.Scheduler.Tasks.{PendingTask, State, run_task, cancel}

-- What a fired closure does: nothing if the ticket is not pending; else the ticket is taken out, and
-- the callback runs exactly if it is there and its mod is the one of the closure, alive and enabled.
pub run_task-cases :
    (w : World) (weak id : ℕ) (s : State)
    → ((find id s.pending ≡ none) × (run_task w weak id s ≡ s))
      ⊎ ((task : PendingTask) × (find id s.pending ≡ some task)
          × (find id (run_task w weak id s).pending ≡ none)
          × ((run_task w weak id s).ran ≡ (
              if still_is w weak task.mod_ptr && w.is_enabled task.mod_ptr && not (task.cb == 0)
              then (record { ticket = id; task = task }) ∷ s.ran
              else s.ran)))
unfolding run_task
run_task-cases w weak id s = elim (Option-cases (find id s.pending)) [
  | inl e ↦ rw (e, run_task) (inl (refl, refl))
  | inr (task, e) ↦
      rw (e, run_task)
        (inr (task, refl, ground (arith, find-erase id id s.pending, eq_self id), ground arith))
]

-- The mod whose task a ticket is, while it is pending.
abbrev pub owner_of : ℕ → State → Option ℕ
owner_of id s = elim (find id s.pending) [ none ↦ none | some task ↦ some task.mod_ptr ]

-- For a handle and a ticket that are not null: a mod's own cancellation takes the task out;
-- anybody else's, or one of no pending task, changes nothing and answers false.
pub cancel-cases :
    (raw id : ℕ) (s : State)
    → raw ≢ 0
    → id ≢ 0
    → ((task : PendingTask) × (find id s.pending ≡ some task)
        × (task.mod_ptr ≡ raw)
        × ((cancel raw id s).0 ≡ true)
        × (find id (cancel raw id s).1.pending ≡ none))
      ⊎ ((cancel raw id s ≡ (false, s)) × (owner_of id s ≢ some raw))
unfolding cancel
cancel-cases raw id s nr ni =
    let a : (raw == 0 || id == 0) ≡ false = ground arith in
    elim (Option-cases (find id s.pending)) [
      | inl b ↦ rw (a, b) (inr (refl, λ h. absurd (cc)))
      | inr (task, b) ↦ elim (Bool-cases (task.mod_ptr == raw)) [
        | inr c ↦ rw (a, b, c) (inr (refl, λ h. ground arith))
        | inl c ↦
            rw (a, b, c)
              (inl (
                task,
                refl,
                ground arith,
                refl,
                ground (arith, find-erase id id s.pending, eq_self id),
              ))
      ]
    ]
