-- ===== src/Scheduler/Gone.antt =====
-- src/bridge/core/LogScheduler.cpp: no task runs after its mod has gone.
use levilamina_rust_loader.Base.{
  ℕ, ◌≡◌, ◌≢◌, refl, ◌∙◌, Bool, List, [], ◌∷◌, ◌==◌, nat_eq, arith, count, Option-cases, inl, inr,
  All,
}
use levilamina_rust_loader.Base.Assoc.{
  find, count_values, count_values-erase_if_self, count_values-erase-le, count_values-put-le,
  count_values-erase_if-le, count_values_pos,
}
use levilamina_rust_loader.Base.Mods.{World}
use levilamina_rust_loader.Scheduler.Tasks.{
  PendingTask, Ran, State, register_task, run_task, submit, cancel, owned_by, on_rust_mod_gone,
  schedule, run_loose,
}
use levilamina_rust_loader.Scheduler.Once.{
  Op, submits, fires, cancels, goes, schedules, fires_loose, step, run,
}

abbrev NoneOf : ℕ → State → Type 0
NoneOf raw s = count_values (owned_by raw) s.pending ≡ 0

abbrev of_mod : ℕ → Ran → Bool
of_mod raw r = r.task.mod_ptr == raw

abbrev pub runs_of : ℕ → State → ℕ
runs_of raw s = count (of_mod raw) s.ran

-- Submissions by others.
abbrev pub NotBy : ℕ → Op → Type 0
NotBy raw (submits w r cb user delay) = r ≢ raw
NotBy raw _ = Unit

fire_quiet :
    (raw : ℕ) (w : World) (weak id : ℕ) (s : State)
    → NoneOf raw s
    → NoneOf raw (run_task w weak id s) × (runs_of raw (run_task w weak id s) ≡ runs_of raw s)
unfolding run_task
fire_quiet raw w weak id s h = elim (Option-cases (find id s.pending)) [
  | inl e ↦ rw (e, run_task) (h, refl)
  | inr (task, e) ↦ (
    ground (arith, count_values-erase-le (owned_by raw) id s.pending),
    ground (arith, count_values_pos (owned_by raw) id s.pending task),
  )
]

step_quiet :
    (raw : ℕ) (op : Op) (s : State)
    → NotBy raw op
    → NoneOf raw s
    → NoneOf raw (step op s) × (runs_of raw (step op s) ≡ runs_of raw s)
unfolding step
step_quiet raw (submits w r cb user delay) s n h =
    let t : PendingTask = record { mod_ptr = r; cb = cb; user = user } in
    unfold submit register_task in
    (ground (arith, count_values-put-le (owned_by raw) s.next_task t s.pending), ground arith)
step_quiet raw (fires w weak id) s n h = fire_quiet raw w weak id s h
step_quiet raw (cancels r id) s n h =
    unfold cancel in
    (ground (arith, count_values-erase-le (owned_by raw) id s.pending), ground arith)
step_quiet raw (goes r) s n h =
    unfold on_rust_mod_gone in
    (omega (arith, count_values-erase_if-le (owned_by r) (owned_by raw) s.pending), refl)
step_quiet raw (schedules cb user delay) s n h =
    unfold schedule in (ground (arith, h), ground arith)
step_quiet raw (fires_loose l) s n h = unfold run_loose in (h, refl)

run_quiet :
    (raw : ℕ) (ops : List Op) (s : State)
    → All (NotBy raw) ops
    → NoneOf raw s
    → runs_of raw (run ops s) ≡ runs_of raw s
unfolding run
run_quiet raw [] s n h = refl
run_quiet raw (op ∷ ops) s n h =
    let one = step_quiet raw op s n.0 h in run_quiet raw ops (step op s) n.1 one.0 ∙ one.1

-- Once a mod has gone, and submits nothing more under its handle, the tasks that it submitted under its
-- handle never run again: whatever closures fire, with an owner or without, and whatever other mods
-- schedule, the number of calls of its tasks stays as it was. The calls of closures that were
-- scheduled without a handle are not among them: the loader does not know whose they are.
pub gone_never_runs :
    (raw : ℕ) (ops : List Op) (s : State)
    → All (NotBy raw) ops
    → runs_of raw (run ops (on_rust_mod_gone raw s).1) ≡ runs_of raw s
gone_never_runs raw ops s n =
    run_quiet raw ops (on_rust_mod_gone raw s).1 n
      (unfold on_rust_mod_gone in count_values-erase_if_self (owned_by raw) s.pending)
    ∙ unfold on_rust_mod_gone in refl
