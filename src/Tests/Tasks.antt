-- ===== src/Tests/Tasks.antt =====
-- src/bridge/core/LogScheduler.cpp on a few tasks.
use levilamina_rust_loader.Base.{
  ◌+◌, ◌≡◌, refl, true, none, some, List, [], ◌∷◌, arith, ◌≤◌, nat_eq,
}
use levilamina_rust_loader.Base.Assoc.{find, put, erase}
use levilamina_rust_loader.Base.Words.{inc64}
use levilamina_rust_loader.Base.Mods.{World}
use levilamina_rust_loader.Scheduler.Tasks.{
  State, init, submit, register_task, run_task, on_rust_mod_gone,
}
use levilamina_rust_loader.Scheduler.Once.{Op, submits, fires, run, step, runs, waiting, run_once}
use levilamina_rust_loader.Scheduler.Gone.{runs_of, gone_never_runs}

abbrev executor_host : World
executor_host = record {
  shared_from_this = λ p. some p;
  lock = λ w. some w;
  is_enabled = λ p. true;
  get_name = λ p. "mod";
}

-- One task is submitted and its closure fires twice.
abbrev twice : List Op
twice = submits executor_host 10 7 0 none ∷ fires executor_host 10 1 ∷ fires executor_host 10 1 ∷ []

abbrev waiting_task : State
waiting_task = run (submits executor_host 10 7 0 none ∷ []) init

twice_counts : (runs 1 (run twice init) ≡ 1) × ((run twice init).issued ≡ 1)
unfolding run step submit register_task run_task init find put erase inc64
twice_counts = (refl, refl)

run_once_example : runs 1 (run twice init) + waiting 1 (run twice init) ≤ 1
run_once_example = run_once twice 1 (omega (arith, twice_counts.1))

abbrev afterwards : List Op
afterwards =
    fires executor_host 10 1 ∷ submits executor_host 20 7 0 none ∷ fires executor_host 20 2 ∷ []

gone_never_runs_example :
    runs_of 10 (run afterwards (on_rust_mod_gone 10 waiting_task).1) ≡ runs_of 10 waiting_task
gone_never_runs_example = gone_never_runs 10 afterwards waiting_task (tt, (omega arith, (tt, tt)))
