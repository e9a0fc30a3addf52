-- ===== src/Scheduler/Tasks.antt =====
-- src/bridge/core/LogScheduler.cpp: tasks are entered in a table and the executor gets a closure that
-- holds only a weak_ptr and a ticket. The executor belongs to the host: the closures it has been
-- handed stand in `queue`, and it may run any of them at any time.
use levilamina_rust_loader.Base.{
  ℕ, ◌+◌, Bool, true, false, not, ◌||◌, Option, none, some, List, [], ◌∷◌, if◌then◌else◌, ◌==◌,
  nat_eq,
}
use levilamina_rust_loader.Base.Assoc.{find, put, erase, erase_if, count_values}
use levilamina_rust_loader.Base.Words.{inc64}
use levilamina_rust_loader.Base.Mods.{World, still_is}

pub record PendingTask : Type 0 where
  pub mod_ptr : ℕ
  pub cb : ℕ
  pub user : ℕ

-- A closure `[weakMod, id] { runTask(weakMod, id); }` and, for `executeAfter`, its delay.
pub record Closure : Type 0 where
  pub weak_mod : ℕ
  pub id : ℕ
  pub delay_ms : Option ℕ

-- A call of a task, by the ticket under which it was entered.
pub record Ran : Type 0 where
  pub ticket : ℕ
  pub task : PendingTask

-- A closure `[cb, user] { cb(user); }`, of a mod that gave no handle, and its delay.
pub record Loose : Type 0 where
  pub cb : ℕ
  pub user : ℕ
  pub delay_ms : Option ℕ

-- `issued` counts the tickets drawn; `ran` has the calls of tasks made so far, newest first. The
-- closures without an owner that the executor was handed stand in `loose`, those that it has run in
-- `loose_ran`.
pub record State : Type 0 where
  pub pending : List (ℕ × PendingTask)
  pub next_task : ℕ
  pub issued : ℕ
  pub queue : List Closure
  pub ran : List Ran
  pub loose : List Loose
  pub loose_ran : List Loose

unfoldable pub init : State
init = record {
  pending = [];
  next_task = 1;
  issued = 0;
  queue = [];
  ran = [];
  loose = [];
  loose_ran = [];
}

-- `registerTask`
unfoldable pub register_task : ℕ → ℕ → ℕ → State → ℕ × State
register_task raw cb user s = (
  s.next_task,
  record s {
    next_task = inc64 s.next_task;
    issued = s.issued + 1;
    pending = put s.next_task (record { mod_ptr = raw; cb = cb; user = user }) s.pending;
  },
)

-- `runTask`: the ticket is taken out first, and the task runs only for a mod that is there and enabled.
unfoldable pub run_task : World → ℕ → ℕ → State → State
run_task w weak id s = elim (find id s.pending) [
  | none ↦ s
  | some task ↦
      let taken : State = record s { pending = erase id s.pending } in
      if not (still_is w weak task.mod_ptr)
      then taken
      else if not (w.is_enabled task.mod_ptr)
      then taken
      else if task.cb == 0
      then taken
      else record taken { ran = (record { ticket = id; task = task }) ∷ s.ran }
]

-- `submit`, for `api_schedule_for` (no delay) and `api_schedule_after_for`.
unfoldable pub submit : World → ℕ → ℕ → ℕ → Option ℕ → State → ℕ × State
unfolding register_task
submit w raw cb user delay s =
    if cb == 0 || raw == 0 then (0, s) else elim (w.shared_from_this raw) [
      | none ↦ (0, s)
      | some weak ↦
          let (id, t) = register_task raw cb user s in
          (
            id,
            record t { queue = (record { weak_mod = weak; id = id; delay_ms = delay }) ∷ t.queue },
          )
    ]

-- `api_schedule` (no delay) and `api_schedule_after`: no ticket, and no owner.
unfoldable pub schedule : ℕ → ℕ → Option ℕ → State → State
schedule cb user delay s =
    if cb == 0
    then s
    else record s { loose = (record { cb = cb; user = user; delay_ms = delay }) ∷ s.loose }

-- The executor runs a closure without an owner: nothing is asked.
unfoldable pub run_loose : Loose → State → State
run_loose l s = record s { loose_ran = l ∷ s.loose_ran }

-- `api_schedule_cancel`: only the mod's own task.
unfoldable pub cancel : ℕ → ℕ → State → Bool × State
cancel raw id s = if raw == 0 || id == 0 then (false, s) else elim (find id s.pending) [
  | none ↦ (false, s)
  | some task ↦
      if not (task.mod_ptr == raw)
      then (false, s)
      else (true, record s { pending = erase id s.pending })
]

abbrev pub owned_by : ℕ → PendingTask → Bool
owned_by raw t = t.mod_ptr == raw

-- `api_schedule_pending_count`
unfoldable pub pending_count : ℕ → State → ℕ
pending_count raw s = if raw == 0 then 0 else count_values (owned_by raw) s.pending

-- `schedulerOnRustModGone`, with the number of tasks that it warns about.
unfoldable pub on_rust_mod_gone : ℕ → State → ℕ × State
on_rust_mod_gone raw s = (
  count_values (owned_by raw) s.pending,
  record s { pending = erase_if (owned_by raw) s.pending },
)
