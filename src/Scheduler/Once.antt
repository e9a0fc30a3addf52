-- ===== src/Scheduler/Once.antt =====
-- src/bridge/core/LogScheduler.cpp: a task runs at most once.
use levilamina_rust_loader.Base.{
  ℕ, ◌+◌, ◌<◌, ◌≤◌, ◌^◌, ◌≡◌, refl, Bool, ◌||◌, Option, none, some, List, [], ◌∷◌, ◌==◌, nat_eq,
  arith, count, Option-cases, Bool-cases, inl, inr,
}
use levilamina_rust_loader.Base.Assoc.{
  find, IsMap, find-put, find-erase, find-erase_if, put-IsMap, erase-IsMap, erase_if-IsMap,
}
use levilamina_rust_loader.Base.Words.{inc64_lem}
use levilamina_rust_loader.Base.Mods.{World}
use levilamina_rust_loader.Scheduler.Tasks.{
  PendingTask, Ran, State, init, register_task, run_task, submit, cancel, owned_by,
  on_rust_mod_gone, Loose, schedule, run_loose,
}

abbrev pub is_ticket : ℕ → Ran → Bool
is_ticket id r = r.ticket == id

abbrev pub runs : ℕ → State → ℕ
runs id s = count (is_ticket id) s.ran

abbrev pub waiting : ℕ → State → ℕ
waiting id s = elim (find id s.pending) [ none ↦ 0 | some _ ↦ 1 ]

pub record Good (s : State) : Type 0 where
  pub pending_map : IsMap s.pending
  pub ticket : s.next_task ≡ s.issued + 1
  pub once : (id : ℕ) → runs id s + waiting id s ≤ 1
  pub fresh : (id : ℕ) → s.next_task ≤ id → runs id s + waiting id s ≡ 0

-- In order unless 2^64 - 1 tickets have been drawn.
abbrev pub Inv : State → Type 0
Inv s = s.issued + 1 < 2 ^ 64 → Good s

-- What mods and the executor do, in any order.
pub data Op : Type 0 where
  submits : World → ℕ → ℕ → ℕ → Option ℕ → Op
  fires : World → ℕ → ℕ → Op
  cancels : ℕ → ℕ → Op
  goes : ℕ → Op
  schedules : ℕ → ℕ → Option ℕ → Op
  fires_loose : Loose → Op

unfoldable pub step : Op → State → State
step (submits w raw cb user delay) s = (submit w raw cb user delay s).1
step (fires w weak id) s = run_task w weak id s
step (cancels raw id) s = (cancel raw id s).1
step (goes raw) s = (on_rust_mod_gone raw s).1
step (schedules cb user delay) s = schedule cb user delay s
step (fires_loose l) s = run_loose l s

unfoldable pub run : List Op → State → State
run [] s = s
run (op ∷ ops) s = run ops (step op s)

register-Good :
    (raw cb user : ℕ) (s : State)
    → Good s
    → s.issued + 2 < 2 ^ 64
    → Good (register_task raw cb user s).1
unfolding register_task
register-Good raw cb user s g room =
    let t : PendingTask = record { mod_ptr = raw; cb = cb; user = user } in
    record {
      pending_map = put-IsMap s.next_task t s.pending g.pending_map;
      ticket = omega (arith, g.ticket, inc64_lem s.next_task);
      once = λ id. ground (arith, g.once id, g.fresh id, find-put s.next_task id t s.pending);
      fresh = λ id h.
          ground (
            arith,
            g.ticket,
            inc64_lem s.next_task,
            g.fresh id,
            find-put s.next_task id t s.pending,
          );
    }

submit-Inv :
    (w : World) (raw cb user : ℕ) (delay : Option ℕ) (s : State)
    → Inv s
    → Inv (submit w raw cb user delay s).1
unfolding submit
submit-Inv w raw cb user delay s v = elim (Bool-cases (cb == 0 || raw == 0)) [
  | inl a ↦ rw a v
  | inr a ↦ elim (Option-cases (w.shared_from_this raw)) [
    | inl b ↦ rw (a, b) v
    | inr (weak, b) ↦
        rw (a, b)
          (λ room.
            let g = register-Good raw cb user s (v (omega arith)) (omega arith) in
            unfold register_task in
            record {
              pending_map = g.pending_map;
              ticket = g.ticket;
              once = g.once;
              fresh = g.fresh;
            })
  ]
]

run_task-Good : (w : World) (weak id : ℕ) (s : State) → Good s → Good (run_task w weak id s)
unfolding run_task
run_task-Good w weak id s g = record {
  pending_map = ground (arith, g.pending_map, erase-IsMap id s.pending g.pending_map);
  ticket = ground (arith, g.ticket);
  once = λ i. ground (arith, g.once i, find-erase id i s.pending);
  fresh = λ i h. ground (arith, g.fresh i, g.fresh id, find-erase id i s.pending);
}

cancel-Good : (raw id : ℕ) (s : State) → Good s → Good (cancel raw id s).1
unfolding cancel
cancel-Good raw id s g = record {
  pending_map = ground (arith, g.pending_map, erase-IsMap id s.pending g.pending_map);
  ticket = ground (arith, g.ticket);
  once = λ i. ground (arith, g.once i, find-erase id i s.pending);
  fresh = λ i h. ground (arith, g.fresh i, find-erase id i s.pending);
}

gone-Good : (raw : ℕ) (s : State) → Good s → Good (on_rust_mod_gone raw s).1
unfolding on_rust_mod_gone
gone-Good raw s g = record {
  pending_map = erase_if-IsMap (owned_by raw) s.pending g.pending_map;
  ticket = g.ticket;
  once = λ i. ground (arith, g.once i, find-erase_if (owned_by raw) i s.pending g.pending_map);
  fresh = λ i h. ground (arith, g.fresh i, find-erase_if (owned_by raw) i s.pending g.pending_map);
}

issued-run_task : (w : World) (weak id : ℕ) (s : State) → (run_task w weak id s).issued ≡ s.issued
unfolding run_task
issued-run_task w weak id s = ground arith

issued-cancel : (raw id : ℕ) (s : State) → (cancel raw id s).1.issued ≡ s.issued
unfolding cancel
issued-cancel raw id s = ground arith

-- A state that differs in what has no owner.
loose-Inv :
    (s t : State)
    → t.pending ≡ s.pending
    → t.next_task ≡ s.next_task
    → t.issued ≡ s.issued
    → t.ran ≡ s.ran
    → Inv s
    → Inv t
loose-Inv s t p n i r v room =
    let g = v (omega arith) in
    record {
      pending_map = rw p g.pending_map;
      ticket = omega (arith, g.ticket);
      once = λ id. rw (p, r) (g.once id);
      fresh = λ id h. rw (p, r) (g.fresh id (omega arith));
    }

step-Inv : (op : Op) (s : State) → Inv s → Inv (step op s)
unfolding step
step-Inv (submits w raw cb user delay) s v = submit-Inv w raw cb user delay s v
step-Inv (fires w weak id) s v =
    λ room. run_task-Good w weak id s (v (omega (arith, issued-run_task w weak id s)))
step-Inv (cancels raw id) s v =
    λ room. cancel-Good raw id s (v (omega (arith, issued-cancel raw id s)))
step-Inv (goes raw) s v = λ room. gone-Good raw s (v (unfold on_rust_mod_gone in omega arith))
step-Inv (schedules cb user delay) s v =
    unfold schedule in
    loose-Inv s (schedule cb user delay s) (ground arith) (ground arith) (ground arith)
      (ground arith) v
step-Inv (fires_loose l) s v = unfold run_loose in loose-Inv s (run_loose l s) refl refl refl refl v

run-Inv : (ops : List Op) (s : State) → Inv s → Inv (run ops s)
unfolding run
run-Inv [] s v = v
run-Inv (op ∷ ops) s v = run-Inv ops (step op s) (step-Inv op s v)

init-Inv : Inv init
unfolding init find
init-Inv room = record {
  pending_map = tt;
  ticket = refl;
  once = λ id. omega arith;
  fresh = λ id h. omega arith;
}

-- While fewer than 2^64 - 1 tickets are drawn: after any calls and any runs of closures, also of one
-- closure twice, no ticket has run more than once, and one that has run is not pending any more.
pub run_once :
    (ops : List Op) (id : ℕ)
    → (run ops init).issued + 1 < 2 ^ 64
    → runs id (run ops init) + waiting id (run ops init) ≤ 1
run_once ops id room = (run-Inv ops init init-Inv room).once id
