-- ===== src/Services/Total.antt =====
-- src/bridge/core/Services.cpp: calls end, however the providers call one another.
use levilamina_rust_loader.Base.{
  ℕ, zero, suc, ◌+◌, ◌-◌, ◌≤◌, ◌<◌, ◌≡◌, ◌≢◌, refl, ◌∙◌, String, Bool, true, false, not, ◌&&◌,
  Option, none, some, leb, ◌==◌, nat_eq, string_eq, arith, Option-cases, Bool-cases, inl, inr, ◌⊎◌,
}
use levilamina_rust_loader.Base.Assoc.{find, put}
use levilamina_rust_loader.Base.Mods.{World, still_is}
use levilamina_rust_loader.Services.Tables.{
  Service, State, register, unregister, on_rust_mod_gone, bad_name, max_depth, draw, enter_service,
  register_free,
}
use levilamina_rust_loader.Services.Call.{
  Status, service_ok, service_error, Outcome, Program, ends, calls, registers, unregisters, unloads,
  turns, Providers, Caller, run_program, warn_depth_once, enter, call_service, lookup_service,
  call_with, service_call, status_of,
}
use levilamina_rust_loader.Services.Invariant.{Inv, register-Inv, unregister-Inv}
use levilamina_rust_loader.Services.Sweep.{gone-Inv}

-- The fuel was enough, and the state that comes out meets P.
abbrev pub Ends : {A : Type 0} → (State → Type 0) → Option (A × State) → Type 0
Ends P none = ⊥
Ends P (some (a, t)) = P t

-- The registry is in order and the thread is at this depth.
abbrev pub At : ℕ → State → Type 0
At d t = Inv t × (t.depth ≡ d)

depth-register :
    (raw : ℕ) (name : String) (cb user : ℕ) (s : State)
    → (register raw name cb user s).1.depth ≡ s.depth
unfolding register register_free draw enter_service
depth-register raw name cb user s = ground arith

depth-unregister : (raw id : ℕ) (s : State) → (unregister raw id s).1.depth ≡ s.depth
unfolding unregister
depth-unregister raw id s = ground arith

depth-gone : (raw : ℕ) (s : State) → (on_rust_mod_gone raw s).depth ≡ s.depth
unfolding on_rust_mod_gone
depth-gone raw s = ground arith

-- The registry does not look at fields that it does not keep.
same_tables :
    (s t : State)
    → s.services ≡ t.services
    → s.by_name ≡ t.by_name
    → s.next_id ≡ t.next_id
    → s.issued ≡ t.issued
    → Inv s
    → Inv t
same_tables s t a b c d v room =
    let g = v (omega arith) in
    record {
      services_map = rw (← a) g.services_map;
      names_map = rw (← b) g.names_map;
      ticket = ground (arith, g.ticket);
      used = λ id svc h. ground (arith, g.used id svc);
      named = λ id svc h. ground (arith, g.named id svc);
      indexed = λ n id h. ground (arith, g.indexed n id);
    }

world-Inv : (w : World) (s : State) → Inv s → Inv (record s { world = w })
world-Inv w s = same_tables s (record s { world = w }) refl refl refl refl

warn-Inv : (name : String) (s : State) → Inv s → Inv (warn_depth_once name s)
unfolding warn_depth_once
warn-Inv name s v = go (find name s.warned)
  where
    marked : Inv (record s { warned = put name true s.warned })
    marked = same_tables s (record s { warned = put name true s.warned }) refl refl refl refl v

    go :
        (o : Option Bool)
        → Inv (elim o [ some true ↦ s | _ ↦ record s { warned = put name true s.warned } ])
    go none = marked
    go (some true) = v
    go (some false) = marked

depth-warn : (name : String) (s : State) → (warn_depth_once name s).depth ≡ s.depth
unfolding warn_depth_once
depth-warn name s = ground arith

abbrev CallsEnd : ℕ → Caller → Type 0
CallsEnd d call =
    (raw : ℕ) (name request : String) (u : State) → At d u → Ends (At d) (call raw name request u)

run_program-Ends :
    (d : ℕ) (call : Caller)
    → CallsEnd d call
    → (p : Program) (s : State) → At d s
    → Ends (At d) (run_program call p s)
unfolding run_program
run_program-Ends d call c (ends o) s a = a
run_program-Ends d call c (calls raw name request k) s a =
    go (call raw name request s) (c raw name request s a)
      (λ status. run_program-Ends d call c (k status))
  where
    go :
        (r : Option (Status × State))
        → Ends (At d) r
        → ((status : Status) (t : State) → At d t → Ends (At d) (run_program call (k status) t))
        → Ends (At d) (elim r [ none ↦ none | some (status, t) ↦ run_program call (k status) t ])
    go none e rec = e
    go (some (status, t)) e rec = rec status t e
run_program-Ends d call c (registers raw name cb user k) s a =
    run_program-Ends d call c (k (register raw name cb user s).0) (register raw name cb user s).1
      (register-Inv raw name cb user s a.0, depth-register raw name cb user s ∙ a.1)
run_program-Ends d call c (unregisters raw id k) s a =
    run_program-Ends d call c (k (unregister raw id s).0) (unregister raw id s).1
      (unregister-Inv raw id s a.0, depth-unregister raw id s ∙ a.1)
run_program-Ends d call c (unloads raw k) s a =
    run_program-Ends d call c k (on_rust_mod_gone raw s)
      (gone-Inv raw s a.0, depth-gone raw s ∙ a.1)
run_program-Ends d call c (turns w k) s a =
    run_program-Ends d call c k (record s { world = w }) (world-Inv w s a.0, a.1)

enter-Ends :
    (providers : Providers) (d : ℕ) (call : Caller)
    → CallsEnd (d + 1) call
    → (svc : Service) (name request : String) (s : State) → At d s
    → Ends (At d) (enter providers call svc name request s)
unfolding enter
enter-Ends providers d call c svc name request s a =
    let inner : State = record s { depth = s.depth + 1 } in
    go (run_program call (providers svc.cb svc.user name request) inner) (
      run_program-Ends (d + 1) call c (providers svc.cb svc.user name request) inner
        (same_tables s inner refl refl refl refl a.0, omega (arith, a.1)))
  where
    go :
        (r : Option (Outcome × State))
        → Ends (At (d + 1)) r
        → Ends (At d) (elim r [
          | none ↦ none
          | some (o, t) ↦ some (status_of o, record t { depth = t.depth - 1 })
        ])
    go none e = e
    go (some (o, t)) e = (
      same_tables t (record t { depth = t.depth - 1 }) refl refl refl refl e.0,
      omega (arith, e.1),
    )

call_service_ends :
    (providers : Providers) (d : ℕ) (call : Caller)
    → CallsEnd (d + 1) call
    → (svc : Service) → CallsEnd d (call_service providers call svc)
unfolding call_service
call_service_ends providers d call c svc raw name request s a = elim (Bool-cases (svc.cb == 0)) [
  | inl e ↦ rw e a
  | inr e ↦ elim (Bool-cases (svc.mod_ptr == 0)) [
    | inl f ↦ rw (e, f) a
    | inr f ↦ elim (Bool-cases (not (raw == 0) && svc.mod_ptr == raw)) [
      | inl g ↦ rw (e, f, g) a
      | inr g ↦ elim (Bool-cases (still_is s.world svc.owner svc.mod_ptr)) [
        | inr h ↦ rw (e, f, g, h) a
        | inl h ↦ rw (e, f, g, h) (enter-Ends providers d call c svc name request s a)
      ]
    ]
  ]
]

call_with_ends :
    (providers : Providers) (d : ℕ) (call : Caller)
    → (d < max_depth → CallsEnd (d + 1) call)
    → CallsEnd d (call_with providers call)
unfolding call_with
call_with_ends providers d call c raw name request s a = elim (Bool-cases (bad_name name)) [
  | inl e ↦ rw e a
  | inr e ↦ elim (Bool-cases (leb max_depth s.depth)) [
    | inl f ↦ rw (e, f) (warn-Inv name s a.0, depth-warn name s ∙ a.1)
    | inr f ↦ elim (Option-cases (lookup_service name s)) [
      | inl g ↦ rw (e, f, g) a
      | inr (svc, g) ↦
          rw (e, f, g)
            (call_service_ends providers d call (c (ground (arith, a.1))) svc raw name request s a)
    ]
  ]
]

calls_end :
    (providers : Providers) (fuel d : ℕ)
    → max_depth < fuel + d
    → d ≤ max_depth
    → CallsEnd d (service_call providers fuel)
unfolding service_call
calls_end providers zero d h l raw name request s a = absurd (omega arith)
calls_end providers (suc fuel) d h l raw name request s a =
    call_with_ends providers d (service_call providers fuel)
      (λ p. calls_end providers fuel (d + 1) (omega arith) (omega arith)) raw name request s a

-- From a registry that is in order, at a depth of at most 8: whatever the providers do and however
-- they call one another, register and unload, a call ends: 9 - depth levels of fuel are enough,
-- since a call at depth 8 is refused. The registry is in order afterwards (while fewer than 2^64 -
-- 1 tickets were drawn) and the depth is as before.
pub service_call_total :
    (providers : Providers) (fuel raw : ℕ) (name request : String) (s : State)
    → Inv s
    → s.depth ≤ max_depth
    → max_depth < fuel + s.depth
    → Ends (λ t. Inv t × (t.depth ≡ s.depth)) (service_call providers fuel raw name request s)
service_call_total providers fuel raw name request s v l h =
    calls_end providers fuel s.depth h l raw name request s (v, refl)

-- What the provider at an entry made of a call: its own callback ran on its own user pointer, one
-- level deeper, and its end is the answer.
abbrev pub Answered :
    Providers → Caller → Service → String → String → State → Status → State → Type 0
Answered providers call svc name request s status t =
    (o : Outcome) × (u : State) × (run_program call (providers svc.cb svc.user name request)
        (record s { depth = s.depth + 1 })
      ≡ some (o, u))
    × (status ≡ status_of o)
    × (t ≡ record u { depth = u.depth - 1 })

abbrev leave : Option (Outcome × State) → Option (Status × State)
leave r = elim r [
  | none ↦ none
  | some (o, u) ↦ some (status_of o, record u { depth = u.depth - 1 })
]

enter-Answered :
    (providers : Providers) (call : Caller) (svc : Service) (name request : String) (s t : State)
    (status : Status)
    → enter providers call svc name request s ≡ some (status, t)
    → Answered providers call svc name request s status t
unfolding enter
enter-Answered providers call svc name request s t status h =
    go
      (run_program call (providers svc.cb svc.user name request) (record s { depth = s.depth + 1 }))
      refl h
  where
    go :
        (r : Option (Outcome × State))
        → run_program call
            (providers svc.cb svc.user name request)
            (record s { depth = s.depth + 1 })
          ≡ r
        → leave r ≡ some (status, t)
        → Answered providers call svc name request s status t
    go none e k = absurd (cc)
    go (some (o, u)) e k = (o, u, e, ground (arith, k), ground (arith, k))

-- A call that answers OK or ERROR went to the provider that the name led to: its callback is there,
-- it was alive, it is not the caller, and the depth was below the limit. That callback ran, on that
-- provider's user pointer, the name and the request, one level deeper than the call; the answer is OK
-- if it returned true, and ERROR if it returned false or threw; and what it left behind, with the
-- level taken back, is what the call leaves.
pub service_call_reached :
    (providers : Providers) (fuel raw : ℕ) (name request : String) (s t : State) (status : Status)
    → service_call providers (suc fuel) raw name request s ≡ some (status, t)
    → (status ≡ service_ok) ⊎ (status ≡ service_error)
    → (svc : Service) × (lookup_service name s ≡ some svc)
      × (svc.cb ≢ 0)
      × ((raw ≡ 0) ⊎ (svc.mod_ptr ≢ raw))
      × (still_is s.world svc.owner svc.mod_ptr ≡ true)
      × (s.depth < max_depth)
      × Answered providers (service_call providers fuel) svc name request s status t
unfolding service_call call_with call_service
service_call_reached providers fuel raw name request s t status h o =
    elim (Option-cases (lookup_service name s)) [
      | inl e ↦ absurd (ground arith)
      | inr (svc, e) ↦
          let entered : enter providers (service_call providers fuel) svc name request s
              ≡ some (status, t) =
            ground arith in
          (
            svc,
            e,
            ground arith,
            ground arith,
            ground arith,
            ground arith,
            enter-Answered providers (service_call providers fuel) svc name request s t status
                entered,
          )
    ]
