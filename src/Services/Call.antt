-- ===== src/Services/Call.antt =====
-- src/bridge/core/Services.cpp: `api_service_call`. A provider is the mods' code: what it does is a
-- `Program`, a tree of its calls into the loader and of what it goes on to do with each answer.
use levilamina_rust_loader.Base.{
  ℕ, zero, suc, ◌+◌, ◌-◌, String, Bool, true, false, not, ◌&&◌, Option, none, some, leb,
  if◌then◌else◌, ◌==◌, nat_eq, string_eq,
}
use levilamina_rust_loader.Base.Assoc.{find, put}
use levilamina_rust_loader.Base.Mods.{World, still_is}
use levilamina_rust_loader.Services.Tables.{
  Service, State, max_depth, bad_name, register, unregister, on_rust_mod_gone,
}

-- LEVI_RS_SERVICE_OK, NOT_FOUND, ERROR and REFUSED.
pub data Status : Type 0 where
  service_ok service_not_found service_error service_refused : Status

-- How a provider ends: with its answer, or with an exception.
pub data Outcome : Type 0 where
  returned : Bool → Outcome
  threw : Outcome

-- The caller 0 is the loader itself. Between two of its calls the host may change (a mod is enabled
-- or unloaded).
pub data Program : Type 0 where
  ends : Outcome → Program
  calls : ℕ → String → String → (Status → Program) → Program
  registers : ℕ → String → ℕ → ℕ → (ℕ → Program) → Program
  unregisters : ℕ → ℕ → (Bool → Program) → Program
  unloads : ℕ → Program → Program
  turns : World → Program → Program

-- What each callback does, with its user pointer, on a name and a request.
abbrev pub Providers : Type 0
Providers = ℕ → ℕ → String → String → Program

-- None where the fuel runs out.
abbrev pub M : Type 0 → Type 0
M A = State → Option (A × State)

abbrev pub Caller : Type 0
Caller = ℕ → String → String → M Status

unfoldable pub run_program : Caller → Program → M Outcome
run_program call (ends o) s = some (o, s)
run_program call (calls raw name request k) s = elim (call raw name request s) [
  | none ↦ none
  | some (status, t) ↦ run_program call (k status) t
]
run_program call (registers raw name cb user k) s =
    let (id, t) = register raw name cb user s in run_program call (k id) t
run_program call (unregisters raw id k) s =
    let (done, t) = unregister raw id s in run_program call (k done) t
run_program call (unloads raw k) s = run_program call k (on_rust_mod_gone raw s)
run_program call (turns w k) s = run_program call k (record s { world = w })

-- `warnDepthOnce`
unfoldable pub warn_depth_once : String → State → State
warn_depth_once name s = elim (find name s.warned) [
  | some true ↦ s
  | _ ↦ record s { warned = put name true s.warned }
]

abbrev pub status_of : Outcome → Status
status_of (returned true) = service_ok
status_of (returned false) = service_error
status_of threw = service_error

-- The provider runs one level deeper, and the guard takes the level back when it ends.
unfoldable pub enter : Providers → Caller → Service → String → String → M Status
unfolding run_program
enter providers call svc name request s =
    elim (run_program call (providers svc.cb svc.user name request)
      (record s { depth = s.depth + 1 })) [
        | none ↦ none
        | some (o, t) ↦ some (status_of o, record t { depth = t.depth - 1 })
      ]

-- The checks on the entry that the name leads to.
unfoldable pub call_service : Providers → Caller → Service → Caller
unfolding enter
call_service providers call svc raw name request s =
    if svc.cb == 0
    then some (service_not_found, s)
    else if svc.mod_ptr == 0
    then some (service_not_found, s)
    else if not (raw == 0) && svc.mod_ptr == raw
    then some (service_refused, s)
    else if not (still_is s.world svc.owner svc.mod_ptr)
    then some (service_not_found, s)
    else enter providers call svc name request s

unfoldable pub lookup_service : String → State → Option Service
lookup_service name s = elim (find name s.by_name) [ none ↦ none | some id ↦ find id s.services ]

unfoldable pub call_with : Providers → Caller → Caller
unfolding warn_depth_once call_service lookup_service
call_with providers call raw name request s =
    if bad_name name
    then some (service_refused, s)
    else if leb max_depth s.depth
    then some (service_refused, warn_depth_once name s)
    else elim (lookup_service name s) [
      | none ↦ some (service_not_found, s)
      | some svc ↦ call_service providers call svc raw name request s
    ]

-- `api_service_call`; a nested call has one unit of fuel less.
unfoldable pub service_call : Providers → ℕ → Caller
unfolding call_with
service_call providers zero raw name request s = none
service_call providers (suc fuel) raw name request s =
    call_with providers (service_call providers fuel) raw name request s
