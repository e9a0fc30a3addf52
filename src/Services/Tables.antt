-- ===== src/Services/Tables.antt =====
-- src/bridge/core/Services.cpp: the registry, `service_register`, `service_unregister`,
-- `service_list` and the clean-up when a mod goes.
use levilamina_rust_loader.Base.{
  ℕ, ◌+◌, String, len, Bool, true, false, not, ◌||◌, none, some, List, [], ◌∷◌, ltb, if◌then◌else◌,
  ◌==◌, nat_eq, string_eq,
}
use levilamina_rust_loader.Base.Assoc.{find, put, emplace, erase}
use levilamina_rust_loader.Base.Words.{inc64}
use levilamina_rust_loader.Base.Mods.{World}

abbrev pub max_name : ℕ
max_name = 128

abbrev pub max_depth : ℕ
max_depth = 8

-- A callback is an address, 0 is null.
pub record Service : Type 0 where
  pub mod_ptr : ℕ
  pub owner : ℕ
  pub name : String
  pub cb : ℕ
  pub user : ℕ

-- `issued` counts the tickets that were ever drawn, which `next_id` does modulo 2^64; `depth` is the
-- nesting depth of the server thread, and `warned` the names that the log has complained about.
pub record State : Type 0 where
  pub services : List (ℕ × Service)
  pub by_name : List (String × ℕ)
  pub next_id : ℕ
  pub issued : ℕ
  pub depth : ℕ
  pub warned : List (String × Bool)
  pub world : World

unfoldable pub init : World → State
init w = record {
  services = [];
  by_name = [];
  next_id = 1;
  issued = 0;
  depth = 0;
  warned = [];
  world = w;
}

abbrev pub bad_name : String → Bool
bad_name name = len name == 0 || ltb max_name (len name)

unfoldable pub empty_service : Service
empty_service = record { mod_ptr = 0; owner = 0; name = ""; cb = 0; user = 0 }

-- `gServices[id]`, which enters an empty service under an id that is not there.
unfoldable pub touch : ℕ → List (ℕ × Service) → List (ℕ × Service)
unfolding empty_service
touch id m = elim (find id m) [ none ↦ put id empty_service m | some _ ↦ m ]

-- A ticket is drawn, also where the registration then fails.
unfoldable pub draw : State → State
draw s = record s { next_id = inc64 s.next_id; issued = s.issued + 1 }

unfoldable pub enter_service : ℕ → Service → State → State
enter_service id svc s = record s {
  services = emplace id svc s.services;
  by_name = emplace svc.name id s.by_name;
}

unfoldable pub register_free : ℕ → String → ℕ → ℕ → State → ℕ × State
unfolding draw enter_service
register_free raw name cb user s = elim (s.world.shared_from_this raw) [
  | none ↦ (0, draw s)
  | some owner ↦ (
    s.next_id,
    enter_service s.next_id
        (record { mod_ptr = raw; owner = owner; name = name; cb = cb; user = user }) (draw s),
  )
]

-- `api_service_register`: the second registrar of a name is refused.
unfoldable pub register : ℕ → String → ℕ → ℕ → State → ℕ × State
unfolding touch register_free
register raw name cb user s =
    if raw == 0 || cb == 0
    then (0, s)
    else if bad_name name
    then (0, s)
    else elim (find name s.by_name) [
      | some id ↦ (0, record s { services = touch id s.services })
      | none ↦ register_free raw name cb user s
    ]

-- `api_service_unregister`: only the provider itself.
unfoldable pub unregister : ℕ → ℕ → State → Bool × State
unregister raw id s = if raw == 0 || id == 0 then (false, s) else elim (find id s.services) [
  | none ↦ (false, s)
  | some svc ↦
      if not (svc.mod_ptr == raw)
      then (false, s)
      else (true, record s { by_name = erase svc.name s.by_name; services = erase id s.services })
]

-- The entries that `api_service_list` prints: each name with its provider's, "?" for a null one.
unfoldable pub list_services :
    World → List (ℕ × Service) → List (String × ℕ) → List (String × String)
list_services w services [] = []
list_services w services ((name, id) ∷ rest) =
    let later = list_services w services rest in
    elim (find id services) [
      | none ↦ later
      | some svc ↦ (name, if svc.mod_ptr == 0 then "?" else w.get_name svc.mod_ptr) ∷ later
    ]

-- The loop of `servicesOnRustModGone`, over the entries that are still to be looked at.
unfoldable pub sweep :
    ℕ → List (ℕ × Service) → List (String × ℕ) → List (ℕ × Service) × List (String × ℕ)
sweep raw [] names = ([], names)
sweep raw ((id, svc) ∷ rest) names =
    let (kept, left) =
      sweep raw rest (if svc.mod_ptr == raw then erase svc.name names else names) in
    if svc.mod_ptr == raw then (kept, left) else ((id, svc) ∷ kept, left)

unfoldable pub on_rust_mod_gone : ℕ → State → State
unfolding sweep
on_rust_mod_gone raw s =
    if raw == 0
    then s
    else let (kept, left) = sweep raw s.services s.by_name in
      record s { services = kept; by_name = left }
