-- ===== src/Tests/Registry.antt =====
-- src/bridge/core/Services.cpp on two providers that call each other.
use levilamina_rust_loader.Base.{
  ℕ, ◌≡◌, ◌≢◌, refl, String, true, none, some, arith, ◌⊎◌, inl, ◌<◌, if◌then◌else◌, ◌==◌, nat_eq,
  string_eq,
}
use levilamina_rust_loader.Base.Assoc.{find, put, emplace}
use levilamina_rust_loader.Base.Words.{inc64}
use levilamina_rust_loader.Base.Mods.{World, still_is}
use levilamina_rust_loader.Services.Tables.{
  Service, State, init, register, register_free, draw, enter_service, on_rust_mod_gone, max_depth,
}
use levilamina_rust_loader.Services.Call.{
  Status, service_ok, returned, Program, ends, calls, Providers, service_call, lookup_service,
  call_with, call_service, run_program, enter,
}
use levilamina_rust_loader.Services.Invariant.{Good, Inv, init-Inv, register-Inv}
use levilamina_rust_loader.Services.Sweep.{gone_effect}
use levilamina_rust_loader.Services.Total.{Ends, Answered, service_call_total, service_call_reached}

abbrev server : World
server = record {
  shared_from_this = λ p. some p;
  lock = λ w. some w;
  is_enabled = λ p. true;
  get_name = λ p. "mod";
}

-- Each provider calls the other, for ever.
abbrev again : String → Status → Program
again name _ = ends (returned true)

abbrev each_other : Providers
each_other cb user name request =
    if cb == 1 then calls 10 "bank" "" (again name) else calls 20 "shop" "" (again name)

-- A provider that answers at once.
abbrev prompt : Providers
prompt cb user name request = ends (returned true)

-- The mod that provides the service "shop".
abbrev shop : ℕ
shop = 10

abbrev shop_open : State
shop_open = (register 10 "shop" 1 0 (init server)).1

abbrev registry : State
registry = (register 20 "bank" 2 0 shop_open).1

registry-Inv : Inv registry
registry-Inv =
    register-Inv 20 "bank" 2 0 shop_open
      (register-Inv 10 "shop" 1 0 (init server) (init-Inv server))

registry_counts : (registry.issued ≡ 2) × (registry.depth ≡ 0) × (shop_open.issued ≡ 1)
unfolding register register_free draw enter_service init find emplace put
registry_counts = (refl, refl, refl)

registry-Good : Good registry
registry-Good = registry-Inv (omega (arith, registry_counts.0))

service_call_total_example :
    Ends (λ t. Inv t × (t.depth ≡ registry.depth)) (service_call each_other 9 0 "shop" "" registry)
service_call_total_example =
    service_call_total each_other 9 0 "shop" "" registry registry-Inv
      (omega (arith, registry_counts.1)) (omega (arith, registry_counts.1))

prompt_call : service_call prompt 1 shop "bank" "" registry ≡ some (service_ok, registry)
unfolding register register_free draw enter_service init find put emplace inc64 service_call
    call_with call_service lookup_service run_program enter
prompt_call = refl

service_call_reached_example :
    (svc : Service) × (lookup_service "bank" registry ≡ some svc)
    × (svc.cb ≢ 0)
    × ((shop ≡ 0) ⊎ (svc.mod_ptr ≢ shop))
    × (still_is registry.world svc.owner svc.mod_ptr ≡ true)
    × (registry.depth < max_depth)
    × Answered prompt (service_call prompt 0) svc "bank" "" registry service_ok registry
service_call_reached_example =
    service_call_reached prompt 0 shop "bank" "" registry registry service_ok prompt_call (inl refl)

abbrev bank : Service
bank = record { mod_ptr = 20; owner = 20; name = "bank"; cb = 2; user = 0 }

bank_found : find 2 registry.services ≡ some bank
unfolding register register_free draw enter_service init find put emplace inc64
bank_found = refl

gone_effect_example :
    (find 2 (on_rust_mod_gone 20 registry).services
      ≡ (if bank.mod_ptr == 20 then none else some bank))
    × (find bank.name (on_rust_mod_gone 20 registry).by_name
        ≡ (if bank.mod_ptr == 20 then none else some 2))
gone_effect_example = gone_effect 20 2 bank registry registry-Good (omega arith) bank_found
