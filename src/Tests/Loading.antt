-- ===== src/Tests/Loading.antt =====
-- src/core/RustModManager.cpp and src/bridge/hooks/DecisionThrottle.h on one mod and one player.
use levilamina_rust_loader.Base.{
  ℕ, ◌+◌, ◌≡◌, ◌≤◌, refl, String, true, false, not, ◌&&◌, none, some, [], arith, ltb, if◌then◌else◌,
  ◌==◌, string_eq, length,
}
use levilamina_rust_loader.Base.Int.{pos, ◌-ℤ◌, leb_ℤ}
use levilamina_rust_loader.Base.Assoc.{find, put}
use levilamina_rust_loader.Base.Mods.{World}
use levilamina_rust_loader.Lane.Tables.{init as lanes_init}
use levilamina_rust_loader.Lane.Invariant.{init-Inv as lanes-Inv}
use levilamina_rust_loader.Lane.Gone.{mod_busy_name, busy_lane}
use levilamina_rust_loader.Lane.Calls.{quiet, unpublishes}
use levilamina_rust_loader.Lane.Publish.{unpublish}
use levilamina_rust_loader.Commands.Bindings.{init as commands_init}
use levilamina_rust_loader.Packets.Tables.{init as packets_init}
use levilamina_rust_loader.Services.Tables.{init as services_init}
use levilamina_rust_loader.Services.Invariant.{init-Inv as services-Inv}
use levilamina_rust_loader.Bus.Tables.{init as bus_init}
use levilamina_rust_loader.Bus.Invariant.{init-Inv as bus-Inv}
use levilamina_rust_loader.Scheduler.Tasks.{init as tasks_init}
use levilamina_rust_loader.Manager.Mods.{
  ModVtable, RustMod, Loader, Dylib, Releases, unloaded, load, ask_unload, unload, unload_mod,
  take_out, gate, after_main, admit, add_mod,
}
use levilamina_rust_loader.Manager.Gates.{LoadOutcome, load-outcome}
use levilamina_rust_loader.Manager.Unloaded.{IsGone, IsOrdered, Spares, unload-IsGone}
use levilamina_rust_loader.Throttle.{
  Place, same_place, decision_ttl_ms, ThrottledDecision, throttle_lookup, throttle_store,
  lookup-store, store_bounded,
}

abbrev quiet_host : World
quiet_host = record {
  shared_from_this = λ p. some p;
  lock = λ w. some w;
  is_enabled = λ p. true;
  get_name = λ p. "mod";
}

abbrev table : ModVtable
table = record { abi_version = 4; on_enable = 1; on_disable = 2; on_unload = 3 }

-- The `release` of a lane takes down the next lane of the mod 10, and calls nothing else.
abbrev takes_down : Releases
takes_down = record { lanes = λ id s. (unpublish 10 (id + 1) s).1; tables = λ s. s }

takes_down-Spares : Spares 10 takes_down
takes_down-Spares = record {
  lanes_spared = λ id s. unpublishes 10 (id + 1) s s (quiet s);
  tasks_spared = λ s h. h;
  bus_spared = λ s h. h;
  services_spared = λ s h. h;
}

-- A library whose functions agree and do nothing.
abbrev willing : ℕ → Dylib
willing address = record {
  opens = true;
  exports_main = true;
  main = λ s. (some table, s);
  run = λ f s. (true, s);
  closes = true;
  releases = takes_down;
}

abbrev empty_loader : Loader
empty_loader = record {
  mods = [];
  tasks = tasks_init;
  bus = bus_init quiet_host;
  services = services_init quiet_host;
  lanes = lanes_init;
  commands = commands_init;
  packets = packets_init;
  mapped = [];
}

load-outcome_example :
    LoadOutcome willing 10 "shop" empty_loader (load willing 10 "shop" empty_loader)
load-outcome_example = load-outcome willing 10 "shop" empty_loader refl refl

abbrev shop_mod : RustMod
shop_mod = record {
  address = 10;
  vtable = table;
  listeners = [];
  commands_muted = false;
  enabled = false;
}

abbrev with_shop : Loader
with_shop = (load willing 10 "shop" empty_loader).1

with_shop_found : find "shop" with_shop.mods ≡ some shop_mod
unfolding load after_main gate admit add_mod find put
with_shop_found = refl

ordered : IsOrdered (ask_unload (willing 10) shop_mod with_shop).1
unfolding load after_main gate admit add_mod ask_unload services_init bus_init
ordered = record {
  lanes_ordered = lanes-Inv;
  few_leases = unfold lanes_init in omega arith;
  services_ordered = services-Inv quiet_host (omega arith);
  bus_ordered = bus-Inv quiet_host (omega arith);
}

abbrev left : Loader
left = (unload willing "shop" with_shop).1

unload_answers : unload willing "shop" with_shop ≡ (unloaded, left)
unfolding load after_main gate admit add_mod find put ask_unload unload unload_mod take_out
    mod_busy_name busy_lane lanes_init
unload_answers = refl

unload-IsGone_example :
    (mod_busy_name 10 with_shop.lanes ≡ none)
    × ((ask_unload (willing 10) shop_mod with_shop).0 ≡ true)
    × IsGone 10 "shop" left
unload-IsGone_example =
    unload-IsGone willing "shop" shop_mod with_shop left with_shop_found (omega arith) refl
      takes_down-Spares ordered unload_answers

abbrev plate : Place
plate = record { x = pos 1; y = pos 64; z = pos 1; dim = pos 0 }

abbrev player : String
player = "2535"

lookup-store_example :
    throttle_lookup (throttle_store [] player plate (pos 1000) true) player plate (pos 1200) ≡ (
      if player == player
      then (if same_place plate plate && not (leb_ℤ decision_ttl_ms (pos 1200 -ℤ pos 1000))
          then some true
          else none)
      else if ltb 512 (length {A = String × ThrottledDecision} [])
      then none
      else throttle_lookup [] player plate (pos 1200))
lookup-store_example = lookup-store [] player player plate plate (pos 1000) (pos 1200) true

store_bounded_example : length (throttle_store [] player plate (pos 1000) true) ≤ 513
store_bounded_example = store_bounded [] player plate (pos 1000) true (omega arith)
