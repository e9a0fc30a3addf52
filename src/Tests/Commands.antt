-- ===== src/Tests/Commands.antt =====
-- src/core/ModControl.cpp on a shop and two mods that need it, one of them through the other.
use levilamina_rust_loader.Base.{
  ℕ, ◌<◌, ◌≤◌, ◌≡◌, ◌≢◌, ◌↔◌, ◌⊎◌, refl, String, true, false, some, List, [], ◌∷◌, ◌==◌, string_eq,
  nat_eq, arith, if◌then◌else◌,
}
use Prim.Native.String.{◌++◌ as ◌<>◌}
use levilamina_rust_loader.Base.Mods.{World}
use levilamina_rust_loader.Base.Assoc.{find, put, erase, keys_where, IsMap}
use levilamina_rust_loader.Base.Int.{◌+ℤ◌, ◌-ℤ◌}
use text.Mathlib.TextEquality.{eq_iff}
use levilamina_rust_loader.Lane.Tables.{init as lanes_init}
use levilamina_rust_loader.Commands.Bindings.{init as commands_init}
use levilamina_rust_loader.Packets.Tables.{init as packets_init}
use levilamina_rust_loader.Services.Tables.{init as services_init}
use levilamina_rust_loader.Bus.Tables.{init as bus_init}
use levilamina_rust_loader.Scheduler.Tasks.{init as tasks_init}
use levilamina_rust_loader.Manager.Mods.{
  ModVtable, RustMod, Loader, unload, unload_mod, ask_unload, take_out, quiet,
  on_rust_mod_gone as mods_gone,
}
use levilamina_rust_loader.Manager.Control.{control_unload}
use levilamina_rust_loader.Lane.Gone.{
  mod_busy_name, busy_lane, on_rust_mod_gone as lanes_gone, retire_all_of, retire_lanes,
  return_leases,
}
use levilamina_rust_loader.ModControl.Names.{has, times, sort_names}
use levilamina_rust_loader.ModControl.Graph.{
  Deps, list_of, dependents_of, affected_by, close, visit, reverse_edges, add_edges, order_of,
  order_loop, start_kahn, count_all, count_edges, zero_counts, get_count, release, emit,
  append_missing,
}
use levilamina_rust_loader.ModControl.Closure.{Needs}
use levilamina_rust_loader.ModControl.Dependents.{
  InUnloadOrder, dependents_of_total, dependents_of-InUnloadOrder,
}
use levilamina_rust_loader.ModControl.Args.{ParsedArgs, no_args, parse_args}
use levilamina_rust_loader.ModControl.Printed.{line, parse_args-written}
use levilamina_rust_loader.ModControl.Manifest.{
  object, quoted, boolean, Fields, field, end_of_object, Reading, parsed, no_file, Candidate,
  no_problem, candidate, read_candidate, parse_candidate, parse_fields, with_entry,
  is_rust_manifest, dependencies_field, reload_field, get_field, text_field,
}
use levilamina_rust_loader.ModControl.Console.{
  Host, Console, say, has_dependents, loaded_dependency_map, own_deps, absorb,
}
use levilamina_rust_loader.ModControl.Load.{cmd_load}
use levilamina_rust_loader.ModControl.Unload.{
  Unloading, unload_with, do_unload, foreign_of, unload_all, unload_one,
}
use levilamina_rust_loader.ModControl.Reload.{
  cmd_reload, reload_read, reload_candidate, reload_unloaded, bring_back,
}
use levilamina_rust_loader.ModControl.Dispatch.{run_command}
use levilamina_rust_loader.ModControl.Guarded.{Untouched, GoesOn, do_unload-GoesOn}
use levilamina_rust_loader.ModControl.Gated.{Tried, cmd_load-Tried}
use levilamina_rust_loader.ModControl.Reloaded.{MayReload, cmd_reload-MayReload}
use levilamina_rust_loader.ModControl.Answers.{Answered}
use levilamina_rust_loader.ModControl.Liveness.{run_command_answers}

abbrev shop : String
shop = "shop"

abbrev market : String
market = "market"

abbrev guild : String
guild = "guild"

abbrev three : Deps
three = (shop, []) ∷ (market, shop ∷ []) ∷ (guild, market ∷ shop ∷ []) ∷ []

abbrev shop_dependents : List String
shop_dependents = guild ∷ market ∷ []

found_in_order : dependents_of three shop ≡ some shop_dependents
unfolding dependents_of affected_by close visit list_of reverse_edges add_edges order_of order_loop
    start_kahn count_all count_edges zero_counts get_count release emit append_missing find put
    keys_where ◌+ℤ◌ ◌-ℤ◌ sort_names
found_in_order = refl

three-IsMap : IsMap three
unfolding find
three-IsMap = (refl, (refl, (refl, tt)))

dependents_of_total_example :
    (order : List String) × (dependents_of three shop ≡ some order)
    × ((m : String) → (has m order ≡ true) ↔ ((m ≢ shop) × Needs three shop m))
    × ((m : String) → times m order ≤ 1)
dependents_of_total_example = dependents_of_total three shop three-IsMap

abbrev rank : String → ℕ
rank x = if x == shop then 2 else if x == market then 1 else 0

rank_falls : (x m : String) → has m (list_of x three) ≡ true → rank x < rank m
unfolding list_of find
rank_falls x m h = ground (
  arith,
  eq_iff shop x,
  eq_iff market x,
  eq_iff guild x,
  eq_iff x shop,
  eq_iff x market,
  eq_iff shop m,
  eq_iff market m,
  eq_iff m shop,
  eq_iff m market,
)

dependents_of-InUnloadOrder_example : InUnloadOrder three shop_dependents
dependents_of-InUnloadOrder_example =
    dependents_of-InUnloadOrder three shop three-IsMap rank shop_dependents rank_falls
      found_in_order

abbrev unload_shop : ParsedArgs
unload_shop = record no_args { sub = "unload"; name = shop; cascade = true }

abbrev typed_words : List (String × String)
typed_words = ("unload", " ") ∷ (shop, "  ") ∷ ("--cascade", "") ∷ []

typed_line : "" <> line typed_words ≡ "unload shop  --cascade"
typed_line = refl

parse_args-written_example : parse_args ("" <> line typed_words) ≡ unload_shop
parse_args-written_example =
    parse_args-written unload_shop "" typed_words
      (record {
        sub_word = (refl, refl);
        name_word = (refl, refl);
        sub_plain = refl;
        name_plain = refl;
        known = (refl, refl);
      })
      refl (refl, refl, (refl, refl, refl)) refl

abbrev shop_fields : Fields
shop_fields =
    field "type" (quoted "rust")
      (field "entry" (quoted "shop.dll") (field "reload_safe" (boolean true) end_of_object))

abbrev shop_candidate : Candidate
shop_candidate = record {
  name = shop;
  entry = "shop.dll";
  version = "";
  dependencies = [];
  reload_safe = true;
  problem = no_problem;
}

abbrev on_disk : String → Reading
on_disk name = if name == shop then parsed (object shop_fields) else no_file

shop_read : read_candidate (parsed (object shop_fields)) shop ≡ candidate shop_candidate
unfolding read_candidate parse_candidate parse_fields with_entry is_rust_manifest dependencies_field
    reload_field get_field text_field
shop_read = refl

abbrev quiet_host : World
quiet_host = record {
  shared_from_this = λ p. some p;
  lock = λ w. some w;
  is_enabled = λ p. true;
  get_name = λ p. "mod";
}

abbrev table : ModVtable
table = record { abi_version = 4; on_enable = 0; on_disable = 0; on_unload = 0 }

abbrev mod_at : ℕ → RustMod
mod_at address = record {
  address = address;
  vtable = table;
  listeners = [];
  commands_muted = false;
  enabled = false;
}

abbrev two_loaded : Loader
two_loaded = record {
  mods = (shop, mod_at 10) ∷ (market, mod_at 11) ∷ [];
  tasks = tasks_init;
  bus = bus_init quiet_host;
  services = services_init quiet_host;
  lanes = lanes_init;
  commands = commands_init;
  packets = packets_init;
  mapped = 10 ∷ 11 ∷ [];
}

abbrev none_loaded : Loader
none_loaded = record two_loaded { mods = []; mapped = [] }

-- The libraries agree to everything; the market needs the shop.
abbrev server : Host
server = record {
  dylib = λ address. record {
    opens = true;
    exports_main = true;
    main = λ s. (some table, s);
    run = λ f s. (true, s);
    closes = true;
    releases = record { lanes = λ id s. s; tables = λ s. s };
  };
  enable = λ name s. (true, s);
  disable = λ name s. (true, s);
  next_mod = λ s. 12;
  handle = λ m s. 1000;
  manifest_deps = λ m. if m.address == 11 then shop ∷ [] else [];
  registry = λ s. [];
  dirs = shop ∷ [];
  disk = on_disk;
  deserialize = λ j. some shop;
}

abbrev console : Loader → Console
console s = record { loader = s; ready = true; last_base = []; said = [] }

market_needs_shop :
    dependents_of (loaded_dependency_map server (console two_loaded)) shop ≡ some (market ∷ [])
unfolding loaded_dependency_map own_deps absorb dependents_of affected_by close visit list_of
    reverse_edges add_edges order_of order_loop start_kahn count_all count_edges zero_counts
    get_count release emit append_missing find put keys_where ◌+ℤ◌ ◌-ℤ◌ sort_names
market_needs_shop = refl

abbrev refused_unload : Unloading server
refused_unload = ((false, []), say (has_dependents shop (market ∷ [])) (console two_loaded))

unload_refused : do_unload server shop false (console two_loaded) ≡ some refused_unload
unfolding do_unload
unload_refused = rw (do_unload, market_needs_shop) (unfold unload_with find in refl)

-- With a cascade, the market is taken out first.
abbrev both_gone : Unloading server
both_gone = unload_with server shop true (market ∷ []) (console two_loaded)

both_are_gone : both_gone.0 ≡ (true, market ∷ shop ∷ [])
unfolding unload_with foreign_of unload_all unload_one control_unload unload unload_mod ask_unload
    take_out quiet find put erase mod_busy_name busy_lane lanes_init mods_gone lanes_gone
    retire_all_of retire_lanes return_leases keys_where
both_are_gone = refl

unload_goes_on : do_unload server shop true (console two_loaded) ≡ some both_gone
unfolding do_unload
unload_goes_on = rw (do_unload, market_needs_shop) (unfold find in refl)

do_unload-GoesOn_example :
    ((both_gone.0.0 ≡ false) × Untouched (console two_loaded) both_gone.1)
    ⊎ GoesOn server shop true (console two_loaded) both_gone
do_unload-GoesOn_example =
    do_unload-GoesOn server shop true (console two_loaded) both_gone unload_goes_on

nothing_brought_back :
    reload_unloaded server shop false (console two_loaded) ≡ some refused_unload.1
unfolding reload_unloaded bring_back
nothing_brought_back = rw (reload_unloaded, unload_refused) refl

reload_refused : cmd_reload server shop false (console two_loaded) ≡ some refused_unload.1
unfolding cmd_reload find
reload_refused = rw (cmd_reload, shop_read, reload_read, reload_candidate) nothing_brought_back

cmd_reload-MayReload_example :
    Untouched (console two_loaded) refused_unload.1
    ⊎ MayReload server shop false (console two_loaded)
cmd_reload-MayReload_example =
    cmd_reload-MayReload server shop false (console two_loaded) refused_unload.1 reload_refused

cmd_load-Tried_example :
    Untouched (console none_loaded) (cmd_load server shop (console none_loaded))
    ⊎ Tried server shop (console none_loaded) (cmd_load server shop (console none_loaded))
cmd_load-Tried_example = cmd_load-Tried server shop (console none_loaded)

run_command_answers_example :
    Answered (console two_loaded) (run_command server "unload shop --cascade" (console two_loaded))
run_command_answers_example =
    run_command_answers server "unload shop --cascade" (console two_loaded)
