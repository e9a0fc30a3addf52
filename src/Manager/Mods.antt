-- ===== src/Manager/Mods.antt =====
-- src/core/RustModManager.cpp: loading and unloading, and src/bridge/core/ApiTable.cpp's clean-up of
-- the tables of the scheduler, the bus, the services, the lanes, the commands and the packet hooks. The
-- forms, the database, the event hooks and the money have tables of their own, which are not modelled.
-- The host's ModManager keeps the mods by name; what a mod's dynamic library does is a parameter.
use levilamina_rust_loader.Base.{
  ℕ, ◌*◌, ◌/◌, ◌%◌, ◌^◌, String, Bool, true, false, not, ◌||◌, Option, none, some, List, [], ◌∷◌,
  ltb, if◌then◌else◌, ◌==◌, nat_eq, string_eq,
}
use levilamina_rust_loader.Base.Assoc.{find, put, erase}
use levilamina_rust_loader.Lane.Tables.{State as LaneState}
use levilamina_rust_loader.Commands.Bindings.{Commands, on_rust_mod_gone as commands_gone}
use levilamina_rust_loader.Packets.Tables.{State as PacketState, on_rust_mod_gone as packets_gone}
use levilamina_rust_loader.Lane.Calls.{Reaction}
use levilamina_rust_loader.Lane.Gone.{mod_busy_name, on_rust_mod_gone as lane_gone}
use levilamina_rust_loader.Services.Tables.{
  State as ServiceState, on_rust_mod_gone as services_gone,
}
use levilamina_rust_loader.Bus.Tables.{State as BusState, on_rust_mod_gone as bus_gone}
use levilamina_rust_loader.Scheduler.Tasks.{State as TaskState, on_rust_mod_gone as scheduler_gone}

-- LeviRsModVTable: the functions are addresses, 0 is null.
pub record ModVtable : Type 0 where
  pub abi_version : ℕ
  pub on_enable : ℕ
  pub on_disable : ℕ
  pub on_unload : ℕ

pub record RustMod : Type 0 where
  pub address : ℕ
  pub vtable : ModVtable
  pub listeners : List ℕ
  pub commands_muted : Bool
  pub enabled : Bool

-- The loader: its mods by name, the tables, and the libraries that are mapped, by their mod's address.
pub record Loader : Type 0 where
  pub mods : List (String × RustMod)
  pub tasks : TaskState
  pub bus : BusState
  pub services : ServiceState
  pub lanes : LaneState
  pub commands : Commands
  pub packets : PacketState
  pub mapped : List ℕ

-- What a mod's code does when it runs: it answers, and may have called the loader.
abbrev pub Act : Type 0
Act = Loader → Bool × Loader

-- What the functions `release` call that run while a mod is cleaned up: of the lanes, by the lane that
-- is released, and of the other tables of the loader.
pub record Releases : Type 0 where
  pub lanes : Reaction
  pub tables : Loader → Loader

-- A dynamic library. `main` answers the table that it filled in, or none where it returned false.
pub record Dylib : Type 0 where
  pub opens : Bool
  pub exports_main : Bool
  pub main : Loader → Option ModVtable × Loader
  pub run : ℕ → Act
  pub closes : Bool
  pub releases : Releases

pub data LoadResult : Type 0 where
  loaded cannot_open no_main main_failed wrong_target too_new too_old not_enabled : LoadResult

pub data UnloadResult : Type 0 where
  unloaded not_found lane_busy refused cannot_close not_disabled : UnloadResult

abbrev pub abi_version : ℕ
abi_version = 5

abbrev pub min_supported : ℕ
min_supported = 1

-- `tagged & LEVI_RS_ABI_TARGET_MASK` and `tagged & ~LEVI_RS_ABI_TARGET_MASK`, the mask being 2^31.
abbrev pub target_of : ℕ → ℕ
target_of tagged = tagged / 2 ^ 31 % 2 * 2 ^ 31

abbrev pub abi_of : ℕ → ℕ
abi_of tagged = tagged % 2 ^ 31

-- The checks on the version that the mod was built against; the server's target tag is 0.
unfoldable pub gate : ℕ → LoadResult
gate tagged =
    if not (target_of tagged == 0)
    then wrong_target
    else if ltb abi_version (abi_of tagged)
    then too_new
    else if ltb (abi_of tagged) min_supported
    then too_old
    else loaded

abbrev pub without : ℕ → List ℕ → List ℕ
without a [] = []
without a (b ∷ bs) = if b == a then without a bs else b ∷ without a bs

abbrev pub among : ℕ → List ℕ → Bool
among a [] = false
among a (b ∷ bs) = b == a || among a bs

abbrev pub is_mapped : ℕ → Loader → Bool
is_mapped a s = among a s.mapped

-- `mod->lib.free()`, true where it worked.
unfoldable pub free : Bool → ℕ → Loader → Loader
free closes address s = if closes then record s { mapped = without address s.mapped } else s

-- `addMod`, of a mod that is not yet enabled.
unfoldable pub add_mod : String → ℕ → ModVtable → Loader → Loader
add_mod name address vtable s = record s {
  mods =
      put name
        (record {
          address = address;
          vtable = vtable;
          listeners = [];
          commands_muted = false;
          enabled = false;
        })
        s.mods;
}

-- The last part of `load`: the mod is added only if the gates let it pass.
unfoldable pub admit : Bool → String → ℕ → ModVtable → LoadResult → Loader → LoadResult × Loader
admit closes name address vtable loaded s = (loaded, add_mod name address vtable s)
admit closes name address vtable r s = (r, free closes address s)

unfoldable pub after_main : Bool → String → ℕ → Option ModVtable × Loader → LoadResult × Loader
after_main closes name address (none, s) = (main_failed, free closes address s)
after_main closes name address (some vtable, s) =
    admit closes name address vtable (gate vtable.abi_version) s

-- `RustModManager::load`, of a mod object at an address.
unfoldable pub load : (ℕ → Dylib) → ℕ → String → Loader → LoadResult × Loader
load dylib address name s =
    let d = dylib address in
    let t : Loader = record s { mapped = address ∷ s.mapped } in
    if not d.opens
    then (cannot_open, s)
    else if not d.exports_main
    then (no_main, free d.closes address t)
    else after_main d.closes name address (d.main t)

-- `detail::onRustModGone`, in its order: the tasks, the bus, the services, the lanes, the commands,
-- the packet hooks. While the lanes are swept, the loader may be called.
unfoldable pub on_rust_mod_gone : Releases → ℕ → Loader → Loader
on_rust_mod_gone r raw s =
    let t = r.tables (record s {
      tasks = (scheduler_gone raw s.tasks).1;
      bus = bus_gone raw s.bus;
      services = services_gone raw s.services;
    }) in
    record s {
      tasks = t.tasks;
      bus = t.bus;
      services = t.services;
      lanes = lane_gone r.lanes raw s.lanes;
      commands = commands_gone raw t.commands;
      packets = packets_gone raw t.packets;
    }

-- `commandsMuted = true; listeners.clear();`
unfoldable pub quiet : String → Loader → Loader
quiet name s = elim (find name s.mods) [
  | none ↦ s
  | some m ↦ record s {
    mods = put name (record m { listeners = []; commands_muted = true }) s.mods;
  }
]

-- What `unload` does once the mod agrees.
unfoldable pub take_out : Dylib → String → ℕ → Loader → UnloadResult × Loader
take_out d name address s =
    let t = on_rust_mod_gone d.releases address (quiet name s) in
    if not d.closes
    then (cannot_close, t)
    else (unloaded, record t { mapped = without address t.mapped; mods = erase name t.mods })

-- `mod->vtable.on_unload && !mod->vtable.on_unload(instance)`: the answer and the state after it.
unfoldable pub ask_unload : Dylib → RustMod → Act
ask_unload d m s = if m.vtable.on_unload == 0 then (true, s) else d.run m.vtable.on_unload s

unfoldable pub unload_mod : Dylib → String → RustMod → Loader → UnloadResult × Loader
unload_mod d name m s = elim (mod_busy_name m.address s.lanes) [
  | some lane ↦ (lane_busy, s)
  | none ↦
      let (agrees, t) = ask_unload d m s in
      if not agrees then (refused, t) else take_out d name m.address t
]

-- `RustModManager::unload`
unfoldable pub unload : (ℕ → Dylib) → String → Loader → UnloadResult × Loader
unload dylib name s = elim (find name s.mods) [
  | none ↦ (not_found, s)
  | some m ↦ unload_mod (dylib m.address) name m s
]
