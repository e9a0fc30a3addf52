-- ===== src/Manager/Unloaded.antt =====
-- src/core/RustModManager.cpp: what is left of a mod that was unloaded.
use levilamina_rust_loader.Base.{
  ℕ, ◌<◌, ◌^◌, ◌≡◌, ◌≢◌, refl, ap, String, true, false, none, some, arith, Bool-cases, Option-cases,
  inl, inr, length, nat_eq, string_eq, eq_self, All,
}
use mathlib.Core.Path.{subst}
use levilamina_rust_loader.Base.Assoc.{find, find-erase, count_values, count_values-erase_if_self}
use levilamina_rust_loader.Lane.Gone.{mod_busy_name, published_by, held_by}
use levilamina_rust_loader.Lane.Invariant.{Inv}
use levilamina_rust_loader.Lane.Unload.{gone_clears}
use levilamina_rust_loader.Lane.Calls.{Reacts}
use levilamina_rust_loader.Commands.Bindings.{CommandBinding}
use levilamina_rust_loader.Commands.Gone.{gone_names}
use levilamina_rust_loader.Packets.Tables.{PacketSub, ConnSub}
use levilamina_rust_loader.Packets.Gone.{hooks_gone}
use levilamina_rust_loader.Services.Invariant.{Good}
use levilamina_rust_loader.Services.Sweep.{provided_by, gone_services}
use levilamina_rust_loader.Bus.Invariant.{Good as BusGood}
use levilamina_rust_loader.Bus.Gone.{is_of, gone_none_left}
use levilamina_rust_loader.Scheduler.Tasks.{owned_by, on_rust_mod_gone as scheduler_gone}
use levilamina_rust_loader.Bus.Tables.{on_rust_mod_gone as bus_gone}
use levilamina_rust_loader.Services.Tables.{on_rust_mod_gone as services_gone}
use levilamina_rust_loader.Manager.Mods.{
  RustMod, Loader, Dylib, Releases, UnloadResult, unloaded, is_mapped, ask_unload, on_rust_mod_gone,
  quiet, take_out, unload_mod, unload,
}
use levilamina_rust_loader.Manager.Gates.{among-without}

-- No entry of the mods, the tasks, the subscriptions, the services, the lanes and their leases, no
-- command by its name and no interceptor of packets or connections leads to the mod at an address, and
-- its library is unmapped.
pub record IsGone (raw : ℕ) (name : String) (s : Loader) : Type 0 where
  pub no_mod : find name s.mods ≡ none
  pub no_task : count_values (owned_by raw) s.tasks.pending ≡ 0
  pub no_subscription : count_values (is_of raw) s.bus.subs ≡ 0
  pub no_service : count_values (provided_by raw) s.services.services ≡ 0
  pub no_lane : count_values (published_by raw) s.lanes.lanes ≡ 0
  pub no_lease : count_values (held_by raw) s.lanes.lease_table ≡ 0
  pub no_command :
      (command : String) (a : ℕ) (b : CommandBinding)
      → find command s.commands.by_name ≡ some a
      → find a s.commands.bindings ≡ some b
      → b.mod_ptr ≢ raw
  pub no_interceptor : All (λ (sub : PacketSub). sub.mod_ptr ≢ raw) s.packets.packet_subs
  pub no_watcher : All (λ (sub : ConnSub). sub.mod_ptr ≢ raw) s.packets.conn_subs
  pub unmapped : is_mapped raw s ≡ false

-- The tables that the mod's `on_unload` leaves are in order.
pub record IsOrdered (s : Loader) : Type 0 where
  pub lanes_ordered : Inv s.lanes
  pub few_leases : length s.lanes.lease_table < 2 ^ 32
  pub services_ordered : Good s.services
  pub bus_ordered : BusGood s.bus

-- The functions `release` that run while the mod is cleaned up enter nothing for it into a table that
-- was swept before.
pub record Spares (raw : ℕ) (r : Releases) : Type 0 where
  pub lanes_spared : Reacts (λ by. by ≢ raw) r.lanes
  pub tasks_spared :
      (s : Loader)
      → count_values (owned_by raw) s.tasks.pending ≡ 0
      → count_values (owned_by raw) (r.tables s).tasks.pending ≡ 0
  pub bus_spared :
      (s : Loader)
      → count_values (is_of raw) s.bus.subs ≡ 0
      → count_values (is_of raw) (r.tables s).bus.subs ≡ 0
  pub services_spared :
      (s : Loader)
      → count_values (provided_by raw) s.services.services ≡ 0
      → count_values (provided_by raw) (r.tables s).services.services ≡ 0

quiet_tables :
    (name : String) (s : Loader)
    → ((quiet name s).lanes ≡ s.lanes)
      × ((quiet name s).services ≡ s.services)
      × ((quiet name s).bus ≡ s.bus)
unfolding quiet
quiet_tables name s = (ground arith, ground arith, ground arith)

-- What the tables lead to once the mod is cleaned up, whatever is done with its library.
swept :
    (r : Releases) (raw : ℕ) (s : Loader)
    → raw ≢ 0
    → Spares raw r
    → IsOrdered s
    → let t = on_rust_mod_gone r raw s in
      (count_values (owned_by raw) t.tasks.pending ≡ 0)
      × (count_values (is_of raw) t.bus.subs ≡ 0)
      × (count_values (provided_by raw) t.services.services ≡ 0)
unfolding on_rust_mod_gone
swept r raw s nz spares o =
    let t : Loader = record s {
      tasks = (scheduler_gone raw s.tasks).1;
      bus = bus_gone raw s.bus;
      services = services_gone raw s.services;
    } in
    (
      spares.tasks_spared t
          (unfold scheduler_gone in count_values-erase_if_self (owned_by raw) s.tasks.pending),
      spares.bus_spared t (gone_none_left raw s.bus o.bus_ordered),
      spares.services_spared t (gone_services raw s.services o.services_ordered nz),
    )

quiet-IsOrdered : (name : String) (s : Loader) → IsOrdered s → IsOrdered (quiet name s)
quiet-IsOrdered name s o =
    let (lanes, services, bus) = quiet_tables name s in
    record {
      lanes_ordered = rw lanes o.lanes_ordered;
      few_leases = rw lanes o.few_leases;
      services_ordered = rw services o.services_ordered;
      bus_ordered = rw bus o.bus_ordered;
    }

take_out-IsGone :
    (d : Dylib) (name : String) (raw : ℕ) (s : Loader)
    → d.closes ≡ true
    → raw ≢ 0
    → Spares raw d.releases
    → IsOrdered s
    → IsGone raw name (take_out d name raw s).1
unfolding take_out on_rust_mod_gone
take_out-IsGone d name raw s c nz spares o =
    let q : Loader = quiet name s in
    let ordered = quiet-IsOrdered name s o in
    let tables = swept d.releases raw q nz spares ordered in
    let cleared =
      gone_clears raw q.lanes ordered.lanes_ordered ordered.few_leases d.releases.lanes
        spares.lanes_spared in
    let during = d.releases.tables (record q {
      tasks = (scheduler_gone raw q.tasks).1;
      bus = bus_gone raw q.bus;
      services = services_gone raw q.services;
    }) in
    let hooks = hooks_gone raw during.packets in
    rw c (record {
      no_mod = rw (find-erase name name q.mods, eq_self name) refl;
      no_task = tables.0;
      no_subscription = tables.1;
      no_service = tables.2;
      no_lane = cleared.0;
      no_lease = cleared.1;
      no_command = gone_names raw during.commands nz;
      no_interceptor = hooks.0;
      no_watcher = hooks.1;
      unmapped = among-without raw q.mapped;
    })

-- A mod, whose address is not null, is unloaded only if no call is inside one of its lanes and its
-- `on_unload` agrees; then, if the tables are in order when `on_unload` returns, and the functions
-- `release` that run during the clean-up of the lanes enter nothing for the mod into the lanes, the
-- tasks, the subscriptions and the services, which are swept by then, no task, subscription, service,
-- lane, lease or interceptor and no command by its name leads to the mod any more, and its library,
-- which can be freed, is unmapped.
pub unload-IsGone :
    (dylib : ℕ → Dylib) (name : String) (m : RustMod) (s u : Loader)
    → find name s.mods ≡ some m
    → m.address ≢ 0
    → (dylib m.address).closes ≡ true
    → Spares m.address (dylib m.address).releases
    → IsOrdered (ask_unload (dylib m.address) m s).1
    → unload dylib name s ≡ (unloaded, u)
    → (mod_busy_name m.address s.lanes ≡ none)
      × ((ask_unload (dylib m.address) m s).0 ≡ true)
      × IsGone m.address name u
unfolding unload unload_mod
unload-IsGone dylib name m s u f nz closes spares o h =
    elim (Option-cases (mod_busy_name m.address s.lanes)) [
      | inr (lane, b) ↦ absurd (ground (arith, f, b, h))
      | inl b ↦ elim (Bool-cases (ask_unload (dylib m.address) m s).0) [
        | inr a ↦ absurd (ground (arith, f, b, a, h))
        | inl a ↦
            let t = (ask_unload (dylib m.address) m s).1 in
            let done : take_out (dylib m.address) name m.address t ≡ (unloaded, u) =
              ground (arith, f, b, a, h) in
            (
              b,
              a,
              subst (IsGone m.address name) (ap (λ (r : UnloadResult × Loader). r.1) done)
                  (take_out-IsGone (dylib m.address) name m.address t closes nz spares o),
            )
      ]
    ]
