-- ===== src/Lib.antt =====
-- levilamina-rust-loader: a loader that brings Rust mods into a LeviLamina server and offers them a C
-- ABI. The files below model its own state machines; everything that the engine or the host library
-- does is a parameter.
--
-- Parts and how they interact. Mods call the loader through a table of functions. A mod is known by a
-- pointer; the tables keep it as an identity, beside a weak_ptr by which they check, before each call
-- into the mod, that it is still there. When a mod is unloaded every table is cleaned.
--
-- - Lane (src/bridge/core/Lane.cpp): a mod publishes a table of functions under a name, others take leases
--   on it. Tables: the records and retireLane. Publish: api_lane_publish, api_lane_unpublish. Leases:
--   api_lane_acquire, api_lane_release. Gone: laneModBusyName, laneOnRustModGone. Calls: sequences of
--   calls. A lane's `release` may call the lanes again. In publish, unpublish, acquire and release it is
--   the last thing that is done, so what it calls is a further call in the history; laneOnRustModGone
--   goes on after it, so there it is a parameter, the `Reaction`, which may be any sequence of calls.
--   retireLane calls `release` several times in a row; what they call is taken together, after the last.
--   Invariant, Keeps and History: the invariant and that every call keeps it. Left and Stays: what calls
--   leave of a mod and of a lane that was taken down. Granted, Safety and Unload: what callers rely on.
-- - Services (src/bridge/core/Services.cpp): named callbacks. Tables: api_service_register,
--   api_service_unregister, api_service_list, servicesOnRustModGone. Call: api_service_call. A provider
--   may call the loader again, so it is a tree of its calls, `Program`, over which nothing is assumed.
-- - Scheduler (src/bridge/core/LogScheduler.cpp): tasks that the host's executor runs later. Tasks: submit,
--   runTask, api_schedule_cancel, api_schedule_pending_count, schedulerOnRustModGone, and api_schedule
--   and api_schedule_after, whose closures have no owner and no ticket, so that nothing stops them.
-- - Plot (src/more_dimensions/plot, src/more_dimensions/include/plot): plot worlds. Grid: positiveMod,
--   positiveModLocal and floorDivLocal. Layout: PlotLayout, classify1D, combine2D. Generator:
--   PlotGenerator. Confine: PlotConfine.cpp, with the merge graph (Graph), the owner of a column (Owner), the grids of all
--   dimensions (Grids) and the hook on Actor::move (MoveHook); Fuel, Linked, Roots, Sound, Honest and
--   Geometry have the proofs.
-- - Rules (src/more_dimensions/dim/DimensionRules.cpp): what is forbidden in a dimension. Table: the rules
--   and their counts. Hooks: the hooks. The piston's hook and the moving actor's ask Plot.Confine.
-- - Bus (src/bridge/core/Bus.cpp): topics that mods publish and subscribe to. Tables: api_bus_subscribe,
--   api_bus_unsubscribe, api_bus_subscriber_count, busOnRustModGone. Publish: api_bus_publish and
--   api_bus_publish_vetoable. A subscriber may call the bus again or throw: it is a `Program`. State has
--   a list of all calls that were made, which the code does not keep. Invariant, Gone, Kept and Total:
--   the index, and what every step keeps. Quiet: a publish told without tickets.
-- - Packets (src/bridge/net/PacketHooks.cpp): hooks on packets and connections. Codec: the header. Tables:
--   api_packet_hook_register, api_packet_hook_unregister, the same for connections, refreshGatesLocked,
--   snapshotFor, addressOf and packetHooksOnRustModGone. Dispatch: dispatch, dispatchConn and the four
--   hooks. A callback is a `Program`; connections open and close, and packets arrive, between callbacks.
--   Its log of calls is not in the code. RoundTrip, InSync, Sound, Life and Gone have the proofs on the
--   tables and the header, Through, Translated and Pump those on packets.
-- - Commands (src/bridge/runtime/Commands.cpp): Bindings: kindFromString, claimBinding,
--   api_register_command, api_register_command_ex, commandsOnRustModGone, and whom a command that runs
--   calls. The server keeps the executors of a command, each with its binding, for ever; whether it throws
--   while it takes a new command, and after how many overloads, is a parameter. Claimed and
--   Bound: what a registration does. Gone: what the clean-up leaves.
-- - Manager (src/core/RustModManager.cpp, src/bridge/core/ApiTable.cpp): Mods: load, unload and the clean-up of the
--   tables of Scheduler, Bus, Services, Lane, Commands and Packets; what the functions `release` call that
--   run meanwhile is a parameter. Control: controlLoad, controlUnload and the callbacks of enable and disable.
--   Gates and Unloaded: what is let in, and what is left.
-- - ModControl (src/core/ModControl.cpp): the command /llr. Manifest: parseCandidate and readCandidate.
--   Args: parseArgs. Graph: dependentsOf. Console: loadedDependencyMap and the questions to the host.
--   Load, Unload, Reload, Dispatch: the commands, over Manager's controlLoad and controlUnload. Closure,
--   Counts, Kahn, Order and Dependents have the proofs on the order, Guarded, Gated and Reloaded those
--   on refusals, Answers and Liveness those on answers, Printed and Accepted those on what is read.
-- - Throttle (src/bridge/hooks/DecisionThrottle.h): the decisions that a hook remembers.
-- - Base: integers, association lists, 64-bit counters, and World, what the host answers about a mod.
-- - Tests: runs on small inputs.
--
-- Numbers. Pointers and tickets are natural numbers, 0 is null. A 64-bit ticket counter wraps; the
-- theorems on tables say up to how many tickets they hold. Coordinates are integers; the keys of the
-- hash tables are packed from 32-bit words as the code does. A table is an association list in the
-- order of insertion, which the hash tables of the code leave open. The double of a border's width is
-- taken modulo 2^32, and so is the coordinate of a plot's neighbour, as the machine does where C++
-- leaves the overflow open. A lane's vtable is never
-- called by the loader, so no call through a lane is modelled but the counters that consumers keep.
--
-- Fuel. A service call, or a publish, takes one unit for each level of nesting, and levels end at 8. The
-- search for dependents takes one for each loaded mod and one for the target, its ordering one for each
-- dependent. A send of a packet takes two, since a send of a callback calls nobody; a header has five
-- groups of seven bits at most. The scan of a merge group takes one for each plot, and its limit is 4096 plots.
--
-- Preconditions taken from the callers: the out pointer of api_lane_acquire is not null; in the
-- histories of lanes a published descriptor has both a retain and a release function, and no counter
-- wraps.
--
-- Not modelled: the clean-ups of the forms, the database, the event hooks, the money and the client when
-- a mod goes, locks (each operation is one step; the server thread makes the calls), logging, the JSON
-- text of the list functions, the log and tick queries of LogScheduler.cpp, the installation of hooks,
-- floating-point positions (the hook on moves is handed the columns), a chunk's height map and biomes,
-- the threads of the network,
-- and the parts of the program that only read or write engine objects (src/bridge/actors, src/bridge/world, the
-- rest of src/bridge/net and of src/bridge/runtime).
pub mod Base
pub mod Lane
pub mod Services
pub mod Bus
pub mod Packets
pub mod Commands
pub mod Scheduler
pub mod Plot
pub mod Rules
pub mod Manager
pub mod ModControl
pub mod Throttle
mod Tests
