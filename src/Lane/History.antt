-- ===== src/Lane/History.antt =====
-- src/bridge/core/Lane.cpp: the calls that mods make, in any order, as a step relation.
use levilamina_rust_loader.Base.{ℕ, ◌+◌, ◌<◌, ◌^◌, String, Option, length}
use levilamina_rust_loader.Base.Mods.{World}
use levilamina_rust_loader.Lane.Tables.{LaneDesc, State, init}
use levilamina_rust_loader.Lane.Publish.{publish, unpublish}
use levilamina_rust_loader.Lane.Leases.{LaneRef, acquire, release}
use levilamina_rust_loader.Lane.Calls.{Reaction, Reacts}
use levilamina_rust_loader.Lane.Gone.{on_rust_mod_gone}
use levilamina_rust_loader.Lane.Keeps.Enter.{IsCounted, publish-Inv}
use levilamina_rust_loader.Lane.Keeps.Lease.{acquire-Inv, release-Inv}
use levilamina_rust_loader.Lane.Keeps.Retire.{unpublish-Inv}
use levilamina_rust_loader.Lane.Keeps.Gone.{gone-Ordered}
use levilamina_rust_loader.Lane.Invariant.{Inv, init-Inv}

-- The states that calls lead to while no 64-bit ticket counter and no 32-bit lease count wraps.
-- The host may change between two calls, so each call has a world of its own. What a lane's `retain`
-- or `release` calls is a further call; inside `laneOnRustModGone`, which goes on after it, it is
-- the reaction, which may be any calls.
pub data Reach : State → Type 0 where
  start : Reach init
  published :
      (w : World) (raw : ℕ) (name : String) (d : Option LaneDesc) {s : State}
      → Reach s
      → s.next_lane + 1 < 2 ^ 64
      → IsCounted d
      → Reach (publish w raw name d s).1
  unpublished :
      (raw id : ℕ) {s : State}
      → Reach s
      → length s.lease_table < 2 ^ 32
      → Reach (unpublish raw id s).1
  acquired :
      (w : World) (consumer : ℕ) (name : String) (want : ℕ) (out : LaneRef) {s : State}
      → Reach s
      → s.next_lease + 1 < 2 ^ 64
      → length s.lease_table + 1 < 2 ^ 32
      → Reach (acquire w consumer name want out s).2
  released : (consumer lease : ℕ) {s : State} → Reach s → Reach (release consumer lease s).1
  gone :
      (raw : ℕ) {s : State}
      → Reach s
      → length s.lease_table < 2 ^ 32
      → (react : Reaction) → Reacts (λ _. Unit) react
      → Reach (on_rust_mod_gone react raw s)

-- In every state that calls lead to: each name leads to one lane and each lane has its name; each
-- lease is on a lane that is there; a lane's flag is up, it counts its leases, and its provider was
-- told `retain` once more than `release` for each lease; a lane taken down has its flag down and
-- one `release` more than `retain`, that of the publication.
pub Reach-Inv : {s : State} → Reach s → Inv s
Reach-Inv start = init-Inv
Reach-Inv (published w raw name d {s = s} r room c) =
    publish-Inv w raw name d s (Reach-Inv r) room c
Reach-Inv (unpublished raw id {s = s} r few) = unpublish-Inv raw id s (Reach-Inv r) few
Reach-Inv (acquired w consumer name want out {s = s} r room few) =
    acquire-Inv w consumer name want out s (Reach-Inv r) room few
Reach-Inv (released consumer lease {s = s} r) = release-Inv consumer lease s (Reach-Inv r)
Reach-Inv (gone raw {s = s} r few react reacts) =
    (gone-Ordered react reacts raw s (Reach-Inv r, few)).0
