-- ===== src/Lane/Calls.antt =====
-- src/bridge/core/Lane.cpp: the calls that mods make of the lanes, one after the other, also from a
-- lane's `retain` or `release`.
use levilamina_rust_loader.Base.{ℕ, ◌+◌, ◌<◌, ◌^◌, String, Option, length}
use levilamina_rust_loader.Base.Mods.{World}
use levilamina_rust_loader.Lane.Tables.{LaneDesc, State}
use levilamina_rust_loader.Lane.Publish.{publish, unpublish}
use levilamina_rust_loader.Lane.Leases.{LaneRef, acquire, release}
use levilamina_rust_loader.Lane.Keeps.Enter.{IsCounted}

-- The states that calls lead to from a state, while no counter wraps, where only some mods publish
-- and acquire.
pub data Calls (May : ℕ → Type 0) : State → State → Type 0 where
  quiet : (s : State) → Calls May s s
  publishes :
      (w : World) (raw : ℕ) (name : String) (d : Option LaneDesc) (s t : State)
      → Calls May s t
      → May raw
      → t.next_lane + 1 < 2 ^ 64
      → IsCounted d
      → Calls May s (publish w raw name d t).1
  unpublishes : (raw id : ℕ) (s t : State) → Calls May s t → Calls May s (unpublish raw id t).1
  acquires :
      (w : World) (consumer : ℕ) (name : String) (want : ℕ) (out : LaneRef) (s t : State)
      → Calls May s t
      → May consumer
      → t.next_lease + 1 < 2 ^ 64
      → length t.lease_table + 1 < 2 ^ 32
      → Calls May s (acquire w consumer name want out t).2
  releases :
      (consumer lease : ℕ) (s t : State) → Calls May s t → Calls May s (release consumer lease t).1

-- What the `release` of a lane goes on to call, by the lane and the state at that moment.
abbrev pub Reaction : Type 0
Reaction = ℕ → State → State

-- Only some mods publish and acquire in it.
abbrev pub Reacts : (ℕ → Type 0) → Reaction → Type 0
Reacts May react = (id : ℕ) (s : State) → Calls May s (react id s)
