-- ===== src/Lane/Gone.antt =====
-- src/bridge/core/Lane.cpp: `laneModBusyName` and `laneOnRustModGone`.
use levilamina_rust_loader.Base.{
  ℕ, String, Bool, not, ◌||◌, Option, none, some, List, [], ◌∷◌, if◌then◌else◌, ◌==◌, nat_eq,
}
use levilamina_rust_loader.Base.Assoc.{find, keys_where}
use levilamina_rust_loader.Lane.Tables.{Lane, Lease, AliveCell, State, retire_lane}
use levilamina_rust_loader.Lane.Leases.{give_back}
use levilamina_rust_loader.Lane.Calls.{Reaction}

-- `lane.alive->busy.load()`
abbrev pub busy_of : List (ℕ × AliveCell) → ℕ → ℕ
busy_of cells a = elim (find a cells) [ none ↦ 0 | some c ↦ c.busy ]

unfoldable pub busy_lane : ℕ → List (ℕ × AliveCell) → List (ℕ × Lane) → Option String
busy_lane raw cells [] = none
busy_lane raw cells ((id, lane) ∷ rest) =
    let later = busy_lane raw cells rest in
    if not (lane.owner_mod == raw) || lane.alive == 0
    then later
    else if not (busy_of cells lane.alive == 0)
    then some lane.name
    else later

-- `laneModBusyName`: a lane of this mod that a consumer is inside of.
unfoldable pub mod_busy_name : ℕ → State → Option String
unfolding busy_lane
mod_busy_name raw s = busy_lane raw s.cells s.lanes

abbrev pub held_by : ℕ → Lease → Bool
held_by raw l = l.holder == raw

abbrev pub published_by : ℕ → Lane → Bool
published_by raw l = l.owner_mod == raw

module _ (react : Reaction) where
  -- The provider's `release` was called, if it has one, and may have called the loader again.
  unfoldable pub after_release : ℕ → Option Lane → State → State
  after_release id none t = t
  after_release id (some lane) t = if lane.desc.release == 0 then t else react id t

  unfoldable pub return_lease : ℕ → State → State
  return_lease lease_id s = elim (find lease_id s.lease_table) [
    | none ↦ s
    | some lease ↦
        after_release lease.lane_id (find lease.lane_id s.lanes) (give_back lease_id lease s)
  ]

  unfoldable pub return_leases : List ℕ → State → State
  return_leases [] s = s
  return_leases (id ∷ ids) s = return_leases ids (return_lease id s)

  unfoldable pub retire_in_turn : ℕ → State → State
  retire_in_turn id s = after_release id (find id s.lanes) (retire_lane id s)

  unfoldable pub retire_lanes : List ℕ → State → State
  retire_lanes [] s = s
  retire_lanes (id ∷ ids) s = retire_lanes ids (retire_in_turn id s)

  -- The lanes that a mod published are taken down, in the order of the table.
  unfoldable pub retire_all_of : ℕ → State → State
  retire_all_of raw s = retire_lanes (keys_where (published_by raw) s.lanes) s

  -- `laneOnRustModGone`: first what the mod holds is given back, then what it published is retired.
  unfoldable pub on_rust_mod_gone : ℕ → State → State
  on_rust_mod_gone raw s =
      retire_all_of raw (return_leases (keys_where (held_by raw) s.lease_table) s)
