-- ===== src/Lane/Tables.antt =====
-- src/bridge/core/Lane.cpp: the tables, and `retireLane`.
use levilamina_rust_loader.Base.{
  ℕ, zero, suc, ◌%◌, ◌^◌, String, Bool, none, some, List, [], ◌∷◌, if◌then◌else◌, ◌==◌, nat_eq,
  string_eq,
}
use levilamina_rust_loader.Base.Assoc.{find, put, erase, erase_if, count_values}

abbrev pub max_name : ℕ
max_name = 128

-- sizeof(LeviRsLaneDesc), LEVI_RS_LANE_PROTOCOL, and the ends of two fields of LeviRsLaneRef.
abbrev pub desc_size : ℕ
desc_size = 48

abbrev pub lane_protocol : ℕ
lane_protocol = 1

abbrev pub min_ref_size : ℕ
min_ref_size = 48

abbrev pub busy_ref_size : ℕ
busy_ref_size = 56

-- Pointers are addresses, 0 is null.
pub record LaneDesc : Type 0 where
  pub struct_size : ℕ
  pub protocol : ℕ
  pub fingerprint : ℕ
  pub data_ptr : ℕ
  pub vtable : ℕ
  pub retain : ℕ
  pub release : ℕ

-- One cell is allocated for each lane and never freed; its address is the lane's id.
pub record AliveCell : Type 0 where
  pub flag : ℕ
  pub busy : ℕ

pub record Lane : Type 0 where
  pub owner_mod : ℕ
  pub owner : ℕ
  pub name : String
  pub desc : LaneDesc
  pub alive : ℕ
  pub leases : ℕ

pub record Lease : Type 0 where
  pub holder : ℕ
  pub lane_id : ℕ

-- A call of a lane's `retain` or `release`.
pub data Call : Type 0 where
  retains releases : ℕ → Call

pub record State : Type 0 where
  pub lanes : List (ℕ × Lane)
  pub by_name : List (String × ℕ)
  pub lease_table : List (ℕ × Lease)
  pub next_lane : ℕ
  pub next_lease : ℕ
  pub cells : List (ℕ × AliveCell)
  pub calls : List Call

unfoldable pub init : State
init = record {
  lanes = [];
  by_name = [];
  lease_table = [];
  next_lane = 1;
  next_lease = 1;
  cells = [];
  calls = [];
}

-- `if (retain) retain(data)`, and the same for `release`. Such a function may call the loader again. In
-- `publish`, `unpublish`, `acquire` and `release` it runs after the tables were changed and the tables
-- are not looked at after it, so what it calls is a further call, after this one; for
-- `laneOnRustModGone`, which goes on after it, what it calls is a parameter of Lane/Gone.
unfoldable pub call_retain : ℕ → LaneDesc → State → State
call_retain id d s = if d.retain == 0 then s else record s { calls = retains id ∷ s.calls }

unfoldable pub call_release : ℕ → LaneDesc → State → State
call_release id d s = if d.release == 0 then s else record s { calls = releases id ∷ s.calls }

-- `for (uint32_t i = 0; i < outstanding; ++i) release(data)`
unfoldable pub call_release_times : ℕ → ℕ → LaneDesc → State → State
unfolding call_release
call_release_times zero id d s = s
call_release_times (suc n) id d s = call_release_times n id d (call_release id d s)

abbrev pub on_lane : ℕ → Lease → Bool
on_lane id l = l.lane_id == id

unfoldable pub clear_flag : ℕ → List (ℕ × AliveCell) → List (ℕ × AliveCell)
clear_flag a cells = elim (find a cells) [
  | none ↦ cells
  | some c ↦ put a (record c { flag = 0 }) cells
]

-- The name is taken out of the index only if it still leads to this lane.
unfoldable pub drop_name : String → ℕ → List (String × ℕ) → List (String × ℕ)
drop_name name id names = elim (find name names) [
  | none ↦ names
  | some held ↦ if held == id then erase name names else names
]

-- The part of `retireLane` under the lock.
unfoldable pub unlink : ℕ → Lane → State → State
unfolding clear_flag drop_name
unlink id lane s = record s {
  cells = if lane.alive == 0 then s.cells else clear_flag lane.alive s.cells;
  lease_table = erase_if (on_lane id) s.lease_table;
  by_name = drop_name lane.name id s.by_name;
  lanes = erase id s.lanes;
}

-- `retireLane`: cut the flag, drop the leases and the lane, then release the reference of the
-- publication and one for each lease that was dropped.
unfoldable pub retire_lane : ℕ → State → State
unfolding unlink call_release call_release_times
retire_lane id s = elim (find id s.lanes) [
  | none ↦ s
  | some lane ↦
      call_release_times (count_values (on_lane id) s.lease_table % 2 ^ 32) id lane.desc
        (call_release id lane.desc (unlink id lane s))
]
