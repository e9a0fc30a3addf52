-- ===== src/Lane/Publish.antt =====
-- src/bridge/core/Lane.cpp: `api_lane_publish` and `api_lane_unpublish`.
use levilamina_rust_loader.Base.{
  ℕ, String, len, Bool, true, false, not, ◌||◌, Option, none, some, if◌then◌else◌, ltb, ◌==◌,
  nat_eq, string_eq,
}
use levilamina_rust_loader.Base.Assoc.{find, emplace}
use levilamina_rust_loader.Base.Words.{inc64}
use levilamina_rust_loader.Base.Mods.{World}
use levilamina_rust_loader.Lane.Tables.{
  LaneDesc, Lane, State, max_name, desc_size, lane_protocol, retire_lane,
}

abbrev pub bad_name : String → Bool
bad_name name = len name == 0 || ltb max_name (len name)

-- The checks of `publish` on what the mod hands over.
unfoldable pub desc_ok : LaneDesc → Bool
desc_ok d =
    if ltb d.struct_size desc_size
    then false
    else if not (d.protocol == lane_protocol)
    then false
    else if d.vtable == 0
    then false
    else if d.fingerprint == 0
    then false
    else true

unfoldable pub new_lane : ℕ → ℕ → ℕ → String → LaneDesc → Lane
new_lane id raw owner name d = record {
  owner_mod = raw;
  owner = owner;
  name = name;
  desc = record d { struct_size = desc_size };
  alive = id;
  leases = 0;
}

-- The part under the lock: the first publisher of a name keeps it.
unfoldable pub enter_lane : ℕ → ℕ → String → LaneDesc → State → ℕ × State
unfolding new_lane
enter_lane raw owner name d s = elim (find name s.by_name) [
  | some _ ↦ (0, s)
  | none ↦ (
    s.next_lane,
    record s {
      next_lane = inc64 s.next_lane;
      lanes = emplace s.next_lane (new_lane s.next_lane raw owner name d) s.lanes;
      by_name = emplace name s.next_lane s.by_name;
      cells = emplace s.next_lane (record { flag = 1; busy = 0 }) s.cells;
    },
  )
]

-- `shared_from_this`, and the weak_ptr still locks.
unfoldable pub owner_of : World → ℕ → Option ℕ
owner_of w raw = elim (w.shared_from_this raw) [
  | none ↦ none
  | some owner ↦ elim (w.lock owner) [ none ↦ none | some _ ↦ some owner ]
]

unfoldable pub publish_checked : World → ℕ → String → LaneDesc → State → ℕ × State
unfolding desc_ok owner_of enter_lane
publish_checked w raw name d s =
    if not (desc_ok d)
    then (0, s)
    else if bad_name name
    then (0, s)
    else elim (owner_of w raw) [ none ↦ (0, s) | some owner ↦ enter_lane raw owner name d s ]

-- `api_lane_publish`. The result is the id of the publication, 0 where it is refused.
unfoldable pub publish : World → ℕ → String → Option LaneDesc → State → ℕ × State
unfolding publish_checked
publish w raw name none s = (0, s)
publish w raw name (some d) s = if raw == 0 then (0, s) else publish_checked w raw name d s

-- `api_lane_unpublish`: only the publisher itself takes its lane down.
unfoldable pub unpublish : ℕ → ℕ → State → Bool × State
unfolding retire_lane
unpublish raw id s = if raw == 0 || id == 0 then (false, s) else elim (find id s.lanes) [
  | none ↦ (false, s)
  | some lane ↦ if not (lane.owner_mod == raw) then (false, s) else (true, retire_lane id s)
]
