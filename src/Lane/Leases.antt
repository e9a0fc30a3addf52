-- ===== src/Lane/Leases.antt =====
-- src/bridge/core/Lane.cpp: `api_lane_acquire` and `api_lane_release`.
use levilamina_rust_loader.Base.{
  ℕ, ◌-◌, String, Bool, true, false, not, ◌||◌, none, some, if◌then◌else◌, ltb, leb, ◌==◌, nat_eq,
  string_eq,
}
use levilamina_rust_loader.Base.Assoc.{find, put, emplace, erase}
use levilamina_rust_loader.Base.Words.{inc64, inc32}
use levilamina_rust_loader.Base.Mods.{World, still_is}
use levilamina_rust_loader.Lane.Tables.{
  Lane, Lease, State, min_ref_size, busy_ref_size, call_retain, call_release,
}
use levilamina_rust_loader.Lane.Publish.{bad_name}

-- LEVI_RS_LANE_OK, NOT_FOUND, FINGERPRINT and REFUSED.
pub data Status : Type 0 where
  lane_ok lane_not_found lane_fingerprint lane_refused : Status

pub record LaneRef : Type 0 where
  pub struct_size : ℕ
  pub lease : ℕ
  pub fingerprint : ℕ
  pub data_ptr : ℕ
  pub vtable : ℕ
  pub alive : ℕ
  pub busy : ℕ

abbrev pub Acquired : Type 0
Acquired = Status × LaneRef × State

-- What `acquire` writes before it looks at anything else.
unfoldable pub clear_ref : LaneRef → LaneRef
clear_ref out = record out {
  lease = 0;
  fingerprint = 0;
  data_ptr = 0;
  vtable = 0;
  alive = 0;
  busy = if leb busy_ref_size out.struct_size then 0 else out.busy;
}

unfoldable pub fill_ref : ℕ → Lane → LaneRef → LaneRef
fill_ref lease lane out = record out {
  lease = lease;
  fingerprint = lane.desc.fingerprint;
  data_ptr = lane.desc.data_ptr;
  vtable = lane.desc.vtable;
  alive = lane.alive;
  busy = if leb busy_ref_size out.struct_size then lane.alive else out.busy;
}

-- `providerAlive`
unfoldable pub provider_alive : World → Lane → Bool
provider_alive w lane = if lane.owner_mod == 0 then false else still_is w lane.owner lane.owner_mod

-- A lease is entered and counted, and the provider's `retain` is called.
unfoldable pub grant : ℕ → ℕ → Lane → LaneRef → State → Acquired
unfolding fill_ref call_retain
grant consumer id lane out s = (
  lane_ok,
  fill_ref s.next_lease lane out,
  call_retain id lane.desc (record s {
    next_lease = inc64 s.next_lease;
    lease_table = emplace s.next_lease (record { holder = consumer; lane_id = id }) s.lease_table;
    lanes = put id (record lane { leases = inc32 lane.leases }) s.lanes;
  }),
)

-- The checks against one lane; a fingerprint that does not fit is reported in `out`.
unfoldable pub acquire_lane : World → ℕ → ℕ → ℕ → Lane → LaneRef → State → Acquired
acquire_lane w consumer want id lane out s =
    if lane.owner_mod == consumer
    then (lane_refused, out, s)
    else if not (provider_alive w lane)
    then (lane_not_found, out, s)
    else if want == 0 || not (want == lane.desc.fingerprint)
    then (lane_fingerprint, record out { fingerprint = lane.desc.fingerprint }, s)
    else grant consumer id lane out s

unfoldable pub acquire_named : World → ℕ → String → ℕ → LaneRef → State → Acquired
acquire_named w consumer name want out s = elim (find name s.by_name) [
  | none ↦ (lane_not_found, out, s)
  | some id ↦ elim (find id s.lanes) [
    | none ↦ (lane_not_found, out, s)
    | some lane ↦ acquire_lane w consumer want id lane out s
  ]
]

-- `api_lane_acquire` on an `out` that is no null pointer.
unfoldable pub acquire : World → ℕ → String → ℕ → LaneRef → State → Acquired
acquire w consumer name want out s =
    if ltb out.struct_size min_ref_size
    then (lane_refused, out, s)
    else if consumer == 0
    then (lane_refused, clear_ref out, s)
    else if bad_name name
    then (lane_refused, clear_ref out, s)
    else acquire_named w consumer name want (clear_ref out) s

-- A lease is taken out: uncounted and released if its lane is there.
unfoldable pub give_back : ℕ → Lease → State → State
unfolding call_release
give_back lease_id lease s = elim (find lease.lane_id s.lanes) [
  | none ↦ record s { lease_table = erase lease_id s.lease_table }
  | some lane ↦ call_release lease.lane_id lane.desc (record s {
    lanes =
        put lease.lane_id
          (record lane { leases = if ltb 0 lane.leases then lane.leases - 1 else lane.leases })
          s.lanes;
    lease_table = erase lease_id s.lease_table;
  })
]

-- `api_lane_release`: only the holder gives a lease back.
unfoldable pub release : ℕ → ℕ → State → Bool × State
unfolding give_back
release consumer lease_id s =
    if consumer == 0 || lease_id == 0 then (false, s) else elim (find lease_id s.lease_table) [
      | none ↦ (false, s)
      | some lease ↦
          if not (lease.holder == consumer) then (false, s) else (true, give_back lease_id lease s)
    ]
