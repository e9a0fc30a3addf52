-- ===== src/Lane/Keeps/Lease.antt =====
-- src/bridge/core/Lane.cpp: `api_lane_acquire` and `api_lane_release` keep the invariant.
use levilamina_rust_loader.Base.{
  ℕ, ◌+◌, ◌<◌, ◌≤◌, ◌^◌, ◌≡◌, ◌-◌, String, none, some, arith, ◌==◌, nat_eq, string_eq, Option-cases,
  Bool-cases, inl, inr, eq_self, ◌∷◌, not, ◌||◌, length,
}
use levilamina_rust_loader.Base.Assoc.{
  find, put, erase, find-put, find-erase, put-IsMap, erase-IsMap, emplace_fresh,
  count_values-put_fresh, count_values-erase, count_values_pos, count_values-le, length-erase,
}
use levilamina_rust_loader.Base.Words.{inc64_lem, inc32_lem}
use levilamina_rust_loader.Base.Mods.{World}
use levilamina_rust_loader.Lane.Tables.{
  Lane, Lease, State, on_lane, call_release, retains, releases,
}
use levilamina_rust_loader.Lane.Leases.{
  LaneRef, grant, give_back, release, acquire, acquire_named, acquire_lane, clear_ref,
  provider_alive,
}
use levilamina_rust_loader.Lane.Invariant.{Inv, IsLive}

module _ (consumer id : ℕ) (lane : Lane) (s : State) (v : Inv s) (at : find id s.lanes ≡ some lane)
    (room : s.next_lease + 1 < 2 ^ 64) (few : length s.lease_table + 1 < 2 ^ 32) where
  abbrev the_lease : Lease
  the_lease = record { holder = consumer; lane_id = id }

  abbrev leased : Lane
  leased = record lane { leases = lane.leases + 1 }

  abbrev granted : State
  granted = record s {
    next_lease = s.next_lease + 1;
    lease_table = put s.next_lease the_lease s.lease_table;
    lanes = put id leased s.lanes;
    calls = retains id ∷ s.calls;
  }

  lease_free : find s.next_lease s.lease_table ≡ none
  lease_free = elim (Option-cases (find s.next_lease s.lease_table)) [
    | inl e ↦ e
    | inr (lease, e) ↦ absurd (omega (arith, v.lease_used s.next_lease lease e))
  ]

  leases_fit : lane.leases + 1 < 2 ^ 32
  leases_fit =
      omega (arith, (v.live id lane at).counted, count_values-le (on_lane id) s.lease_table)

  grant-eq : (out : LaneRef) → (grant consumer id lane out s).2 ≡ granted
  unfolding grant
  grant-eq out =
      rw
        (
          inc64_lem s.next_lease room,
          inc32_lem lane.leases leases_fit,
          emplace_fresh s.next_lease the_lease s.lease_table lease_free,
        )
        (ground (arith, (v.live id lane at).has_retain))

  granted-IsLive : (i : ℕ) (l : Lane) → find i granted.lanes ≡ some l → IsLive granted i l
  granted-IsLive i l h = ground (
    arith,
    v.live i l,
    v.live id lane at,
    count_values-put_fresh (on_lane i) s.next_lease the_lease s.lease_table lease_free,
    find-put id i leased s.lanes,
  )

  granted-Inv : Inv granted
  granted-Inv = record {
    lanes_map = put-IsMap id leased s.lanes v.lanes_map;
    names_map = v.names_map;
    leases_map = put-IsMap s.next_lease the_lease s.lease_table v.leases_map;
    started = v.started;
    live = granted-IsLive;
    lit = λ i l h. ground (arith, v.lit i l, v.lit id lane at, find-put id i leased s.lanes);
    indexed = λ n i h. ground (arith, v.indexed n i h, find-put id i leased s.lanes);
    lease_used =
        λ i l h. ground (arith, v.lease_used i l, find-put s.next_lease i the_lease s.lease_table);
    held = λ i l h. ground (
      arith,
      v.held i l,
      find-put s.next_lease i the_lease s.lease_table,
      find-put id l.lane_id leased s.lanes,
    );
    retired = λ i p h e. ground (arith, v.retired i p h, find-put id i leased s.lanes);
    unused = λ i h. ground (arith, v.unused i h, v.live id lane at);
  }

module _ (lease_id : ℕ) (lease : Lease) (s : State) (v : Inv s)
    (at : find lease_id s.lease_table ≡ some lease) (lane : Lane)
    (on : find lease.lane_id s.lanes ≡ some lane) where
  abbrev unleased : Lane
  unleased = record lane { leases = lane.leases - 1 }

  abbrev returned : State
  returned = record s {
    lanes = put lease.lane_id unleased s.lanes;
    lease_table = erase lease_id s.lease_table;
    calls = releases lease.lane_id ∷ s.calls;
  }

  some_lease : 0 < lane.leases
  some_lease = omega (
    arith,
    (v.live lease.lane_id lane on).counted,
    count_values_pos (on_lane lease.lane_id) lease_id s.lease_table lease at
        (eq_self lease.lane_id),
  )

  give_back-eq : give_back lease_id lease s ≡ returned
  unfolding give_back
  give_back-eq =
      rw (on, give_back) (ground (arith, some_lease, (v.live lease.lane_id lane on).has_release))

  returned-IsLive : (i : ℕ) (l : Lane) → find i returned.lanes ≡ some l → IsLive returned i l
  returned-IsLive i l h = ground (
    arith,
    v.live i l,
    v.live lease.lane_id lane on,
    some_lease,
    count_values-erase (on_lane i) lease_id s.lease_table lease v.leases_map at,
    find-put lease.lane_id i unleased s.lanes,
  )

  returned-Inv : Inv returned
  returned-Inv = record {
    lanes_map = put-IsMap lease.lane_id unleased s.lanes v.lanes_map;
    names_map = v.names_map;
    leases_map = erase-IsMap lease_id s.lease_table v.leases_map;
    started = v.started;
    live = returned-IsLive;
    lit = λ i l h.
        ground (
          arith,
          v.lit i l,
          v.lit lease.lane_id lane on,
          find-put lease.lane_id i unleased s.lanes,
        );
    indexed = λ n i h. ground (arith, v.indexed n i h, find-put lease.lane_id i unleased s.lanes);
    lease_used = λ i l h. ground (arith, v.lease_used i l, find-erase lease_id i s.lease_table);
    held = λ i l h. ground (
      arith,
      v.held i l,
      find-erase lease_id i s.lease_table,
      find-put lease.lane_id l.lane_id unleased s.lanes,
    );
    retired = λ i p h e. ground (arith, v.retired i p h, find-put lease.lane_id i unleased s.lanes);
    unused = λ i h. ground (arith, v.unused i h, v.live lease.lane_id lane on);
  }

pub give_back-Inv :
    (lease_id : ℕ) (lease : Lease) (s : State)
    → Inv s
    → find lease_id s.lease_table ≡ some lease
    → Inv (give_back lease_id lease s)
give_back-Inv lease_id lease s v at = elim (Option-cases (find lease.lane_id s.lanes)) [
  | inl e ↦ absurd (v.held lease_id lease at e)
  | inr (lane, e) ↦
      rw (give_back-eq lease_id lease s v at lane e) (returned-Inv lease_id lease s v at lane e)
]

pub length-give_back :
    (lease_id : ℕ) (lease : Lease) (s : State)
    → length (give_back lease_id lease s).lease_table ≤ length s.lease_table
unfolding give_back call_release
length-give_back lease_id lease s = ground (arith, length-erase lease_id s.lease_table)

pub release-Inv : (consumer lease_id : ℕ) (s : State) → Inv s → Inv (release consumer lease_id s).1
unfolding release
release-Inv consumer lease_id s v = elim (Option-cases (find lease_id s.lease_table)) [
  | inl e ↦ ground arith
  | inr (lease, e) ↦ ground (arith, give_back-Inv lease_id lease s v e)
]

acquire_lane-Inv :
    (w : World) (consumer want id : ℕ) (lane : Lane) (out : LaneRef) (s : State)
    → Inv s
    → find id s.lanes ≡ some lane
    → s.next_lease + 1 < 2 ^ 64
    → length s.lease_table + 1 < 2 ^ 32
    → Inv (acquire_lane w consumer want id lane out s).2
unfolding acquire_lane
acquire_lane-Inv w consumer want id lane out s v at room few =
    let done : Inv (grant consumer id lane out s).2 =
      rw (grant-eq consumer id lane s v at room few out)
        (granted-Inv consumer id lane s v at room few) in
    elim (Bool-cases (lane.owner_mod == consumer)) [
      | inl e ↦ rw e v
      | inr e ↦ elim (Bool-cases (provider_alive w lane)) [
        | inr f ↦ rw (e, f) v
        | inl f ↦ elim (Bool-cases (want == 0 || not (want == lane.desc.fingerprint))) [
          | inl g ↦ rw (e, f, g) v
          | inr g ↦ rw (e, f, g) done
        ]
      ]
    ]

acquire_named-Inv :
    (w : World) (consumer : ℕ) (name : String) (want : ℕ) (out : LaneRef) (s : State)
    → Inv s
    → s.next_lease + 1 < 2 ^ 64
    → length s.lease_table + 1 < 2 ^ 32
    → Inv (acquire_named w consumer name want out s).2
unfolding acquire_named
acquire_named-Inv w consumer name want out s v room few =
    elim (Option-cases (find name s.by_name)) [
      | inl e ↦ rw (e, acquire_named) v
      | inr (id, e) ↦ elim (Option-cases (find id s.lanes)) [
        | inl f ↦ rw (e, acquire_named, f) v
        | inr (lane, f) ↦
            rw (e, acquire_named, f) (acquire_lane-Inv w consumer want id lane out s v f room few)
      ]
    ]

pub acquire-Inv :
    (w : World) (consumer : ℕ) (name : String) (want : ℕ) (out : LaneRef) (s : State)
    → Inv s
    → s.next_lease + 1 < 2 ^ 64
    → length s.lease_table + 1 < 2 ^ 32
    → Inv (acquire w consumer name want out s).2
unfolding acquire
acquire-Inv w consumer name want out s v room few =
    ground (arith, acquire_named-Inv w consumer name want (clear_ref out) s v room few)
