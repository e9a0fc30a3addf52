-- ===== src/Lane/Keeps/Enter.antt =====
-- src/bridge/core/Lane.cpp: `api_lane_publish` keeps the invariant.
use levilamina_rust_loader.Base.{
  ℕ, ◌+◌, ◌<◌, ◌^◌, ◌≡◌, String, Option, none, some, arith, nat_eq, string_eq, Option-cases,
  Bool-cases, inl, inr,
}
use text.Mathlib.TextEquality.{eq_iff}
use levilamina_rust_loader.Base.Assoc.{
  find, put, find-put, put-IsMap, emplace_fresh, count_values_zero,
}
use levilamina_rust_loader.Base.Words.{inc64_lem}
use levilamina_rust_loader.Lane.Tables.{LaneDesc, Lane, AliveCell, State, on_lane}
use levilamina_rust_loader.Base.Mods.{World}
use levilamina_rust_loader.Lane.Publish.{
  new_lane, enter_lane, desc_ok, bad_name, owner_of, publish_checked, publish,
}
use levilamina_rust_loader.Lane.Invariant.{Inv, IsLive, lease_count}

module _ (raw owner : ℕ) (name : String) (d : LaneDesc) (s : State) (v : Inv s)
    (room : s.next_lane + 1 < 2 ^ 64) (free : find name s.by_name ≡ none) where
  abbrev pub entered : State
  entered = record s {
    next_lane = s.next_lane + 1;
    lanes = put s.next_lane (new_lane s.next_lane raw owner name d) s.lanes;
    by_name = put name s.next_lane s.by_name;
    cells = put s.next_lane (record { flag = 1; busy = 0 }) s.cells;
  }

  pub lane_free : find s.next_lane s.lanes ≡ none
  lane_free = elim (Option-cases (find s.next_lane s.lanes)) [
    | inl e ↦ e
    | inr (lane, e) ↦ absurd (omega (arith, (v.live s.next_lane lane e).used))
  ]

  pub enter-eq : enter_lane raw owner name d s ≡ (s.next_lane, entered)
  unfolding enter_lane
  enter-eq =
      rw (free, enter_lane)
        (rw (
          inc64_lem s.next_lane room,
          emplace_fresh s.next_lane (new_lane s.next_lane raw owner name d) s.lanes lane_free,
          emplace_fresh name s.next_lane s.by_name free,
          emplace_fresh {V = AliveCell} s.next_lane (record { flag = 1; busy = 0 }) s.cells
              (v.unused s.next_lane (omega arith)).no_cell,
        ))

  abbrev pub the_lane : Lane
  the_lane = new_lane s.next_lane raw owner name d

  no_lease : lease_count s.next_lane s ≡ 0
  no_lease =
      count_values_zero (on_lane s.next_lane) s.lease_table v.leases_map
        λ l lease f. ground (arith, v.held l lease f, lane_free)

  entered-IsLive :
      0 < d.retain
      → 0 < d.release
      → (id : ℕ) (lane : Lane) → find id entered.lanes ≡ some lane
      → IsLive entered id lane
  unfolding new_lane
  entered-IsLive pr pl id lane h = ground (
    arith,
    v.live id lane,
    v.started,
    v.unused s.next_lane,
    no_lease,
    find-put s.next_lane id the_lane s.lanes,
    find-put name lane.name s.next_lane s.by_name,
    eq_iff name lane.name,
  )

  entered-Inv : 0 < d.retain → 0 < d.release → Inv entered
  unfolding new_lane
  entered-Inv pr pl = record {
    lanes_map = put-IsMap s.next_lane the_lane s.lanes v.lanes_map;
    names_map = put-IsMap name s.next_lane s.by_name v.names_map;
    leases_map = v.leases_map;
    started = omega arith;
    live = entered-IsLive pr pl;
    lit = λ id lane h. ground (
      arith,
      v.lit id lane,
      find-put s.next_lane id the_lane s.lanes,
      find-put {V = AliveCell} s.next_lane id (record { flag = 1; busy = 0 }) s.cells,
    );
    indexed = λ n id h. ground (
      arith,
      v.indexed n id,
      find-put s.next_lane id the_lane s.lanes,
      find-put name n s.next_lane s.by_name,
      eq_iff name n,
      lane_free,
    );
    lease_used = v.lease_used;
    held = λ l lease h.
        ground (arith, v.held l lease h, find-put s.next_lane lease.lane_id the_lane s.lanes);
    retired = λ id p h e. ground (
      arith,
      v.retired id p,
      find-put s.next_lane id the_lane s.lanes,
      find-put {V = AliveCell} s.next_lane id (record { flag = 1; busy = 0 }) s.cells,
    );
    unused = λ id h. ground (
      arith,
      v.unused id,
      find-put {V = AliveCell} s.next_lane id (record { flag = 1; busy = 0 }) s.cells,
    );
  }

-- A descriptor whose functions are both there, as the Rust crate hands over.
abbrev pub IsCounted : Option LaneDesc → Type 0
IsCounted none = Unit
IsCounted (some d) = (0 < d.retain) × (0 < d.release)

publish_checked-Inv :
    (w : World) (raw : ℕ) (name : String) (d : LaneDesc) (s : State)
    → Inv s
    → s.next_lane + 1 < 2 ^ 64
    → IsCounted (some d)
    → Inv (publish_checked w raw name d s).1
unfolding publish_checked
publish_checked-Inv w raw name d s v room c = elim (Bool-cases (desc_ok d)) [
  | inr e ↦ rw e v
  | inl e ↦ elim (Bool-cases (bad_name name)) [
    | inl f ↦ rw (e, f) v
    | inr f ↦ elim (Option-cases (owner_of w raw)) [
      | inl g ↦ rw (e, f, g) v
      | inr (owner, g) ↦ elim (Option-cases (find name s.by_name)) [
        | inr (held, k) ↦ rw (e, f, g) (rw (k, enter_lane) v)
        | inl k ↦
            rw (e, f, g, enter-eq raw owner name d s v room k)
              (entered-Inv raw owner name d s v room k c.0 c.1)
      ]
    ]
  ]
]

pub publish-Inv :
    (w : World) (raw : ℕ) (name : String) (d : Option LaneDesc) (s : State)
    → Inv s
    → s.next_lane + 1 < 2 ^ 64
    → IsCounted d
    → Inv (publish w raw name d s).1
unfolding publish
publish-Inv w raw name none s v room c = v
publish-Inv w raw name (some d) s v room c =
    ground (arith, publish_checked-Inv w raw name d s v room c)
