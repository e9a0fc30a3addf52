-- ===== src/Lane/Keeps/Retire.antt =====
-- src/bridge/core/Lane.cpp: `retireLane`, and the operations that call it, keep the invariant.
use levilamina_rust_loader.Base.{
  ℕ, zero, suc, ◌+◌, ◌<◌, ◌≤◌, ◌^◌, ◌≡◌, ◌≢◌, refl, String, List, ◌∷◌, none, some, arith, ◌==◌,
  nat_eq, string_eq, Option-cases, inl, inr, length, count, if◌then◌else◌,
}
use text.Mathlib.TextEquality.{eq_iff}
use levilamina_rust_loader.Base.Assoc.{
  find, find-put, find-erase, find-erase_if, erase-IsMap, erase_if-IsMap, count_values-erase_if,
  count_values-le, IsMap, length-erase_if,
}
use levilamina_rust_loader.Lane.Tables.{
  LaneDesc, Lane, Lease, Call, State, on_lane, call_release_times, clear_flag, drop_name, unlink,
  retire_lane, releases,
}
use levilamina_rust_loader.Lane.Publish.{unpublish}
use levilamina_rust_loader.Lane.Invariant.{
  Inv, IsLive, lease_count, retain_count, release_count, flag_of, is_release, is_retain,
}

-- n releases of one lane, on top of the calls before them.
pub releases_then : ℕ → ℕ → List Call → List Call
releases_then zero id cs = cs
releases_then (suc n) id cs = releases_then n id (releases id ∷ cs)

count_releases :
    (n id i : ℕ) (cs : List Call)
    → count (is_release i) (releases_then n id cs)
      ≡ count (is_release i) cs + (if id == i then n else 0)
unfolding releases_then
count_releases zero id i cs = ground arith
count_releases (suc n) id i cs = ground (arith, count_releases n id i (releases id ∷ cs))

count_retains :
    (n id i : ℕ) (cs : List Call)
    → count (is_retain i) (releases_then n id cs) ≡ count (is_retain i) cs
unfolding releases_then
count_retains zero id i cs = refl
count_retains (suc n) id i cs = omega (arith, count_retains n id i (releases id ∷ cs))

call_release_times-eq :
    (n id : ℕ) (d : LaneDesc) (s : State)
    → 0 < d.release
    → call_release_times n id d s ≡ record s { calls = releases_then n id s.calls }
unfolding call_release_times releases_then
call_release_times-eq zero id d s h = refl
call_release_times-eq (suc n) id d s h =
    ground (arith, call_release_times-eq n id d (record s { calls = releases id ∷ s.calls }))

module _ (id : ℕ) (lane : Lane) (s : State) (v : Inv s) (at : find id s.lanes ≡ some lane)
    (few : length s.lease_table < 2 ^ 32) where
  abbrev pub rest_calls : List Call
  rest_calls = releases_then (lease_count id s) id (releases id ∷ s.calls)

  abbrev pub retired_state : State
  retired_state = record (unlink id lane s) { calls = rest_calls }

  pub retire-eq : retire_lane id s ≡ retired_state
  unfolding retire_lane unlink
  retire-eq =
      let own = v.live id lane at in
      rw (at, retire_lane)
        (ground (
          arith,
          own.has_release,
          count_values-le (on_lane id) s.lease_table,
          call_release_times-eq (lease_count id s) id lane.desc
              (record (unlink id lane s) { calls = releases id ∷ s.calls }),
        ))

  pub flag_of-unlink : (i : ℕ) → flag_of i retired_state ≡ (if id == i then 0 else flag_of i s)
  unfolding unlink clear_flag
  flag_of-unlink i = elim (Option-cases (find id s.cells)) [
    | inl e ↦ ground (arith, v.lit id lane at)
    | inr (c, e) ↦ ground (arith, v.live id lane at, find-put id i (record c { flag = 0 }) s.cells)
  ]

  absent_cell : (i : ℕ) → s.next_lane ≤ i → find i retired_state.cells ≡ none
  unfolding unlink clear_flag
  absent_cell i h = elim (Option-cases (find id s.cells)) [
    | inl e ↦ ground (arith, v.lit id lane at)
    | inr (c, e) ↦
        ground
          (arith, v.live id lane at, v.unused i h, find-put id i (record c { flag = 0 }) s.cells)
  ]

  names_left :
      (n : String)
      → find n retired_state.by_name ≡ (if lane.name == n then none else find n s.by_name)
  unfolding unlink drop_name
  names_left n = ground (arith, v.live id lane at, find-erase lane.name n s.by_name)

  pub lanes_left : (i : ℕ) → find i retired_state.lanes ≡ (if id == i then none else find i s.lanes)
  unfolding unlink
  lanes_left i = find-erase id i s.lanes

  pub leases_left :
      (l : ℕ) (lease : Lease)
      → find l retired_state.lease_table ≡ some lease
      → (find l s.lease_table ≡ some lease) × (lease.lane_id ≢ id)
  unfolding unlink
  leases_left l lease h = ground (arith, find-erase_if (on_lane id) l s.lease_table v.leases_map)

  leases_of_others : (i : ℕ) → id ≢ i → lease_count i retired_state ≡ lease_count i s
  unfolding unlink
  leases_of_others i h =
      count_values-erase_if (on_lane id) (on_lane i) s.lease_table (λ lease e. ground arith)

  retired-IsLive :
      (i : ℕ) (l : Lane) → find i retired_state.lanes ≡ some l → IsLive retired_state i l
  unfolding unlink
  retired-IsLive i l h = ground (
    arith,
    v.live i l,
    v.live id lane at,
    lanes_left i,
    names_left l.name,
    eq_iff lane.name l.name,
    leases_of_others i,
    count_releases (lease_count id s) id i (releases id ∷ s.calls),
    count_retains (lease_count id s) id i (releases id ∷ s.calls),
  )

  names-IsMap : IsMap retired_state.by_name
  unfolding unlink drop_name
  names-IsMap = ground (arith, v.names_map, erase-IsMap lane.name s.by_name v.names_map)

  pub retired_calls :
      (i : ℕ)
      → (retain_count i retired_state ≡ retain_count i s)
        × (release_count i retired_state
            ≡ release_count i s + (if id == i then lease_count id s + 1 else 0))
  retired_calls i = ground (
    arith,
    count_releases (lease_count id s) id i (releases id ∷ s.calls),
    count_retains (lease_count id s) id i (releases id ∷ s.calls),
  )

  retired-Inv : Inv retired_state
  unfolding unlink
  retired-Inv = record {
    lanes_map = erase-IsMap id s.lanes v.lanes_map;
    names_map = names-IsMap;
    leases_map = erase_if-IsMap (on_lane id) s.lease_table v.leases_map;
    started = v.started;
    live = retired-IsLive;
    lit = λ i l h. ground (arith, v.lit i l, lanes_left i, flag_of-unlink i);
    indexed = λ n i h.
        ground (arith, v.indexed n i, v.live i, names_left n, lanes_left i, eq_iff lane.name n);
    lease_used = λ i l h. v.lease_used i l (leases_left i l h).0;
    held = λ i l h. ground (arith, v.held i l, leases_left i l h, lanes_left l.lane_id);
    retired = λ i p h e. ground (
      arith,
      v.retired i p h,
      v.live id lane at,
      lanes_left i,
      flag_of-unlink i,
      retired_calls i,
    );
    unused =
        λ i h. ground (arith, v.unused i h, v.live id lane at, absent_cell i h, retired_calls i);
  }

pub retire_lane-Inv :
    (id : ℕ) (s : State) → Inv s → length s.lease_table < 2 ^ 32 → Inv (retire_lane id s)
retire_lane-Inv id s v few = elim (Option-cases (find id s.lanes)) [
  | inl e ↦ unfold retire_lane in rw (e, retire_lane) v
  | inr (lane, e) ↦ rw (retire-eq id lane s v e few) (retired-Inv id lane s v e few)
]

pub length-retire :
    (id : ℕ) (s : State)
    → Inv s
    → length s.lease_table < 2 ^ 32
    → length (retire_lane id s).lease_table ≤ length s.lease_table
length-retire id s v few = elim (Option-cases (find id s.lanes)) [
  | inl e ↦ unfold retire_lane in rw (e, retire_lane) (omega arith)
  | inr (lane, e) ↦
      unfold unlink in
      rw (retire-eq id lane s v e few) (omega (arith, length-erase_if (on_lane id) s.lease_table))
]

pub unpublish-Inv :
    (raw id : ℕ) (s : State) → Inv s → length s.lease_table < 2 ^ 32 → Inv (unpublish raw id s).1
unfolding unpublish
unpublish-Inv raw id s v few = ground (arith, retire_lane-Inv id s v few)
