-- ===== src/Lane/Unload.antt =====
-- src/bridge/core/Lane.cpp: `laneOnRustModGone` leaves nothing of the mod behind, and
-- `laneModBusyName` finds a lane that is being called.
use levilamina_rust_loader.Base.{
  ℕ, ◌<◌, ◌^◌, ◌≡◌, ◌≢◌, none, some, List, [], ◌∷◌, arith, nat_eq, Bool-cases, Option-cases, Option,
  inl, inr, length, All, ◌==◌,
}
use levilamina_rust_loader.Base.Assoc.{
  find, keys_where, keys_where_complete, count_values, count_values_zero,
}
use levilamina_rust_loader.Lane.Tables.{Lane, AliveCell, State, retire_lane}
use levilamina_rust_loader.Lane.Leases.{give_back}
use levilamina_rust_loader.Lane.Gone.{
  after_release, return_lease, return_leases, retire_in_turn, retire_lanes, retire_all_of,
  on_rust_mod_gone, held_by, published_by, mod_busy_name, busy_lane, busy_of,
}
use levilamina_rust_loader.Lane.Invariant.{Inv}
use levilamina_rust_loader.Lane.Keeps.Lease.{give_back-Inv, length-give_back}
use levilamina_rust_loader.Lane.Keeps.Retire.{retire_lane-Inv, length-retire}
use levilamina_rust_loader.Lane.Keeps.Gone.{
  Ordered, return_lease-Ordered, return_leases-Ordered, retire_in_turn-Ordered, gone-Ordered,
}
use levilamina_rust_loader.Lane.Calls.{Reaction, Reacts}
use levilamina_rust_loader.Lane.Left.{
  Fewer, Fewer-refl, Fewer-then, Holds, Publishes, give_back-Fewer, retire_lane-Fewer, calls-Fewer,
}

module _ (raw : ℕ) (react : Reaction) (reacts : Reacts (λ by. by ≢ raw) react) where
  after_release-Fewer :
      (id : ℕ) (found : Option Lane) (s : State)
      → Ordered s
      → Fewer raw s (after_release react id found s)
  unfolding after_release
  after_release-Fewer id none s o = Fewer-refl raw s
  after_release-Fewer id (some lane) s o = elim (Bool-cases (lane.desc.release == 0)) [
    | inl e ↦ rw e (Fewer-refl raw s)
    | inr e ↦ rw e (calls-Fewer raw (reacts id s) o)
  ]

  return_lease-Fewer :
      (id : ℕ) (s : State)
      → Ordered s
      → Fewer raw s (return_lease react id s)
        × ((l : ℕ) → Holds raw l (return_lease react id s) → id ≢ l)
  unfolding return_lease
  return_lease-Fewer id s o = elim (Option-cases (find id s.lease_table)) [
    | inl e ↦ rw (e, return_lease) (Fewer-refl raw s, λ l (held, f, h). ground (arith, e, f))
    | inr (lease, e) ↦
        let back : State = give_back id lease s in
        let fine : Ordered back =
          (give_back-Inv id lease s o.0 e, omega (arith, length-give_back id lease s, o.1)) in
        let one = give_back-Fewer raw id lease s in
        let more = after_release-Fewer lease.lane_id (find lease.lane_id s.lanes) back fine in
        let after : State = after_release react lease.lane_id (find lease.lane_id s.lanes) back in
        rw (e, return_lease) (Fewer-then raw s back after one.0 more, λ l h. one.1 l (more.0 l h))
  ]

  return_leases-Fewer :
      (ids : List ℕ) (s : State)
      → Ordered s
      → Fewer raw s (return_leases react ids s)
        × ((l : ℕ) → Holds raw l (return_leases react ids s) → All (λ id. id ≢ l) ids)
  unfolding return_leases
  return_leases-Fewer [] s o = (Fewer-refl raw s, λ l h. tt)
  return_leases-Fewer (id ∷ ids) s o =
      let next : State = return_lease react id s in
      let one = return_lease-Fewer id s o in
      let more = return_leases-Fewer ids next (return_lease-Ordered react reacts id s o) in
      (
        Fewer-then raw s next (return_leases react ids next) one.0 more.0,
        λ l h. (one.1 l (more.0.0 l h), more.1 l h),
      )

  retire_in_turn-Fewer :
      (id : ℕ) (s : State)
      → Ordered s
      → Fewer raw s (retire_in_turn react id s)
        × ((i : ℕ) → Publishes raw i (retire_in_turn react id s) → id ≢ i)
  unfolding retire_in_turn
  retire_in_turn-Fewer id s o =
      let retired : State = retire_lane id s in
      let fine : Ordered retired =
        (retire_lane-Inv id s o.0 o.1, omega (arith, length-retire id s o.0 o.1, o.1)) in
      let one = retire_lane-Fewer raw id s o in
      let more = after_release-Fewer id (find id s.lanes) retired fine in
      let after : State = after_release react id (find id s.lanes) retired in
      (Fewer-then raw s retired after one.0 more, λ i h. one.1 i (more.1 i h))

  retire_lanes-Fewer :
      (ids : List ℕ) (s : State)
      → Ordered s
      → Fewer raw s (retire_lanes react ids s)
        × ((i : ℕ) → Publishes raw i (retire_lanes react ids s) → All (λ id. id ≢ i) ids)
  unfolding retire_lanes
  retire_lanes-Fewer [] s o = (Fewer-refl raw s, λ i h. tt)
  retire_lanes-Fewer (id ∷ ids) s o =
      let next : State = retire_in_turn react id s in
      let one = retire_in_turn-Fewer id s o in
      let more = retire_lanes-Fewer ids next (retire_in_turn-Ordered react reacts id s o) in
      (
        Fewer-then raw s next (retire_lanes react ids next) one.0 more.0,
        λ i h. (one.1 i (more.0.1 i h), more.1 i h),
      )

  gone_left :
      (s : State)
      → Ordered s
      → ((i : ℕ) → Publishes raw i (on_rust_mod_gone react raw s) → ⊥)
        × ((l : ℕ) → Holds raw l (on_rust_mod_gone react raw s) → ⊥)
  unfolding on_rust_mod_gone retire_all_of
  gone_left s o =
      let mine : List ℕ = keys_where (held_by raw) s.lease_table in
      let back : State = return_leases react mine s in
      let one = return_leases-Fewer mine s o in
      let more =
        retire_lanes-Fewer (keys_where (published_by raw) back.lanes) back
          (return_leases-Ordered react reacts mine s o) in
      (
        λ i h.
            let (lane, f, own) = more.0.1 i h in
            ground
              (arith, own, keys_where_complete (published_by raw) back.lanes i lane f (more.1 i h)),
        λ l h.
            let (lease, f, own) = one.0.0 l (more.0.0 l h) in
            ground (
              arith,
              own,
              keys_where_complete (held_by raw) s.lease_table l lease f (one.1 l (more.0.0 l h)),
            ),
      )

-- When a mod goes from tables that are in order, while fewer than 2^32 leases are out, no lane
-- that it published and no lease that it held is left, so no later call can reach its code through
-- the tables. A provider's `release` that runs on the way may call the lanes again, also to take
-- down or give back what is still to be swept, if in it no publish and no acquire is made for the
-- mod itself.
pub gone_clears :
    (raw : ℕ) (s : State)
    → Inv s
    → length s.lease_table < 2 ^ 32
    → (react : Reaction) → Reacts (λ by. by ≢ raw) react
    → (count_values (published_by raw) (on_rust_mod_gone react raw s).lanes ≡ 0)
      × (count_values (held_by raw) (on_rust_mod_gone react raw s).lease_table ≡ 0)
gone_clears raw s v few react reacts =
    let (lanes, leases) = gone_left raw react reacts s (v, few) in
    let after = (gone-Ordered react reacts raw s (v, few)).0 in
    let gone : State = on_rust_mod_gone react raw s in
    (
      count_values_zero (published_by raw) gone.lanes after.lanes_map λ i lane f.
          elim (Bool-cases (published_by raw lane)) [
            | inl e ↦ absurd (lanes i (lane, f, ground (arith, e)))
            | inr e ↦ e
          ],
      count_values_zero (held_by raw) gone.lease_table after.leases_map λ l lease f.
          elim (Bool-cases (held_by raw lease)) [
            | inl e ↦ absurd (leases l (lease, f, ground (arith, e)))
            | inr e ↦ e
          ],
    )

busy_lane-none :
    (raw : ℕ) (cells : List (ℕ × AliveCell)) (lanes : List (ℕ × Lane)) (id : ℕ) (lane : Lane)
    → busy_lane raw cells lanes ≡ none
    → find id lanes ≡ some lane
    → lane.owner_mod ≡ raw
    → lane.alive ≢ 0
    → busy_of cells lane.alive ≡ 0
unfolding busy_lane find
busy_lane-none raw cells [] id lane h f o n = cc
busy_lane-none raw cells ((i, l) ∷ rest) id lane h f o n =
    ground (arith, busy_lane-none raw cells rest id lane)

-- In tables that are in order, the check that an unload passes: if it names no lane, no consumer
-- is inside a call of any lane of this mod.
pub not_busy :
    (raw id : ℕ) (lane : Lane) (s : State)
    → Inv s
    → mod_busy_name raw s ≡ none
    → find id s.lanes ≡ some lane
    → lane.owner_mod ≡ raw
    → busy_of s.cells lane.alive ≡ 0
unfolding mod_busy_name
not_busy raw id lane s v h f o =
    busy_lane-none raw s.cells s.lanes id lane h f o (ground (arith, v.live id lane f))
