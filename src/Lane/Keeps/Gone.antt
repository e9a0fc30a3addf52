-- ===== src/Lane/Keeps/Gone.antt =====
-- src/bridge/core/Lane.cpp: `laneOnRustModGone` keeps the invariant, whatever the providers call
-- from their `release`.
use levilamina_rust_loader.Base.{
  ℕ, ◌+◌, ◌<◌, ◌≤◌, ◌^◌, ◌≡◌, refl, String, List, [], ◌∷◌, Option, none, some, ◌==◌, nat_eq,
  string_eq, arith, Option-cases, Bool-cases, inl, inr, length,
}
use levilamina_rust_loader.Base.Assoc.{find, keys_where, emplace, length-put-le}
use levilamina_rust_loader.Base.Mods.{World}
use levilamina_rust_loader.Lane.Tables.{Lane, LaneDesc, State, retire_lane, call_retain}
use levilamina_rust_loader.Lane.Publish.{publish, unpublish, publish_checked, enter_lane, owner_of}
use levilamina_rust_loader.Lane.Leases.{
  LaneRef, acquire, acquire_named, acquire_lane, release, give_back, grant, clear_ref,
}
use levilamina_rust_loader.Lane.Calls.{
  Calls, quiet, publishes, unpublishes, acquires, releases, Reaction, Reacts,
}
use levilamina_rust_loader.Lane.Gone.{
  after_release, return_lease, return_leases, retire_in_turn, retire_lanes, retire_all_of,
  on_rust_mod_gone, held_by, published_by,
}
use levilamina_rust_loader.Lane.Keeps.Enter.{publish-Inv}
use levilamina_rust_loader.Lane.Keeps.Lease.{
  acquire-Inv, release-Inv, give_back-Inv, length-give_back,
}
use levilamina_rust_loader.Lane.Keeps.Retire.{unpublish-Inv, retire_lane-Inv, length-retire}
use levilamina_rust_loader.Lane.Invariant.{Inv}

-- In order, and with room in the counts of leases.
abbrev pub Ordered : State → Type 0
Ordered s = Inv s × (length s.lease_table < 2 ^ 32)

pub publish-lease_table :
    (w : World) (raw : ℕ) (name : String) (d : Option LaneDesc) (s : State)
    → (publish w raw name d s).1.lease_table ≡ s.lease_table
unfolding publish publish_checked enter_lane
publish-lease_table w raw name none s = refl
publish-lease_table w raw name (some d) s = elim (Option-cases (owner_of w raw)) [
  | inl e ↦ ground arith
  | inr (owner, e) ↦ ground arith
]

length-unpublish :
    (raw id : ℕ) (s : State)
    → Ordered s
    → length (unpublish raw id s).1.lease_table ≤ length s.lease_table
unfolding unpublish
length-unpublish raw id s o = ground (arith, length-retire id s o.0 o.1)

length-grant :
    (consumer id : ℕ) (lane : Lane) (out : LaneRef) (s : State)
    → length (grant consumer id lane out s).2.lease_table ≤ length s.lease_table + 1
unfolding grant call_retain emplace
length-grant consumer id lane out s =
    ground
      (arith, length-put-le s.next_lease (record { holder = consumer; lane_id = id }) s.lease_table)

length-acquire :
    (w : World) (consumer : ℕ) (name : String) (want : ℕ) (out : LaneRef) (s : State)
    → length (acquire w consumer name want out s).2.lease_table ≤ length s.lease_table + 1
unfolding acquire acquire_named acquire_lane
length-acquire w consumer name want out s = elim (Option-cases (find name s.by_name)) [
  | inl e ↦ ground arith
  | inr (id, e) ↦ elim (Option-cases (find id s.lanes)) [
    | inl f ↦ ground arith
    | inr (lane, f) ↦ ground (arith, length-grant consumer id lane (clear_ref out) s)
  ]
]

length-release :
    (consumer lease : ℕ) (s : State)
    → length (release consumer lease s).1.lease_table ≤ length s.lease_table
unfolding release
length-release consumer lease s = elim (Option-cases (find lease s.lease_table)) [
  | inl e ↦ ground arith
  | inr (held, e) ↦ ground (arith, length-give_back lease held s)
]

pub calls-Ordered : {May : ℕ → Type 0} {s t : State} → Calls May s t → Ordered s → Ordered t
calls-Ordered (quiet s) o = o
calls-Ordered (publishes w raw name d s t c may room counted) o =
    let (v, few) = calls-Ordered c o in
    (publish-Inv w raw name d t v room counted, rw (publish-lease_table w raw name d t) few)
calls-Ordered (unpublishes raw id s t c) o =
    let (v, few) = calls-Ordered c o in
    (unpublish-Inv raw id t v few, omega (arith, length-unpublish raw id t (v, few)))
calls-Ordered (acquires w consumer name want out s t c may room fits) o =
    let (v, few) = calls-Ordered c o in
    (
      acquire-Inv w consumer name want out t v room fits,
      omega (arith, length-acquire w consumer name want out t),
    )
calls-Ordered (releases consumer lease s t c) o =
    let (v, few) = calls-Ordered c o in
    (release-Inv consumer lease t v, omega (arith, length-release consumer lease t))

module _ {May : ℕ → Type 0} (react : Reaction) (reacts : Reacts May react) where
  pub after_release-Ordered :
      (id : ℕ) (found : Option Lane) (s : State)
      → Ordered s
      → Ordered (after_release react id found s)
  unfolding after_release
  after_release-Ordered id none s o = o
  after_release-Ordered id (some lane) s o = elim (Bool-cases (lane.desc.release == 0)) [
    | inl e ↦ rw e o
    | inr e ↦ rw e (calls-Ordered (reacts id s) o)
  ]

  pub return_lease-Ordered : (id : ℕ) (s : State) → Ordered s → Ordered (return_lease react id s)
  unfolding return_lease
  return_lease-Ordered id s o = elim (Option-cases (find id s.lease_table)) [
    | inl e ↦ rw (e, return_lease) o
    | inr (lease, e) ↦
        rw (e, return_lease)
          (after_release-Ordered lease.lane_id (find lease.lane_id s.lanes) (give_back id lease s)
            (give_back-Inv id lease s o.0 e, omega (arith, length-give_back id lease s)))
  ]

  pub return_leases-Ordered :
      (ids : List ℕ) (s : State) → Ordered s → Ordered (return_leases react ids s)
  unfolding return_leases
  return_leases-Ordered [] s o = o
  return_leases-Ordered (id ∷ ids) s o =
      return_leases-Ordered ids (return_lease react id s) (return_lease-Ordered id s o)

  pub retire_in_turn-Ordered :
      (id : ℕ) (s : State) → Ordered s → Ordered (retire_in_turn react id s)
  unfolding retire_in_turn
  retire_in_turn-Ordered id s o =
      after_release-Ordered id (find id s.lanes) (retire_lane id s)
        (retire_lane-Inv id s o.0 o.1, omega (arith, length-retire id s o.0 o.1))

  pub retire_lanes-Ordered :
      (ids : List ℕ) (s : State) → Ordered s → Ordered (retire_lanes react ids s)
  unfolding retire_lanes
  retire_lanes-Ordered [] s o = o
  retire_lanes-Ordered (id ∷ ids) s o =
      retire_lanes-Ordered ids (retire_in_turn react id s) (retire_in_turn-Ordered id s o)

  pub gone-Ordered : (raw : ℕ) (s : State) → Ordered s → Ordered (on_rust_mod_gone react raw s)
  unfolding on_rust_mod_gone retire_all_of
  gone-Ordered raw s o =
      let returned = return_leases react (keys_where (held_by raw) s.lease_table) s in
      retire_lanes-Ordered (keys_where (published_by raw) returned.lanes) returned
        (return_leases-Ordered (keys_where (held_by raw) s.lease_table) s o)
