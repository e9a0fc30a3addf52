-- ===== src/Lane/Stays.antt =====
-- src/bridge/core/Lane.cpp: the id of a lane is not used again, so a lane that was taken down stays down.
use levilamina_rust_loader.Base.{
  ℕ, ◌+◌, ◌-◌, ◌<◌, ◌^◌, ◌≡◌, ◌≢◌, ltb, if◌then◌else◌, String, Option, none, some, List, ◌==◌,
  nat_eq, string_eq, arith, Option-cases, Bool-cases, inl, inr,
}
use levilamina_rust_loader.Base.Assoc.{find, find-put, emplace}
use levilamina_rust_loader.Base.Words.{inc64_lem, inc32}
use levilamina_rust_loader.Base.Mods.{World}
use levilamina_rust_loader.Lane.Tables.{
  Lane, LaneDesc, Lease, State, retire_lane, call_retain, call_release, unlink,
}
use levilamina_rust_loader.Lane.Publish.{
  publish, unpublish, publish_checked, enter_lane, owner_of, new_lane, desc_ok, bad_name,
}
use levilamina_rust_loader.Lane.Leases.{
  LaneRef, acquire, acquire_named, acquire_lane, release, give_back, grant, clear_ref,
}
use levilamina_rust_loader.Lane.Calls.{Calls, quiet, publishes, unpublishes, acquires, releases}
use levilamina_rust_loader.Lane.Invariant.{flag_of}
use levilamina_rust_loader.Lane.Keeps.Gone.{Ordered, calls-Ordered}
use levilamina_rust_loader.Lane.Keeps.Retire.{retire-eq, lanes_left}

-- The id was given out, and no lane has it.
abbrev pub IsSpent : ℕ → State → Type 0
IsSpent id s = (id < s.next_lane) × (find id s.lanes ≡ none)

absent_emplace :
    (k j : ℕ) (v : Lane) (m : List (ℕ × Lane))
    → k ≢ j
    → find j m ≡ none
    → find j (emplace k v m) ≡ none
unfolding emplace
absent_emplace k j v m other h = elim (Option-cases (find k m)) [
  | inl e ↦ ground (arith, e, find-put k j v m)
  | inr (x, e) ↦ ground (arith, e)
]

enter_lane-IsSpent :
    (id raw owner : ℕ) (name : String) (d : LaneDesc) (s : State)
    → s.next_lane + 1 < 2 ^ 64
    → IsSpent id s
    → IsSpent id (enter_lane raw owner name d s).1
unfolding enter_lane
enter_lane-IsSpent id raw owner name d s room (low, none_there) =
    elim (Option-cases (find name s.by_name)) [
      | inr (held, e) ↦ rw (e, enter_lane) (low, none_there)
      | inl e ↦
          rw (e, enter_lane)
            (
              omega (arith, inc64_lem s.next_lane room, low),
              absent_emplace s.next_lane id (new_lane s.next_lane raw owner name d) s.lanes
                  (omega (arith, low)) none_there,
            )
    ]

publish-IsSpent :
    (id : ℕ) (w : World) (raw : ℕ) (name : String) (d : Option LaneDesc) (s : State)
    → s.next_lane + 1 < 2 ^ 64
    → IsSpent id s
    → IsSpent id (publish w raw name d s).1
unfolding publish publish_checked
publish-IsSpent id w raw name none s room h = h
publish-IsSpent id w raw name (some d) s room h = elim (Bool-cases (raw == 0)) [
  | inl n ↦ rw n h
  | inr n ↦ elim (Bool-cases (desc_ok d)) [
    | inr e ↦ rw (n, e) h
    | inl e ↦ elim (Bool-cases (bad_name name)) [
      | inl f ↦ rw (n, e, f) h
      | inr f ↦ elim (Option-cases (owner_of w raw)) [
        | inl g ↦ rw (n, e, f, g, publish_checked) h
        | inr (owner, g) ↦
            rw (n, e, f, g, publish_checked) (enter_lane-IsSpent id raw owner name d s room h)
      ]
    ]
  ]
]

retire_lane-IsSpent :
    (id i : ℕ) (s : State) → Ordered s → IsSpent id s → IsSpent id (retire_lane i s)
unfolding unlink
retire_lane-IsSpent id i s (v, few) (low, absent) = elim (Option-cases (find i s.lanes)) [
  | inl e ↦ unfold retire_lane in rw (e, retire_lane) (low, absent)
  | inr (lane, e) ↦
      rw (retire-eq i lane s v e few) (low, ground (arith, absent, lanes_left i lane s v e few id))
]

unpublish-IsSpent :
    (id raw i : ℕ) (s : State) → Ordered s → IsSpent id s → IsSpent id (unpublish raw i s).1
unfolding unpublish
unpublish-IsSpent id raw i s o h = ground (arith, h, retire_lane-IsSpent id i s o h)

grant-IsSpent :
    (id consumer i : ℕ) (lane : Lane) (out : LaneRef) (s : State)
    → find i s.lanes ≡ some lane
    → IsSpent id s
    → IsSpent id (grant consumer i lane out s).2
unfolding grant call_retain
grant-IsSpent id consumer i lane out s at (low, absent) =
    let still = find-put i id (record lane { leases = inc32 lane.leases }) s.lanes in
    elim (Bool-cases (lane.desc.retain == 0)) [
      | inl e ↦ rw e (low, ground (arith, at, absent, still))
      | inr e ↦ rw e (low, ground (arith, at, absent, still))
    ]

acquire-IsSpent :
    (id : ℕ) (w : World) (consumer : ℕ) (name : String) (want : ℕ) (out : LaneRef) (s : State)
    → IsSpent id s
    → IsSpent id (acquire w consumer name want out s).2
unfolding acquire acquire_named acquire_lane
acquire-IsSpent id w consumer name want out s h = elim (Option-cases (find name s.by_name)) [
  | inl e ↦ ground (arith, h)
  | inr (i, e) ↦ elim (Option-cases (find i s.lanes)) [
    | inl f ↦ ground (arith, h)
    | inr (lane, f) ↦ ground (arith, h, grant-IsSpent id consumer i lane (clear_ref out) s f h)
  ]
]

give_back-IsSpent :
    (id lease_id : ℕ) (lease : Lease) (s : State)
    → IsSpent id s
    → IsSpent id (give_back lease_id lease s)
unfolding give_back call_release
give_back-IsSpent id lease_id lease s (low, absent) =
    elim (Option-cases (find lease.lane_id s.lanes)) [
      | inl e ↦ rw (e, give_back) (low, absent)
      | inr (lane, e) ↦
          let still =
            find-put lease.lane_id id
              (record lane { leases = if ltb 0 lane.leases then lane.leases - 1 else lane.leases })
              s.lanes in
          elim (Bool-cases (lane.desc.release == 0)) [
            | inl g ↦ rw (e, give_back, g) (low, ground (arith, e, absent, still))
            | inr g ↦ rw (e, give_back, g) (low, ground (arith, e, absent, still))
          ]
    ]

release-IsSpent :
    (id consumer lease : ℕ) (s : State) → IsSpent id s → IsSpent id (release consumer lease s).1
unfolding release
release-IsSpent id consumer lease s h = elim (Option-cases (find lease s.lease_table)) [
  | inl e ↦ ground (arith, h)
  | inr (held, e) ↦ ground (arith, h, give_back-IsSpent id lease held s h)
]

pub calls-IsSpent :
    (id : ℕ) {May : ℕ → Type 0} {s t : State}
    → Calls May s t
    → Ordered s
    → IsSpent id s
    → IsSpent id t
calls-IsSpent id (quiet s) o h = h
calls-IsSpent id (publishes w raw name d s t c may room counted) o h =
    publish-IsSpent id w raw name d t room (calls-IsSpent id c o h)
calls-IsSpent id (unpublishes raw i s t c) o h =
    unpublish-IsSpent id raw i t (calls-Ordered c o) (calls-IsSpent id c o h)
calls-IsSpent id (acquires w consumer name want out s t c may room fits) o h =
    acquire-IsSpent id w consumer name want out t (calls-IsSpent id c o h)
calls-IsSpent id (releases consumer lease s t c) o h =
    release-IsSpent id consumer lease t (calls-IsSpent id c o h)

-- What calls do after a lane was taken down does not bring it back, nor its flag.
pub stays_down :
    (id : ℕ) {May : ℕ → Type 0} (t u : State)
    → Ordered t
    → 0 < id
    → IsSpent id t
    → Calls May t u
    → (find id u.lanes ≡ none) × (flag_of id u ≡ 0)
stays_down id t u o pos spent c =
    let later = calls-IsSpent id c o spent in
    let v = (calls-Ordered c o).0 in (later.1, (v.retired id pos later.0 later.1).dark)
