-- ===== src/Lane/Left.antt =====
-- src/bridge/core/Lane.cpp: calls by other mods, and each step of `laneOnRustModGone`, leave a mod no
-- lane and no lease that it did not have.
use levilamina_rust_loader.Base.{
  ℕ, ◌-◌, ltb, if◌then◌else◌, ◌≡◌, ◌≢◌, refl, String, Option, none, some, List, ◌==◌, nat_eq,
  string_eq, arith, Option-cases, Bool-cases, ◌⊎◌, inl, inr,
}
use levilamina_rust_loader.Base.Assoc.{find, find-put, find-erase, put, erase, emplace}
use levilamina_rust_loader.Base.Words.{inc32}
use levilamina_rust_loader.Base.Mods.{World}
use levilamina_rust_loader.Lane.Tables.{
  Lane, LaneDesc, Lease, State, retire_lane, call_retain, call_release,
}
use levilamina_rust_loader.Lane.Publish.{
  publish, unpublish, publish_checked, enter_lane, owner_of, new_lane, desc_ok, bad_name,
}
use levilamina_rust_loader.Lane.Leases.{
  LaneRef, acquire, acquire_named, acquire_lane, release, give_back, grant, clear_ref,
}
use levilamina_rust_loader.Lane.Calls.{Calls, quiet, publishes, unpublishes, acquires, releases}
use levilamina_rust_loader.Lane.Keeps.Gone.{Ordered, calls-Ordered}
use levilamina_rust_loader.Lane.Keeps.Retire.{retire-eq, leases_left, lanes_left}

-- This lease is the mod's.
abbrev pub Holds : ℕ → ℕ → State → Type 0
Holds raw l s = (lease : Lease) × (find l s.lease_table ≡ some lease) × (lease.holder ≡ raw)

-- This lane is the mod's.
abbrev pub Publishes : ℕ → ℕ → State → Type 0
Publishes raw i s = (lane : Lane) × (find i s.lanes ≡ some lane) × (lane.owner_mod ≡ raw)

-- What the mod has in the second state, it had in the first.
abbrev pub Fewer : ℕ → State → State → Type 0
Fewer raw s t =
    ((l : ℕ) → Holds raw l t → Holds raw l s) × ((i : ℕ) → Publishes raw i t → Publishes raw i s)

pub Fewer-refl : (raw : ℕ) (s : State) → Fewer raw s s
Fewer-refl raw s = (λ l h. h, λ i h. h)

pub Fewer-then : (raw : ℕ) (s t u : State) → Fewer raw s t → Fewer raw t u → Fewer raw s u
Fewer-then raw s t u f g = (λ l h. f.0 l (g.0 l h), λ i h. f.1 i (g.1 i h))

emplaced :
    {V : Type 0}
    → (k j : ℕ) (v w : V) (m : List (ℕ × V)) → find j (emplace k v m) ≡ some w
    → (w ≡ v) ⊎ (find j m ≡ some w)
unfolding emplace
emplaced k j v w m h = elim (Option-cases (find k m)) [
  | inr (x, e) ↦ inr (ground (arith, e, h))
  | inl e ↦ elim (Bool-cases (k == j)) [
    | inl f ↦ inl (ground (arith, e, f, h, find-put k j v m))
    | inr f ↦ inr (ground (arith, e, f, h, find-put k j v m))
  ]
]

enter_lane-Fewer :
    (raw by owner : ℕ) (name : String) (d : LaneDesc) (s : State)
    → by ≢ raw
    → Fewer raw s (enter_lane by owner name d s).1
unfolding enter_lane new_lane
enter_lane-Fewer raw by owner name d s other = elim (Option-cases (find name s.by_name)) [
  | inr (id, e) ↦ rw (e, enter_lane) (Fewer-refl raw s)
  | inl e ↦
      rw (e, enter_lane)
        (
          (λ l h. h),
          λ i (lane, f, o).
              elim (emplaced s.next_lane i (new_lane s.next_lane by owner name d) lane s.lanes f) [
                | inl g ↦ absurd (ground (arith, g, o, other))
                | inr g ↦ (lane, g, o)
              ],
        )
]

publish-Fewer :
    (raw by : ℕ) (w : World) (name : String) (d : Option LaneDesc) (s : State)
    → by ≢ raw
    → Fewer raw s (publish w by name d s).1
unfolding publish publish_checked
publish-Fewer raw by w name none s other = Fewer-refl raw s
publish-Fewer raw by w name (some d) s other =
    let same = Fewer-refl raw s in
    elim (Bool-cases (by == 0)) [
      | inl n ↦ rw n same
      | inr n ↦ elim (Bool-cases (desc_ok d)) [
        | inr e ↦ rw (n, e) same
        | inl e ↦ elim (Bool-cases (bad_name name)) [
          | inl f ↦ rw (n, e, f) same
          | inr f ↦ elim (Option-cases (owner_of w by)) [
            | inl g ↦ rw (n, e, f, g, publish_checked) same
            | inr (owner, g) ↦
                rw (n, e, f, g, publish_checked) (enter_lane-Fewer raw by owner name d s other)
          ]
        ]
      ]
    ]

pub retire_lane-Fewer :
    (raw id : ℕ) (s : State)
    → Ordered s
    → Fewer raw s (retire_lane id s) × ((i : ℕ) → Publishes raw i (retire_lane id s) → id ≢ i)
retire_lane-Fewer raw id s (v, few) = elim (Option-cases (find id s.lanes)) [
  | inl e ↦
      unfold retire_lane in
      rw (e, retire_lane) (Fewer-refl raw s, λ i (lane, f, o). ground (arith, e, f))
  | inr (lane, e) ↦ rw (retire-eq id lane s v e few) (
    (
      λ l (lease, f, o). (lease, (leases_left id lane s v e few l lease f).0, o),
      λ i (other, f, o). (other, ground (arith, lanes_left id lane s v e few i, f), o),
    ),
    λ i (other, f, o). ground (arith, lanes_left id lane s v e few i, f),
  )
]

unpublish-Fewer : (raw by id : ℕ) (s : State) → Ordered s → Fewer raw s (unpublish by id s).1
unfolding unpublish
unpublish-Fewer raw by id s o = ground (arith, Fewer-refl raw s, (retire_lane-Fewer raw id s o).0)

-- A lane's new entry has the owner of the old one.
put-Publishes :
    (raw id : ℕ) (old lane : Lane) (lanes : List (ℕ × Lane)) (i : ℕ) (found : Lane)
    → find id lanes ≡ some old
    → lane.owner_mod ≡ old.owner_mod
    → find i (put id lane lanes) ≡ some found
    → found.owner_mod ≡ raw
    → (other : Lane) × (find i lanes ≡ some other) × (other.owner_mod ≡ raw)
put-Publishes raw id old lane lanes i found at same f o = elim (Bool-cases (id == i)) [
  | inl e ↦ (old, ground (arith, e, at), ground (arith, e, same, f, o, find-put id i lane lanes))
  | inr e ↦ (found, ground (arith, e, f, find-put id i lane lanes), o)
]

grant-Fewer :
    (raw consumer id : ℕ) (lane : Lane) (out : LaneRef) (s : State)
    → consumer ≢ raw
    → find id s.lanes ≡ some lane
    → Fewer raw s (grant consumer id lane out s).2
unfolding grant call_retain
grant-Fewer raw consumer id lane out s other at =
    let taken : Lease = record { holder = consumer; lane_id = id } in
    let counted : Lane = record lane { leases = inc32 lane.leases } in
    let leases : (l : ℕ)
        → (lease : Lease) × (find l (emplace s.next_lease taken s.lease_table) ≡ some lease)
          × (lease.holder ≡ raw)
        → Holds raw l s =
      λ l (lease, f, o). elim (emplaced s.next_lease l taken lease s.lease_table f) [
        | inl g ↦ absurd (ground (arith, g, o, other))
        | inr g ↦ (lease, g, o)
      ] in
    let lanes : (i : ℕ)
        → (found : Lane) × (find i (put id counted s.lanes) ≡ some found) × (found.owner_mod ≡ raw)
        → Publishes raw i s =
      λ i (found, f, o). put-Publishes raw id lane counted s.lanes i found at refl f o in
    elim (Bool-cases (lane.desc.retain == 0)) [
      | inl e ↦ rw e (leases, lanes)
      | inr e ↦ rw e (leases, lanes)
    ]

acquire-Fewer :
    (raw consumer : ℕ) (w : World) (name : String) (want : ℕ) (out : LaneRef) (s : State)
    → consumer ≢ raw
    → Fewer raw s (acquire w consumer name want out s).2
unfolding acquire acquire_named acquire_lane
acquire-Fewer raw consumer w name want out s other = elim (Option-cases (find name s.by_name)) [
  | inl e ↦ ground (arith, Fewer-refl raw s)
  | inr (id, e) ↦ elim (Option-cases (find id s.lanes)) [
    | inl f ↦ ground (arith, Fewer-refl raw s)
    | inr (lane, f) ↦
        ground (arith, Fewer-refl raw s, grant-Fewer raw consumer id lane (clear_ref out) s other f)
  ]
]

-- The lease itself is taken out.
pub give_back-Fewer :
    (raw lease_id : ℕ) (lease : Lease) (s : State)
    → Fewer raw s (give_back lease_id lease s)
      × ((l : ℕ) → Holds raw l (give_back lease_id lease s) → lease_id ≢ l)
unfolding give_back call_release
give_back-Fewer raw lease_id lease s =
    let leases : (l : ℕ)
        → (held : Lease) × (find l (erase lease_id s.lease_table) ≡ some held) × (held.holder ≡ raw)
        → Holds raw l s × (lease_id ≢ l) =
      λ l (held, f, o). (
        (held, ground (arith, f, find-erase lease_id l s.lease_table), o),
        ground (arith, f, find-erase lease_id l s.lease_table),
      ) in
    elim (Option-cases (find lease.lane_id s.lanes)) [
      | inl e ↦ rw (e, give_back) ((λ l h. (leases l h).0, λ i h. h), λ l h. (leases l h).1)
      | inr (lane, e) ↦
          let less : Lane = record lane {
            leases = if ltb 0 lane.leases then lane.leases - 1 else lane.leases;
          } in
          let lanes : (i : ℕ)
              → (found : Lane) × (find i (put lease.lane_id less s.lanes) ≡ some found)
                × (found.owner_mod ≡ raw)
              → Publishes raw i s =
            λ i (found, f, o).
              put-Publishes raw lease.lane_id lane less s.lanes i found e refl f o in
          elim (Bool-cases (lane.desc.release == 0)) [
            | inl g ↦ rw (e, give_back, g) ((λ l h. (leases l h).0, lanes), λ l h. (leases l h).1)
            | inr g ↦ rw (e, give_back, g) ((λ l h. (leases l h).0, lanes), λ l h. (leases l h).1)
          ]
    ]

release-Fewer : (raw consumer lease : ℕ) (s : State) → Fewer raw s (release consumer lease s).1
unfolding release
release-Fewer raw consumer lease s = elim (Option-cases (find lease s.lease_table)) [
  | inl e ↦ ground (arith, Fewer-refl raw s)
  | inr (held, e) ↦ ground (arith, Fewer-refl raw s, (give_back-Fewer raw lease held s).0)
]

-- Calls by other mods.
pub calls-Fewer : (raw : ℕ) {s t : State} → Calls (λ by. by ≢ raw) s t → Ordered s → Fewer raw s t
calls-Fewer raw (quiet s) o = Fewer-refl raw s
calls-Fewer raw (publishes w by name d s t c other room counted) o =
    Fewer-then raw s t (publish w by name d t).1 (calls-Fewer raw c o)
      (publish-Fewer raw by w name d t other)
calls-Fewer raw (unpublishes by id s t c) o =
    Fewer-then raw s t (unpublish by id t).1 (calls-Fewer raw c o)
      (unpublish-Fewer raw by id t (calls-Ordered c o))
calls-Fewer raw (acquires w by name want out s t c other room fits) o =
    Fewer-then raw s t (acquire w by name want out t).2 (calls-Fewer raw c o)
      (acquire-Fewer raw by w name want out t other)
calls-Fewer raw (releases by lease s t c) o =
    Fewer-then raw s t (release by lease t).1 (calls-Fewer raw c o) (release-Fewer raw by lease t)
