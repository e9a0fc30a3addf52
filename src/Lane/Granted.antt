-- ===== src/Lane/Granted.antt =====
-- src/bridge/core/Lane.cpp: what `api_lane_acquire` hands out, and what it does to the tables.
use levilamina_rust_loader.Base.{
  ℕ, ◌≡◌, ◌≢◌, refl, String, true, not, ◌||◌, none, some, ◌∷◌, arith, leb, ◌==◌, nat_eq, string_eq,
  Option-cases, Bool-cases, inl, inr, if◌then◌else◌,
}
use levilamina_rust_loader.Base.Assoc.{find, find-put, emplace_fresh}
use levilamina_rust_loader.Base.Words.{inc64, inc32}
use levilamina_rust_loader.Base.Mods.{World, still_is}
use levilamina_rust_loader.Lane.Tables.{Lease, retains, call_retain, busy_ref_size, Lane, State}
use levilamina_rust_loader.Lane.Leases.{
  lane_ok, LaneRef, Acquired, acquire_named, acquire_lane, clear_ref, fill_ref, grant,
  provider_alive,
}

-- The field `busy`, which an `out` of an old consumer does not have.
abbrev pub busy_or : LaneRef → ℕ → ℕ
busy_or out cell = if leb busy_ref_size out.struct_size then cell else out.busy

-- What the tables are after a lease was granted to a consumer: it is entered under its number, the
-- lane counts it, the provider's `retain` was called once, and nothing else has changed.
abbrev pub Granted : ℕ → ℕ → Lane → State → State → Type 0
Granted consumer id lane s t =
    ((l : ℕ)
      → find l t.lease_table ≡ (
          if s.next_lease == l
          then some (record { holder = consumer; lane_id = id })
          else find l s.lease_table))
    × ((i : ℕ)
        → find i t.lanes
          ≡ (if id == i then some (record lane { leases = inc32 lane.leases }) else find i s.lanes))
    × (t.calls ≡ (if lane.desc.retain == 0 then s.calls else retains id ∷ s.calls))
    × (t.next_lease ≡ inc64 s.next_lease)
    × (record t {
      lease_table = s.lease_table;
      lanes = s.lanes;
      calls = s.calls;
      next_lease = s.next_lease;
    }
        ≡ s)

-- What an answer of `acquire` on an `out` gives.
abbrev pub Sound : World → ℕ → String → ℕ → LaneRef → State → Acquired → Type 0
Sound w consumer name want given s (lane_ok, out, t) =
    (id : ℕ) × (lane : Lane) × (find name s.by_name ≡ some id)
    × (find id s.lanes ≡ some lane)
    × (want ≢ 0)
    × (want ≡ lane.desc.fingerprint)
    × (lane.owner_mod ≢ consumer)
    × (still_is w lane.owner lane.owner_mod ≡ true)
    × (out.data_ptr ≡ lane.desc.data_ptr)
    × (out.vtable ≡ lane.desc.vtable)
    × (out.alive ≡ lane.alive)
    × (out.busy ≡ busy_or given lane.alive)
    × (out.fingerprint ≡ want)
    × (out.lease ≡ s.next_lease)
    × Granted consumer id lane s t
Sound w consumer name want given s (_, out, t) =
    (out.lease ≡ 0)
    × (out.data_ptr ≡ 0)
    × (out.vtable ≡ 0)
    × (out.alive ≡ 0)
    × (out.busy ≡ busy_or given 0)
    × (t ≡ s)

-- `out` as `acquire` clears it.
abbrev pub IsClear : LaneRef → LaneRef → Type 0
IsClear given out =
    (out.lease ≡ 0)
    × (out.data_ptr ≡ 0)
    × (out.vtable ≡ 0)
    × (out.alive ≡ 0)
    × (out.busy ≡ busy_or given 0)
    × (out.struct_size ≡ given.struct_size)

grant-Granted :
    (consumer id : ℕ) (lane : Lane) (out : LaneRef) (s : State)
    → find s.next_lease s.lease_table ≡ none
    → Granted consumer id lane s (grant consumer id lane out s).2
unfolding grant call_retain
grant-Granted consumer id lane out s fresh =
    let lease : Lease = record { holder = consumer; lane_id = id } in
    let entered = emplace_fresh s.next_lease lease s.lease_table fresh in
    let counted : Lane = record lane { leases = inc32 lane.leases } in
    elim (Bool-cases (lane.desc.retain == 0)) [
      | inl f ↦
          rw (grant, call_retain, f, entered)
            (
              λ l. find-put s.next_lease l lease s.lease_table,
              λ i. find-put id i counted s.lanes,
              refl,
              refl,
              refl,
            )
      | inr f ↦
          rw (grant, call_retain, f, entered)
            (
              λ l. find-put s.next_lease l lease s.lease_table,
              λ i. find-put id i counted s.lanes,
              refl,
              refl,
              refl,
            )
    ]

acquire_lane-Sound :
    (w : World) (consumer want id : ℕ) (name : String) (lane : Lane) (given out : LaneRef)
    (s : State)
    → IsClear given out
    → find s.next_lease s.lease_table ≡ none
    → find name s.by_name ≡ some id
    → find id s.lanes ≡ some lane
    → Sound w consumer name want given s (acquire_lane w consumer want id lane out s)
unfolding acquire_lane provider_alive
acquire_lane-Sound w consumer want id name lane given out s c fresh n l =
    elim (Bool-cases (lane.owner_mod == consumer)) [
      | inl e ↦ rw e (ground arith)
      | inr e ↦ elim (Bool-cases (provider_alive w lane)) [
        | inr f ↦ rw (e, f) (ground arith)
        | inl f ↦ elim (Bool-cases (want == 0 || not (want == lane.desc.fingerprint))) [
          | inl g ↦ rw (e, f, g) (ground arith)
          | inr g ↦
              rw (e, f, g)
                (unfold grant fill_ref in
                  (
                    id,
                    lane,
                    n,
                    l,
                    ground arith,
                    ground arith,
                    ground arith,
                    ground arith,
                    refl,
                    refl,
                    refl,
                    ground arith,
                    ground arith,
                    refl,
                    grant-Granted consumer id lane out s fresh,
                  ))
        ]
      ]
    ]

pub acquire_named-Sound :
    (w : World) (consumer : ℕ) (name : String) (want : ℕ) (given out : LaneRef) (s : State)
    → IsClear given out
    → find s.next_lease s.lease_table ≡ none
    → Sound w consumer name want given s (acquire_named w consumer name want out s)
unfolding acquire_named
acquire_named-Sound w consumer name want given out s c fresh =
    elim (Option-cases (find name s.by_name)) [
      | inl e ↦ rw (e, acquire_named) (ground arith)
      | inr (id, e) ↦ elim (Option-cases (find id s.lanes)) [
        | inl f ↦ rw (e, acquire_named, f) (ground arith)
        | inr (lane, f) ↦
            rw (e, acquire_named, f)
              (acquire_lane-Sound w consumer want id name lane given out s c fresh e f)
      ]
    ]

pub clear_ref-IsClear : (out : LaneRef) → IsClear out (clear_ref out)
unfolding clear_ref
clear_ref-IsClear out = (refl, refl, refl, refl, refl, refl)
