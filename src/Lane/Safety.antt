-- ===== src/Lane/Safety.antt =====
-- src/bridge/core/Lane.cpp: what a consumer and a provider can rely on.
use levilamina_rust_loader.Base.{
  ℕ, ◌+◌, ◌<◌, ◌≤◌, ◌^◌, ◌≡◌, refl, String, true, false, none, some, arith, ◌==◌, nat_eq, string_eq,
  Option-cases, Bool-cases, inl, inr, eq_self, length, ◌⊎◌, if◌then◌else◌, ltb,
}
use mathlib.Core.Path.{subst}
use levilamina_rust_loader.Base.Assoc.{find, find-put, find-erase, count_values-erase_if_self}
use levilamina_rust_loader.Base.Mods.{World}
use levilamina_rust_loader.Lane.Tables.{
  LaneDesc, AliveCell, State, retire_lane, unlink, on_lane, min_ref_size,
}
use levilamina_rust_loader.Lane.Publish.{
  publish, unpublish, publish_checked, enter_lane, desc_ok, bad_name, owner_of,
}
use levilamina_rust_loader.Lane.Leases.{LaneRef, acquire, clear_ref, release, give_back}
use levilamina_rust_loader.Lane.Invariant.{Inv, flag_of, retain_count, release_count, lease_count}
use levilamina_rust_loader.Lane.Keeps.Enter.{enter-eq}
use levilamina_rust_loader.Lane.Calls.{Calls}
use levilamina_rust_loader.Lane.Stays.{stays_down}
use levilamina_rust_loader.Lane.Keeps.Gone.{Ordered}
use levilamina_rust_loader.Lane.Keeps.Retire.{
  retire-eq, flag_of-unlink, retired_calls, lanes_left, retired_state, retire_lane-Inv,
  length-retire,
}
use levilamina_rust_loader.Lane.Granted.{Sound, acquire_named-Sound, clear_ref-IsClear}

-- On an `out` that is large enough to be written to, where the next lease number is not in use:
-- `acquire` hands out pointers only together with a lease, on the lane of that name, with a
-- fingerprint that was asked for and is not 0, from a provider that is alive and is not the consumer.
-- Then the lease is entered for the consumer, the lane counts it, the provider's `retain` is called, if
-- it has one, and before what that calls nothing else has changed. Any other answer has no pointer and
-- no lease in `out` and changes nothing. The field `busy` is written exactly if `out` is large enough to have it.
pub acquire-Sound :
    (w : World) (consumer : ℕ) (name : String) (want : ℕ) (out : LaneRef) (s : State)
    → min_ref_size ≤ out.struct_size
    → find s.next_lease s.lease_table ≡ none
    → Sound w consumer name want out s (acquire w consumer name want out s)
unfolding acquire
acquire-Sound w consumer name want out s big fresh =
    let clear = clear_ref-IsClear out in
    let small : ltb out.struct_size min_ref_size ≡ false = ground arith in
    elim (Bool-cases (consumer == 0)) [
      | inl e ↦ rw (small, e) (clear.0, clear.1, clear.2, clear.3, clear.4, refl)
      | inr e ↦ elim (Bool-cases (bad_name name)) [
        | inl f ↦ rw (small, e, f) (clear.0, clear.1, clear.2, clear.3, clear.4, refl)
        | inr f ↦
            rw (small, e, f)
              (acquire_named-Sound w consumer name want out (clear_ref out) s clear fresh)
      ]
    ]

-- A lease is given back once: the second call answers false and changes nothing, so `release` does
-- not run twice for it.
pub release_once :
    (consumer lease other : ℕ) (s t : State)
    → release consumer lease s ≡ (true, t)
    → release other lease t ≡ (false, t)
unfolding release give_back
release_once consumer lease other s t h =
    ground (arith, find-erase lease lease s.lease_table, eq_self lease)

-- What a publication that took place is: of a well-formed descriptor, under a name that was free,
-- as a new lane with its flag up; no other name is touched.
abbrev pub Published : String → LaneDesc → State → ℕ × State → Type 0
Published name d s (id, t) =
    (desc_ok d ≡ true)
    × (find name s.by_name ≡ none)
    × (id ≡ s.next_lane)
    × (flag_of id t ≡ 1)
    × ((n : String) → find n t.by_name ≡ (if name == n then some id else find n s.by_name))

publish_checked-cases :
    (w : World) (raw : ℕ) (name : String) (d : LaneDesc) (s : State)
    → Inv s
    → s.next_lane + 1 < 2 ^ 64
    → (publish_checked w raw name d s ≡ (0, s))
      ⊎ Published name d s (publish_checked w raw name d s)
unfolding publish_checked
publish_checked-cases w raw name d s v room = elim (Bool-cases (desc_ok d)) [
  | inr e ↦ rw e (inl refl)
  | inl e ↦ elim (Bool-cases (bad_name name)) [
    | inl f ↦ rw (e, f) (inl refl)
    | inr f ↦ elim (Option-cases (owner_of w raw)) [
      | inl g ↦ rw (e, f, g) (inl refl)
      | inr (owner, g) ↦ elim (Option-cases (find name s.by_name)) [
        | inr (held, k) ↦ rw (e, f, g) (rw (k, enter_lane) (inl refl))
        | inl k ↦
            rw (e, f, g, enter-eq raw owner name d s v room k)
              (inr (
                refl,
                k,
                refl,
                ground (
                  arith,
                  find-put {V = AliveCell} s.next_lane s.next_lane (record { flag = 1; busy = 0 })
                      s.cells,
                ),
                λ n. find-put name n s.next_lane s.by_name,
              ))
      ]
    ]
  ]
]

-- In tables that are in order, while the lane counter does not wrap: `publish` either answers 0
-- and changes nothing, or takes a name that nobody held, for a well-formed descriptor, and raises
-- the flag of the new lane; so a name has one publisher at a time, and no other name is touched.
pub publish-Published :
    (w : World) (raw : ℕ) (name : String) (d : LaneDesc) (s : State)
    → Inv s
    → s.next_lane + 1 < 2 ^ 64
    → (publish w raw name (some d) s ≡ (0, s)) ⊎ Published name d s (publish w raw name (some d) s)
unfolding publish
publish-Published w raw name d s v room = elim (Bool-cases (raw == 0)) [
  | inl e ↦ rw e (inl refl)
  | inr e ↦ rw e (publish_checked-cases w raw name d s v room)
]

-- Taking a lane down, in tables that are in order and while fewer than 2^32 leases are out: then
-- the lane and every lease on it are gone, all its references have been released once, its flag is
-- down, and the flags of the other lanes are as they were when the provider's `release` is called.
-- Whatever `release`, or anyone later, then calls of the lanes, also to take down others, this lane is
-- not there again and its flag stays down.
pub unpublish_effect :
    (raw id : ℕ) (s t : State)
    → Inv s
    → length s.lease_table < 2 ^ 32
    → unpublish raw id s ≡ (true, t)
    → (find id t.lanes ≡ none)
      × (lease_count id t ≡ 0)
      × (release_count id t ≡ retain_count id t + 1)
      × ((i : ℕ) → flag_of i t ≡ (if i == id then 0 else flag_of i s))
      × ((u : State) → Calls (λ _. Unit) t u → (find id u.lanes ≡ none) × (flag_of id u ≡ 0))
unfolding unpublish
unpublish_effect raw id s t v few h = elim (Option-cases (find id s.lanes)) [
  | inl e ↦ absurd (ground arith)
  | inr (lane, e) ↦
      let eq : t ≡ retire_lane id s = ground arith in
      let own = v.live id lane e in
      rw (eq, retire-eq id lane s v e few)
        (
          ground (arith, lanes_left id lane s v e few id),
          unfold unlink in count_values-erase_if_self (on_lane id) s.lease_table,
          ground (arith, retired_calls id lane s v e few id, own),
          λ i. ground (arith, flag_of-unlink id lane s v e few i),
          λ u c.
              stays_down id (retired_state id lane s v e few) u
                (subst Ordered (retire-eq id lane s v e few)
                  (retire_lane-Inv id s v few, omega (arith, length-retire id s v few, few)))
                own.positive
                (unfold unlink in own.used, ground (arith, lanes_left id lane s v e few id)) c,
        )
]
