-- ===== src/Services/Names.antt =====
-- src/bridge/core/Services.cpp: a name has one provider, and only it takes the name away.
use levilamina_rust_loader.Base.{
  ℕ, ◌+◌, ◌<◌, ◌^◌, ◌≡◌, ◌≢◌, refl, String, true, false, ◌||◌, Option, none, some, if◌then◌else◌,
  ◌==◌, nat_eq, string_eq, arith, Option-cases, Bool-cases, inl, inr, ◌⊎◌,
}
use text.Mathlib.TextEquality.{eq_iff}
use levilamina_rust_loader.Base.Assoc.{find, find-put, find-erase, emplace_fresh}
use levilamina_rust_loader.Services.Tables.{
  Service, State, bad_name, register, register_free, draw, enter_service, unregister,
}
use levilamina_rust_loader.Services.Call.{lookup_service}
use levilamina_rust_loader.Services.Invariant.{Good, touch_present, id_free}

-- A registration that took place: the name was free, it now leads to the caller's callback under a
-- new ticket, and no other name is touched.
abbrev pub Registered : ℕ → String → ℕ → ℕ → State → ℕ × State → Type 0
Registered raw name cb user s (id, t) =
    (owner : ℕ) × (s.world.shared_from_this raw ≡ some owner)
    × (find name s.by_name ≡ none)
    × (id ≡ s.next_id)
    × (lookup_service name t
        ≡ some (record { mod_ptr = raw; owner = owner; name = name; cb = cb; user = user }))
    × ((n : String) → find n t.by_name ≡ (if name == n then some id else find n s.by_name))

register_free-cases :
    (raw : ℕ) (name : String) (cb user : ℕ) (s : State)
    → Good s
    → s.issued + 2 < 2 ^ 64
    → find name s.by_name ≡ none
    → (((register_free raw name cb user s).0 ≡ 0) × ((register_free raw name cb user s).1 ≡ draw s))
      ⊎ Registered raw name cb user s (register_free raw name cb user s)
unfolding register_free lookup_service
register_free-cases raw name cb user s g room free =
    elim (Option-cases (s.world.shared_from_this raw)) [
      | inl e ↦ rw (e, register_free) (inl (refl, refl))
      | inr (owner, e) ↦
          let svc : Service = record {
            mod_ptr = raw;
            owner = owner;
            name = name;
            cb = cb;
            user = user;
          } in
          rw (e, register_free)
            (inr (
              owner,
              refl,
              free,
              refl,
              unfold enter_service draw in
                  rw
                    (
                      emplace_fresh s.next_id svc s.services (id_free s g room svc free),
                      emplace_fresh name s.next_id s.by_name free,
                    )
                    (ground (
                      arith,
                      find-put s.next_id s.next_id svc s.services,
                      find-put name name s.next_id s.by_name,
                      eq_iff name name,
                    )),
              λ n.
                  unfold enter_service draw in
                  rw (emplace_fresh name s.next_id s.by_name free)
                    (find-put name n s.next_id s.by_name),
            ))
    ]

-- In a registry that is in order, while fewer than 2^64 - 2 tickets were drawn: `service_register`
-- answers 0 and changes no name and no service, or registers the caller under a name that was
-- free.
pub register-Registered :
    (raw : ℕ) (name : String) (cb user : ℕ) (s : State)
    → Good s
    → s.issued + 2 < 2 ^ 64
    → (((register raw name cb user s).0 ≡ 0)
        × ((register raw name cb user s).1.by_name ≡ s.by_name)
        × ((register raw name cb user s).1.services ≡ s.services))
      ⊎ Registered raw name cb user s (register raw name cb user s)
unfolding register
register-Registered raw name cb user s g room = elim (Bool-cases (raw == 0 || cb == 0)) [
  | inl a ↦ rw a (inl (refl, refl, refl))
  | inr a ↦ elim (Bool-cases (bad_name name)) [
    | inl b ↦ rw (a, b) (inl (refl, refl, refl))
    | inr b ↦ elim (Option-cases (find name s.by_name)) [
      | inr (id, c) ↦ rw (a, b, c) (inl (refl, refl, touch_present id name s g c))
      | inl c ↦
          rw (a, b, c)
            (elim (register_free-cases raw name cb user s g room c) [
              | inl (z, e) ↦ unfold draw in inl (z, ground arith, ground arith)
              | inr r ↦ inr (rw c at r)
            ])
    ]
  ]
]

-- The mod that provides a service, if it is there.
abbrev pub provider_of : ℕ → State → Option ℕ
provider_of id s = elim (find id s.services) [ none ↦ none | some svc ↦ some svc.mod_ptr ]

-- In a registry that is in order, for a handle and a ticket that are not null:
-- `service_unregister` answers true exactly for the provider of a service that is there, and then
-- the name leads nowhere; else nothing changes.
pub unregister-cases :
    (raw id : ℕ) (s : State)
    → Good s
    → raw ≢ 0
    → id ≢ 0
    → ((svc : Service) × (find id s.services ≡ some svc)
        × (svc.mod_ptr ≡ raw)
        × ((unregister raw id s).0 ≡ true)
        × (lookup_service svc.name (unregister raw id s).1 ≡ none))
      ⊎ ((unregister raw id s ≡ (false, s)) × (provider_of id s ≢ some raw))
unfolding unregister lookup_service
unregister-cases raw id s g nr ni =
    let a : (raw == 0 || id == 0) ≡ false = ground arith in
    elim (Option-cases (find id s.services)) [
      | inl b ↦ rw (a, b) (inr (refl, λ h. absurd (cc)))
      | inr (svc, b) ↦ elim (Bool-cases (svc.mod_ptr == raw)) [
        | inr c ↦ rw (a, b, c) (inr (refl, λ h. ground arith))
        | inl c ↦
            rw (a, b, c)
              (inl (
                svc,
                refl,
                ground arith,
                refl,
                ground (arith, find-erase svc.name svc.name s.by_name, eq_iff svc.name svc.name),
              ))
      ]
    ]
