-- ===== src/Services/Invariant.antt =====
-- src/bridge/core/Services.cpp: the registry stays one-to-one, whatever is called.
use levilamina_rust_loader.Base.{
  ℕ, ◌+◌, ◌<◌, ◌^◌, ◌≡◌, refl, String, ◌||◌, Option, none, some, List, ◌==◌, nat_eq, string_eq,
  arith, Option-cases, Bool-cases, inl, inr,
}
use text.Mathlib.TextEquality.{eq_iff}
use levilamina_rust_loader.Base.Assoc.{
  find, erase, find-put, find-erase, put-IsMap, erase-IsMap, emplace_fresh, IsMap,
}
use levilamina_rust_loader.Base.Words.{inc64_lem}
use levilamina_rust_loader.Base.Mods.{World}
use levilamina_rust_loader.Services.Tables.{
  Service, State, init, touch, draw, enter_service, register_free, register, unregister, bad_name,
}

abbrev pub name_of : ℕ → List (ℕ × Service) → Option String
name_of id m = elim (find id m) [ none ↦ none | some svc ↦ some svc.name ]

-- Names and services are one-to-one, and no ticket was drawn twice.
pub record Good (s : State) : Type 0 where
  pub services_map : IsMap s.services
  pub names_map : IsMap s.by_name
  pub ticket : s.next_id ≡ s.issued + 1
  pub used : (id : ℕ) (svc : Service) → find id s.services ≡ some svc → id < s.next_id
  pub named :
      (id : ℕ) (svc : Service) → find id s.services ≡ some svc → find svc.name s.by_name ≡ some id
  pub indexed : (n : String) (id : ℕ) → find n s.by_name ≡ some id → name_of id s.services ≡ some n

-- The registry is as it should be unless 2^64 - 1 tickets have been drawn.
abbrev pub Inv : State → Type 0
Inv s = s.issued + 1 < 2 ^ 64 → Good s

pub init-Inv : (w : World) → Inv (init w)
unfolding init find
init-Inv w room = record {
  services_map = tt;
  names_map = tt;
  ticket = refl;
  used = λ id svc h. absurd (cc);
  named = λ id svc h. absurd (cc);
  indexed = λ n id h. absurd (cc);
}

draw-Good : (s : State) → Good s → s.issued + 2 < 2 ^ 64 → Good (draw s)
unfolding draw
draw-Good s g room = record {
  services_map = g.services_map;
  names_map = g.names_map;
  ticket = omega (arith, g.ticket, inc64_lem s.next_id);
  used = λ id svc h. omega (arith, g.ticket, inc64_lem s.next_id, g.used id svc h);
  named = g.named;
  indexed = g.indexed;
}

module _ (s : State) (g : Good s) (room : s.issued + 2 < 2 ^ 64) (svc : Service)
    (free : find svc.name s.by_name ≡ none) where
  pub id_free : find s.next_id s.services ≡ none
  id_free = elim (Option-cases (find s.next_id s.services)) [
    | inl e ↦ e
    | inr (x, e) ↦ absurd (omega (arith, g.used s.next_id x e))
  ]

  enter-Good : Good (enter_service s.next_id svc (draw s))
  unfolding enter_service draw
  enter-Good =
      rw
        (
          emplace_fresh s.next_id svc s.services id_free,
          emplace_fresh svc.name s.next_id s.by_name free,
        )
        (record {
          services_map = put-IsMap s.next_id svc s.services g.services_map;
          names_map = put-IsMap svc.name s.next_id s.by_name g.names_map;
          ticket = omega (arith, g.ticket, inc64_lem s.next_id);
          used = λ id x h. ground (
            arith,
            g.ticket,
            inc64_lem s.next_id,
            g.used id x,
            find-put s.next_id id svc s.services,
          );
          named = λ id x h. ground (
            arith,
            g.named id x,
            find-put s.next_id id svc s.services,
            find-put svc.name x.name s.next_id s.by_name,
            eq_iff svc.name x.name,
          );
          indexed = λ n id h. ground (
            arith,
            g.indexed n id,
            id_free,
            find-put s.next_id id svc s.services,
            find-put svc.name n s.next_id s.by_name,
            eq_iff svc.name n,
          );
        })

pub touch_present :
    (id : ℕ) (name : String) (s : State)
    → Good s
    → find name s.by_name ≡ some id
    → touch id s.services ≡ s.services
unfolding touch
touch_present id name s g h = ground (arith, g.indexed name id h)

register_free-Inv :
    (raw : ℕ) (name : String) (cb user : ℕ) (s : State)
    → Inv s
    → find name s.by_name ≡ none
    → Inv (register_free raw name cb user s).1
unfolding register_free
register_free-Inv raw name cb user s v free = elim (Option-cases (s.world.shared_from_this raw)) [
  | inl e ↦
      rw (e, register_free)
        (λ room. draw-Good s (v (unfold draw in omega arith)) (unfold draw in omega arith))
  | inr (owner, e) ↦
      rw (e, register_free)
        (λ room.
          enter-Good s (v (unfold draw enter_service in omega arith))
            (unfold draw enter_service in omega arith)
            (record { mod_ptr = raw; owner = owner; name = name; cb = cb; user = user }) free)
]

pub register-Inv :
    (raw : ℕ) (name : String) (cb user : ℕ) (s : State)
    → Inv s
    → Inv (register raw name cb user s).1
unfolding register
register-Inv raw name cb user s v = elim (Bool-cases (raw == 0 || cb == 0)) [
  | inl a ↦ rw a v
  | inr a ↦ elim (Bool-cases (bad_name name)) [
    | inl b ↦ rw (a, b) v
    | inr b ↦ elim (Option-cases (find name s.by_name)) [
      | inl c ↦ rw (a, b, c) (register_free-Inv raw name cb user s v c)
      | inr (id, c) ↦ rw (a, b, c) (λ room. rw (touch_present id name s (v room) c) (v room))
    ]
  ]
]

unregister-Good :
    (id : ℕ) (svc : Service) (s : State)
    → Good s
    → find id s.services ≡ some svc
    → Good (record s { by_name = erase svc.name s.by_name; services = erase id s.services })
unregister-Good id svc s g at = record {
  services_map = erase-IsMap id s.services g.services_map;
  names_map = erase-IsMap svc.name s.by_name g.names_map;
  ticket = g.ticket;
  used = λ i x h. ground (arith, g.used i x, find-erase id i s.services);
  named = λ i x h. ground (
    arith,
    g.named i x,
    g.named id svc at,
    find-erase id i s.services,
    find-erase svc.name x.name s.by_name,
    eq_iff svc.name x.name,
  );
  indexed = λ n i h. ground (
    arith,
    g.indexed n i,
    find-erase id i s.services,
    find-erase svc.name n s.by_name,
    eq_iff svc.name n,
  );
}

pub unregister-Inv : (raw id : ℕ) (s : State) → Inv s → Inv (unregister raw id s).1
unfolding unregister
unregister-Inv raw id s v = elim (Bool-cases (raw == 0 || id == 0)) [
  | inl a ↦ rw a v
  | inr a ↦ elim (Option-cases (find id s.services)) [
    | inl b ↦ rw (a, b) v
    | inr (svc, b) ↦ elim (Bool-cases (svc.mod_ptr == raw)) [
      | inr c ↦ rw (a, b, c) v
      | inl c ↦ rw (a, b, c) (λ room. unregister-Good id svc s (v room) b)
    ]
  ]
]
