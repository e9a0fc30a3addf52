-- ===== src/Services/Sweep.antt =====
-- src/bridge/core/Services.cpp: `servicesOnRustModGone` takes out exactly what the mod provided.
use levilamina_rust_loader.Base.{
  ℕ, ◌≡◌, ◌≢◌, refl, String, Bool, true, false, none, some, List, [], ◌∷◌, if◌then◌else◌, ◌==◌,
  nat_eq, string_eq, arith, Option-cases, Bool-cases, inl, inr, eq_self,
}
use text.Mathlib.TextEquality.{eq_iff}
use levilamina_rust_loader.Base.Assoc.{
  find, erase, find-erase, erase-IsMap, IsMap, keep_unless, count_values, count_values_zero,
}
use levilamina_rust_loader.Services.Tables.{Service, State, sweep, on_rust_mod_gone}
use levilamina_rust_loader.Services.Invariant.{Good, Inv}

abbrev pub provided_by : ℕ → Service → Bool
provided_by raw svc = svc.mod_ptr == raw

-- Whether a service among these is of the mod and has the name.
swept : ℕ → String → List (ℕ × Service) → Bool
swept raw n [] = false
swept raw n ((id, svc) ∷ rest) =
    let later = swept raw n rest in
    if svc.mod_ptr == raw then (if svc.name == n then true else later) else later

find-sweep :
    (raw : ℕ) (l : List (ℕ × Service)) (names : List (String × ℕ)) (id : ℕ)
    → IsMap l
    → find id (sweep raw l names).0 ≡ keep_unless (provided_by raw) (find id l)
unfolding sweep find
find-sweep raw [] names id u = refl
find-sweep raw ((i, svc) ∷ rest) names id u =
    ground (
      arith,
      find-sweep raw rest (if svc.mod_ptr == raw then erase svc.name names else names) id u.1,
    )

sweep-IsMap :
    (raw : ℕ) (l : List (ℕ × Service)) (names : List (String × ℕ))
    → IsMap l
    → IsMap (sweep raw l names).0
unfolding sweep find
sweep-IsMap raw [] names u = tt
sweep-IsMap raw ((i, svc) ∷ rest) names u = ground (
  arith,
  find-sweep raw rest (if svc.mod_ptr == raw then erase svc.name names else names) i u.1,
  sweep-IsMap raw rest (if svc.mod_ptr == raw then erase svc.name names else names) u.1,
)

names-IsMap :
    (raw : ℕ) (l : List (ℕ × Service)) (names : List (String × ℕ))
    → IsMap names
    → IsMap (sweep raw l names).1
unfolding sweep
names-IsMap raw [] names u = u
names-IsMap raw ((i, svc) ∷ rest) names u = ground (
  arith,
  names-IsMap raw rest (if svc.mod_ptr == raw then erase svc.name names else names),
  erase-IsMap svc.name names u,
)

names-sweep :
    (raw : ℕ) (l : List (ℕ × Service)) (names : List (String × ℕ)) (n : String)
    → find n (sweep raw l names).1 ≡ (if swept raw n l then none else find n names)
unfolding sweep swept
names-sweep raw [] names n = refl
names-sweep raw ((i, svc) ∷ rest) names n = ground (
  arith,
  names-sweep raw rest (if svc.mod_ptr == raw then erase svc.name names else names) n,
  find-erase svc.name n names,
)

swept-true :
    (raw : ℕ) (n : String) (l : List (ℕ × Service)) (id : ℕ) (svc : Service)
    → find id l ≡ some svc
    → svc.mod_ptr ≡ raw
    → svc.name ≡ n
    → swept raw n l ≡ true
unfolding find swept
swept-true raw n [] id svc h a b = cc
swept-true raw n ((i, x) ∷ rest) id svc h a b =
    ground (arith, swept-true raw n rest id svc, eq_iff x.name n)

swept-witness :
    (raw : ℕ) (n : String) (l : List (ℕ × Service))
    → IsMap l
    → swept raw n l ≡ true
    → (id : ℕ) × (svc : Service) × (find id l ≡ some svc) × (svc.mod_ptr ≡ raw) × (svc.name ≡ n)
unfolding find swept
swept-witness raw n [] u h = absurd (cc)
swept-witness raw n ((i, x) ∷ rest) u h = elim (Bool-cases (x.mod_ptr == raw)) [
  | inl a ↦ elim (Bool-cases (x.name == n)) [
    | inl b ↦ (i, x, ground (arith, eq_self i), ground arith, (eq_iff x.name n).0 b)
    | inr b ↦
        let w = swept-witness raw n rest u.1 (ground arith) in
        (w.0, w.1, ground (arith, u.0), w.3, w.4)
  ]
  | inr a ↦
      let w = swept-witness raw n rest u.1 (ground arith) in
      (w.0, w.1, ground (arith, u.0), w.3, w.4)
]

module _ (raw : ℕ) (s : State) (g : Good s) where
  gone_names :
      (n : String) (id : ℕ) (svc : Service)
      → find id s.services ≡ some svc
      → svc.name ≡ n
      → swept raw n s.services ≡ provided_by raw svc
  gone_names n id svc f e = elim (Bool-cases (swept raw n s.services)) [
    | inl t ↦
        let w = swept-witness raw n s.services g.services_map t in
        ground (arith, g.named id svc f, g.named w.0 w.1 w.2)
    | inr t ↦ ground (arith, swept-true raw n s.services id svc f)
  ]

  abbrev swept_state : State
  swept_state = record s {
    services = (sweep raw s.services s.by_name).0;
    by_name = (sweep raw s.services s.by_name).1;
  }

  swept-Good : Good swept_state
  swept-Good = record {
    services_map = sweep-IsMap raw s.services s.by_name g.services_map;
    names_map = names-IsMap raw s.services s.by_name g.names_map;
    ticket = g.ticket;
    used =
        λ i x h. ground (arith, g.used i x, find-sweep raw s.services s.by_name i g.services_map);
    named = λ i x h. ground (
      arith,
      g.named i x,
      find-sweep raw s.services s.by_name i g.services_map,
      names-sweep raw s.services s.by_name x.name,
      gone_names x.name i x,
    );
    indexed = λ n i h. elim (Option-cases (find i s.services)) [
      | inl e ↦ ground (arith, g.indexed n i, names-sweep raw s.services s.by_name n)
      | inr (x, e) ↦ ground (
        arith,
        g.indexed n i,
        find-sweep raw s.services s.by_name i g.services_map,
        names-sweep raw s.services s.by_name n,
        gone_names n i x,
      )
    ];
  }

pub gone-Inv : (raw : ℕ) (s : State) → Inv s → Inv (on_rust_mod_gone raw s)
unfolding on_rust_mod_gone
gone-Inv raw s v = elim (Bool-cases (raw == 0)) [
  | inl e ↦ rw e v
  | inr e ↦ rw e (λ room. swept-Good raw s (v room))
]

-- When a mod, which is not null, goes from a registry that is in order: a service that it provided
-- is taken out and its name leads nowhere; any other stays, and its name leads to it.
pub gone_effect :
    (raw id : ℕ) (svc : Service) (s : State)
    → Good s
    → raw ≢ 0
    → find id s.services ≡ some svc
    → (find id (on_rust_mod_gone raw s).services ≡ (if svc.mod_ptr == raw then none else some svc))
      × (find svc.name (on_rust_mod_gone raw s).by_name
          ≡ (if svc.mod_ptr == raw then none else some id))
unfolding on_rust_mod_gone
gone_effect raw id svc s g nz h =
    let no : (raw == 0) ≡ false = ground arith in
    rw no (
      rw (find-sweep raw s.services s.by_name id g.services_map, h) refl,
      ground (
        arith,
        g.named id svc h,
        names-sweep raw s.services s.by_name svc.name,
        gone_names raw s g svc.name id svc h,
      ),
    )

pub gone_services :
    (raw : ℕ) (s : State)
    → Good s
    → raw ≢ 0
    → count_values (provided_by raw) (on_rust_mod_gone raw s).services ≡ 0
unfolding on_rust_mod_gone
gone_services raw s g nz =
    let no : (raw == 0) ≡ false = ground arith in
    rw no (
      count_values_zero (provided_by raw) (sweep raw s.services s.by_name).0
        (sweep-IsMap raw s.services s.by_name g.services_map)
        (λ id svc h. ground (arith, h, find-sweep raw s.services s.by_name id g.services_map)))
