-- ===== src/Bus/Invariant.antt =====
-- src/bridge/core/Bus.cpp: the index by topic lists exactly the tickets of the table.
use levilamina_rust_loader.Base.{
  ℕ, ◌+◌, ◌<◌, ◌^◌, ◌≡◌, ◌≢◌, refl, String, Bool, true, false, ◌||◌, Option, none, some, List, [],
  ◌∷◌, ◌++◌, if◌then◌else◌, ◌==◌, nat_eq, string_eq, arith, Option-cases, Bool-cases, inl, inr,
  count, count-append,
}
use text.Mathlib.TextEquality.{eq_iff}
use levilamina_rust_loader.Base.Assoc.{
  find, put, erase, find-put, find-erase, put-IsMap, erase-IsMap, IsMap,
}
use levilamina_rust_loader.Base.Words.{inc64_lem}
use levilamina_rust_loader.Base.Mods.{World}
use levilamina_rust_loader.Bus.Tables.{
  Subscription, State, init, ids_of, bad_topic, subscribe, remove, is_empty, unlist, unsubscribe,
}

-- How often a list holds a ticket.
abbrev pub times : ℕ → List ℕ → ℕ
times id ids = count (λ j. j == id) ids

abbrev pub in_topic : String → Option Subscription → Bool
in_topic topic none = false
in_topic topic (some sub) = sub.topic == topic

-- The index lists each subscription once, under its topic and no other, and keeps no empty topic;
-- no ticket was drawn twice.
pub record Good (s : State) : Type 0 where
  pub subs_map : IsMap s.subs
  pub index_map : IsMap s.by_topic
  pub ticket : s.next_id ≡ s.issued + 1
  pub used : (id : ℕ) (sub : Subscription) → find id s.subs ≡ some sub → id < s.next_id
  pub indexed :
      (topic : String) (id : ℕ)
      → times id (ids_of topic s.by_topic) ≡ (if in_topic topic (find id s.subs) then 1 else 0)
  pub nonempty : (topic : String) → find topic s.by_topic ≢ some []

-- The tables are as they should be unless 2^64 - 1 tickets have been drawn.
abbrev pub Inv : State → Type 0
Inv s = s.issued + 1 < 2 ^ 64 → Good s

pub init-Inv : (w : World) → Inv (init w)
unfolding init find ids_of
init-Inv w room = record {
  subs_map = tt;
  index_map = tt;
  ticket = refl;
  used = λ id sub h. absurd (cc);
  indexed = λ topic id. refl;
  nonempty = λ topic h. absurd (cc);
}

ids_of-put :
    (t n : String) (ids : List ℕ) (m : List (String × List ℕ))
    → ids_of n (put t ids m) ≡ (if t == n then ids else ids_of n m)
unfolding ids_of
ids_of-put t n ids m = ground (arith, find-put t n ids m)

pub times-remove :
    (id j : ℕ) (ids : List ℕ) → times j (remove id ids) ≡ (if id == j then 0 else times j ids)
unfolding remove
times-remove id j [] = ground arith
times-remove id j (i ∷ ids) = ground (arith, times-remove id j ids)

empty_nil : (ids : List ℕ) → is_empty ids ≡ true → ids ≡ []
empty_nil [] h = refl
empty_nil (i ∷ ids) h = absurd (cc)

pub ids_of-unlist :
    (t n : String) (id : ℕ) (m : List (String × List ℕ))
    → ids_of n (unlist t id m) ≡ (if t == n then remove id (ids_of n m) else ids_of n m)
unfolding ids_of unlist
ids_of-unlist t n id m = elim (Option-cases (find t m)) [
  | inl e ↦ rw (e, unlist) (unfold remove in ground (arith, eq_iff t n))
  | inr (ids, e) ↦ elim (Bool-cases (is_empty (remove id ids))) [
    | inl f ↦
        rw (e, f, unlist)
          (ground (arith, find-erase t n m, eq_iff t n, empty_nil (remove id ids) f))
    | inr f ↦ rw (e, f, unlist) (ground (arith, find-put t n (remove id ids) m, eq_iff t n))
  ]
]

pub unlist-IsMap :
    (t : String) (id : ℕ) (m : List (String × List ℕ)) → IsMap m → IsMap (unlist t id m)
unfolding unlist
unlist-IsMap t id m u = elim (Option-cases (find t m)) [
  | inl e ↦ rw (e, unlist) u
  | inr (ids, e) ↦ elim (Bool-cases (is_empty (remove id ids))) [
    | inl f ↦ rw (e, f, unlist) (erase-IsMap t m u)
    | inr f ↦ rw (e, f, unlist) (put-IsMap t (remove id ids) m u)
  ]
]

pub unlist_nonempty :
    (t n : String) (id : ℕ) (m : List (String × List ℕ))
    → find n m ≢ some []
    → find n (unlist t id m) ≢ some []
unfolding unlist
unlist_nonempty t n id m u = elim (Option-cases (find t m)) [
  | inl e ↦ rw (e, unlist) u
  | inr (ids, e) ↦ elim (Bool-cases (is_empty (remove id ids))) [
    | inl f ↦ rw (e, f, unlist) (ground (arith, find-erase t n m))
    | inr f ↦ rw (e, f, unlist) (ground (arith, find-put t n (remove id ids) m))
  ]
]

not-nil : (ids : List ℕ) (id : ℕ) → some (ids ++ id ∷ []) ≢ some []
not-nil [] id = λ h. absurd (cc)
not-nil (i ∷ ids) id = λ h. absurd (cc)

module _ (s : State) (g : Good s) (room : s.issued + 2 < 2 ^ 64) (sub : Subscription) where
  abbrev entered : State
  entered = record s {
    subs = put s.next_id sub s.subs;
    by_topic = put sub.topic (ids_of sub.topic s.by_topic ++ s.next_id ∷ []) s.by_topic;
    next_id = s.next_id + 1;
    issued = s.issued + 1;
  }

  ticket_free : find s.next_id s.subs ≡ none
  ticket_free = elim (Option-cases (find s.next_id s.subs)) [
    | inl e ↦ e
    | inr (x, e) ↦ absurd (omega (arith, g.used s.next_id x e))
  ]

  entered-Good : Good entered
  entered-Good = record {
    subs_map = put-IsMap s.next_id sub s.subs g.subs_map;
    index_map =
        put-IsMap sub.topic (ids_of sub.topic s.by_topic ++ s.next_id ∷ []) s.by_topic g.index_map;
    ticket = omega (arith, g.ticket);
    used = λ id x h. ground (arith, g.used id x, find-put s.next_id id sub s.subs);
    indexed = λ n id. ground (
      arith,
      g.indexed n id,
      g.indexed sub.topic id,
      ticket_free,
      find-put s.next_id id sub s.subs,
      ids_of-put sub.topic n (ids_of sub.topic s.by_topic ++ s.next_id ∷ []) s.by_topic,
      count-append (λ j. j == id) (ids_of sub.topic s.by_topic) (s.next_id ∷ []),
      eq_iff sub.topic n,
    );
    nonempty = λ n. ground (
      arith,
      g.nonempty n,
      not-nil (ids_of sub.topic s.by_topic) s.next_id,
      find-put sub.topic n (ids_of sub.topic s.by_topic ++ s.next_id ∷ []) s.by_topic,
    );
  }

pub subscribe-Inv :
    (raw : ℕ) (topic : String) (cb user : ℕ) (s : State)
    → Inv s
    → Inv (subscribe raw topic cb user s).1
unfolding subscribe
subscribe-Inv raw topic cb user s v = elim (Bool-cases (cb == 0 || raw == 0)) [
  | inl a ↦ rw a v
  | inr a ↦ elim (Bool-cases (bad_topic topic)) [
    | inl b ↦ rw (a, b) v
    | inr b ↦ elim (Option-cases (s.world.shared_from_this raw)) [
      | inl c ↦ rw (a, b, c) v
      | inr (owner, c) ↦
          rw (a, b, c)
            (λ room.
              let g = v (omega arith) in
              rw (inc64_lem s.next_id (omega (arith, g.ticket))) (
                entered-Good s g (omega arith)
                  (record { mod_ptr = raw; topic = topic; cb = cb; user = user })))
    ]
  ]
]

unsubscribe-Good :
    (id : ℕ) (sub : Subscription) (s : State)
    → Good s
    → find id s.subs ≡ some sub
    → Good (record s { subs = erase id s.subs; by_topic = unlist sub.topic id s.by_topic })
unsubscribe-Good id sub s g at = record {
  subs_map = erase-IsMap id s.subs g.subs_map;
  index_map = unlist-IsMap sub.topic id s.by_topic g.index_map;
  ticket = g.ticket;
  used = λ i x h. ground (arith, g.used i x, find-erase id i s.subs);
  indexed = λ n i. ground (
    arith,
    g.indexed n i,
    at,
    find-erase id i s.subs,
    ids_of-unlist sub.topic n id s.by_topic,
    times-remove id i (ids_of n s.by_topic),
    eq_iff sub.topic n,
  );
  nonempty = λ n. unlist_nonempty sub.topic n id s.by_topic (g.nonempty n);
}

pub unsubscribe-Inv : (raw id : ℕ) (s : State) → Inv s → Inv (unsubscribe raw id s).1
unfolding unsubscribe
unsubscribe-Inv raw id s v = elim (Bool-cases (raw == 0 || id == 0)) [
  | inl a ↦ rw a v
  | inr a ↦ elim (Option-cases (find id s.subs)) [
    | inl b ↦ rw (a, b) v
    | inr (sub, b) ↦ elim (Bool-cases (sub.mod_ptr == raw)) [
      | inr c ↦ rw (a, b, c) v
      | inl c ↦ rw (a, b, c) (λ room. unsubscribe-Good id sub s (v room) b)
    ]
  ]
]
