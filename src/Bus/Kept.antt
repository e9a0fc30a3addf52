-- ===== src/Bus/Kept.antt =====
-- src/bridge/core/Bus.cpp: what every step keeps, whoever takes it: the tables stay in order, an old
-- ticket keeps its subscription or loses it, and only live subscribers of others hear a publish.
use levilamina_rust_loader.Base.{
  ℕ, ◌+◌, ◌≤◌, ◌<◌, ◌^◌, ◌≡◌, ◌≢◌, refl, String, true, some, List, [], ◌∷◌, ◌==◌, nat_eq, string_eq,
  arith, Option-cases, Bool-cases, inl, inr, All,
}
use text.Mathlib.TextEquality.{eq_iff}
use levilamina_rust_loader.Base.Assoc.{find, find-put, find-erase}
use levilamina_rust_loader.Base.Words.{inc64_lem}
use levilamina_rust_loader.Bus.Tables.{
  Subscription, State, Heard, ids_of, subscribe, unsubscribe, on_rust_mod_gone,
}
use levilamina_rust_loader.Bus.Publish.{warn_depth_once, others, ids_for, is_live, hear}
use levilamina_rust_loader.Bus.Invariant.{
  times, in_topic, Good, Inv, subscribe-Inv, unsubscribe-Inv,
}
use levilamina_rust_loader.Bus.Gone.{gone-Inv, find-gone}

-- A call that was in order: the subscription was in the table, was live, has the topic that was
-- published, and is another mod's.
pub record IsFair (h : Heard) : Type 0 where
  pub present : find h.id h.table ≡ some h.entry
  pub live : is_live h.host h.entry ≡ true
  pub on_topic : h.entry.topic ≡ h.about
  pub not_own : h.entry.mod_ptr ≢ h.publisher

pub record Later (s t : State) : Type 0 where
  pub next_le : s.next_id ≤ t.next_id
  pub older :
      (id : ℕ) (sub : Subscription)
      → id < s.next_id
      → find id t.subs ≡ some sub
      → find id s.subs ≡ some sub
  pub fair : All IsFair s.heard → All IsFair t.heard

pub record Kept (s t : State) : Type 0 where
  pub issued_le : s.issued ≤ t.issued
  pub inv : Inv s → Inv t
  pub later : t.issued + 1 < 2 ^ 64 → Good s → Later s t

pub Kept-chain : (s t u : State) → Kept s t → Kept t u → Kept s u
Kept-chain s t u a b = record {
  issued_le = omega (arith, a.issued_le, b.issued_le);
  inv = λ v. b.inv (a.inv v);
  later = λ room g.
      let room' : t.issued + 1 < 2 ^ 64 = omega (arith, b.issued_le) in
      let first = a.later room' g in
      let second = b.later room (a.inv (λ _. g) room') in
      record {
        next_le = omega (arith, first.next_le, second.next_le);
        older = λ id sub low h.
            first.older id sub low (second.older id sub (omega (arith, first.next_le)) h);
        fair = λ f. second.fair (first.fair f);
      };
}

-- The tables do not look at fields that they do not keep.
Inv-same :
    (s t : State)
    → s.subs ≡ t.subs
    → s.by_topic ≡ t.by_topic
    → s.next_id ≡ t.next_id
    → s.issued ≡ t.issued
    → Inv s
    → Inv t
Inv-same s t a b c d v room =
    let g = v (omega arith) in
    record {
      subs_map = rw (← a) g.subs_map;
      index_map = rw (← b) g.index_map;
      ticket = ground (arith, g.ticket);
      used = λ id sub h. ground (arith, g.used id sub);
      indexed = λ n id. rw (← a, ← b) (g.indexed n id);
      nonempty = λ n. rw (← b) (g.nonempty n);
    }

-- A step that leaves the tables alone and calls nobody.
pub Kept-same :
    (s t : State)
    → s.subs ≡ t.subs
    → s.by_topic ≡ t.by_topic
    → s.next_id ≡ t.next_id
    → s.issued ≡ t.issued
    → s.heard ≡ t.heard
    → Kept s t
Kept-same s t a b c d e = record {
  issued_le = omega arith;
  inv = Inv-same s t a b c d;
  later = λ room g. record {
    next_le = omega arith;
    older = λ id sub low h. rw a h;
    fair = λ f. rw (← e) f;
  };
}

-- A step that adds no subscription under an old ticket, and calls nobody.
Kept-silent :
    (s t : State)
    → s.issued ≤ t.issued
    → (Inv s → Inv t)
    → (t.issued + 1 < 2 ^ 64
        → Good s
        → (s.next_id ≤ t.next_id)
          × ((id : ℕ) (sub : Subscription)
              → id < s.next_id
              → find id t.subs ≡ some sub
              → find id s.subs ≡ some sub))
    → s.heard ≡ t.heard
    → Kept s t
Kept-silent s t le v older e = record {
  issued_le = le;
  inv = v;
  later = λ room g.
      let (next, old) = older room g in
      record { next_le = next; older = old; fair = λ f. rw (← e) f };
}

pub subscribe-Kept :
    (raw : ℕ) (topic : String) (cb user : ℕ) (s : State) → Kept s (subscribe raw topic cb user s).1
unfolding subscribe
subscribe-Kept raw topic cb user s =
    Kept-silent s (subscribe raw topic cb user s).1 (ground arith)
      (subscribe-Inv raw topic cb user s)
      (λ room g. (
        ground (arith, g.ticket, inc64_lem s.next_id),
        λ id sub low h. ground (
          arith,
          find-put s.next_id id (record { mod_ptr = raw; topic = topic; cb = cb; user = user })
              s.subs,
        ),
      ))
      (ground arith)

pub unsubscribe-Kept : (raw id : ℕ) (s : State) → Kept s (unsubscribe raw id s).1
unfolding unsubscribe
unsubscribe-Kept raw id s =
    Kept-silent s (unsubscribe raw id s).1 (ground arith) (unsubscribe-Inv raw id s)
      (λ room g. (ground arith, λ i sub low h. ground (arith, find-erase id i s.subs)))
      (ground arith)

pub gone-Kept : (raw : ℕ) (s : State) → Kept s (on_rust_mod_gone raw s)
gone-Kept raw s =
    Kept-silent s (on_rust_mod_gone raw s) (unfold on_rust_mod_gone in omega arith) (gone-Inv raw s)
      (λ room g. (
        unfold on_rust_mod_gone in omega arith,
        λ id sub low h. ground (arith, find-gone raw id s g.subs_map),
      ))
      (unfold on_rust_mod_gone in refl)

pub warn-Kept : (topic : String) (s : State) → Kept s (warn_depth_once topic s)
unfolding warn_depth_once
warn-Kept topic s =
    Kept-same s (warn_depth_once topic s) (ground arith) (ground arith) (ground arith)
      (ground arith) (ground arith)

-- A ticket that a publish picked: somebody else's subscription to the topic.
abbrev pub Heeded : State → String → ℕ → ℕ → Type 0
Heeded s topic publisher id =
    (sub : Subscription) × (find id s.subs ≡ some sub)
    × (sub.topic ≡ topic)
    × (sub.mod_ptr ≢ publisher)

others-Heeded :
    (s : State) (topic : String) (publisher : ℕ) (ids : List ℕ)
    → ((id : ℕ) → times id ids ≢ 0 → in_topic topic (find id s.subs) ≡ true)
    → All (Heeded s topic publisher) (others publisher s.subs ids)
unfolding others
others-Heeded s topic publisher [] h = tt
others-Heeded s topic publisher (id ∷ ids) h =
    let rest = others-Heeded s topic publisher ids (λ i p. ground (arith, h i)) in
    elim (Option-cases (find id s.subs)) [
      | inl e ↦ rw (e, others) rest
      | inr (sub, e) ↦ elim (Bool-cases (sub.mod_ptr == publisher)) [
        | inl f ↦ rw (e, f, others) rest
        | inr f ↦
            let topical = h id (ground arith) in
            rw (e, f, others)
              ((sub, e, (eq_iff sub.topic topic).0 (rw e at topical), ground arith), rest)
      ]
    ]

pub ids_for-Heeded :
    (s : State) (topic : String) (publisher : ℕ)
    → Good s
    → All (Heeded s topic publisher) (ids_for topic publisher s)
unfolding ids_for
ids_for-Heeded s topic publisher g =
    others-Heeded s topic publisher (ids_of topic s.by_topic)
      (λ id p. ground (arith, g.indexed topic id))

pub hear-Kept :
    (start s : State) (topic : String) (publisher id : ℕ) (sub : Subscription)
    → Inv start
    → Kept start s
    → (start.issued + 1 < 2 ^ 64 → Heeded start topic publisher id)
    → find id s.subs ≡ some sub
    → is_live s.world sub ≡ true
    → Kept s (hear publisher topic id sub s)
unfolding hear
hear-Kept start s topic publisher id sub v k heeded at live = record {
  issued_le = omega arith;
  inv = Inv-same s (hear publisher topic id sub s) refl refl refl refl;
  later = λ room g.
      let room' : start.issued + 1 < 2 ^ 64 = omega (arith, k.issued_le) in
      let g' = v room' in
      let (x, found, topical, foreign) = heeded room' in
      let same : find id start.subs ≡ some sub =
        (k.later room g').older id sub (g'.used id x found) at in
      let e : x ≡ sub = ground arith in
      record {
        next_le = omega arith;
        older = λ i y low h. h;
        fair = λ f. (
          record {
            present = at;
            live = live;
            on_topic = rw e at topical;
            not_own = rw e at foreign;
          },
          f,
        );
      };
}
