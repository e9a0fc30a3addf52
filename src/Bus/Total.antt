-- ===== src/Bus/Total.antt =====
-- src/bridge/core/Bus.cpp: a publish ends, however the subscribers publish to one another.
use levilamina_rust_loader.Base.{
  ℕ, zero, suc, ◌+◌, ◌-◌, ◌≤◌, ◌<◌, ◌^◌, ◌≡◌, refl, ◌∙◌, String, Bool, false, ◌||◌, Option, none,
  some, List, [], ◌∷◌, leb, arith, Option-cases, Bool-cases, inl, inr, All, nat_eq,
}
use levilamina_rust_loader.Base.Assoc.{find}
use levilamina_rust_loader.Base.Words.{inc32}
use levilamina_rust_loader.Bus.Tables.{
  State, max_depth, bad_topic, subscribe, unsubscribe, on_rust_mod_gone, init,
}
use levilamina_rust_loader.Bus.Publish.{
  Outcome, returned, threw, Answer, Program, ends, publishes, subscribes, unsubscribes, unloads,
  turns, Subscribers, Publisher, run_program, warn_depth_once, ids_for, Fired, not_run, ran,
  is_live, hear, enter, fire_one, deliver, guarded, publish_with, publish_vetoable,
}
use levilamina_rust_loader.Bus.Invariant.{Good, Inv, init-Inv}
use levilamina_rust_loader.Bus.Kept.{
  Kept, IsFair, Heeded, Kept-chain, Kept-same, subscribe-Kept, unsubscribe-Kept, gone-Kept,
  warn-Kept, ids_for-Heeded, hear-Kept,
}

-- The fuel was enough, and the state that comes out meets P.
abbrev pub Ends : {A : Type 0} → (State → Type 0) → Option (A × State) → Type 0
Ends P none = ⊥
Ends P (some (a, t)) = P t

-- What came out of a start, at a depth.
abbrev At : ℕ → State → State → Type 0
At d s t = Kept s t × (t.depth ≡ d)

abbrev PublishEnds : ℕ → Publisher → Type 0
PublishEnds d publish =
    (raw : ℕ) (topic payload : String) (u : State)
    → Inv u
    → u.depth ≡ d
    → Ends (At d u) (publish raw topic payload u)

module _ (start : State) (good : Inv start) where
  step : (d : ℕ) (s t : State) → At d start s → Kept s t → t.depth ≡ s.depth → At d start t
  step d s t a k e = (Kept-chain start s t a.0 k, e ∙ a.1)

  run_program-Ends :
      (d : ℕ) (publish : Publisher)
      → PublishEnds d publish
      → (p : Program) (s : State) → At d start s
      → Ends (At d start) (run_program publish p s)
  unfolding run_program
  run_program-Ends d publish c (ends o) s a = a
  run_program-Ends d publish c (publishes raw topic payload k) s a =
      go (publish raw topic payload s) (c raw topic payload s (a.0.inv good) a.1)
        (λ answer. run_program-Ends d publish c (k answer))
    where
      go :
          (r : Option (Answer × State))
          → Ends (At d s) r
          → ((answer : Answer) (t : State)
              → At d start t
              → Ends (At d start) (run_program publish (k answer) t))
          → Ends
              (At d start)
              (elim r [ none ↦ none | some (answer, t) ↦ run_program publish (k answer) t ])
      go none e rec = e
      go (some (answer, t)) e rec = rec answer t (Kept-chain start s t a.0 e.0, e.1)
  run_program-Ends d publish c (subscribes raw topic cb user k) s a =
      run_program-Ends d publish c (k (subscribe raw topic cb user s).0)
        (subscribe raw topic cb user s).1
        (step d s (subscribe raw topic cb user s).1 a (subscribe-Kept raw topic cb user s)
          (unfold subscribe in ground arith))
  run_program-Ends d publish c (unsubscribes raw id k) s a =
      run_program-Ends d publish c (k (unsubscribe raw id s).0) (unsubscribe raw id s).1 (
        step d s (unsubscribe raw id s).1 a (unsubscribe-Kept raw id s)
          (unfold unsubscribe in ground arith))
  run_program-Ends d publish c (unloads raw k) s a =
      run_program-Ends d publish c k (on_rust_mod_gone raw s)
        (step d s (on_rust_mod_gone raw s) a (gone-Kept raw s) (unfold on_rust_mod_gone in refl))
  run_program-Ends d publish c (turns w k) s a =
      run_program-Ends d publish c k (record s { world = w })
        (step d s (record s { world = w }) a
          (Kept-same s (record s { world = w }) refl refl refl refl refl) refl)

  module _ (code : Subscribers) (d : ℕ) (publish : Publisher) (c : PublishEnds d publish)
      (publisher : ℕ) (topic payload : String) where
    Target : ℕ → Type 0
    Target id = start.issued + 1 < 2 ^ 64 → Heeded start topic publisher id

    fire_one-Ends :
        (id : ℕ) (s : State)
        → Target id
        → At d start s
        → Ends (At d start) (fire_one code publish publisher topic payload id s)
    unfolding fire_one Target
    fire_one-Ends id s target a = elim (Option-cases (find id s.subs)) [
      | inl e ↦ rw (e, fire_one) a
      | inr (sub, e) ↦ elim (Bool-cases (is_live s.world sub)) [
        | inr f ↦ rw (e, f, fire_one) a
        | inl f ↦
            rw (e, f, fire_one)
              (unfold enter in
                go
                  (run_program publish (code sub.cb sub.user topic payload)
                    (hear publisher topic id sub s))
                  (run_program-Ends d publish c (code sub.cb sub.user topic payload)
                    (hear publisher topic id sub s)
                    (step d s (hear publisher topic id sub s) a
                      (hear-Kept start s topic publisher id sub good a.0 target e f)
                      (unfold hear in refl))))
      ]
    ]
      where
        go :
            (r : Option (Outcome × State))
            → Ends (At d start) r
            → Ends (At d start) (elim r [ none ↦ none | some (o, t) ↦ some (ran o, t) ])
        go none e = e
        go (some (o, t)) e = e

    deliver-Ends :
        (ids : List ℕ) (vetoed : Bool) (n : ℕ) (s : State)
        → All Target ids
        → At d start s
        → Ends (At d start) (deliver code publish publisher topic payload ids vetoed n s)
    unfolding deliver
    deliver-Ends [] vetoed n s targets a = a
    deliver-Ends (id ∷ ids) vetoed n s targets a =
        go (fire_one code publish publisher topic payload id s) (fire_one-Ends id s targets.0 a)
          (λ v m t. deliver-Ends ids v m t targets.1)
      where
        go :
            (r : Option (Fired × State))
            → Ends (At d start) r
            → ((v : Bool) (m : ℕ) (t : State)
                → At d start t
                → Ends (At d start) (deliver code publish publisher topic payload ids v m t))
            → Ends (At d start) (elim r [
              | none ↦ none
              | some (not_run, t) ↦ deliver code publish publisher topic payload ids vetoed n t
              | some (ran (returned v), t) ↦
                  deliver code publish publisher topic payload ids (vetoed || v) (inc32 n) t
              | some (ran threw, t) ↦ some (none, t)
            ])
        go none e rec = e
        go (some (not_run, t)) e rec = rec vetoed n t e
        go (some (ran (returned v), t)) e rec = rec (vetoed || v) (inc32 n) t e
        go (some (ran threw, t)) e rec = e

All-under :
    {Room : Type 0} (P : ℕ → Type 0) (ids : List ℕ)
    → (Room → All P ids)
    → All (λ id. Room → P id) ids
All-under P [] h = tt
All-under P (id ∷ ids) h = (λ room. (h room).0, All-under P ids (λ room. (h room).1))

publish_with_ends :
    (code : Subscribers) (d : ℕ) (publish : Publisher)
    → (d < max_depth → PublishEnds (d + 1) publish)
    → PublishEnds d (publish_with code publish)
unfolding publish_with
publish_with_ends code d publish c raw topic payload s v e = elim (Bool-cases (bad_topic topic)) [
  | inl f ↦ rw f (Kept-same s s refl refl refl refl refl, e)
  | inr f ↦ elim (Bool-cases (leb max_depth s.depth)) [
    | inl g ↦ rw (f, g) (warn-Kept topic s, unfold warn_depth_once in ground arith)
    | inr g ↦
        let inner : State = record s { depth = s.depth + 1 } in
        rw (f, g)
          (go (deliver code publish raw topic payload (ids_for topic raw s) false 0 inner) (
            deliver-Ends s v code (d + 1) publish (c (ground (arith, e))) raw topic payload
              (ids_for topic raw s) false 0 inner
              (unfold Target in
                All-under (Heeded s topic raw) (ids_for topic raw s)
                  (λ room. ids_for-Heeded s topic raw (v room)))
              (Kept-same s inner refl refl refl refl refl, omega (arith, e))))
  ]
]
  where
    go :
        (r : Option (Option Answer × State))
        → Ends (At (d + 1) s) r
        → Ends (At d s) (elim r [
          | none ↦ none
          | some (answer, t) ↦ some (guarded answer, record t { depth = t.depth - 1 })
        ])
    go none h = h
    go (some (answer, t)) h = (
      Kept-chain s t (record t { depth = t.depth - 1 }) h.0
          (Kept-same t (record t { depth = t.depth - 1 }) refl refl refl refl refl),
      omega (arith, h.1),
    )

publishes_end :
    (code : Subscribers) (fuel d : ℕ)
    → max_depth < fuel + d
    → d ≤ max_depth
    → PublishEnds d (publish_vetoable code fuel)
unfolding publish_vetoable
publishes_end code zero d h l raw topic payload s v e = absurd (omega arith)
publishes_end code (suc fuel) d h l raw topic payload s v e =
    publish_with_ends code d (publish_vetoable code fuel)
      (λ p. publishes_end code fuel (d + 1) (omega arith) (omega arith)) raw topic payload s v e

Ends-mono :
    {A : Type 0} {P Q : State → Type 0} (r : Option (A × State))
    → ((t : State) → P t → Q t)
    → Ends P r
    → Ends Q r
Ends-mono none f h = h
Ends-mono (some (a, t)) f h = f t h

-- From tables that are in order, at a depth of at most 8: whatever the subscribers do, and however
-- they publish to one another, subscribe and unload, a publish ends: 9 - depth levels of fuel are
-- enough, since a publish at depth 8 is dropped. The tables are in order afterwards (while fewer
-- than 2^64 - 1 tickets were drawn) and the depth is as before, also where a subscriber threw.
pub publish_total :
    (code : Subscribers) (fuel raw : ℕ) (topic payload : String) (s : State)
    → Inv s
    → s.depth ≤ max_depth
    → max_depth < fuel + s.depth
    → Ends (λ t. Inv t × (t.depth ≡ s.depth)) (publish_vetoable code fuel raw topic payload s)
publish_total code fuel raw topic payload s v l h =
    Ends-mono (publish_vetoable code fuel raw topic payload s) (λ t a. (a.0.inv v, a.1))
      (publishes_end code fuel s.depth h l raw topic payload s v refl)

-- A life of the bus from the loader's start, whatever is called: it is in order, and every callback
-- was called for a subscription that was in the table at that moment.
abbrev pub IsSoundBus : State → Type 0
IsSoundBus t = t.issued + 1 < 2 ^ 64 → Good t × All IsFair t.heard

-- From the loader's start, whatever calls are made and whatever the subscribers do: all of it ends
-- with nine levels of fuel. While fewer than 2^64 - 1 tickets were drawn, the index lists each
-- subscription once, under its own topic, and every callback that was ever called belonged to a
-- subscription that was in the table at that moment, to the topic that was published, of a mod
-- other than the publisher, which was loaded and enabled.
pub life-IsSoundBus :
    (code : Subscribers) (p : Program) (s : State)
    → s ≡ init s.world
    → Ends IsSoundBus (run_program (publish_vetoable code 9) p s)
life-IsSoundBus code p s e =
    let v : Inv s = rw e (init-Inv s.world) in
    let quiet : All IsFair s.heard = rw e (unfold init in tt) in
    Ends-mono (run_program (publish_vetoable code 9) p s)
      (λ t a room.
        let low : s.issued + 1 < 2 ^ 64 = omega (arith, a.0.issued_le) in
        (a.0.inv v room, (a.0.later room (v low)).fair quiet))
      (run_program-Ends s v 0 (publish_vetoable code 9)
        (publishes_end code 9 0 (omega arith) (omega arith)) p s
        (Kept-same s s refl refl refl refl refl, rw e (unfold init in refl)))
