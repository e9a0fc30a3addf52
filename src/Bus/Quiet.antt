-- ===== src/Bus/Quiet.antt =====
-- src/bridge/core/Bus.cpp: what a publish is for, told without tickets: subscribers that call nobody
-- are all asked, and one refusal is a refusal.
use levilamina_rust_loader.Base.{
  ℕ, suc, ◌+◌, ◌-◌, ◌<◌, ◌^◌, ◌≡◌, refl, String, Bool, true, false, ◌||◌, none, some, List, [], ◌∷◌,
  if◌then◌else◌, ◌==◌, nat_eq, arith, Option-cases, Bool-cases, inl, inr, length, leb,
}
use levilamina_rust_loader.Base.Assoc.{find}
use levilamina_rust_loader.Base.Words.{inc32_lem}
use levilamina_rust_loader.Base.Mods.{World}
use levilamina_rust_loader.Bus.Tables.{Subscription, State, max_depth, bad_topic, ids_of}
use levilamina_rust_loader.Bus.Publish.{
  returned, ends, Subscribers, Publisher, run_program, others, ids_for, ran, is_live, hear, enter,
  deliver, publish_with, publish_vetoable,
}

-- The live subscriptions of others under these tickets, in order.
unfoldable pub audience : ℕ → World → List (ℕ × Subscription) → List ℕ → List Subscription
audience publisher w subs [] = []
audience publisher w subs (id ∷ ids) =
    let rest = audience publisher w subs ids in
    elim (find id subs) [
      | none ↦ rest
      | some sub ↦
          if sub.mod_ptr == publisher then rest else if is_live w sub then sub ∷ rest else rest
    ]

-- The live subscriptions under these tickets.
unfoldable listening : World → List (ℕ × Subscription) → List ℕ → List Subscription
listening w subs [] = []
listening w subs (id ∷ ids) =
    let rest = listening w subs ids in
    elim (find id subs) [ none ↦ rest | some sub ↦ if is_live w sub then sub ∷ rest else rest ]

listening-others :
    (publisher : ℕ) (w : World) (subs : List (ℕ × Subscription)) (ids : List ℕ)
    → listening w subs (others publisher subs ids) ≡ audience publisher w subs ids
unfolding audience listening others
listening-others publisher w subs [] = refl
listening-others publisher w subs (id ∷ ids) = ground (arith, listening-others publisher w subs ids)

abbrev pub any_refuses : (Subscription → Bool) → List Subscription → Bool
any_refuses refuses [] = false
any_refuses refuses (sub ∷ subs) = refuses sub || any_refuses refuses subs

-- The states differ in what was heard only.
abbrev pub SameBus : State → State → Type 0
SameBus s t = record t { heard = s.heard } ≡ s

or_assoc : (a b c : Bool) → ((a || b) || c) ≡ (a || (b || c))
or_assoc true b c = refl
or_assoc false b c = refl

module _ (code : Subscribers) (refuses : Subscription → Bool) (topic payload : String)
    (plain : (sub : Subscription)
      → code sub.cb sub.user topic payload ≡ ends (returned (refuses sub))) where
  enter_plain :
      (publish : Publisher) (publisher id : ℕ) (s : State) (sub : Subscription)
      → enter code publish publisher topic payload id sub s
        ≡ some (ran (returned (refuses sub)), hear publisher topic id sub s)
  unfolding enter
  enter_plain publish publisher id s sub = rw (enter, plain sub, run_program) refl

  deliver_plain :
      (publish : Publisher) (publisher : ℕ) (ids : List ℕ) (vetoed : Bool) (n : ℕ) (s : State)
      → n + length (listening s.world s.subs ids) < 2 ^ 32
      → (t : State) × (deliver code publish publisher topic payload ids vetoed n s
          ≡ some (
            some (
              vetoed || any_refuses refuses (listening s.world s.subs ids),
              n + length (listening s.world s.subs ids),
            ),
            t,
          ))
        × SameBus s t
  unfolding deliver listening hear
  deliver_plain publish publisher [] vetoed n s h = (s, ground arith, refl)
  deliver_plain publish publisher (id ∷ ids) vetoed n s h = elim (Option-cases (find id s.subs)) [
    | inl e ↦
        rw (e, listening, deliver)
          (deliver_plain publish publisher ids vetoed n s (rw (e, listening) at h))
    | inr (sub, e) ↦ elim (Bool-cases (is_live s.world sub)) [
      | inr f ↦
          rw (e, f, listening, deliver)
            (deliver_plain publish publisher ids vetoed n s (rw (e, f, listening) at h))
      | inl f ↦
          let room = rw (e, f, listening, length) at h in
          let next : State = hear publisher topic id sub s in
          let (t, answers, same) =
            deliver_plain publish publisher ids (vetoed || refuses sub) (n + 1) next
              (omega arith) in
          rw (e, f, listening, deliver, enter_plain publish publisher id s sub)
            (
              t,
              rw
                  (
                    inc32_lem n (omega arith),
                    ← or_assoc vetoed (refuses sub)
                        (any_refuses refuses (listening s.world s.subs ids)),
                  )
                  (ground arith),
              ground arith,
            )
    ]
  ]

-- Subscribers that answer without calling the loader, a good topic, a depth below the limit and
-- fewer than 2^32 subscriptions to call: a publish asks every live subscription of another mod to
-- the topic, refuses exactly if one of these refuses, answers how many they are, and changes nothing
-- but the record of calls.
pub publish_plain :
    (code : Subscribers) (refuses : Subscription → Bool) (fuel raw : ℕ) (topic payload : String)
    (s : State)
    → ((sub : Subscription) → code sub.cb sub.user topic payload ≡ ends (returned (refuses sub)))
    → bad_topic topic ≡ false
    → s.depth < max_depth
    → length (audience raw s.world s.subs (ids_of topic s.by_topic)) < 2 ^ 32
    → let asked = audience raw s.world s.subs (ids_of topic s.by_topic) in
      (t : State) × (publish_vetoable code (suc fuel) raw topic payload s
        ≡ some ((any_refuses refuses asked, length asked), t))
      × SameBus s t
unfolding publish_vetoable publish_with ids_for
publish_plain code refuses fuel raw topic payload s plain good shallow room =
    let inner : State = record s { depth = s.depth + 1 } in
    let same_audience = listening-others raw s.world s.subs (ids_of topic s.by_topic) in
    let (t, answers, same) =
      deliver_plain code refuses topic payload plain (publish_vetoable code fuel) raw
        (others raw s.subs (ids_of topic s.by_topic)) false 0 inner
        (rw same_audience (omega arith)) in
    let below : leb max_depth s.depth ≡ false = ground arith in
    (
      record t { depth = t.depth - 1 },
      rw (good, below, answers) (ground (arith, same_audience)),
      ground (arith, same),
    )
