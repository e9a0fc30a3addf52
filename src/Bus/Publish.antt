-- ===== src/Bus/Publish.antt =====
-- src/bridge/core/Bus.cpp: publishing. A callback is a mod's code: what it does is a `Program`, a
-- tree of its calls into the loader and of what it goes on to do with each answer.
use levilamina_rust_loader.Base.{
  ℕ, zero, suc, ◌+◌, ◌-◌, String, Bool, true, false, not, ◌||◌, Option, none, some, List, [], ◌∷◌,
  leb, if◌then◌else◌, ◌==◌, nat_eq, string_eq,
}
use levilamina_rust_loader.Base.Assoc.{find, put}
use levilamina_rust_loader.Base.Words.{inc32}
use levilamina_rust_loader.Base.Mods.{World, revalidate}
use levilamina_rust_loader.Bus.Tables.{
  Subscription, State, max_depth, bad_topic, ids_of, subscribe, unsubscribe, on_rust_mod_gone,
}

-- How a callback ends: with its veto bit, or with an exception.
pub data Outcome : Type 0 where
  returned : Bool → Outcome
  threw : Outcome

-- What a publish answers: whether somebody refused, and how many callbacks were called.
abbrev pub Answer : Type 0
Answer = Bool × ℕ

-- Between two calls of a callback the host may change (a mod is enabled or unloaded). The publisher
-- 0 is the loader itself.
pub data Program : Type 0 where
  ends : Outcome → Program
  publishes : ℕ → String → String → (Answer → Program) → Program
  subscribes : ℕ → String → ℕ → ℕ → (ℕ → Program) → Program
  unsubscribes : ℕ → ℕ → (Bool → Program) → Program
  unloads : ℕ → Program → Program
  turns : World → Program → Program

-- What each callback does, with its user pointer, on a topic and a payload.
abbrev pub Subscribers : Type 0
Subscribers = ℕ → ℕ → String → String → Program

-- None where the fuel runs out.
abbrev pub M : Type 0 → Type 0
M A = State → Option (A × State)

abbrev pub Publisher : Type 0
Publisher = ℕ → String → String → M Answer

unfoldable pub run_program : Publisher → Program → M Outcome
run_program publish (ends o) s = some (o, s)
run_program publish (publishes raw topic payload k) s = elim (publish raw topic payload s) [
  | none ↦ none
  | some (answer, t) ↦ run_program publish (k answer) t
]
run_program publish (subscribes raw topic cb user k) s =
    let (id, t) = subscribe raw topic cb user s in run_program publish (k id) t
run_program publish (unsubscribes raw id k) s =
    let (done, t) = unsubscribe raw id s in run_program publish (k done) t
run_program publish (unloads raw k) s = run_program publish k (on_rust_mod_gone raw s)
run_program publish (turns w k) s = run_program publish k (record s { world = w })

-- `warnDepthOnce`
unfoldable pub warn_depth_once : String → State → State
warn_depth_once topic s = elim (find topic s.warned) [
  | some true ↦ s
  | _ ↦ record s { warned = put topic true s.warned }
]

-- The loop of `idsFor`: the tickets of others that are in the table.
unfoldable pub others : ℕ → List (ℕ × Subscription) → List ℕ → List ℕ
others publisher subs [] = []
others publisher subs (id ∷ ids) =
    let rest = others publisher subs ids in
    elim (find id subs) [
      | none ↦ rest
      | some sub ↦ if sub.mod_ptr == publisher then rest else id ∷ rest
    ]

-- `idsFor`
unfoldable pub ids_for : String → ℕ → State → List ℕ
ids_for topic publisher s = others publisher s.subs (ids_of topic s.by_topic)

-- What became of one ticket.
pub data Fired : Type 0 where
  not_run : Fired
  ran : Outcome → Fired

-- The checks of `fireOne` on the entry that it copied out.
abbrev pub is_live : World → Subscription → Bool
is_live w sub =
    if sub.cb == 0 || sub.mod_ptr == 0
    then false
    else if not (revalidate w sub.mod_ptr)
    then false
    else w.is_enabled sub.mod_ptr

-- The call is written down.
unfoldable pub hear : ℕ → String → ℕ → Subscription → State → State
hear publisher topic id sub s = record s {
  heard =
      record {
        publisher = publisher;
        about = topic;
        id = id;
        entry = sub;
        table = s.subs;
        host = s.world;
      }
      ∷ s.heard;
}

module _ (code : Subscribers) (publish : Publisher) (publisher : ℕ) (topic payload : String) where
  -- The call of a callback.
  unfoldable pub enter : ℕ → Subscription → M Fired
  unfolding run_program
  enter id sub s =
      elim (run_program publish (code sub.cb sub.user topic payload)
        (hear publisher topic id sub s)) [ none ↦ none | some (o, t) ↦ some (ran o, t) ]

  -- `fireOne`
  unfoldable pub fire_one : ℕ → M Fired
  unfolding enter
  fire_one id s = elim (find id s.subs) [
    | none ↦ some (not_run, s)
    | some sub ↦ if is_live s.world sub then enter id sub s else some (not_run, s)
  ]

  -- The loop of `publishImpl`. None within the answer is an exception, which leaves the loop.
  unfoldable pub deliver : List ℕ → Bool → ℕ → M (Option Answer)
  unfolding fire_one
  deliver [] vetoed delivered s = some (some (vetoed, delivered), s)
  deliver (id ∷ ids) vetoed delivered s = elim (fire_one id s) [
    | none ↦ none
    | some (not_run, t) ↦ deliver ids vetoed delivered t
    | some (ran (returned v), t) ↦ deliver ids (vetoed || v) (inc32 delivered) t
    | some (ran threw, t) ↦ some (none, t)
  ]

-- The API's guard answers zeros for an exception.
abbrev pub guarded : Option Answer → Answer
guarded none = (false, 0)
guarded (some answer) = answer

-- `publishImpl` behind the guard of `api_bus_publish_vetoable`: the depth is taken back at the end.
unfoldable pub publish_with : Subscribers → Publisher → Publisher
unfolding warn_depth_once deliver ids_for
publish_with code publish raw topic payload s =
    if bad_topic topic
    then some ((false, 0), s)
    else if leb max_depth s.depth
    then some ((false, 0), warn_depth_once topic s)
    else elim (deliver code publish raw topic payload (ids_for topic raw s) false 0
        (record s { depth = s.depth + 1 })) [
          | none ↦ none
          | some (answer, t) ↦ some (guarded answer, record t { depth = t.depth - 1 })
        ]

-- `api_bus_publish_vetoable`; a nested publish has one unit of fuel less.
unfoldable pub publish_vetoable : Subscribers → ℕ → Publisher
unfolding publish_with
publish_vetoable code zero raw topic payload s = none
publish_vetoable code (suc fuel) raw topic payload s =
    publish_with code (publish_vetoable code fuel) raw topic payload s

-- `api_bus_publish`, which passes on the number only.
unfoldable pub publish : Subscribers → ℕ → ℕ → String → String → M ℕ
unfolding publish_vetoable
publish code fuel raw topic payload s = elim (publish_vetoable code fuel raw topic payload s) [
  | none ↦ none
  | some (answer, t) ↦ some (answer.1, t)
]
