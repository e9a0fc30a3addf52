-- ===== src/Bus/Tables.antt =====
-- src/bridge/core/Bus.cpp: the subscriptions by ticket, the index by topic, and the operations that
-- run no callback.
use levilamina_rust_loader.Base.{
  ℕ, ◌+◌, ◌%◌, ◌^◌, String, len, Bool, true, false, not, ◌||◌, none, some, List, [], ◌∷◌, ◌++◌, ltb,
  if◌then◌else◌, ◌==◌, nat_eq, string_eq, length,
}
use levilamina_rust_loader.Base.Assoc.{find, put, erase}
use levilamina_rust_loader.Base.Words.{inc64}
use levilamina_rust_loader.Base.Mods.{World}

abbrev pub max_topic : ℕ
max_topic = 128

abbrev pub max_depth : ℕ
max_depth = 8

-- A callback is an address, 0 is null.
pub record Subscription : Type 0 where
  pub mod_ptr : ℕ
  pub topic : String
  pub cb : ℕ
  pub user : ℕ

-- A call of a callback: who published what, the subscription, and the table and the host at that
-- moment.
pub record Heard : Type 0 where
  pub publisher : ℕ
  pub about : String
  pub id : ℕ
  pub entry : Subscription
  pub table : List (ℕ × Subscription)
  pub host : World

-- `issued` counts the tickets that were ever drawn, which `next_id` does modulo 2^64; `depth` is the
-- nesting depth of the thread, `warned` the topics that the log has complained about, and `heard`
-- lists the calls of callbacks, the latest first.
pub record State : Type 0 where
  pub subs : List (ℕ × Subscription)
  pub by_topic : List (String × List ℕ)
  pub next_id : ℕ
  pub issued : ℕ
  pub depth : ℕ
  pub warned : List (String × Bool)
  pub heard : List Heard
  pub world : World

unfoldable pub init : World → State
init w = record {
  subs = [];
  by_topic = [];
  next_id = 1;
  issued = 0;
  depth = 0;
  warned = [];
  heard = [];
  world = w;
}

abbrev pub bad_topic : String → Bool
bad_topic topic = len topic == 0 || ltb max_topic (len topic)

-- `gByTopic[topic]`, where a topic that is not there is an empty list.
unfoldable pub ids_of : String → List (String × List ℕ) → List ℕ
ids_of topic m = elim (find topic m) [ none ↦ [] | some ids ↦ ids ]

-- `api_bus_subscribe`
unfoldable pub subscribe : ℕ → String → ℕ → ℕ → State → ℕ × State
subscribe raw topic cb user s =
    if cb == 0 || raw == 0
    then (0, s)
    else if bad_topic topic
    then (0, s)
    else elim (s.world.shared_from_this raw) [
      | none ↦ (0, s)
      | some owner ↦ (
        s.next_id,
        record s {
          subs =
              put s.next_id (record { mod_ptr = raw; topic = topic; cb = cb; user = user }) s.subs;
          by_topic = put topic (ids_of topic s.by_topic ++ s.next_id ∷ []) s.by_topic;
          next_id = inc64 s.next_id;
          issued = s.issued + 1;
        },
      )
    ]

-- `v.erase(std::remove(v.begin(), v.end(), id), v.end())`
unfoldable pub remove : ℕ → List ℕ → List ℕ
remove id [] = []
remove id (j ∷ ids) = let rest = remove id ids in if j == id then rest else j ∷ rest

abbrev pub is_empty : List ℕ → Bool
is_empty [] = true
is_empty (j ∷ ids) = false

-- A ticket leaves its topic, and a topic that is empty then leaves the index.
unfoldable pub unlist : String → ℕ → List (String × List ℕ) → List (String × List ℕ)
unlist topic id m = elim (find topic m) [
  | none ↦ m
  | some ids ↦ let left = remove id ids in if is_empty left then erase topic m else put topic left m
]

-- `api_bus_unsubscribe`
unfoldable pub unsubscribe : ℕ → ℕ → State → Bool × State
unsubscribe raw id s = if raw == 0 || id == 0 then (false, s) else elim (find id s.subs) [
  | none ↦ (false, s)
  | some sub ↦
      if not (sub.mod_ptr == raw)
      then (false, s)
      else (true, record s { subs = erase id s.subs; by_topic = unlist sub.topic id s.by_topic })
]

-- `api_bus_subscriber_count`
unfoldable pub subscriber_count : String → State → ℕ
subscriber_count topic s =
    if len topic == 0
    then 0
    else elim (find topic s.by_topic) [ none ↦ 0 | some ids ↦ length ids % 2 ^ 32 ]

-- The loop of `busOnRustModGone` over the subscriptions: what stays of them and of the index.
unfoldable pub sweep :
    ℕ
    → List (ℕ × Subscription)
    → List (String × List ℕ)
    → List (ℕ × Subscription) × List (String × List ℕ)
sweep raw [] index = ([], index)
sweep raw ((id, sub) ∷ rest) index =
    let (kept, t) =
      sweep raw rest (if sub.mod_ptr == raw then unlist sub.topic id index else index) in
    if sub.mod_ptr == raw then (kept, t) else ((id, sub) ∷ kept, t)

-- `busOnRustModGone`
unfoldable pub on_rust_mod_gone : ℕ → State → State
on_rust_mod_gone raw s =
    let (kept, index) = sweep raw s.subs s.by_topic in record s { subs = kept; by_topic = index }
