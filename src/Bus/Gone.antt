-- ===== src/Bus/Gone.antt =====
-- src/bridge/core/Bus.cpp: `busOnRustModGone` takes out exactly what the mod subscribed, and a topic
-- has as many subscribers as the count says.
use levilamina_rust_loader.Base.{
  ℕ, ◌+◌, ◌<◌, ◌^◌, ◌≡◌, ◌≢◌, refl, String, len, Bool, false, ◌&&◌, Option, none, some, List, [],
  ◌∷◌, if◌then◌else◌, ◌==◌, nat_eq, string_eq, arith, length,
}
use levilamina_rust_loader.Base.Assoc.{find, keep_unless, IsMap, count_values, count_values_zero}
use levilamina_rust_loader.Bus.Tables.{
  Subscription, State, ids_of, remove, unlist, sweep, on_rust_mod_gone, subscriber_count,
}
use levilamina_rust_loader.Bus.Invariant.{
  times, in_topic, Good, Inv, ids_of-unlist, times-remove, unlist-IsMap, unlist_nonempty,
}

abbrev pub is_of : ℕ → Subscription → Bool
is_of raw sub = sub.mod_ptr == raw

-- Whether an entry is the mod's and has the topic.
abbrev taken_out : ℕ → String → Option Subscription → Bool
taken_out raw n none = false
taken_out raw n (some sub) = sub.mod_ptr == raw && sub.topic == n

abbrev next_index : ℕ → ℕ → Subscription → List (String × List ℕ) → List (String × List ℕ)
next_index raw i sub index = if sub.mod_ptr == raw then unlist sub.topic i index else index

find-sweep :
    (raw : ℕ) (l : List (ℕ × Subscription)) (index : List (String × List ℕ)) (id : ℕ)
    → IsMap l
    → find id (sweep raw l index).0 ≡ keep_unless (is_of raw) (find id l)
unfolding sweep find
find-sweep raw [] index id u = refl
find-sweep raw ((i, sub) ∷ rest) index id u =
    ground (arith, find-sweep raw rest (next_index raw i sub index) id u.1)

sweep-IsMap :
    (raw : ℕ) (l : List (ℕ × Subscription)) (index : List (String × List ℕ))
    → IsMap l
    → IsMap (sweep raw l index).0
unfolding sweep find
sweep-IsMap raw [] index u = tt
sweep-IsMap raw ((i, sub) ∷ rest) index u = ground (
  arith,
  find-sweep raw rest (next_index raw i sub index) i u.1,
  sweep-IsMap raw rest (next_index raw i sub index) u.1,
)

index-IsMap :
    (raw : ℕ) (l : List (ℕ × Subscription)) (index : List (String × List ℕ))
    → IsMap index
    → IsMap (sweep raw l index).1
unfolding sweep
index-IsMap raw [] index u = u
index-IsMap raw ((i, sub) ∷ rest) index u =
    ground
      (arith, index-IsMap raw rest (next_index raw i sub index), unlist-IsMap sub.topic i index u)

index_nonempty :
    (raw : ℕ) (l : List (ℕ × Subscription)) (index : List (String × List ℕ)) (n : String)
    → find n index ≢ some []
    → find n (sweep raw l index).1 ≢ some []
unfolding sweep
index_nonempty raw [] index n u = u
index_nonempty raw ((i, sub) ∷ rest) index n u = ground (
  arith,
  index_nonempty raw rest (next_index raw i sub index) n,
  unlist_nonempty sub.topic n i index u,
)

times-sweep :
    (raw : ℕ) (l : List (ℕ × Subscription)) (index : List (String × List ℕ)) (n : String) (id : ℕ)
    → IsMap l
    → times id (ids_of n (sweep raw l index).1)
      ≡ (if taken_out raw n (find id l) then 0 else times id (ids_of n index))
unfolding sweep find
times-sweep raw [] index n id u = refl
times-sweep raw ((i, sub) ∷ rest) index n id u = ground (
  arith,
  times-sweep raw rest (next_index raw i sub index) n id u.1,
  ids_of-unlist sub.topic n i index,
  times-remove i id (ids_of n index),
  u.0,
)

gone-Good : (raw : ℕ) (s : State) → Good s → Good (on_rust_mod_gone raw s)
unfolding on_rust_mod_gone
gone-Good raw s g = record {
  subs_map = sweep-IsMap raw s.subs s.by_topic g.subs_map;
  index_map = index-IsMap raw s.subs s.by_topic g.index_map;
  ticket = g.ticket;
  used = λ id sub h. ground (arith, g.used id sub, find-sweep raw s.subs s.by_topic id g.subs_map);
  indexed = λ n id. ground (
    arith,
    g.indexed n id,
    find-sweep raw s.subs s.by_topic id g.subs_map,
    times-sweep raw s.subs s.by_topic n id g.subs_map,
  );
  nonempty = λ n. index_nonempty raw s.subs s.by_topic n (g.nonempty n);
}

pub gone-Inv : (raw : ℕ) (s : State) → Inv s → Inv (on_rust_mod_gone raw s)
gone-Inv raw s v room = gone-Good raw s (v (unfold on_rust_mod_gone in omega arith))

pub find-gone :
    (raw id : ℕ) (s : State)
    → IsMap s.subs
    → find id (on_rust_mod_gone raw s).subs ≡ keep_unless (is_of raw) (find id s.subs)
unfolding on_rust_mod_gone
find-gone raw id s u = find-sweep raw s.subs s.by_topic id u

-- No subscription of the mod is left.
pub gone_none_left :
    (raw : ℕ) (s : State) → Good s → count_values (is_of raw) (on_rust_mod_gone raw s).subs ≡ 0
gone_none_left raw s g =
    let after = gone-Good raw s g in
    count_values_zero (is_of raw) (on_rust_mod_gone raw s).subs after.subs_map
      (λ id sub h. ground (arith, find-gone raw id s g.subs_map))

length-remove : (id : ℕ) (ids : List ℕ) → length (remove id ids) + times id ids ≡ length ids
unfolding remove
length-remove id [] = refl
length-remove id (j ∷ ids) = ground (arith, length-remove id ids)

abbrev has_topic : String → Subscription → Bool
has_topic topic sub = sub.topic == topic

times_nil : (ids : List ℕ) → ((id : ℕ) → times id ids ≡ 0) → length ids ≡ 0
times_nil [] h = refl
times_nil (j ∷ ids) h = absurd (ground (arith, h j))

-- A list that holds exactly the keys of one topic, each once, is as long as they are many.
length-listed :
    (topic : String) (l : List (ℕ × Subscription)) (ids : List ℕ)
    → IsMap l
    → ((id : ℕ) → times id ids ≡ (if in_topic topic (find id l) then 1 else 0))
    → length ids ≡ count_values (has_topic topic) l
unfolding find count_values
length-listed topic [] ids u h = times_nil ids h
length-listed topic ((i, sub) ∷ rest) ids u h = ground (
  arith,
  length-remove i ids,
  h i,
  length-listed topic rest (remove i ids) u.1
      (λ id. ground (arith, h id, times-remove i id ids, u.0)),
)

-- In tables that are in order, with fewer than 2^32 subscriptions to the topic: the number that
-- `subscriber_count` answers is the number of subscriptions in the table that have the topic.
pub subscriber_count-exact :
    (topic : String) (s : State)
    → Good s
    → len topic ≢ 0
    → count_values (has_topic topic) s.subs < 2 ^ 32
    → subscriber_count topic s ≡ count_values (has_topic topic) s.subs
unfolding subscriber_count
subscriber_count-exact topic s g n room =
    let all = length-listed topic s.subs (ids_of topic s.by_topic) g.subs_map (g.indexed topic) in
    unfold ids_of in ground arith
