-- ===== src/Throttle.antt =====
-- src/bridge/hooks/DecisionThrottle.h: the decisions that a hook remembers for a player at a place.
use levilamina_rust_loader.Base.{
  ◌≤◌, ◌≡◌, String, Bool, not, ◌&&◌, Option, none, some, List, [], ltb, if◌then◌else◌, ◌==◌,
  string_eq, arith, length,
}
use levilamina_rust_loader.Base.Int.{ℤ, pos, ◌-ℤ◌, leb_ℤ, int_eq}
use levilamina_rust_loader.Base.Assoc.{find, put, find-put, length-put-le}

abbrev pub decision_ttl_ms : ℤ
decision_ttl_ms = pos 250

-- ThrottledDecision, its place apart.
pub record Place : Type 0 where
  pub x : ℤ
  pub y : ℤ
  pub z : ℤ
  pub dim : ℤ

pub record ThrottledDecision : Type 0 where
  pub place : Place
  pub cancelled : Bool
  pub at_ms : ℤ

abbrev pub Cache : Type 0
Cache = List (String × ThrottledDecision)

abbrev pub same_place : Place → Place → Bool
same_place p q = (p.x == q.x) && (p.y == q.y) && (p.z == q.z) && (p.dim == q.dim)

-- The tests of `throttleLookup` on an entry: its place, and its age.
unfoldable pub still_valid : Place → ℤ → ThrottledDecision → Option Bool
still_valid place now c =
    if not (same_place c.place place)
    then none
    else if leb_ℤ decision_ttl_ms (now -ℤ c.at_ms)
    then none
    else some c.cancelled

-- `throttleLookup`
unfoldable pub throttle_lookup : Cache → String → Place → ℤ → Option Bool
throttle_lookup cache key place now = elim (find key cache) [
  | none ↦ none
  | some c ↦ still_valid place now c
]

-- `if (cache.size() > 512) cache.clear();`
unfoldable pub make_room : Cache → Cache
make_room cache = if ltb 512 (length cache) then [] else cache

-- `throttleStore`
unfoldable pub throttle_store : Cache → String → Place → ℤ → Bool → Cache
throttle_store cache key place now cancelled =
    put key (record { place = place; cancelled = cancelled; at_ms = now }) (make_room cache)

-- A decision that was stored is found for the same player at the same place until 250 ms have passed,
-- and never for another place or later; what another player finds is as before, or nothing once the
-- cache was emptied.
pub lookup-store :
    (cache : Cache) (key other : String) (place asked : Place) (now later : ℤ) (cancelled : Bool)
    → throttle_lookup (throttle_store cache key place now cancelled) other asked later ≡ (
        if key == other
        then (if same_place place asked && not (leb_ℤ decision_ttl_ms (later -ℤ now))
            then some cancelled
            else none)
        else if ltb 512 (length cache)
        then none
        else throttle_lookup cache other asked later)
unfolding throttle_lookup throttle_store make_room still_valid find
lookup-store cache key other place asked now later cancelled = ground (
  arith,
  find-put key other (record { place = place; cancelled = cancelled; at_ms = now })
      (if ltb 512 (length cache) then [] else cache),
)

-- The cache stays within 513 entries over a store.
pub store_bounded :
    (cache : Cache) (key : String) (place : Place) (now : ℤ) (cancelled : Bool)
    → length cache ≤ 513
    → length (throttle_store cache key place now cancelled) ≤ 513
unfolding throttle_store make_room
store_bounded cache key place now cancelled h =
    let c : ThrottledDecision = record { place = place; cancelled = cancelled; at_ms = now } in
    ground (arith, length-put-le key c [], length-put-le key c cache)
