-- ===== src/Tests/Lanes.antt =====
-- src/bridge/core/Lane.cpp on a provider, two consumers and one lane.
use levilamina_rust_loader.Base.{
  ℕ, ◌+◌, ◌≡◌, ◌≢◌, refl, true, false, none, some, arith, length, ◌⊎◌, ◌<◌, ◌^◌, if◌then◌else◌,
  ◌==◌, nat_eq,
}
use levilamina_rust_loader.Base.Assoc.{find, put, emplace, count_values}
use levilamina_rust_loader.Base.Words.{inc64, inc32}
use levilamina_rust_loader.Base.Mods.{World}
use levilamina_rust_loader.Lane.Tables.{LaneDesc, Lane, State, init}
use levilamina_rust_loader.Lane.Publish.{publish, unpublish}
use levilamina_rust_loader.Lane.Leases.{
  LaneRef, acquire, acquire_named, acquire_lane, grant, clear_ref, provider_alive, release,
}
use levilamina_rust_loader.Lane.Calls.{Calls, quiet, unpublishes, Reaction, Reacts}
use levilamina_rust_loader.Lane.Gone.{on_rust_mod_gone, mod_busy_name, held_by, published_by}
use levilamina_rust_loader.Lane.Invariant.{Inv, flag_of, retain_count, release_count, lease_count}
use levilamina_rust_loader.Lane.History.{Reach, start, published, acquired, Reach-Inv}
use levilamina_rust_loader.Lane.Granted.{Sound}
use levilamina_rust_loader.Lane.Safety.{
  acquire-Sound, release_once, Published, publish-Published, unpublish_effect,
}
use levilamina_rust_loader.Lane.Unload.{gone_clears}

abbrev host : World
host = record {
  shared_from_this = λ p. some p;
  lock = λ w. some w;
  is_enabled = λ p. true;
  get_name = λ p. "mod";
}

abbrev economy : LaneDesc
economy = record {
  struct_size = 48;
  protocol = 1;
  fingerprint = 77;
  data_ptr = 5;
  vtable = 9;
  retain = 11;
  release = 12;
}

abbrev blank : LaneRef
blank = record {
  struct_size = 56;
  lease = 3;
  fingerprint = 3;
  data_ptr = 3;
  vtable = 3;
  alive = 3;
  busy = 3;
}

-- The mod 10 publishes, and the mod 20 takes a lease.
abbrev offered : State
offered = (publish host 10 "economy" (some economy) init).1

abbrev lent : State
lent = (acquire host 20 "economy" 77 blank offered).2

abbrev returned : State
returned = (release 20 1 lent).1

offered_count : (length offered.lease_table ≡ 0) × (offered.next_lease ≡ 1)
unfolding publish init find put emplace inc64
offered_count = (refl, refl)

offered_free : find offered.next_lease offered.lease_table ≡ none
unfolding publish init find put emplace inc64
offered_free = refl

lent_count : (length lent.lease_table ≡ 1) × (retain_count 1 lent ≡ 1) × (flag_of 1 lent ≡ 1)
unfolding publish acquire acquire_named acquire_lane grant clear_ref provider_alive init find put
    emplace inc64 inc32
lent_count = (refl, refl, refl)

lent_reached : Reach lent
lent_reached =
    acquired host 20 "economy" 77 blank
      (published host 10 "economy" (some economy) start room (omega arith, omega arith))
      (omega (arith, offered_count.1)) (omega (arith, offered_count.0))
  where
    room : init.next_lane + 1 < 2 ^ 64
    room = unfold init in omega arith

lent_room : length lent.lease_table < 2 ^ 32
lent_room = omega (arith, lent_count.0)

Reach-Inv_example : Inv lent
Reach-Inv_example = Reach-Inv lent_reached

init_reached : Inv init
init_reached = Reach-Inv start

init_room : init.next_lane + 1 < 2 ^ 64
unfolding init
init_room = omega arith

acquire-Sound_example :
    Sound host 20 "economy" 77 blank offered (acquire host 20 "economy" 77 blank offered)
acquire-Sound_example = acquire-Sound host 20 "economy" 77 blank offered (omega arith) offered_free

release_answers : release 20 1 lent ≡ (true, returned)
unfolding publish acquire acquire_named acquire_lane grant clear_ref provider_alive init find put
    emplace inc64 inc32 release
release_answers = refl

release_once_example : release 30 1 returned ≡ (false, returned)
release_once_example = release_once 20 1 30 lent returned release_answers

publish-Published_example :
    (publish host 10 "economy" (some economy) init ≡ (0, init))
    ⊎ Published "economy" economy init (publish host 10 "economy" (some economy) init)
publish-Published_example = publish-Published host 10 "economy" economy init init_reached init_room

abbrev withdrawn : State
withdrawn = (unpublish 10 1 lent).1

unpublish_answers : unpublish 10 1 lent ≡ (true, withdrawn)
unfolding publish acquire acquire_named acquire_lane grant clear_ref provider_alive init find put
    emplace inc64 inc32 unpublish
unpublish_answers = refl

unpublish_effect_example :
    (find 1 withdrawn.lanes ≡ none)
    × (lease_count 1 withdrawn ≡ 0)
    × (release_count 1 withdrawn ≡ retain_count 1 withdrawn + 1)
    × ((i : ℕ) → flag_of i withdrawn ≡ (if i == 1 then 0 else flag_of i lent))
    × ((u : State) → Calls (λ _. Unit) withdrawn u → (find 1 u.lanes ≡ none) × (flag_of 1 u ≡ 0))
unpublish_effect_example =
    unpublish_effect 10 1 lent withdrawn (Reach-Inv lent_reached) lent_room unpublish_answers

-- A provider that takes down the next lane of the mod 10 from the `release` of one.
abbrev takes_down : Reaction
takes_down id s = (unpublish 10 (id + 1) s).1

takes_down-Reacts : Reacts (λ by. by ≢ 10) takes_down
takes_down-Reacts id s = unpublishes 10 (id + 1) s s (quiet s)

gone_clears_example :
    (count_values (published_by 10) (on_rust_mod_gone takes_down 10 lent).lanes ≡ 0)
    × (count_values (held_by 10) (on_rust_mod_gone takes_down 10 lent).lease_table ≡ 0)
gone_clears_example =
    gone_clears 10 lent (Reach-Inv lent_reached) lent_room takes_down takes_down-Reacts

abbrev lent_lane : Lane
lent_lane = record {
  owner_mod = 10;
  owner = 10;
  name = "economy";
  desc = record economy { struct_size = 48 };
  alive = 1;
  leases = 1;
}

lent_found : find 1 lent.lanes ≡ some lent_lane
unfolding publish acquire acquire_named acquire_lane grant clear_ref provider_alive init find put
    emplace inc64 inc32
lent_found = refl

lent_idle : mod_busy_name 10 lent ≡ none
unfolding publish acquire acquire_named acquire_lane grant clear_ref provider_alive init find put
    emplace inc64 inc32 mod_busy_name
lent_idle = refl
