-- ===== src/Tests/Topics.antt =====
-- src/bridge/core/Bus.cpp on two mods that listen to one topic and publish it to one another.
use levilamina_rust_loader.Base.{
  ℕ, ◌≡◌, refl, String, true, some, arith, length, nat_eq, string_eq, ◌==◌,
}
use levilamina_rust_loader.Base.Assoc.{find, put, count_values}
use levilamina_rust_loader.Base.Mods.{World}
use levilamina_rust_loader.Base.Words.{inc64}
use levilamina_rust_loader.Bus.Tables.{
  State, Subscription, init, ids_of, subscribe, subscriber_count,
}
use levilamina_rust_loader.Bus.Publish.{
  Subscribers, Program, ends, returned, publishes, subscribes, publish_vetoable, run_program,
}
use levilamina_rust_loader.Bus.Invariant.{Inv, init-Inv, subscribe-Inv}
use levilamina_rust_loader.Bus.Gone.{subscriber_count-exact}
use levilamina_rust_loader.Bus.Total.{Ends, IsSoundBus, publish_total, life-IsSoundBus}
use levilamina_rust_loader.Bus.Quiet.{audience, any_refuses, SameBus, publish_plain}

abbrev host : World
host = record {
  shared_from_this = λ p. some p;
  lock = λ w. some w;
  is_enabled = λ p. true;
  get_name = λ p. "mod";
}

abbrev ore : String
ore = "mine:ore"

-- A callback publishes the topic again, as the mod that its user pointer names.
abbrev echo : Subscribers
echo cb user topic payload = publishes user topic payload (λ answer. ends (returned answer.0))

abbrev two_mods : State
two_mods = (subscribe 11 ore 1 11 (subscribe 10 ore 1 10 (init host)).1).1

two_mods-Inv : Inv two_mods
two_mods-Inv =
    subscribe-Inv 11 ore 1 11 (subscribe 10 ore 1 10 (init host)).1
      (subscribe-Inv 10 ore 1 10 (init host) (init-Inv host))

at_rest : two_mods.depth ≡ 0
unfolding subscribe init
at_rest = refl

publish_total_example :
    Ends (λ t. Inv t × (t.depth ≡ two_mods.depth)) (publish_vetoable echo 9 10 ore "1" two_mods)
publish_total_example =
    publish_total echo 9 10 ore "1" two_mods two_mods-Inv (omega (arith, at_rest))
      (omega (arith, at_rest))

abbrev day : Program
day =
    subscribes 10 ore 1 10
      (λ a. subscribes 11 ore 1 11 (λ b. publishes 10 ore "1" (λ answer. ends (returned answer.0))))

life-IsSoundBus_example : Ends IsSoundBus (run_program (publish_vetoable echo 9) day (init host))
unfolding init
life-IsSoundBus_example = life-IsSoundBus echo day (init host) refl

few : two_mods.issued ≡ 2
unfolding subscribe init
few = refl

two_listeners : count_values (λ (sub : Subscription). sub.topic == ore) two_mods.subs ≡ 2
unfolding subscribe init count_values put find ids_of inc64
two_listeners = refl

subscriber_count-exact_example :
    subscriber_count ore two_mods
    ≡ count_values (λ (sub : Subscription). sub.topic == ore) two_mods.subs
subscriber_count-exact_example =
    subscriber_count-exact ore two_mods (two_mods-Inv (omega (arith, few))) (omega arith)
      (omega (arith, two_listeners))

-- A callback that answers at once, and refuses where its user pointer is 11.
abbrev plain_code : Subscribers
plain_code cb user topic payload = ends (returned (user == 11))

abbrev asked_mods : State → ℕ
asked_mods s = length (audience 10 s.world s.subs (ids_of ore s.by_topic))

one_asked : asked_mods two_mods ≡ 1
unfolding subscribe init count_values put find ids_of inc64 audience
one_asked = refl

publish_plain_example :
    (t : State) × (publish_vetoable plain_code 1 10 ore "1" two_mods
      ≡ some (
        (
          any_refuses
              (λ (sub : Subscription). sub.user == 11)
              (audience 10 two_mods.world two_mods.subs (ids_of ore two_mods.by_topic)),
          asked_mods two_mods,
        ),
        t,
      ))
    × SameBus two_mods t
publish_plain_example =
    publish_plain plain_code (λ (sub : Subscription). sub.user == 11) 0 10 ore "1" two_mods
      (λ sub. refl) refl (omega (arith, at_rest)) (omega (arith, one_asked))
