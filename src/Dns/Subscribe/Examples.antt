-- ===== src/Dns/Subscribe/Examples.antt =====
-- Two clients and two modules.
use lars_study.Prelude.{ℕ, ◌≡◌, true, List, [], none, ℤ, pos, arith}
use lars_study.Dns.Key.{mod_key}
use lars_study.Dns.Subscribe.{SubscribeList, subscribe, watches}
use lars_study.Dns.Subscribe.Publishing.{subscribe_collides}

abbrev nobody : SubscribeList
nobody = record { subscribe_map = λ k. none; publish_map = λ fd. none }

abbrev first : ℕ
first = mod_key (pos 1) (pos 2)

abbrev one : SubscribeList
one = subscribe nobody 7 first

abbrev no_hosts : ℤ → ℤ → List ℕ
no_hosts m c = []

subscribe_collides_example :
    watches (subscribe nobody 7 (mod_key (pos 1) (pos 2))) 7 (mod_key (pos 9) (pos 2)) ≡ true
subscribe_collides_example =
    subscribe_collides nobody 7 2 (pos 1) (pos 9) (omega arith) (omega arith) (omega arith)
