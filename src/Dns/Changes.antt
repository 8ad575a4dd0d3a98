-- ===== src/Dns/Changes.antt =====
-- One round of route::check_route_changes (lars_dns/src/dns_route.cc) together with the loops that it
-- publishes through (subscribe_list::publish of lars_dns/src/subscribe.cc).
pub mod Telling
pub mod Table
mod Examples
use lars_study.Prelude.{ℕ, List, [], ◌∷◌, Option, none, some, ℤ}
use lars_study.Dns.Subscribe.{SubscribeList, GetRouteResponse, publish}
use lars_study.Dns.Route.{Route, Tick, served, get_hosts, check_route_changes}

-- A loop that tcp_server::send_task hands tasks to: the descriptors that it listens to, and the maps of
-- its thread.
pub record Loop : Type 0 where
  pub online : List ℕ
  pub subscribed : SubscribeList

-- `last_load_time` is the variable of check_route_changes.
pub record Service : Type 0 where
  pub route : Route
  pub last_load_time : ℕ
  pub loops : List Loop

-- What a loop sends, by descriptor.
abbrev pub Sent : Type 0
Sent = List (ℕ × List GetRouteResponse)

-- Each loop runs the task of the round.
pub publish_all : (ℤ → ℤ → List ℕ) → List ℕ → List Loop → List Sent × List Loop
publish_all hosts changes [] = ([], [])
publish_all hosts changes (l ∷ ls) =
    let (sent, subscribed) = publish hosts l.online l.subscribed changes in
    let (sents, rest) = publish_all hosts changes ls in
    (sent ∷ sents, record l { subscribed = subscribed } ∷ rest)

-- What follows the round in the loops, before the next one.
told : Route → ℕ → Option (List ℕ) → List Loop → List Sent × Service
unfolding publish_all
told r loaded none loops = ([], record { route = r; last_load_time = loaded; loops = loops })
told r loaded (some changes) loops =
    let (sents, loops') = publish_all (get_hosts (served r)) changes loops in
    (sents, record { route = r; last_load_time = loaded; loops = loops' })

-- The round: what the loops send, and the service.
pub round : Tick → Service → List Sent × Service
unfolding told
round t s =
    let (r, loaded, changes) = check_route_changes t s.route s.last_load_time in
    told r loaded changes s.loops
