-- ===== src/Dns/Changes/Examples.antt =====
-- One loop with one client, and a new version of the hosts of its module.
use lars_study.Prelude.{ℕ, ◌≡◌, refl, List, [], ◌∷◌, none, ℤ, pos, contains, arith}
use lars_study.Dns.Key.{mod_key}
use lars_study.Dns.Subscribe.{SubscribeList, subscribe}
use lars_study.Dns.Route.{Route, Row, rows, failed, Tick, served, get_hosts, load_changes}
use lars_study.Dns.Route.Snapshot.{IsSound}
use lars_study.Dns.Route.Lookup.{listed}
use lars_study.Dns.Changes.{Service, round}
use lars_study.Dns.Changes.Telling.{AllTold, round_loads, round_fails}

abbrev row : Row
row = record { modid = pos 1; cmdid = pos 2; ip = pos 16777343; port = pos 7777 }

abbrev start : Route
start = record {
  heap = λ a k. none;
  next = 2;
  data_pointer = 0;
  tmp_pointer = 1;
  holders = [];
  version = pos 0;
}

start-IsSound : IsSound start
unfolding contains
start-IsSound = record {
  apart = λ e. omega (arith, e);
  private = refl;
  data_in_use = omega arith;
  tmp_in_use = omega arith;
  held_in_use = λ a h. absurd (cc);
}

abbrev nobody : SubscribeList
nobody = record { subscribe_map = λ k. none; publish_map = λ fd. none }

abbrev service : Service
service = record {
  route = start;
  last_load_time = 90;
  loops =
      record { online = 7 ∷ []; subscribed = subscribe nobody 7 (mod_key (pos 1) (pos 2)) } ∷ [];
}

abbrev good_tick : Tick
good_tick = record {
  current_time = 100;
  version_row = rows (pos 1 ∷ []);
  route_rows = rows (row ∷ []);
  change_rows = rows ((pos 1, pos 2) ∷ []);
}

abbrev bad_tick : Tick
bad_tick = record good_tick { route_rows = failed }

abbrev changed : List ℕ
changed = load_changes (rows ((pos 1, pos 2) ∷ [])) []

round_loads_example :
    ((round good_tick service).1.route.version ≡ pos 1)
    × ((round good_tick service).1.last_load_time ≡ 100)
    × ((modid cmdid : ℤ) (host : ℕ)
        → contains host (get_hosts (served (round good_tick service).1.route) modid cmdid)
          ≡ listed (row ∷ []) (mod_key modid cmdid) host)
    × AllTold
        (get_hosts (served (round good_tick service).1.route))
        changed
        service.loops
        (round good_tick service).0
round_loads_example =
    round_loads good_tick service start-IsSound (pos 1) [] (row ∷ []) refl refl refl

round_fails_example :
    ((round bad_tick service).1.route.version ≡ pos 1)
    × ((round bad_tick service).1.last_load_time ≡ 90)
    × (served (round bad_tick service).1.route ≡ served start)
    × AllTold
        (get_hosts (served (round bad_tick service).1.route))
        changed
        service.loops
        (round bad_tick service).0
round_fails_example = round_fails bad_tick service start-IsSound (pos 1) [] refl refl refl
