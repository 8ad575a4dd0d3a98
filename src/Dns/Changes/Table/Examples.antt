-- ===== src/Dns/Changes/Table/Examples.antt =====
-- A table with a change of the version 3 and one of the version 4, in a round of the version 3.
use lars_study.Prelude.{
  ℕ, none, ◌≡◌, refl, ◌⊎◌, inl, inr, true, List, [], ◌∷◌, ℤ, pos, Str, contains, arith,
}
use lars_study.Dns.Key.{mod_key}
use lars_study.Dns.Route.{Answer, failed, rows, two_maps, served, get_hosts}
use lars_study.Dns.Route.Snapshot.{IsSound}
use lars_study.Dns.Subscribe.{SubscribeList, subscribe}
use lars_study.Dns.Changes.{Service}
use lars_study.Dns.Changes.Telling.{AllTold}
use lars_study.Dns.Changes.Table.{round_on}
use lars_study.Dns.Changes.Table.Keeping.{Change, Among, up_to, beyond, keys, told_or_kept}

abbrev third : Change
third = record { modid = pos 1; cmdid = pos 2; version = pos 3 }

abbrev fourth : Change
fourth = record { modid = pos 1; cmdid = pos 3; version = pos 4 }

abbrev changes : List Change
changes = third ∷ fourth ∷ []

-- The database is its table, and every statement is of the version 3.
abbrev query : Str → List Change → Answer (ℤ × ℤ)
query statement d = rows (keys (up_to (pos 3) d))

abbrev query_fails : Str → List Change → Answer (ℤ × ℤ)
query_fails statement d = failed

abbrev execute : Str → List Change → List Change
execute statement d = beyond (pos 3) d

two_maps-IsSound : IsSound two_maps
unfolding contains
two_maps-IsSound = record {
  apart = λ e. omega (arith, e);
  private = refl;
  data_in_use = omega arith;
  tmp_in_use = omega arith;
  held_in_use = λ a h. absurd (cc);
}

abbrev nobody : SubscribeList
nobody = record { subscribe_map = λ k. none; publish_map = λ fd. none }

abbrev service : Service
service = record {
  route = two_maps;
  last_load_time = 90;
  loops =
      record { online = 7 ∷ []; subscribed = subscribe nobody 7 (mod_key (pos 1) (pos 3)) } ∷ [];
}

told_or_kept_example :
    ((changed : List ℕ) × (contains (mod_key (pos 1) (pos 3)) changed ≡ true)
      × AllTold
          (get_hosts (
            served
              (round_on query execute 100
                (rows (pos 3 ∷ []))
                failed
                changes
                changes
                service).1.route))
          changed
          service.loops
          (round_on query execute 100 (rows (pos 3 ∷ [])) failed changes changes service).0)
    ⊎ Among fourth (round_on query execute 100 (rows (pos 3 ∷ [])) failed changes changes service).2
told_or_kept_example =
    told_or_kept query execute (λ d. d) 100 (pos 3) [] failed service two_maps-IsSound refl changes
      changes fourth (omega arith) refl (inr refl) (inr (inl refl)) (inr (inl refl))
