-- ===== src/Dns/Route/Examples.antt =====
-- One module, and new rows while a thread reads the old map.
use lars_study.Prelude.{◌≡◌, refl, [], ◌∷◌, none, pos, contains, arith}
use lars_study.Dns.Route.{Route, Row, rows, load_route_data, swap}
use lars_study.Dns.Route.Snapshot.{
  IsSound, Step-IsSound, acquired, loaded, swapped, here, next, Holding-same,
}

abbrev row : Row
row = record { modid = pos 1; cmdid = pos 2; ip = pos 16777343; port = pos 7777 }

abbrev start : Route
start = record {
  heap = λ a k. none;
  next = 2;
  data_pointer = 0;
  tmp_pointer = 1;
  holders = [];
  version = pos 0;
}

start-IsSound : IsSound start
unfolding contains
start-IsSound = record {
  apart = λ e. omega (arith, e);
  private = refl;
  data_in_use = omega arith;
  tmp_in_use = omega arith;
  held_in_use = λ a h. absurd (cc);
}

abbrev held : Route
held = record start { holders = 0 ∷ [] }

-- The thread takes the map, and the rows are loaded and exchanged meanwhile.
Holding-same_example :
    ((swap (load_route_data (rows (row ∷ [])) held).1).heap 0 ≡ held.heap 0)
    × IsSound (swap (load_route_data (rows (row ∷ [])) held).1)
unfolding contains load_route_data
Holding-same_example = Holding-same 0 held-IsSound (
    next (next here refl (loaded held (rows (row ∷ [])))) refl
      (swapped (load_route_data (rows (row ∷ [])) held).1))
  where
    held-IsSound : IsSound held
    held-IsSound = Step-IsSound (acquired start) start-IsSound
