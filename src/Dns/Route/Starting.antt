-- ===== src/Dns/Route/Starting.antt =====
-- route::route (lars_dns/src/dns_route.cc): what is served at first.
use lars_study.Prelude.{
  ℕ, ◌≡◌, refl, ap, ◌∙◌, Bool, true, List, [], ◌∷◌, Option, none, arith, contains, ℤ, eqb_ℤ,
  Bool-cases, inl, inr, Outcome, ok, ◌>>=◌,
}
use lars_study.Config.Load.{ConfigFile}
use lars_study.Config.Database.{DbSettings}
use lars_study.Dns.Key.{mod_key}
use lars_study.Dns.Database.{connect_db}
use lars_study.Dns.Route.{
  Row, Answer, failed, rows, Route, two_maps, served, get_hosts, load_rows, build_maps,
  load_version, set_heap,
}
use lars_study.Dns.Route.Snapshot.{IsSound, Step-IsSound, versioned}
use lars_study.Dns.Route.Lookup.{listed, get_hosts-load_rows}

-- The constructor up to the start of its thread. `connected` is whether mysql_real_connect succeeds.
pub route : (DbSettings → Bool) → ConfigFile → Answer Row → Answer ℤ → Outcome Route
route connected c route_rows version_row = do
  settings ← connect_db connected c
  s ← build_maps route_rows two_maps
  ok (load_version version_row s).1

load_version-served : (q : Answer ℤ) (s : Route) → served (load_version q s).1 ≡ served s
unfolding load_version
load_version-served failed s = refl
load_version-served (rows []) s = refl
load_version-served (rows (v ∷ l)) s = elim (Bool-cases (eqb_ℤ v s.version)) [
  | inl known ↦ rw known
  | inr new ↦ rw new
]

-- The state is sound, and the rows are served.
abbrev pub Starts : List Row → Route → Type 0
Starts l s =
    IsSound s
    × ((modid cmdid : ℤ) (host : ℕ)
        → contains host (get_hosts (served s) modid cmdid) ≡ listed l (mod_key modid cmdid) host)

built-IsSound : (heap : ℕ → ℕ → Option (List ℕ)) → IsSound (record two_maps { heap = heap })
unfolding contains
built-IsSound heap = record {
  apart = λ e. omega (arith, e);
  private = refl;
  data_in_use = omega arith;
  tmp_in_use = omega arith;
  held_in_use = λ a h. absurd (cc);
}

-- With a database that can be connected to and rows that can be read, the constructor returns in a sound
-- state, in which each module has exactly the hosts that the rows list for it, whatever version is
-- read.
pub route-Starts :
    (connected : DbSettings → Bool) (c : ConfigFile) (l : List Row) (version_row : Answer ℤ)
    → ((settings : DbSettings) → connected settings ≡ true)
    → (s : Route) × (route connected c (rows l) version_row ≡ ok s) × Starts l s
unfolding route connect_db build_maps
route-Starts connected c l version_row up =
    let built : Route = record two_maps {
      heap = set_heap two_maps.heap 0 (load_rows (λ k. none) l);
    } in
    let same : served built ≡ load_rows (λ k. none) l = refl in
    (
      (load_version version_row built).1,
      rw up,
      (
        Step-IsSound (versioned built version_row) (built-IsSound built.heap),
        λ modid cmdid host.
            ap (λ m. contains host (get_hosts m modid cmdid))
              (load_version-served version_row built ∙ same)
            ∙ get_hosts-load_rows l modid cmdid host,
      ),
    )
