-- ===== src/Dns/Route/Lookup.antt =====
-- What the routes answer after a round of the background thread.
use lars_study.Prelude.{
  ℕ, ◌≡◌, refl, sym, ap, ◌∙◌, Bool, false, ◌&&◌, ◌||◌, List, [], ◌∷◌, ◌++◌, map, append-nil,
  append_assoc, ◌==◌, if◌then◌else◌, arith, contains, contains-emplace, emplace, ==_refl,
  Bool-cases, inl, inr, ℤ, pos, eqb_ℤ, none, some,
}
use lars_study.Dns.Key.{mod_key}
use lars_study.Dns.Route.{
  Answer, Route, Row, failed, rows, RouteMap, Tick, hosts_at, host_value, row_key, load_rows,
  served, get_hosts, load_version, load_route_data, load_changes, swap, is_held, reload, on_change,
  check_route_changes, set_heap,
}
use lars_study.Dns.Route.Snapshot.{IsSound, set_other}

-- Whether a row lists the host for the module.
abbrev pub listed : List Row → ℕ → ℕ → Bool
listed [] k host = false
listed (r ∷ l) k host = (k == row_key r && host == host_value r) || listed l k host

load_rows_lem :
    (m : RouteMap) (l : List Row) (k host : ℕ)
    → contains host (hosts_at (load_rows m l k))
      ≡ (listed l k host || contains host (hosts_at (m k)))
unfolding load_rows
load_rows_lem m [] k host = refl
load_rows_lem m (r ∷ l) k host =
    let q : RouteMap = λ i.
      if i == row_key r then some (emplace (hosts_at (m (row_key r))) (host_value r)) else m i in
    load_rows_lem q l k host ∙ elim (Bool-cases (k == row_key r)) [
      | inl same ↦
          let e : k ≡ row_key r = ground arith in
          rw (same, contains-emplace host (host_value r) (hosts_at (m (row_key r))), e)
            (ground arith)
      | inr differs ↦ rw differs
    ]

abbrev pub key_of : ℤ × ℤ → ℕ
key_of (modid, cmdid) = mod_key modid cmdid

-- The keys of the rows, in their order.
pub load_changes_lem :
    (l : List (ℤ × ℤ)) (change_list : List ℕ)
    → load_changes (rows l) change_list ≡ change_list ++ map key_of l
unfolding load_changes
load_changes_lem [] change_list = sym (append-nil change_list)
load_changes_lem ((modid, cmdid) ∷ l) change_list =
    load_changes_lem l (change_list ++ mod_key modid cmdid ∷ [])
    ∙ append_assoc change_list (mod_key modid cmdid ∷ []) (map key_of l)

pub load_changes_failed : (change_list : List ℕ) → load_changes failed change_list ≡ change_list
unfolding load_changes
load_changes_failed change_list = refl

-- A map that was loaded from rows answers with exactly the hosts that the rows list for the module.
pub get_hosts-load_rows :
    (l : List Row) (modid cmdid : ℤ) (host : ℕ)
    → contains host (get_hosts (load_rows (λ k. none) l) modid cmdid)
      ≡ listed l (mod_key modid cmdid) host
unfolding get_hosts contains
get_hosts-load_rows l modid cmdid host =
    load_rows_lem (λ k. none) l (mod_key modid cmdid) host ∙ ground arith

swap-served : (s : Route) → IsSound s → served (swap s) ≡ s.heap s.tmp_pointer
unfolding swap
swap-served s v = elim (Bool-cases (is_held s)) [
  | inl held ↦ rw held (
      set_other s.heap s.next s.tmp_pointer (s.heap s.data_pointer)
        (λ e. omega (arith, v.tmp_in_use, e)))
  | inr free ↦ rw free
]

swap-version : (s : Route) → (swap s).version ≡ s.version
unfolding swap
swap-version s = elim (Bool-cases (is_held s)) [ inl held ↦ rw held | inr free ↦ rw free ]

module _ (t : Tick) (s : Route) (last_load_time : ℕ) (v : IsSound s) where
  -- A new version, and the rows can be read: from then on the rows are served, and the changed modules
  -- are published.
  pub check_route_changes_loads :
      (version : ℤ) (more : List ℤ) (l : List Row)
      → t.version_row ≡ rows (version ∷ more)
      → eqb_ℤ version s.version ≡ false
      → t.route_rows ≡ rows l
      → (s' : Route) × (check_route_changes t s last_load_time
          ≡ (s', t.current_time, some (load_changes t.change_rows [])))
        × (s'.version ≡ version)
        × ((modid cmdid : ℤ) (host : ℕ)
            → contains host (get_hosts (served s') modid cmdid)
              ≡ listed l (mod_key modid cmdid) host)
  unfolding check_route_changes load_version on_change reload load_route_data
  check_route_changes_loads version more l e new r =
      let s1 : Route = record s {
        version = version;
        heap = set_heap s.heap s.tmp_pointer (load_rows (λ k. none) l);
      } in
      let w : IsSound s1 = record {
        apart = v.apart;
        private = v.private;
        data_in_use = v.data_in_use;
        tmp_in_use = v.tmp_in_use;
        held_in_use = v.held_in_use;
      } in
      let fresh : served (swap s1) ≡ load_rows (λ k. none) l =
        swap-served s1 w ∙ rw (==_refl s.tmp_pointer) in
      (
        swap s1,
        rw (e, new, r),
        swap-version s1,
        λ modid cmdid host.
            ap (λ m. contains host (get_hosts m modid cmdid)) fresh
            ∙ get_hosts-load_rows l modid cmdid host,
      )

  -- A new version, and the rows cannot be read: the changed modules are published all the same, while
  -- the old map goes on being served, and the version counts as known.
  pub check_route_changes_fails :
      (version : ℤ) (more : List ℤ)
      → t.version_row ≡ rows (version ∷ more)
      → eqb_ℤ version s.version ≡ false
      → t.route_rows ≡ failed
      → (s' : Route) × (check_route_changes t s last_load_time
          ≡ (s', last_load_time, some (load_changes t.change_rows [])))
        × (s'.version ≡ version)
        × (served s' ≡ served s)
  unfolding check_route_changes load_version on_change reload load_route_data
  check_route_changes_fails version more e new r = (
    record s { version = version; heap = set_heap s.heap s.tmp_pointer (λ k. none) },
    rw (e, new, r),
    refl,
    set_other s.heap s.tmp_pointer s.data_pointer (λ k. none) (λ same. v.apart (sym same)),
  )

  publishes :
      (version : ℤ) (more : List ℤ) (a : Answer Row)
      → t.route_rows ≡ a
      → t.version_row ≡ rows (version ∷ more)
      → eqb_ℤ version s.version ≡ false
      → (s' : Route) × (loaded : ℕ) × (check_route_changes t s last_load_time
          ≡ (s', loaded, some (load_changes t.change_rows [])))
        × (s'.version ≡ version)
  publishes version more failed r e new =
      let (s', f, at_version, _) = check_route_changes_fails version more e new r in
      (s', last_load_time, f, at_version)
  publishes version more (rows l) r e new =
      let (s', f, at_version, _) = check_route_changes_loads version more l e new r in
      (s', t.current_time, f, at_version)

  -- A new version is published whether or not its rows can be read.
  pub check_route_changes_publishes :
      (version : ℤ) (more : List ℤ)
      → t.version_row ≡ rows (version ∷ more)
      → eqb_ℤ version s.version ≡ false
      → (s' : Route) × (loaded : ℕ) × (check_route_changes t s last_load_time
          ≡ (s', loaded, some (load_changes t.change_rows [])))
        × (s'.version ≡ version)
  check_route_changes_publishes version more = publishes version more t.route_rows refl

pub load_version-rows :
    (version : ℤ) (more : List ℤ) (s : Route)
    → eqb_ℤ version s.version ≡ false
    → load_version (rows (version ∷ more)) s ≡ (pos 1, record s { version = version })
unfolding load_version
load_version-rows version more s new = rw new
