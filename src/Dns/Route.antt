-- ===== src/Dns/Route.antt =====
-- route (lars_dns/include/dns_route.h, lars_dns/src/dns_route.cc): the hosts of each module. The two
-- maps are shared by reference with the threads that answer requests, so they are addresses in a
-- store; what MySQL answers to a query is an argument.
pub mod Lookup
pub mod Snapshot
pub mod Starting
mod Examples
use lars_study.Prelude.{
  ℕ, suc, ◌+◌, ◌*◌, ◌%◌, ◌/◌, ◌≤◌, ◌<◌, ◌≡◌, Bool, true, false, List, [], ◌∷◌, ◌++◌, map, Option,
  none, some, ◌==◌, if◌then◌else◌, leb, ℤ, pos, negsuc, eqb_ℤ, ltb_ℤ, to_u32, to_size, add64,
  u32_mod, u64_mod, contains, emplace, Outcome, ok, stop, exit_failure,
}
use lars_study.Dns.Key.{mod_key}

-- A row of RouteData, its columns read by `atoi`.
pub record Row : Type 0 where
  pub modid : ℤ
  pub cmdid : ℤ
  pub ip : ℤ
  pub port : ℤ

abbrev pub RouteMap : Type 0
RouteMap = ℕ → Option (List ℕ)

abbrev pub hosts_at : Option (List ℕ) → List ℕ
hosts_at none = []
hosts_at (some l) = l

-- ((uint64_t)ip << 32) + port, where `ip` is unsigned.
pub host_value : Row → ℕ
host_value r = add64 (to_u32 r.ip * u32_mod % u64_mod) (to_size r.port)

pub row_key : Row → ℕ
row_key r = mod_key r.modid r.cmdid

-- `(*m_tmp_pointer)[key].insert(value)` for each row.
pub load_rows : RouteMap → List Row → RouteMap
load_rows m [] = m
load_rows m (r ∷ l) =
    let k = row_key r in
    load_rows (λ i. if i == k then some (emplace (hosts_at (m k)) (host_value r)) else m i) l

-- What a query for rows answers: the query or its result fails, or rows come.
pub data Answer (A : Type 0) : Type 0 where
  failed : Answer A
  rows : List A → Answer A

-- The shared state. `heap` holds the maps, addresses from `next` on are not in use, and `holders`
-- counts the threads that hold an address besides the route itself, as use_count does. `version` is
-- `m_version`.
pub record Route : Type 0 where
  pub heap : ℕ → RouteMap
  pub next : ℕ
  pub data_pointer : ℕ
  pub tmp_pointer : ℕ
  pub holders : List ℕ
  pub version : ℤ

abbrev set_heap : (ℕ → RouteMap) → ℕ → RouteMap → ℕ → RouteMap
set_heap h a m i = if i == a then m else h i

-- The map that is served.
abbrev pub served : Route → RouteMap
served s = s.heap s.data_pointer

-- route::get_hosts, on the map that get_data_pointer returned.
pub get_hosts : RouteMap → ℤ → ℤ → List ℕ
get_hosts m modid cmdid = hosts_at (m (mod_key modid cmdid))

-- route::build_maps, which adds to what `m_data_pointer` points to; a query that fails ends the process.
pub build_maps : Answer Row → Route → Outcome Route
build_maps failed s = stop exit_failure
build_maps (rows l) s =
    ok (record s { heap = set_heap s.heap s.data_pointer (load_rows (s.heap s.data_pointer) l) })

-- The value returned and the state: 0 where the version is the one known, 1 where it is new, -1 where
-- there is no answer or no row.
pub load_version : Answer ℤ → Route → ℤ × Route
load_version failed s = (negsuc 0, s)
load_version (rows []) s = (negsuc 0, s)
load_version (rows (new_version ∷ l)) s =
    if eqb_ℤ new_version s.version then (pos 0, s) else (pos 1, record s { version = new_version })

-- `m_tmp_pointer` is cleared before the query.
pub load_route_data : Answer Row → Route → ℤ × Route
load_route_data failed s = (negsuc 0, record s { heap = set_heap s.heap s.tmp_pointer (λ k. none) })
load_route_data (rows l) s =
    (pos 0, record s { heap = set_heap s.heap s.tmp_pointer (load_rows (λ k. none) l) })

-- `load_changes` appends the key of each row.
pub load_changes : Answer (ℤ × ℤ) → List ℕ → List ℕ
load_changes failed change_list = change_list
load_changes (rows []) change_list = change_list
load_changes (rows ((modid, cmdid) ∷ l)) change_list =
    load_changes (rows l) (change_list ++ mod_key modid cmdid ∷ [])

-- `!m_data_pointer.unique()`
abbrev pub is_held : Route → Bool
is_held s = contains s.data_pointer s.holders

-- Where another thread holds the map, a copy of it takes its place before the two are exchanged.
pub swap : Route → Route
swap s =
    if is_held s
    then record s {
      heap = set_heap s.heap s.next (s.heap s.data_pointer);
      next = suc s.next;
      data_pointer = s.tmp_pointer;
      tmp_pointer = s.next;
    }
    else record s { data_pointer = s.tmp_pointer; tmp_pointer = s.data_pointer }

-- The members before the constructor's body does more than to make two empty maps.
abbrev pub two_maps : Route
two_maps = record {
  heap = λ a k. none;
  next = 2;
  data_pointer = 0;
  tmp_pointer = 1;
  holders = [];
  version = pos 0;
}

-- What the thread of check_route_changes sees in one round of its loop.
pub record Tick : Type 0 where
  pub current_time : ℕ
  pub version_row : Answer ℤ
  pub route_rows : Answer Row
  pub change_rows : Answer (ℤ × ℤ)

-- `load_route_data() == 0`, then `swap` and the time of loading.
reload : Tick → Route → ℕ → Route × ℕ
reload t s last_load_time =
    let (ret, s') = load_route_data t.route_rows s in
    if eqb_ℤ ret (pos 0) then (swap s', t.current_time) else (s', last_load_time)

-- The branch of a new version. The list is what is published to the subscribers; the rows up to the
-- version are then deleted from RouteChange.
pub on_change : Tick → Route → ℕ → Route × ℕ × Option (List ℕ)
unfolding reload
on_change t s last_load_time =
    let (s', loaded) = reload t s last_load_time in
    (s', loaded, some (load_changes t.change_rows []))

abbrev wait_time : ℕ
wait_time = 10

-- One round of check_route_changes: the state, the time of the last loading, and what is published.
pub check_route_changes : Tick → Route → ℕ → Route × ℕ × Option (List ℕ)
unfolding on_change
check_route_changes t s last_load_time =
    let (ret, s') = load_version t.version_row s in
    if eqb_ℤ ret (pos 1)
    then on_change t s' last_load_time
    else if leb (last_load_time + wait_time) t.current_time
    then (let (s'', loaded) = reload t s' last_load_time in (s'', loaded, none))
    else (s', last_load_time, none)
