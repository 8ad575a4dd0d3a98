-- ===== src/Agent/RouteLb.antt =====
-- route_lb (lars_agent/include/route_lb.h, lars_agent/src/route_lb.cc): the load balancers of the
-- modules, by the 64-bit key of the module.
pub mod Answers
use lars_study.Prelude.{
  ℕ, Bool, true, false, List, [], ◌∷◌, Option, none, some, ◌==◌, if◌then◌else◌, ℤ, Outcome, ok,
  stop, assert_failed,
}
use lars_study.Dns.Key.{mod_key}
use lars_study.Agent.LoadBalance.{
  HostInfo, LarsRetCode, ret_noexist, Status, pulling, new, LoadBalance, is_nil, is_empty,
  load_balance, pull, update, choice_one_host,
}

-- `m_lb_map`
abbrev pub RouteLb : Type 0
RouteLb = ℕ → Option LoadBalance

abbrev pub set_lb : RouteLb → ℕ → Option LoadBalance → RouteLb
set_lb m k lb i = if i == k then lb else m i

abbrev is_pulling : Option Status → Bool
is_pulling (some pulling) = true
is_pulling _ = false

-- A module that is asked for: where hosts are there, one of them is chosen; otherwise the assertion
-- says that they are on their way.
ask : ℕ → HostInfo → RouteLb → LoadBalance → Outcome (LarsRetCode × HostInfo × RouteLb)
ask mod_cmd host m lb =
    if is_empty lb
    then (if is_pulling lb.status then ok (ret_noexist, host, m) else stop assert_failed)
    else let (ret, host', lb') = choice_one_host host lb in
      ok (ret, host', set_lb m mod_cmd (some lb'))

-- route_lb::get_host. `left_over` is what a new load_balance has in `m_access_cnt`.
pub get_host : ℤ → ℤ → ℤ → HostInfo → RouteLb → Outcome (LarsRetCode × HostInfo × RouteLb)
unfolding ask
get_host left_over modid cmdid host m =
    let mod_cmd = mod_key modid cmdid in
    elim (m mod_cmd) [
      | none ↦
          ok
            (ret_noexist, host, set_lb m mod_cmd (some (pull (load_balance left_over modid cmdid))))
      | some lb ↦ ask mod_cmd host m lb
    ]

-- route_lb::update_host
pub update_host : ℤ → ℤ → ℤ → List HostInfo → RouteLb → RouteLb
update_host left_over modid cmdid host_infos m =
    let mod_cmd = mod_key modid cmdid in
    elim (m mod_cmd) [
      | none ↦ set_lb m mod_cmd (some (pull (load_balance left_over modid cmdid)))
      | some lb ↦
          if is_nil host_infos
          then set_lb m mod_cmd none
          else set_lb m mod_cmd (some (update host_infos lb))
    ]
