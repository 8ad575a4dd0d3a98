-- ===== src/Agent/LoadBalance/Examples.antt =====
-- Two idle hosts.
use lars_study.Prelude.{◌≡◌, refl, [], ◌∷◌, none, pos, arith, inl}
use lars_study.Agent.LoadBalance.{HostInfo, host_info, LoadBalance}
use lars_study.Agent.LoadBalance.Rotation.{calls, named, full_turn}

abbrev unknown : HostInfo
unknown = host_info 0 0 0

abbrev first : HostInfo
first = host_info 16777343 7777 180

abbrev second : HostInfo
second = host_info 33554559 7777 180

abbrev idle_only : LoadBalance
idle_only = record {
  status = none;
  modid = pos 1;
  cmdid = pos 2;
  access_cnt = pos 0;
  host_map = [];
  idle_list = first ∷ second ∷ [];
  busy_list = [];
}

full_turn_example :
    calls 2 unknown idle_only
    ≡ (named unknown first ∷ named unknown second ∷ [], record idle_only { access_cnt = pos 2 })
full_turn_example = full_turn unknown idle_only 0 refl (omega arith) (inl refl)
