-- ===== src/Agent/LoadBalance.antt =====
-- load_balance (lars_agent/include/load_balance.h, lars_agent/src/load_balance.cc): the hosts of one
-- module in two lists, those that are idle and those that are overloaded.
pub mod Rotation
pub mod Probing
mod Examples
use lars_study.Prelude.{
  ℕ, suc, zero, ◌+◌, ◌≤◌, Bool, true, false, not, ◌&&◌, List, [], ◌∷◌, ◌++◌, Option, none, some,
  if◌then◌else◌, ℤ, pos, to_u32, to_int, ltb_ℤ,
}

-- host_info (lars_agent/include/host_info.h).
pub record HostInfo : Type 0 where
  pub ip : ℕ
  pub port : ℕ
  pub vsucc : ℕ
  pub verr : ℕ
  pub rsucc : ℕ
  pub rerr : ℕ
  pub contin_succ : ℕ
  pub contin_err : ℕ
  pub overload : Bool

-- host_info::host_info(ip, port, init_vsucc)
abbrev pub host_info : ℕ → ℕ → ℕ → HostInfo
host_info ip port init_vsucc = record {
  ip = ip;
  port = port;
  vsucc = init_vsucc;
  verr = 0;
  rsucc = 0;
  rerr = 0;
  contin_succ = 0;
  contin_err = 0;
  overload = false;
}

-- What callers are answered: RET_SUCC, RET_OVERLOAD and RET_NOEXIST.
pub data LarsRetCode : Type 0 where
  ret_succ ret_overload ret_noexist : LarsRetCode

pub data Status : Type 0 where
  pulling new : Status

-- `host_map` is by ip and port. The constructor sets neither `status` nor `m_access_cnt`.
pub record LoadBalance : Type 0 where
  pub status : Option Status
  pub modid : ℤ
  pub cmdid : ℤ
  pub access_cnt : ℤ
  pub host_map : List (ℕ × HostInfo)
  pub idle_list : List HostInfo
  pub busy_list : List HostInfo

-- `++m_access_cnt` on an `int`, wrapping around.
unfoldable pub increment : ℤ → ℤ
increment n = to_int (to_u32 n + 1)

abbrev pub is_nil {ℓ} : {A : Type ℓ} → List A → Bool
is_nil [] = true
is_nil (x ∷ l) = false

-- The host information of the caller, and the list with its first moved to the end.
pub get_host_from_list : HostInfo → List HostInfo → HostInfo × List HostInfo
get_host_from_list h_info [] = (h_info, [])
get_host_from_list h_info (it ∷ l) = (record h_info { ip = it.ip; port = it.port }, l ++ it ∷ [])

-- `m_access_cnt = 0; get_host_from_list(h_info, m_busy_list)`
probe : HostInfo → LoadBalance → LarsRetCode × HostInfo × LoadBalance
probe h_info lb =
    let (h, l) = get_host_from_list h_info lb.busy_list in
    (ret_succ, h, record lb { access_cnt = pos 0; busy_list = l })

serve : HostInfo → LoadBalance → LarsRetCode × HostInfo × LoadBalance
serve h_info lb =
    let (h, l) = get_host_from_list h_info lb.idle_list in
    (ret_succ, h, record lb { access_cnt = increment lb.access_cnt; idle_list = l })

abbrev pub probe_num : ℕ
probe_num = 10

-- load_balance::choice_one_host
pub choice_one_host : HostInfo → LoadBalance → LarsRetCode × HostInfo × LoadBalance
unfolding probe serve
choice_one_host h_info lb =
    if is_nil lb.idle_list
    then if not (ltb_ℤ lb.access_cnt (pos probe_num))
      then probe h_info lb
      else (ret_overload, h_info, record lb { access_cnt = increment lb.access_cnt })
    else if not (is_nil lb.busy_list) && not (ltb_ℤ lb.access_cnt (pos probe_num))
    then probe h_info lb
    else serve h_info lb

abbrev pub load_balance : ℤ → ℤ → ℤ → LoadBalance
load_balance left_over modid cmdid = record {
  status = none;
  modid = modid;
  cmdid = cmdid;
  access_cnt = left_over;
  host_map = [];
  idle_list = [];
  busy_list = [];
}

-- What load_balance::pull changes of the load balancer, once it has handed its task to the loop of the
-- dns client, which has to be there.
unfoldable pub pull : LoadBalance → LoadBalance
pull lb = record lb { status = some pulling }

-- load_balance::update, whose body is empty.
unfoldable pub update : List HostInfo → LoadBalance → LoadBalance
update host_infos lb = lb

abbrev pub is_empty : LoadBalance → Bool
is_empty lb = is_nil lb.host_map
