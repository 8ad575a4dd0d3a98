-- ===== src/Dns/Subscribe.antt =====
-- subscribe_list (lars_dns/include/subscribe.h, lars_dns/src/subscribe.cc): which connections of a
-- thread want to hear of which modules. The two maps are the thread's own.
pub mod Publishing
mod Examples
use lars_study.Prelude.{
  ℕ, ◌/◌, Bool, true, false, List, [], ◌∷◌, ◌++◌, map, Option, none, some, ◌==◌, if◌then◌else◌, ℤ,
  pos, negsuc, eqb_ℤ, to_int, u32_mod, contains, emplace, erase, is_empty,
}
use lars_study.Dns.Key.{modid_of, cmdid_of}

-- `subscribe_map` has keys of type `int`: a module's 64-bit key is converted to one. `publish_map` has
-- the 64-bit keys in its sets.
pub record SubscribeList : Type 0 where
  pub subscribe_map : ℤ → Option (List ℕ)
  pub publish_map : ℕ → Option (List ℕ)

-- `m[k]`: a missing key reads as an empty set.
abbrev pub entry : Option (List ℕ) → List ℕ
entry none = []
entry (some l) = l

abbrev set_key : (ℤ → Option (List ℕ)) → ℤ → Option (List ℕ) → ℤ → Option (List ℕ)
set_key f k v z = if eqb_ℤ z k then v else f z

abbrev set_fd : (ℕ → Option (List ℕ)) → ℕ → Option (List ℕ) → ℕ → Option (List ℕ)
set_fd f k v i = if i == k then v else f i

pub subscribe : SubscribeList → ℕ → ℕ → SubscribeList
subscribe s fd modcmd =
    let k = to_int modcmd in
    record s {
      subscribe_map = set_key s.subscribe_map k (some (emplace (entry (s.subscribe_map k)) fd));
    }

pub unsubscribe : SubscribeList → ℕ → ℕ → SubscribeList
unsubscribe s fd modcmd =
    let k = to_int modcmd in
    let fds = erase (entry (s.subscribe_map k)) fd in
    record s { subscribe_map = set_key s.subscribe_map k (if is_empty fds then none else some fds) }

-- The inner loop of `publish`.
collect : (ℕ → Option (List ℕ)) → ℕ → List ℕ → ℕ → Option (List ℕ)
collect p modcmd [] = p
collect p modcmd (fd ∷ fds) =
    collect (set_fd p fd (some (emplace (entry (p fd)) modcmd))) modcmd fds

-- The outer loop.
collect_all : (ℤ → Option (List ℕ)) → (ℕ → Option (List ℕ)) → List ℕ → ℕ → Option (List ℕ)
collect_all m p [] = p
collect_all m p (modcmd ∷ mods) = elim (m (to_int modcmd)) [
  | none ↦ collect_all m p mods
  | some fds ↦ collect_all m (collect p modcmd fds) mods
]

-- What `make_publish_map` moves out for the descriptors that are online, given in some order.
pub make_publish_map : List ℕ → (ℕ → Option (List ℕ)) → List (ℕ × List ℕ) × (ℕ → Option (List ℕ))
make_publish_map [] p = ([], p)
make_publish_map (fd ∷ online) p = elim (p fd) [
  | none ↦ make_publish_map online p
  | some mods ↦
      let (need, p') = make_publish_map online (set_fd p fd none) in ((fd, mods) ∷ need, p')
]

pub record HostInfo : Type 0 where
  pub ip : ℤ
  pub port : ℤ

-- lars::GetRouteResponse
pub record GetRouteResponse : Type 0 where
  pub modid : ℤ
  pub cmdid : ℤ
  pub host : List HostInfo

pub host_info : ℕ → HostInfo
host_info host = record { ip = to_int (host / u32_mod); port = to_int host }

-- The answer for a module; `get_hosts` is route::get_hosts.
unfoldable pub response : (ℤ → ℤ → List ℕ) → ℕ → GetRouteResponse
response get_hosts modcmd =
    let modid = modid_of modcmd in
    let cmdid = cmdid_of modcmd in
    record { modid = modid; cmdid = cmdid; host = map host_info (get_hosts modid cmdid) }

-- What is sent on each connection.
abbrev pub send_all : (ℤ → ℤ → List ℕ) → List (ℕ × List ℕ) → List (ℕ × List GetRouteResponse)
send_all get_hosts [] = []
send_all get_hosts ((fd, mods) ∷ need) =
    (fd, map (response get_hosts) mods) ∷ send_all get_hosts need

pub push_change_task :
    (ℤ → ℤ → List ℕ) → List ℕ → SubscribeList → List (ℕ × List GetRouteResponse) × SubscribeList
unfolding make_publish_map
push_change_task get_hosts online s =
    let (need, p) = make_publish_map online s.publish_map in
    (send_all get_hosts need, record s { publish_map = p })

-- subscribe_list::publish on a loop that listens to the descriptors `online`.
pub publish :
    (ℤ → ℤ → List ℕ)
    → List ℕ
    → SubscribeList
    → List ℕ
    → List (ℕ × List GetRouteResponse) × SubscribeList
unfolding collect collect_all push_change_task
publish get_hosts online s change_mods =
    push_change_task get_hosts online
      (record s { publish_map = collect_all s.subscribe_map s.publish_map change_mods })

-- Whether the descriptor is told of changes to the module.
abbrev pub watches : SubscribeList → ℕ → ℕ → Bool
watches s fd modcmd = contains fd (entry (s.subscribe_map (to_int modcmd)))
