-- ===== src/Agent/RouteLb/Answers.antt =====
-- What the agent answers over any sequence of requests and of updates from the dns service.
use lars_study.Prelude.{
  ℕ, ◌≡◌, refl, List, [], Option, none, some, ◌==◌, ℤ, ok, Bool-cases, Option-cases, inl, inr,
  subst,
}
use lars_study.Dns.Key.{mod_key}
use lars_study.Agent.LoadBalance.{
  HostInfo, LarsRetCode, ret_noexist, pulling, LoadBalance, load_balance, pull, update, is_nil,
}
use lars_study.Agent.RouteLb.{RouteLb, set_lb, ask, get_host, update_host}

-- A request, or an update.
pub data Step : RouteLb → RouteLb → Type 0 where
  asked :
      (m m' : RouteLb) (left_over modid cmdid : ℤ) (host host' : HostInfo) (ret : LarsRetCode)
      → get_host left_over modid cmdid host m ≡ ok (ret, host', m')
      → Step m m'
  updated :
      (m : RouteLb) (left_over modid cmdid : ℤ) (host_infos : List HostInfo)
      → Step m (update_host left_over modid cmdid host_infos m)

pub data Reach (m : RouteLb) : RouteLb → Type 0 where
  here : Reach m m
  next : {k l : RouteLb} → Reach m k → Step k l → Reach m l

-- A load balancer that waits for its hosts.
abbrev pub Waits : LoadBalance → Type 0
Waits lb = (lb.host_map ≡ []) × (lb.status ≡ some pulling)

-- Every load balancer waits for its hosts.
abbrev pub AllPulling : RouteLb → Type 0
AllPulling m = (k : ℕ) (lb : LoadBalance) → m k ≡ some lb → Waits lb

set_lb-AllPulling :
    (m : RouteLb) (k : ℕ) (new_lb : Option LoadBalance)
    → AllPulling m
    → ((lb : LoadBalance) → new_lb ≡ some lb → Waits lb)
    → AllPulling (set_lb m k new_lb)
set_lb-AllPulling m k new_lb v h i lb e = elim (Bool-cases (i == k)) [
  | inl same ↦ h lb (rw same at e)
  | inr other ↦ v i lb (rw other at e)
]

pull-Waits :
    (left_over modid cmdid : ℤ) (lb : LoadBalance)
    → some (pull (load_balance left_over modid cmdid)) ≡ some lb
    → Waits lb
unfolding pull
pull-Waits left_over modid cmdid lb e =
    let same : pull (load_balance left_over modid cmdid) ≡ lb = cc in subst Waits same (refl, refl)

-- Where every load balancer waits for its hosts, a request is answered with RET_NOEXIST and no host, and
-- they all still wait.
pub get_host_lem :
    (left_over modid cmdid : ℤ) (host : HostInfo) (m : RouteLb)
    → AllPulling m
    → (m' : RouteLb) × (get_host left_over modid cmdid host m ≡ ok (ret_noexist, host, m'))
      × AllPulling m'
unfolding get_host
get_host_lem left_over modid cmdid host m v = elim (Option-cases (m (mod_key modid cmdid))) [
  | inl missing ↦ (
    set_lb m (mod_key modid cmdid) (some (pull (load_balance left_over modid cmdid))),
    rw (get_host, missing),
    set_lb-AllPulling m (mod_key modid cmdid) _ v (pull-Waits left_over modid cmdid),
  )
  | inr (lb, there) ↦
      let (empty, waits) = v (mod_key modid cmdid) lb there in
      (m, rw (get_host, there, ask, empty, waits), v)
]

update_host-AllPulling :
    (left_over modid cmdid : ℤ) (host_infos : List HostInfo) (m : RouteLb)
    → AllPulling m
    → AllPulling (update_host left_over modid cmdid host_infos m)
unfolding update_host update pull
update_host-AllPulling left_over modid cmdid host_infos m v =
    elim (Option-cases (m (mod_key modid cmdid))) [
      | inl missing ↦
          rw (update_host, missing)
            (set_lb-AllPulling m (mod_key modid cmdid) _ v (pull-Waits left_over modid cmdid))
      | inr (lb, there) ↦ elim (Bool-cases (is_nil host_infos)) [
        | inl nothing ↦
            rw (update_host, there, nothing)
              (set_lb-AllPulling m (mod_key modid cmdid) none v (λ l e. absurd (cc)))
        | inr hosts ↦
            rw (update_host, there, hosts)
              (set_lb-AllPulling m (mod_key modid cmdid) _ v (λ l e.
                let same : lb ≡ l = cc in subst Waits same (v (mod_key modid cmdid) lb there)))
      ]
    ]

Step-AllPulling : {m k : RouteLb} → Step m k → AllPulling m → AllPulling k
Step-AllPulling (asked m m' left_over modid cmdid host host' ret e) v =
    let (l, f, w) = get_host_lem left_over modid cmdid host m v in
    let same : l ≡ m' = cc in subst AllPulling same w
Step-AllPulling (updated m left_over modid cmdid host_infos) v =
    update_host-AllPulling left_over modid cmdid host_infos m v

Reach-AllPulling : {m k : RouteLb} → AllPulling m → Reach m k → AllPulling k
Reach-AllPulling v here = v
Reach-AllPulling v (next r step) = Step-AllPulling step (Reach-AllPulling v r)

-- Started without load balancers, the agent never fails its assertion and never names a host: after any
-- requests and updates, whatever hosts these brought, each request is answered with RET_NOEXIST.
pub get_host_never :
    (m : RouteLb) (left_over modid cmdid : ℤ) (host : HostInfo)
    → Reach (λ k. none) m
    → (m' : RouteLb) × (get_host left_over modid cmdid host m ≡ ok (ret_noexist, host, m'))
get_host_never m left_over modid cmdid host r =
    let (m', e, _) =
      get_host_lem left_over modid cmdid host m (Reach-AllPulling (λ k lb e. absurd (cc)) r) in
    (m', e)
