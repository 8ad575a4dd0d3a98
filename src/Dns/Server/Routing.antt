-- ===== src/Dns/Server/Routing.antt =====
-- What a client of the dns service is told when it asks, and when a module changes.
use lars_study.Prelude.{
  ℕ, ◌≡◌, refl, Bool, true, List, map, ◌<◌, ℤ, pos, int_bound, IsInt, contains, ==_refl, ◌∙◌, sym,
}
use lars_study.Dns.Key.{mod_key, key_roundtrip}
use lars_study.Dns.Subscribe.{SubscribeList, GetRouteResponse, response, publish, watches}
use lars_study.Dns.Subscribe.Publishing.{sent_to, publish_members, watches-subscribe}
use lars_study.Dns.Route.{RouteMap, get_hosts}
use lars_study.Dns.Server.{GetRouteRequest, id_get_route_response, on_build, get_route}

-- A request is answered with the same message that a change of the module is published with, where its
-- cmdid is not negative and the two use the same map.
pub get_route_agrees :
    (parse : List ℕ → GetRouteRequest) (serialize : GetRouteResponse → List ℕ) (m : RouteMap)
    (data_bytes : List ℕ) (modid : ℤ) (cmdid : ℕ)
    → parse data_bytes ≡ record { modid = modid; cmdid = pos cmdid }
    → IsInt modid
    → cmdid < int_bound
    → get_route parse serialize m data_bytes
      ≡ (id_get_route_response, serialize (response (get_hosts m) (mod_key modid (pos cmdid))))
unfolding get_route response
get_route_agrees parse serialize m data_bytes modid cmdid e h k =
    let (high, low) = key_roundtrip modid cmdid h k in rw (e, high, low)

-- A new connection is told of each change of module 1, command 2, that is published while it is
-- online: among what it is sent is the answer for this module.
pub on_build-publish :
    (hosts : ℤ → ℤ → List ℕ) (online : List ℕ) (s : SubscribeList) (mods : List ℕ) (fd : ℕ)
    → contains fd online ≡ true
    → contains (mod_key (pos 1) (pos 2)) mods ≡ true
    → (due : List ℕ) × (sent_to fd (publish hosts online (on_build s fd) mods).0
        ≡ map (response hosts) due)
      × (contains (mod_key (pos 1) (pos 2)) due ≡ true)
unfolding on_build mod_key contains lars_study.Prelude.add64 lars_study.Prelude.to_size
    lars_study.Prelude.to_int
on_build-publish hosts online s mods fd on changed =
    let key = mod_key (pos 1) (pos 2) in
    let (due, sent, members, _) = publish_members hosts online (on_build s fd) mods fd in
    let subscribed : watches (on_build s fd) fd key ≡ true =
      watches-subscribe s fd key fd key ∙ rw (==_refl fd) in
    (due, sent, members key ∙ rw (on, changed, subscribed))
