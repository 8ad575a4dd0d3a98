-- ===== src/Dns/Changes/Telling.antt =====
-- What the subscribers are told in a round.
use lars_study.Prelude.{ℕ, ◌≡◌, refl, ◌&&◌, false, List, [], ◌∷◌, map, contains, ℤ, eqb_ℤ}
use lars_study.Dns.Key.{mod_key}
use lars_study.Dns.Subscribe.{response}
use lars_study.Dns.Subscribe.Publishing.{is_due, sent_to, publish_members}
use lars_study.Dns.Route.{Row, Tick, failed, rows, served, get_hosts, load_changes}
use lars_study.Dns.Route.Snapshot.{IsSound}
use lars_study.Dns.Route.Lookup.{
  listed, check_route_changes_loads, check_route_changes_fails, check_route_changes_publishes,
}
use lars_study.Dns.Changes.{Loop, Service, Sent, publish_all, told, round}

-- A descriptor of the loop is sent one answer, with the hosts, for each module it is due to hear of, and
-- nothing where the loop does not listen to it.
abbrev pub Told : (ℤ → ℤ → List ℕ) → List ℕ → Loop → Sent → ℕ → Type 0
Told hosts changes l sent fd =
    (due : List ℕ) × (sent_to fd sent ≡ map (response hosts) due)
    × ((m : ℕ) → contains m due ≡ (contains fd l.online && is_due l.subscribed changes fd m))

abbrev pub AllTold : (ℤ → ℤ → List ℕ) → List ℕ → List Loop → List Sent → Type 0
AllTold hosts changes [] [] = Unit {0}
AllTold hosts changes (l ∷ ls) (sent ∷ sents) =
    ((fd : ℕ) → Told hosts changes l sent fd) × AllTold hosts changes ls sents
AllTold hosts changes [] (sent ∷ sents) = ⊥
AllTold hosts changes (l ∷ ls) [] = ⊥

publish_all-AllTold :
    (hosts : ℤ → ℤ → List ℕ) (changes : List ℕ) (ls : List Loop)
    → AllTold hosts changes ls (publish_all hosts changes ls).0
unfolding publish_all
publish_all-AllTold hosts changes [] = tt
publish_all-AllTold hosts changes (l ∷ ls) = (
  λ fd.
      let (due, sent, members, _) = publish_members hosts l.online l.subscribed changes fd in
      (due, sent, members),
  publish_all-AllTold hosts changes ls,
)

module _ (t : Tick) (s : Service) (v : IsSound s.route) where
  -- With a sound route, in a round that finds a new version and can read its rows, every loop tells each client that is
  -- connected to it of each module that it is due to hear of, with exactly the hosts that the new
  -- rows list for the module. The round leaves the service at the new version and with these hosts.
  pub round_loads :
      (version : ℤ) (more : List ℤ) (l : List Row)
      → t.version_row ≡ rows (version ∷ more)
      → eqb_ℤ version s.route.version ≡ false
      → t.route_rows ≡ rows l
      → ((round t s).1.route.version ≡ version)
        × ((round t s).1.last_load_time ≡ t.current_time)
        × ((modid cmdid : ℤ) (host : ℕ)
            → contains host (get_hosts (served (round t s).1.route) modid cmdid)
              ≡ listed l (mod_key modid cmdid) host)
        × AllTold
            (get_hosts (served (round t s).1.route))
            (load_changes t.change_rows [])
            s.loops
            (round t s).0
  unfolding round told
  round_loads version more l e new r =
      let (r', f, at_version, hosts) =
        check_route_changes_loads t s.route s.last_load_time v version more l e new r in
      let changes = load_changes t.change_rows [] in
      rw (round, f)
        (at_version, refl, hosts, publish_all-AllTold (get_hosts (served r')) changes s.loops)

  -- With a sound route, in a round that finds a new version and cannot read its rows, the version counts as known, and the
  -- clients are told of each module that they are due to hear of with the hosts of the old map.
  pub round_fails :
      (version : ℤ) (more : List ℤ)
      → t.version_row ≡ rows (version ∷ more)
      → eqb_ℤ version s.route.version ≡ false
      → t.route_rows ≡ failed
      → ((round t s).1.route.version ≡ version)
        × ((round t s).1.last_load_time ≡ s.last_load_time)
        × (served (round t s).1.route ≡ served s.route)
        × AllTold
            (get_hosts (served (round t s).1.route))
            (load_changes t.change_rows [])
            s.loops
            (round t s).0
  unfolding round told
  round_fails version more e new r =
      let (r', f, at_version, same) =
        check_route_changes_fails t s.route s.last_load_time v version more e new r in
      let changes = load_changes t.change_rows [] in
      rw (round, f)
        (at_version, refl, same, publish_all-AllTold (get_hosts (served r')) changes s.loops)

  -- In a round that finds a new version, the changes that were read are told, whether or not the rows
  -- of the version could be read.
  pub round_tells :
      (version : ℤ) (more : List ℤ)
      → t.version_row ≡ rows (version ∷ more)
      → eqb_ℤ version s.route.version ≡ false
      → ((round t s).1.route.version ≡ version)
        × AllTold
            (get_hosts (served (round t s).1.route))
            (load_changes t.change_rows [])
            s.loops
            (round t s).0
  unfolding round told
  round_tells version more e new =
      let (r', loaded, f, at_version) =
        check_route_changes_publishes t s.route s.last_load_time v version more e new in
      let changes = load_changes t.change_rows [] in
      rw (round, f) (at_version, publish_all-AllTold (get_hosts (served r')) changes s.loops)
