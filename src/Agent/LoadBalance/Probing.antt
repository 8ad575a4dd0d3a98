-- ===== src/Agent/LoadBalance/Probing.antt =====
-- The overloaded hosts get their chance at every eleventh call.
use lars_study.Prelude.{
  ℕ, suc, zero, ◌+◌, ◌≤◌, ◌<◌, ◌≡◌, inr, refl, ap, ◌∙◌, List, [], ◌∷◌, ◌++◌, arith, pos, length,
  replicate, lt→ltb,
}
use lars_study.Agent.LoadBalance.{
  HostInfo, ret_succ, ret_overload, LoadBalance, get_host_from_list, probe, probe_num,
  choice_one_host,
}
use lars_study.Agent.LoadBalance.Rotation.{Reply, calls, named, increment_lem, serve_lem}

calls_snoc :
    (k : ℕ) (h : HostInfo) (lb : LoadBalance)
    → calls (suc k) h lb ≡ (
        let (l, m) = calls k h lb in
        let (ret, h', m') = choice_one_host h m in (l ++ (ret, h') ∷ [], m'))
unfolding calls
calls_snoc zero h lb = refl
calls_snoc (suc k) h lb =
    let lb' = (choice_one_host h lb).2 in
    ap
      (λ (r : List Reply × LoadBalance).
        (((choice_one_host h lb).0, (choice_one_host h lb).1) ∷ r.0, r.1))
      (calls_snoc k h lb')

turned_away :
    (c : ℕ) (h : HostInfo) (lb : LoadBalance)
    → lb.idle_list ≡ []
    → lb.access_cnt ≡ pos c
    → c < probe_num
    → choice_one_host h lb ≡ (ret_overload, h, record lb { access_cnt = pos (suc c) })
unfolding choice_one_host
turned_away c h lb e a s = rw (e, a, lt→ltb c probe_num s, increment_lem c (omega arith))

calls_overloaded :
    (k c : ℕ) (h : HostInfo) (lb : LoadBalance)
    → lb.idle_list ≡ []
    → lb.access_cnt ≡ pos c
    → c + k ≤ probe_num
    → calls k h lb ≡ (replicate k (ret_overload, h), record lb { access_cnt = pos (c + k) })
unfolding calls
calls_overloaded zero c h lb e a s = let z : c + 0 ≡ c = omega arith in rw (z, ← a)
calls_overloaded (suc k) c h lb e a s =
    let one = turned_away c h lb e a (omega arith) in
    let rest =
      calls_overloaded k (suc c) h (record lb { access_cnt = pos (suc c) }) e refl (omega arith) in
    let n : suc c + k ≡ c + suc k = omega arith in rw (one, rest, n)

-- Without an idle host, ten calls after a probe are turned away, and the next is given the first
-- overloaded host, which goes to the end of its list; the count starts again.
pub every_eleventh_overloaded :
    (h b : HostInfo) (bs : List HostInfo) (lb : LoadBalance)
    → lb.idle_list ≡ []
    → lb.busy_list ≡ b ∷ bs
    → lb.access_cnt ≡ pos 0
    → calls (suc probe_num) h lb ≡ (
      replicate probe_num (ret_overload, h) ++ named h b ∷ [],
      record lb { access_cnt = pos 0; busy_list = bs ++ b ∷ [] },
    )
every_eleventh_overloaded h b bs lb e f a =
    calls_snoc probe_num h lb
    ∙ rw (calls_overloaded probe_num 0 h lb e a (omega arith))
        (unfold choice_one_host probe get_host_from_list in rw (e, f))

-- The answers to calls that find an idle host and do not pass the threshold.
abbrev pub AllSucceed : List Reply → Type 0
AllSucceed [] = Unit
AllSucceed ((ret, h) ∷ l) = (ret ≡ ret_succ) × AllSucceed l

snoc_cons :
    (l : List HostInfo) (it : HostInfo)
    → (x : HostInfo) × (m : List HostInfo) × (l ++ it ∷ [] ≡ x ∷ m)
snoc_cons [] it = (it, [], refl)
snoc_cons (x ∷ l) it = (x, l ++ it ∷ [], refl)

calls_quiet :
    (k c : ℕ) (h it : HostInfo) (l : List HostInfo) (lb : LoadBalance)
    → lb.idle_list ≡ it ∷ l
    → lb.access_cnt ≡ pos c
    → c + k ≤ probe_num
    → (replies : List Reply) × (x : HostInfo) × (m : List HostInfo) × (calls k h lb
        ≡ (replies, record lb { access_cnt = pos (c + k); idle_list = x ∷ m }))
      × AllSucceed replies
      × (length replies ≡ k)
unfolding calls
calls_quiet zero c h it l lb e a s =
    let z : c + 0 ≡ c = omega arith in ([], it, l, rw (z, ← e, ← a), tt, refl)
calls_quiet (suc k) c h it l lb e a s =
    let (y, m, f) = snoc_cons l it in
    let lb' : LoadBalance = record lb { access_cnt = pos (suc c); idle_list = l ++ it ∷ [] } in
    let one = serve_lem h it l lb c e a (omega arith) (inr (omega arith)) in
    let (rest, x, m', g, all, n) = calls_quiet k (suc c) h y m lb' f refl (omega arith) in
    let o : suc c + k ≡ c + suc k = omega arith in
    (named h it ∷ rest, x, m', rw (one, g, o), (refl, all), ap suc n)

-- With idle and overloaded hosts, ten calls after a probe succeed without one, and the next is given the first
-- overloaded host, which goes to the end of its list; the count starts again.
pub every_eleventh_idle :
    (h it b : HostInfo) (l bs : List HostInfo) (lb : LoadBalance)
    → lb.idle_list ≡ it ∷ l
    → lb.busy_list ≡ b ∷ bs
    → lb.access_cnt ≡ pos 0
    → (replies : List Reply) × (idle : List HostInfo) × (calls (suc probe_num) h lb ≡ (
      replies ++ named h b ∷ [],
      record lb { access_cnt = pos 0; idle_list = idle; busy_list = bs ++ b ∷ [] },
    ))
      × AllSucceed replies
      × (length replies ≡ probe_num)
every_eleventh_idle h it b l bs lb e f a =
    let (replies, x, m, g, all, n) = calls_quiet probe_num 0 h it l lb e a (omega arith) in
    (
      replies,
      x ∷ m,
      calls_snoc probe_num h lb ∙ rw g (unfold choice_one_host probe get_host_from_list in rw f),
      all,
      n,
    )
