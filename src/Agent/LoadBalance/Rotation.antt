-- ===== src/Agent/LoadBalance/Rotation.antt =====
-- Calls that follow one another.
use lars_study.Prelude.{
  ℕ, suc, zero, ◌+◌, ◌≤◌, ◌<◌, ◌≡◌, ◌⊎◌, inl, inr, refl, sym, ap, ◌∙◌, List, [], ◌∷◌, ◌++◌,
  append_assoc, append-nil, map, arith, pos, length, to_int_small, to_u32_pos, int_bound, lt→ltb,
  Bool-cases,
}
use lars_study.Agent.LoadBalance.{
  HostInfo, LarsRetCode, ret_succ, LoadBalance, is_nil, increment, get_host_from_list, serve,
  probe_num, choice_one_host,
}

-- What a caller is answered: the code and its host information.
abbrev pub Reply : Type 0
Reply = LarsRetCode × HostInfo

-- `k` calls, each with the host information `h`.
unfoldable pub calls : ℕ → HostInfo → LoadBalance → List Reply × LoadBalance
calls zero h lb = ([], lb)
calls (suc k) h lb =
    let (ret, h', lb') = choice_one_host h lb in
    let (rest, last) = calls k h lb' in ((ret, h') ∷ rest, last)

-- The answer that names a host.
abbrev pub named : HostInfo → HostInfo → Reply
named h it = (ret_succ, record h { ip = it.ip; port = it.port })

pub increment_lem : (c : ℕ) → suc c < int_bound → increment (pos c) ≡ pos (suc c)
unfolding increment
increment_lem c h =
    rw (to_u32_pos c (omega arith)) (to_int_small (c + 1) (omega arith) ∙ ap pos (omega arith))

-- No overloaded host is tried while there is none or the count is below the threshold.
pub serve_lem :
    (h it : HostInfo) (l : List HostInfo) (lb : LoadBalance) (c : ℕ)
    → lb.idle_list ≡ it ∷ l
    → lb.access_cnt ≡ pos c
    → suc c < int_bound
    → (lb.busy_list ≡ []) ⊎ (c < probe_num)
    → choice_one_host h lb ≡ (
      ret_succ,
      record h { ip = it.ip; port = it.port },
      record lb { access_cnt = pos (suc c); idle_list = l ++ it ∷ [] },
    )
unfolding choice_one_host serve get_host_from_list
serve_lem h it l lb c e a s (inl nobody) = rw (e, a, nobody, increment_lem c s)
serve_lem h it l lb c e a s (inr early) = elim (Bool-cases (is_nil lb.busy_list)) [
  | inl nobody ↦ rw (e, a, lt→ltb c probe_num early, increment_lem c s, nobody)
  | inr somebody ↦ rw (e, a, lt→ltb c probe_num early, increment_lem c s, somebody)
]

-- While no overloaded host is to be tried, each of the first idle hosts is named once, in order, and
-- they go to the end of the list in that order.
pub calls_idle :
    (h : HostInfo) (xs ys : List HostInfo) (lb : LoadBalance) (c : ℕ)
    → lb.idle_list ≡ xs ++ ys
    → lb.access_cnt ≡ pos c
    → c + length xs < int_bound
    → (lb.busy_list ≡ []) ⊎ (c + length xs ≤ probe_num)
    → calls (length xs) h lb
      ≡ (map (named h) xs, record lb { access_cnt = pos (c + length xs); idle_list = ys ++ xs })
unfolding calls
calls_idle h [] ys lb c e a s quiet =
    let z : c + 0 ≡ c = omega arith in rw (append-nil, z, ← e, ← a)
calls_idle h (x ∷ xs) ys lb c e a s quiet =
    let lb' : LoadBalance = record lb {
      access_cnt = pos (suc c);
      idle_list = (xs ++ ys) ++ x ∷ [];
    } in
    let one =
      serve_lem h x (xs ++ ys) lb c e a (omega arith)
        (elim quiet [ inl nobody ↦ inl nobody | inr few ↦ inr (omega arith) ]) in
    let rest =
      calls_idle h xs (ys ++ x ∷ []) lb' (suc c) (append_assoc xs ys (x ∷ [])) refl (omega arith)
        (elim quiet [ inl nobody ↦ inl nobody | inr few ↦ inr (omega arith) ]) in
    let n : suc c + length xs ≡ c + suc (length xs) = omega arith in
    let o = append_assoc ys (x ∷ []) xs in rw (one, rest, n, o)

-- As many calls as there are idle hosts name each of them once, in order, and leave the list as it
-- was, where there is no overloaded host or the threshold is not passed meanwhile.
pub full_turn :
    (h : HostInfo) (lb : LoadBalance) (c : ℕ)
    → lb.access_cnt ≡ pos c
    → c + length lb.idle_list < int_bound
    → (lb.busy_list ≡ []) ⊎ (c + length lb.idle_list ≤ probe_num)
    → calls (length lb.idle_list) h lb
      ≡ (map (named h) lb.idle_list, record lb { access_cnt = pos (c + length lb.idle_list) })
full_turn h lb c a s quiet =
    calls_idle h lb.idle_list [] lb c (sym (append-nil lb.idle_list)) a s quiet
