-- ===== src/Dns/Subscribe/Publishing.antt =====
-- Who hears of a change.
use lars_study.Prelude.{
  ℕ, ◌≡◌, refl, ap, sym, ◌∙◌, Bool, true, false, ◌||◌, ◌&&◌, List, [], ◌∷◌, map, Option, none, some,
  ◌==◌, if◌then◌else◌, ℤ, pos, eqb_ℤ, to_int, contains, emplace, erase, is_empty, contains-emplace,
  contains-erase, contains-is_empty, ==_refl, Bool-cases, Option-cases, inl, inr, arith, eqb_ℤ_eq,
  not, IsInt, int_bound, ◌<◌,
}
use lars_study.Dns.Key.{mod_key, cmdid_of, key_roundtrip}
use lars_study.Dns.Subscribe.{
  SubscribeList, set_fd, entry, subscribe, unsubscribe, collect, collect_all, make_publish_map,
  push_change_task, publish, watches, response, send_all,
}

-- A subscription adds its descriptor to the modules whose keys convert to the same `int`, and to no
-- others.
pub watches-subscribe :
    (s : SubscribeList) (fd modcmd i other : ℕ)
    → watches (subscribe s fd modcmd) i other
      ≡ (if eqb_ℤ (to_int other) (to_int modcmd) && (i == fd) then true else watches s i other)
unfolding subscribe
watches-subscribe s fd modcmd i other = elim (Bool-cases (eqb_ℤ (to_int other) (to_int modcmd))) [
  | inl same ↦
      rw
        (
          same,
          contains-emplace i fd (entry (s.subscribe_map (to_int modcmd))),
          eqb_ℤ_eq (to_int other) (to_int modcmd) same,
        )
        (ground arith)
  | inr differs ↦ rw differs
]

collect_lem :
    (p : ℕ → Option (List ℕ)) (modcmd : ℕ) (fds : List ℕ) (i other : ℕ)
    → contains other (entry (collect p modcmd fds i))
      ≡ (if contains i fds && (other == modcmd) then true else contains other (entry (p i)))
unfolding collect contains
collect_lem p modcmd [] i other = refl
collect_lem p modcmd (fd ∷ fds) i other =
    let q = set_fd p fd (some (emplace (entry (p fd)) modcmd)) in
    collect_lem q modcmd fds i other ∙ elim (Bool-cases (i == fd)) [
      | inl same ↦
          let e : i ≡ fd = ground arith in
          rw (same, contains-emplace other modcmd (entry (p fd)), e) (ground arith)
      | inr differs ↦ rw differs
    ]

collect_all_lem :
    (m : ℤ → Option (List ℕ)) (p : ℕ → Option (List ℕ)) (mods : List ℕ) (i other : ℕ)
    → contains other (entry (collect_all m p mods i)) ≡ (
        if contains other mods && contains i (entry (m (to_int other)))
        then true
        else contains other (entry (p i)))
unfolding collect_all contains
collect_all_lem m p [] i other = refl
collect_all_lem m p (modcmd ∷ mods) i other = elim (Option-cases (m (to_int modcmd))) [
  | inl nobody ↦ elim (Bool-cases (other == modcmd)) [
    | inl same ↦
        let e : other ≡ modcmd = ground arith in
        rw (collect_all, contains, nobody, collect_all_lem m p mods i other, same, e, nobody)
          (ground arith)
    | inr differs ↦ rw (collect_all, contains, nobody, collect_all_lem m p mods i other, differs)
  ]
  | inr (fds, some_fds) ↦ elim (Bool-cases (other == modcmd)) [
    | inl same ↦
        let e : other ≡ modcmd = ground arith in
        rw
          (
            collect_all,
            contains,
            some_fds,
            collect_all_lem m (collect p modcmd fds) mods i other,
            collect_lem p modcmd fds i other,
            same,
            e,
            some_fds,
          )
          (ground arith)
    | inr differs ↦
        rw
          (
            collect_all,
            contains,
            some_fds,
            collect_all_lem m (collect p modcmd fds) mods i other,
            collect_lem p modcmd fds i other,
            differs,
          )
          (ground arith)
  ]
]

-- The messages for a descriptor, if any.
abbrev pub sent_to {ℓ} : {A : Type ℓ} → ℕ → List (ℕ × List A) → List A
sent_to fd [] = []
sent_to fd ((i, l) ∷ rest) = if fd == i then l else sent_to fd rest

eq_of : (a b : ℕ) → (a == b) ≡ true → a ≡ b
eq_of a b h = ground arith

make_publish_map_lem :
    (online : List ℕ) (p : ℕ → Option (List ℕ)) (fd : ℕ)
    → (sent_to fd (make_publish_map online p).0 ≡ (if contains fd online then entry (p fd) else []))
      × ((make_publish_map online p).1 fd ≡ (if contains fd online then none else p fd))
unfolding make_publish_map contains
make_publish_map_lem [] p fd = (refl, refl)
make_publish_map_lem (i ∷ online) p fd = elim (Option-cases (p i)) [
  | inl nothing ↦
      let rest = make_publish_map_lem online p fd in
      elim (Bool-cases (fd == i)) [
        | inl same ↦
            let e : p fd ≡ none = ap p (eq_of fd i same) ∙ nothing in
            rw (make_publish_map, contains, nothing, same, rest.0, rest.1, e) (ground arith)
        | inr differs ↦ rw (make_publish_map, contains, nothing, differs) rest
      ]
  | inr (mods, waits) ↦
      let rest = make_publish_map_lem online (set_fd p i none) fd in
      elim (Bool-cases (fd == i)) [
        | inl same ↦
            let e : p fd ≡ some mods = ap p (eq_of fd i same) ∙ waits in
            rw (make_publish_map, contains, waits, same, rest.1, e) (ground arith)
        | inr differs ↦ rw (make_publish_map, contains, waits, differs) (rw differs at rest)
      ]
]

sent_to-send_all :
    (get_hosts : ℤ → ℤ → List ℕ) (need : List (ℕ × List ℕ)) (fd : ℕ)
    → sent_to fd (send_all get_hosts need) ≡ map (response get_hosts) (sent_to fd need)
sent_to-send_all get_hosts [] fd = refl
sent_to-send_all get_hosts ((i, mods) ∷ need) fd = elim (Bool-cases (fd == i)) [
  | inl same ↦ rw same
  | inr differs ↦ rw differs (sent_to-send_all get_hosts need fd)
]

-- An unsubscription takes its descriptor off the modules whose keys convert to the same `int`, and off
-- no others.
pub watches-unsubscribe :
    (s : SubscribeList) (fd modcmd i other : ℕ)
    → watches (unsubscribe s fd modcmd) i other
      ≡ (if eqb_ℤ (to_int other) (to_int modcmd) && (i == fd) then false else watches s i other)
unfolding unsubscribe contains
watches-unsubscribe s fd modcmd i other =
    let fds = entry (s.subscribe_map (to_int modcmd)) in
    elim (Bool-cases (eqb_ℤ (to_int other) (to_int modcmd))) [
      | inr differs ↦ rw differs
      | inl same ↦
          let e = eqb_ℤ_eq (to_int other) (to_int modcmd) same in
          let after = contains-erase i fd fds in
          elim (Bool-cases (is_empty (erase fds fd))) [
            | inl last ↦ elim (Bool-cases (i == fd)) [
              | inl self ↦ rw (same, last, self)
              | inr differs ↦
                  rw (same, last, differs, e)
                    (sym (contains-is_empty i (erase fds fd) last) ∙ after ∙ rw differs)
            ]
            | inr more ↦ rw (same, more, e, after) (ground arith)
          ]
    ]

-- Whether a descriptor is still to be told of a module, once the changes `mods` are known.
abbrev pub is_due : SubscribeList → List ℕ → ℕ → ℕ → Bool
is_due s mods fd modcmd =
    (contains modcmd mods && watches s fd modcmd) || contains modcmd (entry (s.publish_map fd))

pub publish_members :
    (get_hosts : ℤ → ℤ → List ℕ) (online : List ℕ) (s : SubscribeList) (mods : List ℕ) (fd : ℕ)
    → (due : List ℕ) × (sent_to fd (publish get_hosts online s mods).0
        ≡ map (response get_hosts) due)
      × ((m : ℕ) → contains m due ≡ (contains fd online && is_due s mods fd m))
      × ((m : ℕ)
          → contains m (entry ((publish get_hosts online s mods).1.publish_map fd))
            ≡ (not (contains fd online) && is_due s mods fd m))
unfolding publish push_change_task contains
publish_members get_hosts online s mods fd =
    let q = collect_all s.subscribe_map s.publish_map mods in
    let (sent, kept) = make_publish_map_lem online q fd in
    let all = collect_all_lem s.subscribe_map s.publish_map mods fd in
    (
      (if contains fd online then entry (q fd) else []),
      sent_to-send_all get_hosts (make_publish_map online q).0 fd
          ∙ ap (map (response get_hosts)) sent,
      λ m. elim (Bool-cases (contains fd online)) [
        | inl on ↦ rw (on, all m) (ground arith)
        | inr off ↦ rw off
      ],
      λ m. elim (Bool-cases (contains fd online)) [
        | inl on ↦ rw (kept, on)
        | inr off ↦ rw (kept, off, all m) (ground arith)
      ],
    )

-- No module is there twice.
abbrev pub IsDistinct : List ℕ → Type 0
IsDistinct [] = Unit {0}
IsDistinct (m ∷ l) = (contains m l ≡ false) × IsDistinct l

-- The sets of publish_map.
abbrev pub AllSets : (ℕ → Option (List ℕ)) → Type 0
AllSets p = (fd : ℕ) → IsDistinct (entry (p fd))

low_half : (m : ℤ) (c : ℕ) → IsInt m → c < int_bound → to_int (mod_key m (pos c)) ≡ pos c
low_half m c h k = unfold cmdid_of in (key_roundtrip m c h k).1

-- The 64-bit keys are cut to 32 bits in the map: whoever subscribes to one module's command hears of the
-- command of that number of every module.
pub subscribe_collides :
    (s : SubscribeList) (fd c : ℕ) (m n : ℤ)
    → IsInt m
    → IsInt n
    → c < int_bound
    → watches (subscribe s fd (mod_key m (pos c))) fd (mod_key n (pos c)) ≡ true
subscribe_collides s fd c m n hm hn hc =
    watches-subscribe s fd (mod_key m (pos c)) fd (mod_key n (pos c))
    ∙ rw (low_half n c hn hc, low_half m c hm hc, ==_refl c, ==_refl fd)
