-- ===== src/Dns/Changes/Table/Keeping.antt =====
-- Which changes are told, and which are kept.
use lars_study.Prelude.{
  ℕ, ap, eqb_ℤ, suc, ◌-◌, ◌≤◌, ◌<◌, ◌≡◌, ◌⊎◌, inl, inr, refl, sym, subst, true, false, List, [],
  ◌∷◌, ◌++◌, map, arith, ℤ, pos, negsuc, ltb_ℤ, take, take_all, length, length-append, Str, codes,
  print_int, length-decimal, power_of_ten, contains, if◌then◌else◌, Bool-cases, ==_refl,
}
use lars_study.Dns.Key.{mod_key}
use lars_study.Dns.Route.{Answer, Row, Tick, served, get_hosts, rows}
use lars_study.Dns.Route.Snapshot.{IsSound}
use lars_study.Dns.Changes.{Service, Sent}
use lars_study.Dns.Changes.Telling.{AllTold, round_tells}
use lars_study.Dns.Route.Lookup.{key_of, load_version-rows, load_changes_lem}
use lars_study.Dns.Changes.Table.{
  sql_size, select_changes, delete_changes, load_changes_of, remove_changes, round_on,
}

-- A row of RouteChange.
pub record Change : Type 0 where
  pub modid : ℤ
  pub cmdid : ℤ
  pub version : ℤ

abbrev pub Among : Change → List Change → Type 0
Among c [] = ⊥
Among c (d ∷ l) = (c ≡ d) ⊎ Among c l

-- The rows with `version <= v`, and the others.
abbrev pub up_to : ℤ → List Change → List Change
up_to v [] = []
up_to v (c ∷ l) = let rest = up_to v l in if ltb_ℤ v c.version then rest else c ∷ rest

abbrev pub beyond : ℤ → List Change → List Change
beyond v [] = []
beyond v (c ∷ l) = let rest = beyond v l in if ltb_ℤ v c.version then c ∷ rest else rest

abbrev pub keys : List Change → List (ℤ × ℤ)
keys [] = []
keys (c ∷ l) = (c.modid, c.cmdid) ∷ keys l

-- The values of `long`.
abbrev pub IsLong : ℤ → Type 0
IsLong (pos n) = n < 9223372036854775808
IsLong (negsuc n) = n < 9223372036854775808

length-print_int : (z : ℤ) → IsLong z → length (print_int z) ≤ 20
unfolding print_int power_of_ten
length-print_int (pos n) h = omega (arith, length-decimal 18 n (omega arith))
length-print_int (negsuc n) h = omega (arith, length-decimal 18 (suc n) (omega arith))

-- The statements, whole.
abbrev pub select_text : ℤ → Str
select_text v =
    codes "SELECT modid,cmdid FROM RouteChange WHERE version <= " ++ (print_int v ++ codes ";")

abbrev pub delete_text : ℤ → Str
delete_text v = codes "DELETE FROM RouteChange WHERE version <= " ++ (print_int v ++ codes ";")

statement_fits :
    (before : Str) (v : ℤ)
    → IsLong v
    → length before ≤ 100
    → take (sql_size - 1) (before ++ (print_int v ++ codes ";"))
      ≡ before ++ (print_int v ++ codes ";")
statement_fits before v h l = take_all 999 (before ++ (print_int v ++ codes ";")) (
    omega (
      arith,
      length-append before (print_int v ++ codes ";"),
      length-append (print_int v) (codes ";"),
      length-print_int v h,
    ))

select_whole : (v : ℤ) → IsLong v → select_changes v ≡ select_text v
unfolding select_changes
select_whole v h =
    statement_fits (codes "SELECT modid,cmdid FROM RouteChange WHERE version <= ") v h (omega arith)

delete_whole : (v : ℤ) → IsLong v → delete_changes false v ≡ delete_text v
unfolding delete_changes
delete_whole v h =
    statement_fits (codes "DELETE FROM RouteChange WHERE version <= ") v h (omega arith)

-- A row is told by its key, or its version is beyond.
told_or_beyond :
    (v : ℤ) (c : Change) (l : List Change)
    → Among c l
    → (contains (mod_key c.modid c.cmdid) (map key_of (keys (up_to v l))) ≡ true)
      ⊎ (ltb_ℤ v c.version ≡ true)
unfolding contains
told_or_beyond v c [] a = elim a [ ]
told_or_beyond v c (d ∷ l) (inl same) = elim (Bool-cases (ltb_ℤ v d.version)) [
  | inl later ↦ inr (subst (λ x. ltb_ℤ v (Change.version x) ≡ true) (sym same) later)
  | inr due ↦ inl (rw (due, same, ==_refl (mod_key d.modid d.cmdid)))
]
told_or_beyond v c (d ∷ l) (inr other) = elim (told_or_beyond v c l other) [
  | inr later ↦ inr later
  | inl told ↦ inl (elim (Bool-cases (ltb_ℤ v d.version)) [
    | inl later ↦ rw (later, told)
    | inr due ↦ rw (due, told) (ground arith)
  ])
]

Among-beyond :
    (v : ℤ) (c : Change) (l : List Change)
    → Among c l
    → ltb_ℤ v c.version ≡ true
    → Among c (beyond v l)
Among-beyond v c [] a h = elim a [ ]
Among-beyond v c (d ∷ l) (inl same) h =
    rw (subst (λ x. ltb_ℤ v (Change.version x) ≡ true) same h) (inl same)
Among-beyond v c (d ∷ l) (inr other) h = elim (Bool-cases (ltb_ℤ v d.version)) [
  | inl later ↦ rw later (inr (Among-beyond v c l other h))
  | inr due ↦ rw due (Among-beyond v c l other h)
]

module _ {D : Type 0} (query : Str → D → Answer (ℤ × ℤ)) (execute : Str → D → D)
    (table : D → List Change) where
  -- MySQL executes the SELECT of the version `v` on `d`, and the DELETE on `e`, where this may fail.
  abbrev pub Selects : ℤ → D → Type 0
  Selects v d = query (select_text v) d ≡ rows (keys (up_to v (table d)))

  abbrev pub Deletes : ℤ → D → Type 0
  Deletes v e =
      (table (execute (delete_text v) e) ≡ table e)
      ⊎ (table (execute (delete_text v) e) ≡ beyond v (table e))

  -- A change that the SELECT finds is read, or the DELETE keeps it.
  read_or_kept :
      (v : ℤ) (d e : D) (c : Change)
      → IsLong v
      → Selects v d
      → Deletes v e
      → Among c (table d)
      → Among c (table e)
      → (contains (mod_key c.modid c.cmdid) (load_changes_of query execute v d []) ≡ true)
        ⊎ Among c (table (remove_changes query execute false v e))
  unfolding load_changes_of remove_changes
  read_or_kept v d e c h selects deletes a b =
      rw (select_whole v h, delete_whole v h, selects, load_changes_lem)
        (elim (told_or_beyond v c (table d) a) [
          | inl told ↦ inl told
          | inr later ↦ inr (elim deletes [
            | inl same ↦ rw same b
            | inr rest ↦ rw rest (Among-beyond v c (table e) b later)
          ])
        ])

  -- A round that finds a new version, in a service whose route is sound.
  module _ (now : ℕ) (version : ℤ) (more : List ℤ) (route_rows : Answer Row) (s : Service)
      (sound : IsSound s.route) (new : eqb_ℤ version s.route.version ≡ false) (d e : D) where
    abbrev pub this_round : List Sent × Service × D
    this_round = round_on query execute now (rows (version ∷ more)) route_rows d e s

    round_on_lem :
        AllTold
          (get_hosts (served this_round.1.route))
          (load_changes_of query execute version d [])
          s.loops
          this_round.0
        × (this_round.2 ≡ remove_changes query execute false version e)
    unfolding round_on load_changes_of
    round_on_lem =
        let t : Tick = record {
          current_time = now;
          version_row = rows (version ∷ more);
          route_rows = route_rows;
          change_rows = query (select_changes version) d;
        } in
        let (at_version, told) = round_tells t s sound version more refl new in
        rw (round_on, load_version-rows version more s.route new)
          (told, ap (λ z. remove_changes query execute false z e) at_version)

    -- Where the SELECT of the round answers with the rows up to the version, and the DELETE of the
    -- round, made on a database that still has a change that the SELECT found, deletes the rows up to
    -- the version or fails: the round tells every client, on every loop, of the modules that it is due
    -- to hear of by a list of changes that has this one; or the change is still in the table.
    pub told_or_kept :
        (c : Change)
        → IsLong version
        → Selects version d
        → Deletes version e
        → Among c (table d)
        → Among c (table e)
        → ((changes : List ℕ) × (contains (mod_key c.modid c.cmdid) changes ≡ true)
            × AllTold (get_hosts (served this_round.1.route)) changes s.loops this_round.0)
          ⊎ Among c (table this_round.2)
    told_or_kept c h selects deletes a b =
        let (told, left) = round_on_lem in
        elim (read_or_kept version d e c h selects deletes a b) [
          | inl read ↦ inl (load_changes_of query execute version d [], read, told)
          | inr kept ↦ inr (rw left kept)
        ]
