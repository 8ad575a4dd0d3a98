-- ===== src/Dns/Route/Snapshot.antt =====
-- Threads that answer requests read a map while the background thread reloads the routes.
use lars_study.Prelude.{
  ℕ, ◌<◌, ◌≡◌, ◌≢◌, refl, sym, ap, ◌∙◌, true, false, List, [], ◌∷◌, ◌==◌, arith, contains, ne→==,
  Bool-cases, inl, inr, ℤ, eqb_ℤ,
}
use lars_study.Dns.Route.{
  Route, Row, Answer, failed, rows, RouteMap, load_version, load_route_data, swap, is_held,
  set_heap,
}

-- The map that is filled next is nobody's: it is not the one that is served, and no thread holds it.
pub record IsSound (s : Route) : Type 0 where
  pub apart : s.tmp_pointer ≢ s.data_pointer
  pub private : contains s.tmp_pointer s.holders ≡ false
  pub data_in_use : s.data_pointer < s.next
  pub tmp_in_use : s.tmp_pointer < s.next
  pub held_in_use : (a : ℕ) → contains a s.holders ≡ true → a < s.next

-- What may happen between two instructions of any thread: a thread takes the map that is served
-- (get_data_pointer), threads let maps go, or the background thread reads the version, loads the
-- rows, or exchanges the maps under the lock.
pub data Step : Route → Route → Type 0 where
  acquired : (s : Route) → Step s (record s { holders = s.data_pointer ∷ s.holders })
  released :
      (s : Route) (left : List ℕ)
      → ((a : ℕ) → contains a left ≡ true → contains a s.holders ≡ true)
      → Step s (record s { holders = left })
  versioned : (s : Route) (q : Answer ℤ) → Step s (load_version q s).1
  loaded : (s : Route) (q : Answer Row) → Step s (load_route_data q s).1
  swapped : (s : Route) → Step s (swap s)

pub set_other : (h : ℕ → RouteMap) (a b : ℕ) (m : RouteMap) → b ≢ a → set_heap h a m b ≡ h b
set_other h a b m e = rw (ne→== b a e)

held_apart : (s : Route) (a : ℕ) → IsSound s → contains a s.holders ≡ true → a ≢ s.tmp_pointer
held_apart s a v h e = cc (ap (λ x. contains x s.holders) e, h, v.private)

load_version_same :
    (s : Route) (q : Answer ℤ)
    → ((load_version q s).1.heap ≡ s.heap) × (IsSound s → IsSound (load_version q s).1)
unfolding load_version
load_version_same s failed = (refl, λ v. v)
load_version_same s (rows []) = (refl, λ v. v)
load_version_same s (rows (x ∷ l)) = elim (Bool-cases (eqb_ℤ x s.version)) [
  | inl known ↦ rw known (refl, λ v. v)
  | inr new ↦ rw new (
    refl,
    λ v. record {
      apart = v.apart;
      private = v.private;
      data_in_use = v.data_in_use;
      tmp_in_use = v.tmp_in_use;
      held_in_use = v.held_in_use;
    },
  )
]

pub Step-IsSound : {s t : Route} → Step s t → IsSound s → IsSound t
unfolding load_route_data swap contains
Step-IsSound (acquired s) v = record {
  apart = v.apart;
  private = rw (ne→== s.tmp_pointer s.data_pointer v.apart) v.private;
  data_in_use = v.data_in_use;
  tmp_in_use = v.tmp_in_use;
  held_in_use = λ a h. elim (Bool-cases (a == s.data_pointer)) [
    | inl same ↦ let e : a ≡ s.data_pointer = ground arith in rw e v.data_in_use
    | inr other ↦ v.held_in_use a (rw other at h)
  ];
}
Step-IsSound (released s left fewer) v = record {
  apart = v.apart;
  private = elim (Bool-cases (contains s.tmp_pointer left)) [
    | inl held ↦ absurd (cc (fewer s.tmp_pointer held, v.private))
    | inr free ↦ free
  ];
  data_in_use = v.data_in_use;
  tmp_in_use = v.tmp_in_use;
  held_in_use = λ a h. v.held_in_use a (fewer a h);
}
Step-IsSound (versioned s q) v = (load_version_same s q).1 v
Step-IsSound (loaded s failed) v = record {
  apart = v.apart;
  private = v.private;
  data_in_use = v.data_in_use;
  tmp_in_use = v.tmp_in_use;
  held_in_use = v.held_in_use;
}
Step-IsSound (loaded s (rows l)) v = record {
  apart = v.apart;
  private = v.private;
  data_in_use = v.data_in_use;
  tmp_in_use = v.tmp_in_use;
  held_in_use = v.held_in_use;
}
Step-IsSound (swapped s) v = elim (Bool-cases (is_held s)) [
  | inl held ↦ rw held (record {
    apart = λ e. omega (arith, v.tmp_in_use, e);
    private = elim (Bool-cases (contains s.next s.holders)) [
      | inl h ↦ absurd (omega (arith, v.held_in_use s.next h))
      | inr free ↦ free
    ];
    data_in_use = omega (arith, v.tmp_in_use);
    tmp_in_use = omega arith;
    held_in_use = λ a h. omega (arith, v.held_in_use a h);
  })
  | inr free ↦ rw free (record {
    apart = λ e. v.apart (sym e);
    private = free;
    data_in_use = v.tmp_in_use;
    tmp_in_use = v.data_in_use;
    held_in_use = v.held_in_use;
  })
]

pub Step-held :
    {s t : Route} (a : ℕ) → Step s t → IsSound s → contains a s.holders ≡ true → t.heap a ≡ s.heap a
unfolding load_route_data swap
Step-held a (acquired s) v h = refl
Step-held a (released s left fewer) v h = refl
Step-held a (versioned s q) v h = ap (λ k. k a) (load_version_same s q).0
Step-held a (loaded s failed) v h = set_other s.heap s.tmp_pointer a _ (held_apart s a v h)
Step-held a (loaded s (rows l)) v h = set_other s.heap s.tmp_pointer a _ (held_apart s a v h)
Step-held a (swapped s) v h = elim (Bool-cases (is_held s)) [
  | inl held ↦
      rw held (
        set_other s.heap s.next a (s.heap s.data_pointer)
          (λ e. omega (arith, v.held_in_use a h, e)))
  | inr free ↦ rw free
]

-- A thread holds `a` from the first state to the last.
pub data Holding (a : ℕ) (s : Route) : Route → Type 0 where
  here : Holding a s s
  next : {t u : Route} → Holding a s t → contains a t.holders ≡ true → Step t u → Holding a s u

-- From a sound state on, as long as a thread holds a map, the map it reads stays as it is,
-- whatever the other threads do; and the state stays sound: the map that is filled next is
-- nobody's.
pub Holding-same :
    (a : ℕ) {s t : Route} → IsSound s → Holding a s t → (t.heap a ≡ s.heap a) × IsSound t
Holding-same a v here = (refl, v)
Holding-same a v (next r h step) =
    let (same, w) = Holding-same a v r in (Step-held a step w h ∙ same, Step-IsSound step w)
