-- ===== src/Reporter/Pool/Handing.antt =====
-- Which reports reach a thread.
use lars_study.Prelude.{
  ℕ, zero, suc, ◌<◌, ◌≡◌, refl, ap, sym, ◌∙◌, Bool-cases, inl, inr, List, [], ◌∷◌, ◌++◌,
  append_assoc, map, append-nil, All, arith, Option, none, some, leb, lt→leb, if◌then◌else◌, length,
  get_elem?, natural, to_int, Str, codes, Outcome, ok, ◌>>=◌,
}
use lars_study.Config.Load.{ConfigFile}
use lars_study.Config.Values.{get_number}
use lars_study.Net.ThreadPool.{get_next_loop}
use lars_study.Net.ThreadPool.RoundRobin.{
  start_lem, start-All, start-thread_num, start-no_threads, start-main_loop,
}
use lars_study.Reporter.Store.{ReportStatusRequest}
use lars_study.Reporter.Pool.{StorePool, store_thread_pool, start_pool, add_task, get_report_status}

-- Reports that arrive one after the other.
pub handle_all : (Str → ReportStatusRequest) → List Str → StorePool → Outcome StorePool
handle_all parse [] s = ok s
handle_all parse (body ∷ bodies) s = do
  s' ← get_report_status parse body s
  handle_all parse bodies s'

abbrev IsThere : Option ℕ → Type 0
IsThere none = ⊥
IsThere (some l) = Unit {0}

-- Each thread of the pool has its loop.
pub record IsStarted (s : StorePool) : Type 0 where
  pub some_threads : 0 < s.loop_pool.thread_num
  pub each_loop : s.loop_pool.thread_num ≡ length s.loop_pool.loops
  pub there : All IsThere s.loop_pool.loops

abbrev pub reports : StorePool → List ReportStatusRequest
reports s = map (λ t. t.1) s.tasks

get_elem?-IsThere :
    (loops : List (Option ℕ)) (i : ℕ)
    → All IsThere loops
    → i < length loops
    → (l : ℕ) × (get_elem? loops i ≡ some (some l))
get_elem?-IsThere [] i h k = absurd (omega arith)
get_elem?-IsThere (none ∷ loops) zero h k = absurd h.0
get_elem?-IsThere (some l ∷ loops) zero h k = (l, refl)
get_elem?-IsThere (o ∷ loops) (suc i) h k = get_elem?-IsThere loops i h.1 (omega arith)

-- A started pool gives a loop, and only its place in the turn changes.
next_loop :
    (s : StorePool)
    → IsStarted s
    → (l n : ℕ) × (get_next_loop s.loop_pool ≡ ok (some l, record s.loop_pool { next = n }))
unfolding get_next_loop
next_loop s v =
    let p = s.loop_pool in
    elim (Bool-cases (leb p.thread_num p.next)) [
      | inl wrap ↦
          let (l, e) =
            get_elem?-IsThere p.loops 0 v.there (omega (arith, v.some_threads, v.each_loop)) in
          (l, 1, rw (lt→leb p.thread_num 0 v.some_threads, wrap, e))
      | inr inside ↦
          let (l, e) = get_elem?-IsThere p.loops p.next v.there (ground (arith, v.each_loop)) in
          (l, suc p.next, rw (lt→leb p.thread_num 0 v.some_threads, inside, e))
    ]

map-append_one :
    (ts : List (ℕ × ReportStatusRequest)) (l : ℕ) (req : ReportStatusRequest)
    → map (λ t. t.1) (ts ++ (l, req) ∷ []) ≡ map (λ t. t.1) ts ++ req ∷ []
map-append_one [] l req = refl
map-append_one (t ∷ ts) l req = ap (◌∷◌ t.1) (map-append_one ts l req)

handle_all_lem :
    (parse : Str → ReportStatusRequest) (bodies : List Str) (s : StorePool)
    → IsStarted s
    → (s' : StorePool) × (handle_all parse bodies s ≡ ok s')
      × (reports s' ≡ reports s ++ map parse bodies)
unfolding handle_all get_report_status add_task
handle_all_lem parse [] s v = (s, refl, sym (append-nil (reports s)))
handle_all_lem parse (body ∷ bodies) s v =
    let (l, n, e) = next_loop s v in
    let t : StorePool = record {
      loop_pool = record s.loop_pool { next = n };
      tasks = s.tasks ++ (l, parse body) ∷ [];
    } in
    let w : IsStarted t = record {
      some_threads = v.some_threads;
      each_loop = v.each_loop;
      there = v.there;
    } in
    let (s', f, all) = handle_all_lem parse bodies t w in
    (
      s',
      rw e f,
      all
          ∙ ap (λ rs. rs ++ map parse bodies) (map-append_one s.tasks l (parse body))
          ∙ append_assoc (reports s) (parse body ∷ []) (map parse bodies),
    )

-- Without threads there is no loop either.
handle_all_dropped :
    (parse : Str → ReportStatusRequest) (bodies : List Str) (s : StorePool)
    → s.loop_pool.thread_num ≡ 0
    → s.loop_pool.main_loop ≡ none
    → handle_all parse bodies s ≡ ok s
unfolding handle_all get_report_status add_task
handle_all_dropped parse [] s h k = refl
handle_all_dropped parse (body ∷ bodies) s h k =
    let p = s.loop_pool in
    let nothing : get_next_loop p ≡ ok (none, p) =
      start-no_threads p h ∙ ap (λ (m : Option ℕ). ok (m, p)) k in
    rw nothing (handle_all_dropped parse bodies s h k)

-- The number of threads in the settings.
abbrev pub threads_of : ConfigFile → ℕ
threads_of c = natural (to_int (get_number c (codes "repoter") (codes "db_thread_cnt") 3))

-- Once the pool is started, each report that arrives is handed to one of its threads, and the order is
-- kept, where the settings ask for threads. Where they ask for none, every report is dropped.
pub handle_all-reports :
    (c : ConfigFile) (started : ℕ → ℕ) (parse : Str → ReportStatusRequest) (bodies : List Str)
    → (s : StorePool) × (handle_all parse bodies (start_pool started (store_thread_pool c)) ≡ ok s)
      × (reports s ≡ (if leb (threads_of c) 0 then [] else map parse bodies))
unfolding store_thread_pool start_pool
handle_all-reports c started parse bodies =
    let n = threads_of c in
    let loops : ℕ → Option ℕ = λ i. some (started i) in
    let s = start_pool started (store_thread_pool c) in
    let count = start-thread_num none loops n in
    elim (Bool-cases (leb n 0)) [
      | inl no_threads ↦
          let z : n ≡ 0 = ground arith in
          (
            s,
            handle_all_dropped parse bodies s (count ∙ z) (start-main_loop none loops n),
            rw no_threads,
          )
      | inr threads ↦
          let v : IsStarted s = record {
            some_threads = ground (arith, count);
            each_loop = count ∙ sym (start_lem none loops n);
            there = start-All IsThere none loops n (λ i. tt);
          } in
          let (s', e, all) = handle_all_lem parse bodies s v in (s', e, rw threads all)
    ]
