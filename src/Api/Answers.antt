-- ===== src/Api/Answers.antt =====
-- Which response a call takes.
use lars_study.Prelude.{
  ℕ, ◌≤◌, ◌<◌, ◌≡◌, refl, ap, ◌∙◌, ◌⊎◌, inl, inr, false, List, [], ◌∷◌, ◌++◌, All, arith, ◌==◌,
  if◌then◌else◌, Bool-cases, ltb, lt→ltb, le→ltb, ne→==, ==_refl, subst, stop, undefined, ℤ, pos,
  eqb_ℤ, eqb_ℤ_eq, eqb_ℤ_refl, to_u32, length, take, drop, map, Outcome, ok,
}
use lars_study.Agent.UdpServer.{GetHostRequest, GetHostResponse}
use lars_study.Api.{
  LarsClient, RecvResult, datagram, failed, ret_system_error, read_size, inet_ntoa, check_response,
  receive,
}

-- The caller's variables are set where the response says RET_SUCC.
abbrev pub given : GetHostResponse → LarsClient → LarsClient
given resp c =
    if eqb_ℤ resp.retcode (pos 0)
    then record c { ip = inet_ntoa (to_u32 resp.host.ip); port = resp.host.port }
    else c

-- A response to the request itself.
abbrev pub Answers : GetHostRequest → GetHostResponse → Type 0
Answers req resp = (resp.seq ≡ req.seq) × (resp.modid ≡ req.modid) × (resp.cmdid ≡ req.cmdid)

pub check_response_lem :
    (req : GetHostRequest) (resp : GetHostResponse) (c : LarsClient)
    → Answers req resp
    → check_response req resp c ≡ (resp.retcode, given resp c)
unfolding check_response
check_response_lem req resp c (e, f, g) = elim (Bool-cases (eqb_ℤ resp.retcode (pos 0))) [
  | inl succ ↦ rw (e, f, g, ==_refl req.seq, eqb_ℤ_refl req.modid, eqb_ℤ_refl req.cmdid, succ)
  | inr other ↦ rw (e, f, g, ==_refl req.seq, eqb_ℤ_refl req.modid, eqb_ℤ_refl req.cmdid, other)
]

-- What a response can do.
abbrev Decides : GetHostRequest → GetHostResponse → LarsClient → ℤ × LarsClient → Type 0
Decides req resp c r =
    (r ≡ (ret_system_error, c)) ⊎ (Answers req resp × (r ≡ (resp.retcode, given resp c)))

check_response-Decides :
    (req : GetHostRequest) (resp : GetHostResponse) (c : LarsClient)
    → Decides req resp c (check_response req resp c)
unfolding check_response
check_response-Decides req resp c = elim (Bool-cases (resp.seq == req.seq)) [
  | inr other ↦ inl (rw other)
  | inl seq ↦ elim (Bool-cases (eqb_ℤ resp.modid req.modid)) [
    | inr other ↦ inl (rw (seq, other))
    | inl modid ↦ elim (Bool-cases (eqb_ℤ resp.cmdid req.cmdid)) [
      | inr other ↦ inl (rw (seq, modid, other))
      | inl cmdid ↦
          let a : Answers req resp = (
            ground arith,
            eqb_ℤ_eq resp.modid req.modid modid,
            eqb_ℤ_eq resp.cmdid req.cmdid cmdid,
          ) in
          inr (a, check_response_lem req resp c a)
    ]
  ]
]

module _ (serialize : GetHostRequest → List ℕ) (parse : List ℕ → GetHostResponse) where
  -- A whole response, of which the header is not looked at.
  abbrev pub response_of : List ℕ → GetHostResponse
  response_of bs = parse (drop 8 (take read_size bs))

  abbrev pub IsStale : GetHostRequest → List ℕ → Type 0
  IsStale req bs = (8 ≤ length (take read_size bs)) × ((response_of bs).seq < req.seq)

  receive_stale :
      (req : GetHostRequest) (old : List (List ℕ)) (rs : List RecvResult) (c : LarsClient)
      → All (IsStale req) old
      → receive serialize parse req (map datagram old ++ rs) c ≡ receive serialize parse req rs c
  unfolding receive
  receive_stale req [] rs c h = refl
  receive_stale req (bs ∷ old) rs c h =
      rw
        (
          ne→== (length (take read_size bs)) 0 (λ e. omega (arith, h.0.0, e)),
          le→ltb (length (take read_size bs)) 8 h.0.0,
          lt→ltb (response_of bs).seq req.seq h.0.1,
        )
        (receive_stale req old rs c h.1)

  -- Where answers to older requests come first, and then the answer to the request, all with a whole header,
  -- the older ones are skipped, and the answer gives the value returned and, on success, the address
  -- and the port, whatever comes behind.
  pub receive_answer :
      (req : GetHostRequest) (old : List (List ℕ)) (bs : List ℕ) (rs : List RecvResult)
      (c : LarsClient)
      → All (IsStale req) old
      → 8 ≤ length (take read_size bs)
      → Answers req (response_of bs)
      → receive serialize parse req (map datagram old ++ datagram bs ∷ rs) c
        ≡ ok ((response_of bs).retcode, given (response_of bs) c)
  unfolding receive
  receive_answer req old bs rs c h n a =
      let fresh : ltb (response_of bs).seq req.seq ≡ false =
        le→ltb (response_of bs).seq req.seq (omega (arith, a.0)) in
      receive_stale req old (datagram bs ∷ rs) c h
      ∙ rw (
        ne→== (length (take read_size bs)) 0 (λ e. omega (arith, n, e)),
        le→ltb (length (take read_size bs)) 8 n,
        fresh,
        check_response_lem req (response_of bs) c a,
      )

  -- Where the value and the client come from.
  abbrev pub Explains : GetHostRequest → List RecvResult → LarsClient → ℤ × LarsClient → Type 0
  Explains req rs c r =
      (r ≡ (ret_system_error, c))
      ⊎ ((before : List RecvResult) × (bs : List ℕ) × (after : List RecvResult) × (rs
            ≡ before ++ datagram bs ∷ after)
          × Answers req (response_of bs)
          × (r ≡ ((response_of bs).retcode, given (response_of bs) c)))

  Explains-cons :
      (req : GetHostRequest) (a : RecvResult) (rs : List RecvResult) (c : LarsClient)
      (r : ℤ × LarsClient)
      → Explains req rs c r
      → Explains req (a ∷ rs) c r
  Explains-cons req a rs c r (inl e) = inl e
  Explains-cons req a rs c r (inr (before, bs, after, e, w, f)) =
      inr (a ∷ before, bs, after, ap (◌∷◌ a) e, w, f)

  Explains-here :
      (req : GetHostRequest) (bs : List ℕ) (rs : List RecvResult) (c : LarsClient)
      (r : ℤ × LarsClient)
      → Decides req (response_of bs) c r
      → Explains req (datagram bs ∷ rs) c r
  Explains-here req bs rs c r (inl e) = inl e
  Explains-here req bs rs c r (inr (a, e)) = inr ([], bs, rs, refl, a, e)

  -- Whatever comes in, a call that returns has either failed with RET_SYSTEM_ERROR and left the caller's
  -- variables alone, or it returns what an answer to this very request says.
  pub receive-Explains :
      (req : GetHostRequest) (rs : List RecvResult) (c : LarsClient) (r : ℤ × LarsClient)
      → receive serialize parse req rs c ≡ ok r
      → Explains req rs c r
  unfolding receive
  receive-Explains req [] c r e = absurd (cc)
  receive-Explains req (failed ∷ rs) c r e = inl (cc)
  receive-Explains req (datagram bs ∷ rs) c r e =
      elim (Bool-cases (length (take read_size bs) == 0)) [
        | inl empty ↦ inl (cc (rw empty at e))
        | inr some_bytes ↦ elim (Bool-cases (ltb (length (take read_size bs)) 8)) [
          | inl short ↦
              let wrong : ◌≡◌ {A = Outcome (ℤ × LarsClient)} (stop undefined) (ok r) =
                (rw (some_bytes, short) at e) in
              absurd (cc)
          | inr whole ↦ elim (Bool-cases (ltb (response_of bs).seq req.seq)) [
            | inl stale ↦
                Explains-cons req (datagram bs) rs c r
                  (receive-Explains req rs c r (rw (some_bytes, whole, stale) at e))
            | inr fresh ↦
                let same : ok (check_response req (response_of bs) c) ≡ ok r =
                  (rw (some_bytes, whole, fresh) at e) in
                let eq : check_response req (response_of bs) c ≡ r = cc in
                Explains-here req bs rs c r (
                  subst (Decides req (response_of bs) c) eq
                    (check_response-Decides req (response_of bs) c))
          ]
        ]
      ]
