-- ===== src/Api/Sockets.antt =====
-- The socket of a call.
use lars_study.Prelude.{
  ℕ, zero, suc, ◌+◌, ◌<◌, ◌≡◌, ap, sym, ◌∙◌, subst, bind_ok, Bool, true, List, ◌∷◌, Option, some,
  ltb, ◌%◌, ◌==◌, ◌&&◌, ℤ, pos, negsuc, get_elem?, int_bound, ok, arith, Bool-cases, Option-cases,
  inl, inr,
}
use lars_study.Net.Socket.{create_socket}
use lars_study.Api.{connect_socks, lars_client, index_of, sum, sock_index}

-- The socket `i` behind the socket `j`.
abbrev IsConnected : (ℕ → Option ℕ) → (ℕ → Bool) → List (ℕ × ℕ) → ℕ → ℕ → Type 0
IsConnected socket connected socks j i =
    (fd : ℕ) × (socket (j + i) ≡ some fd)
    × (connected (j + i) ≡ true)
    × (get_elem? socks i ≡ some (fd, 8888 + (j + i)))

first-IsConnected :
    (socket : ℕ → Option ℕ) (connected : ℕ → Bool) (fd j : ℕ) (socks : List (ℕ × ℕ))
    → socket j ≡ some fd
    → connected j ≡ true
    → IsConnected socket connected ((fd, 8888 + j) ∷ socks) j 0
first-IsConnected socket connected fd j socks e f =
    let same : j + 0 ≡ j = omega arith in
    (fd, ap socket same ∙ e, ap connected same ∙ f, ap (λ k. some (fd, 8888 + k)) (sym same))

later-IsConnected :
    (socket : ℕ → Option ℕ) (connected : ℕ → Bool) (first : ℕ × ℕ) (j : ℕ) (socks : List (ℕ × ℕ))
    (i : ℕ)
    → IsConnected socket connected socks (suc j) i
    → IsConnected socket connected (first ∷ socks) j (suc i)
later-IsConnected socket connected first j socks i (fd, e, f, g) =
    let same : j + suc i ≡ suc j + i = omega arith in
    (fd, ap socket same ∙ e, ap connected same ∙ f, g ∙ ap (λ k. some (fd, 8888 + k)) (sym same))

-- The first socket, and the others.
connect_socks-suc :
    (socket : ℕ → Option ℕ) (connected : ℕ → Bool) (n j : ℕ) (socks : List (ℕ × ℕ))
    → connect_socks socket connected (suc n) j ≡ ok socks
    → (fd : ℕ) × (rest : List (ℕ × ℕ)) × (socket j ≡ some fd)
      × (connected j ≡ true)
      × (connect_socks socket connected n (suc j) ≡ ok rest)
      × ((fd, 8888 + j) ∷ rest ≡ socks)
unfolding connect_socks create_socket
connect_socks-suc socket connected n j socks e = elim (Option-cases (socket j)) [
  | inl missing ↦ absurd (cc (rw missing at e))
  | inr (fd, there) ↦ elim (Bool-cases (connected j)) [
    | inr refused ↦ absurd (cc (rw (there, refused) at e))
    | inl taken ↦
        let (rest, f, same) =
          bind_ok (connect_socks socket connected n (suc j)) (λ l. (fd, 8888 + j) ∷ l) socks
            (rw (there, taken) at e) in
        (fd, rest, there, taken, f, same)
  ]
]

connect_socks-IsConnected :
    (socket : ℕ → Option ℕ) (connected : ℕ → Bool) (n j : ℕ) (socks : List (ℕ × ℕ)) (i : ℕ)
    → connect_socks socket connected n j ≡ ok socks
    → i < n
    → IsConnected socket connected socks j i
connect_socks-IsConnected socket connected zero j socks i e h = absurd (omega arith)
connect_socks-IsConnected socket connected (suc n) j socks zero e h =
    let (fd, rest, there, taken, f, same) = connect_socks-suc socket connected n j socks e in
    subst (λ l. IsConnected socket connected l j 0) same
      (first-IsConnected socket connected fd j rest there taken)
connect_socks-IsConnected socket connected (suc n) j socks (suc i) e h =
    let (fd, rest, there, taken, f, same) = connect_socks-suc socket connected n j socks e in
    subst (λ l. IsConnected socket connected l j (suc i)) same
      (later-IsConnected socket connected (fd, 8888 + j) j rest i
        (connect_socks-IsConnected socket connected n (suc j) rest i f (omega arith)))

index_of-lt : (z : ℤ) (i : ℕ) → index_of z ≡ some i → i < 3
unfolding index_of
index_of-lt (pos n) i e = elim (Bool-cases (ltb n int_bound)) [
  | inl fits ↦ let same : n % 3 ≡ i = cc (rw fits at e) in omega arith
  | inr large ↦ absurd (cc (rw large at e))
]
index_of-lt (negsuc n) i e = elim (Bool-cases (ltb n int_bound && suc n % 3 == 0)) [
  | inl fits ↦ let same : 0 ≡ i = cc (rw fits at e) in omega arith
  | inr other ↦ absurd (cc (rw other at e))
]

-- Where the constructor returns and the index of a call's socket is defined, this is one of the three
-- sockets, which the kernel has connected to the port 8888 and the index.
pub lars_client-sock_index :
    (socket : ℕ → Option ℕ) (connected : ℕ → Bool) (socks : List (ℕ × ℕ)) (modid cmdid : ℤ) (i : ℕ)
    → lars_client socket connected ≡ ok socks
    → sock_index modid cmdid ≡ some i
    → (i < 3)
      × ((fd : ℕ) × (socket i ≡ some fd)
          × (connected i ≡ true)
          × (get_elem? socks i ≡ some (fd, 8888 + i)))
unfolding lars_client sock_index
lars_client-sock_index socket connected socks modid cmdid i e f =
    let h = index_of-lt (sum modid cmdid) i f in
    (
      h,
      subst
          (λ k.
            (fd : ℕ) × (socket k ≡ some fd)
            × (connected k ≡ true)
            × (get_elem? socks i ≡ some (fd, 8888 + k)))
          (omega arith) (connect_socks-IsConnected socket connected 3 0 socks i e h),
    )
