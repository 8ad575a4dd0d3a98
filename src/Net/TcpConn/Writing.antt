-- ===== src/Net/TcpConn/Writing.antt =====
-- tcp_conn::handle_write: from the output buffer to the socket.
use lars_study.Prelude.{
  ℕ, ◌≡◌, ◌⊎◌, inl, inr, ap, sym, ◌∙◌, List, [], ◌++◌, append_assoc, arith, pos, eqb_ℤ, length,
  length-append, Yields, Yields-bind, Bool-cases,
}
use lars_study.Buffer.Pool
use lars_study.Buffer.ReactorBuf.{Ready, Held, bytes_of, buf_length}
use lars_study.Buffer.InputBuf.Reading.{Ready-Held}
use lars_study.Buffer.OutputBuf.{WriteResult, Drained, drain, Offered}
use lars_study.Buffer.OutputBuf.Draining.{Drains, drain-Yields}
use lars_study.Net.Frames.{Inbound}
use lars_study.Net.TcpConn.{Conn, connected, disconnected, written, unlisten, handle_write}
use lars_study.Net.TcpConn.Closing.{close_lem}
use lars_study.Net.TcpConn.Sending.{IsArmed, empty_lem}

-- What a call leaves. The connection is open, and what the socket has taken and what still waits are
-- together, in order, what they were; or the socket failed, the connection is closed, and what was
-- not taken is dropped.
abbrev pub Flushes : Inbound Conn → Inbound Conn → Type 0
Flushes i j =
    Pool.IsValid j.pool
    × Held j.ibuf
    × Ready j.rest.obuf
    × (((j.rest.state ≡ connected)
          × (j.rest.wire ++ bytes_of j.rest.obuf ≡ i.rest.wire ++ bytes_of i.rest.obuf)
          × (IsArmed i.rest → IsArmed j.rest))
        ⊎ ((j.rest.state ≡ disconnected)
            × ((lost : List ℕ) × (i.rest.wire ++ bytes_of i.rest.obuf ≡ j.rest.wire ++ lost))))

-- Once nothing waits, EPOLLOUT may go.
unlisten-IsArmed :
    (i : Inbound Conn) → Ready i.rest.obuf → IsArmed i.rest → IsArmed (unlisten i).rest
unfolding unlisten
unlisten-IsArmed i r a = elim (Bool-cases (eqb_ℤ (buf_length i.rest.obuf) (pos 0))) [
  | inl done ↦ rw done (λ l. absurd (omega (arith, empty_lem i.rest.obuf r done)))
  | inr more ↦ rw more a
]

unlisten_same :
    (i : Inbound Conn)
    → ((unlisten i).pool ≡ i.pool)
      × ((unlisten i).ibuf ≡ i.ibuf)
      × ((unlisten i).rest.obuf ≡ i.rest.obuf)
      × ((unlisten i).rest.wire ≡ i.rest.wire)
      × ((unlisten i).rest.state ≡ i.rest.state)
unfolding unlisten
unlisten_same i = ground arith

module _ (i : Inbound Conn) (is_open : i.rest.state ≡ connected) (hi : Held i.ibuf)
    (v : Pool.IsValid i.pool) where
  written-Yields : (d : Drained) → Drains i.rest.obuf [] d → Yields (written i d) (Flushes i)
  unfolding written
  written-Yields d (r, all) =
      let k : Inbound Conn = record i {
        rest = record (i.rest) { obuf = d.obuf; wire = i.rest.wire ++ d.sent };
      } in
      let total : i.rest.wire ++ bytes_of i.rest.obuf ≡ (i.rest.wire ++ d.sent) ++ bytes_of d.obuf =
        ap (◌++◌ i.rest.wire) all ∙ sym (append_assoc i.rest.wire d.sent (bytes_of d.obuf)) in
      elim (Bool-cases d.broken) [
        | inl failed ↦
            let (j, e, vj, ibuf_none, obuf_none, state_j, _, _, _, wire_j) =
              close_lem k is_open hi (Ready-Held d.obuf r) v in
            let (p, b, o, w, s) = unlisten_same j in
            rw (failed, e)
              (
                rw p vj,
                rw (b, ibuf_none) tt,
                rw (o, obuf_none) tt,
                inr (
                  s ∙ state_j,
                  (bytes_of d.obuf, total ∙ ap (λ x. x ++ bytes_of d.obuf) (sym (w ∙ wire_j))),
                ),
              )
        | inr fine ↦
            let (p, b, o, w, s) = unlisten_same k in
            rw fine (
              rw p v,
              rw b hi,
              rw o r,
              inl (
                s ∙ is_open,
                rw (w, o) (sym total),
                λ a.
                    unlisten-IsArmed k r (λ l.
                      a (omega (arith, ap length all, length-append d.sent (bytes_of d.obuf)))),
              ),
            )
      ]

-- With an open connection, valid buffers and a well-formed pool, and a socket that takes no more
-- than it is offered, a writable event ends in one of the two ways of `Flushes`.
pub handle_write-Yields :
    (rs : List WriteResult) (i : Inbound Conn)
    → i.rest.state ≡ connected
    → Held i.ibuf
    → Ready i.rest.obuf
    → Pool.IsValid i.pool
    → Offered rs (length (bytes_of i.rest.obuf))
    → Yields (handle_write rs i) (Flushes i)
unfolding handle_write
handle_write-Yields rs i is_open hi r v offered =
    Yields-bind (drain rs i.rest.obuf []) _ _ _ (drain-Yields rs i.rest.obuf [] r offered)
      (written-Yields i is_open hi v)
