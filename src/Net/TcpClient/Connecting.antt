-- ===== src/Net/TcpClient/Connecting.antt =====
-- tcp_client: connecting, and connecting again.
use lars_study.Prelude.{◌≡◌, refl, true, false, none, ok}
use lars_study.Buffer.Pool
use lars_study.Buffer.Pool.{Pool}
use lars_study.Buffer.ReactorBuf.{Held}
use lars_study.Buffer.ReactorBuf.Pop.{clear_lem}
use lars_study.Net.Frames.{Inbound}
use lars_study.Net.EventLoop.{epollin_only, epollout_only, interest, add_io_event, del_io_event}
use lars_study.Net.EventLoop.Registration.{interest-add-del}
use lars_study.Net.TcpClient.{
  Client, Env, in_progress, at_once, on_connect, on_read, do_connect, handle_connect, clean_conn,
}

-- Losing a connection while the next attempt is under way: both buffers are given back, the client
-- counts as not connected, and the loop waits for nothing on the descriptor but the outcome of the
-- attempt. (No close callback is set.)
pub clean_conn_retries :
    (env : Env) (i : Inbound Client)
    → env.on_close ≡ none
    → env.connect ≡ in_progress
    → Held i.ibuf
    → Held i.rest.obuf
    → Pool.IsValid i.pool
    → (j : Inbound Client) × (clean_conn env i ≡ ok j)
      × Pool.IsValid j.pool
      × (j.ibuf ≡ none)
      × (j.rest.obuf ≡ none)
      × (j.rest.is_connected ≡ false)
      × (interest j.rest.loop j.rest.fd ≡ epollout_only)
unfolding clean_conn
clean_conn_retries env i e f hi ho v =
    let (p, a, vp) = clear_lem i.ibuf i.pool hi v in
    let (q, b, vq) = clear_lem i.rest.obuf p ho vp in
    let c = i.rest in
    let l = del_io_event c.loop c.fd in
    let d : Client = record c {
      loop = add_io_event l c.fd epollout_only on_connect env.ctl;
      obuf = none;
      is_connected = false;
    } in
    (
      record { ibuf = none; pool = q; rest = d },
      rw (a, b, e, f),
      vq,
      refl,
      refl,
      refl,
      interest-add-del c.loop c.fd epollout_only on_connect env.ctl,
    )

-- The attempt succeeds: the client counts as connected and waits for input alone, whatever it waited
-- for before. (No callback is set for that.)
pub handle_connect_succeeds :
    (env : Env) (p : Pool) (c : Client)
    → env.on_build ≡ none
    → (d : Client) × (handle_connect env true p c ≡ ok (p, d))
      × (d.is_connected ≡ true)
      × (d.obuf ≡ c.obuf)
      × (interest d.loop d.fd ≡ epollin_only)
unfolding handle_connect
handle_connect_succeeds env p c e = (
  record c {
    is_connected = true;
    loop = add_io_event (del_io_event c.loop c.fd) c.fd epollin_only on_read env.ctl;
  },
  rw e,
  refl,
  refl,
  interest-add-del c.loop c.fd epollin_only on_read env.ctl,
)

-- `connect` returns 0 where it succeeds at once; the call then does nothing: the client does not
-- count as connected, waits for nothing new, and goes on refusing to send.
pub do_connect_at_once :
    (env : Env) (p : Pool) (c : Client) → env.connect ≡ at_once → do_connect env p c ≡ ok (p, c)
unfolding do_connect
do_connect_at_once env p c e = rw e

-- An attempt that is under way: the loop waits for its outcome.
pub do_connect_progress :
    (env : Env) (p : Pool) (c : Client)
    → env.connect ≡ in_progress
    → do_connect env p c
      ≡ ok (p, record c { loop = add_io_event c.loop c.fd epollout_only on_connect env.ctl })
unfolding do_connect
do_connect_progress env p c e = rw e
