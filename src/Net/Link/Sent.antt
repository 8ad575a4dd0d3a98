-- ===== src/Net/Link/Sent.antt =====
-- What the server of a link has sent.
use lars_study.Prelude.{
  ℕ, ◌≡◌, ap, sym, ◌∙◌, refl, List, [], ◌∷◌, ◌++◌, All, append_assoc, append-nil,
}
use lars_study.Net.Message.{Message, encode, stream, IsSendable}
use lars_study.Net.Frames.{Inbound, Handlers}
use lars_study.Net.Frames.Handling.{Due}
use lars_study.Net.TcpConn.{Conn}
use lars_study.Net.TcpConn.Trace
use lars_study.Net.TcpClient.{Client, Env}
use lars_study.Net.Link.{Link, serves, reads, Reach, here, next}

abbrev pub Asked : List Message → Message → Type 0
Asked ds f = IsSendable f

pub stream_append : (fs gs : List Message) → stream (fs ++ gs) ≡ stream fs ++ stream gs
stream_append [] gs = refl
stream_append (f ∷ fs) gs =
    ap (◌++◌ (encode f)) (stream_append fs gs)
    ∙ sym (append_assoc (encode f) (stream fs) (stream gs))

pub All-append :
    (fs gs : List Message) → All IsSendable (fs ++ gs) → All IsSendable fs × All IsSendable gs
All-append [] gs a = (tt, a)
All-append (f ∷ fs) gs a = let (l, r) = All-append fs gs a.1 in ((a.0, l), r)

pub All-Due : (ds fs : List Message) → All IsSendable fs → Due Asked ds fs
All-Due ds [] a = tt
All-Due ds (f ∷ fs) a = (a.0, All-Due (ds ++ f ∷ []) fs a.1)

-- What a step of the server accepts.
pub accepted :
    {a b : List Message × Inbound Conn} → Trace.Step a b → (new : List Message) × (b.0 ≡ a.0 ++ new)
accepted (Trace.sent ms i ctl f p c l e) = (f ∷ [], refl)
accepted (Trace.flushed ms i j rs o e is_open) = ([], sym (append-nil ms))

module _ (env : Env) (hs : Handlers Client) (h : ℕ) where
  -- What was sent stays sent.
  pub sent_grows :
      {k l : Link} → Reach env hs h k l → (new : List Message) × (l.sent ≡ k.sent ++ new)
  sent_grows {k = k} here = ([], sym (append-nil k.sent))
  sent_grows {k = k} (next r (serves l ms i step sendable)) =
      let (new, e) = sent_grows r in
      let (more, f) = accepted step in
      (new ++ more, f ∙ ap (λ s. s ++ more) e ∙ append_assoc k.sent new more)
  sent_grows (next r (reads l first bs later read j e came some_came fits s run is_open)) =
      sent_grows r
