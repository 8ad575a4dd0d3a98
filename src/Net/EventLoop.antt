-- ===== src/Net/EventLoop.antt =====
-- event_loop (lars_reactor/include/event_loop.h, lars_reactor/src/event_loop.cc): the callbacks that
-- are registered for each file descriptor. What `epoll_ctl` returns is an argument, true for 0.
pub mod Registration
pub mod Dispatch
pub mod Starting
mod Examples
use lars_study.Prelude.{
  ℕ, ◌≡◌, ◌≢◌, Bool, true, false, not, ◌&&◌, ◌||◌, Option, none, some, ◌==◌, if◌then◌else◌,
}

-- An event mask: EPOLLIN and EPOLLOUT.
pub record Events : Type 0 where
  pub epollin : Bool
  pub epollout : Bool

abbrev pub union : Events → Events → Events
union a b = record { epollin = a.epollin || b.epollin; epollout = a.epollout || b.epollout }

-- a & ~b
abbrev pub minus : Events → Events → Events
minus a b = record { epollin = a.epollin && not b.epollin; epollout = a.epollout && not b.epollout }

abbrev pub is_zero : Events → Bool
is_zero a = not (a.epollin || a.epollout)

abbrev pub no_events : Events
no_events = record { epollin = false; epollout = false }

abbrev pub epollin_only : Events
epollin_only = record { epollin = true; epollout = false }

abbrev pub epollout_only : Events
epollout_only = record { epollin = false; epollout = true }

module _ {C : Type 0} where
  abbrev pub update : (ℕ → Option C) → ℕ → Option C → ℕ → Option C
  update f k v i = if i == k then v else f i

-- io_event (lars_reactor/include/event_base.h); `C` is the type of callbacks.
pub record IoEvent (C : Type 0) : Type 0 where
  pub event : Events
  pub read_callback : Option C
  pub write_callback : Option C

pub record EventLoop (C : Type 0) : Type 0 where
  pub io_evs_map : ℕ → Option (IoEvent C)
  pub listen_fds : ℕ → Bool

module _ {C : Type 0} where
  abbrev pub event_loop : EventLoop C
  event_loop = record { io_evs_map = λ fd. none; listen_fds = λ fd. false }

  -- `m_io_evs_map[fd]`: a missing entry reads as a default one.
  abbrev pub entry : Option (IoEvent C) → IoEvent C
  entry none = record { event = no_events; read_callback = none; write_callback = none }
  entry (some e) = e

  with_callback : IoEvent C → Events → C → IoEvent C
  with_callback e event proc =
      if event.epollin
      then record e { read_callback = some proc }
      else if event.epollout
      then record e { write_callback = some proc }
      else e

  pub add_io_event : EventLoop C → ℕ → Events → C → Bool → EventLoop C
  unfolding with_callback
  add_io_event l fd event proc ctl =
      let e = entry (l.io_evs_map fd) in
      let final_event = union e.event event in
      let e' = record (with_callback e event proc) { event = final_event } in
      record {
        io_evs_map = update l.io_evs_map fd (some e');
        listen_fds = λ i. if i == fd && ctl then true else l.listen_fds i;
      }

  -- del_io_event(fd)
  pub del_io_event : EventLoop C → ℕ → EventLoop C
  del_io_event l fd = elim (l.io_evs_map fd) [
    | none ↦ l
    | some e ↦ record {
      io_evs_map = update l.io_evs_map fd none;
      listen_fds = λ i. if i == fd then false else l.listen_fds i;
    }
  ]

  -- del_io_event(fd, event)
  pub del_event : EventLoop C → ℕ → Events → EventLoop C
  unfolding del_io_event
  del_event l fd event = elim (l.io_evs_map fd) [
    | none ↦ l
    | some e ↦
        let rest = minus e.event event in
        let l' = record l {
          io_evs_map = update l.io_evs_map fd (some (record e { event = rest }));
        } in
        if is_zero rest then del_io_event l' fd else l'
  ]

  -- What the loop waits for on each descriptor.
  pub interest : EventLoop C → ℕ → Events
  interest l fd = (entry (l.io_evs_map fd)).event

  -- Every descriptor in `m_listen_fds` has an entry, and every entry waits for something and has a
  -- callback for what it waits for.
  pub record IsConsistent (l : EventLoop C) : Type 0 where
    pub listened : (fd : ℕ) → l.listen_fds fd ≡ true → l.io_evs_map fd ≢ none
    pub waits : (fd : ℕ) (e : IoEvent C) → l.io_evs_map fd ≡ some e → is_zero e.event ≡ false
    pub reads :
        (fd : ℕ) (e : IoEvent C)
        → l.io_evs_map fd ≡ some e
        → e.event.epollin ≡ true
        → e.read_callback ≢ none
    pub writes :
        (fd : ℕ) (e : IoEvent C)
        → l.io_evs_map fd ≡ some e
        → e.event.epollout ≡ true
        → e.write_callback ≢ none
