-- ===== src/Net/EventLoop/Registration.antt =====
-- Adding and removing events.
use lars_study.Prelude.{ℕ, ◌≡◌, Bool, not, ◌==◌, if◌then◌else◌, arith, ==_refl}
use lars_study.Net.EventLoop.{
  Events, union, minus, no_events, EventLoop, entry, add_io_event, del_io_event, del_event,
  interest, IsConsistent, event_loop,
}

module _ {C : Type 0} (l : EventLoop C) (fd : ℕ) where
  -- The loop waits for what was added besides what it waited for, on that descriptor only.
  pub interest-add_io_event :
      (event : Events) (proc : C) (ctl : Bool) (i : ℕ)
      → interest (add_io_event l fd event proc ctl) i
        ≡ (if i == fd then union (interest l i) event else interest l i)
  unfolding interest add_io_event
  interest-add_io_event event proc ctl i = ground arith

  -- A descriptor that is taken out is waited for no more; the others are as they were.
  pub interest-del_io_event :
      (i : ℕ) → interest (del_io_event l fd) i ≡ (if i == fd then no_events else interest l i)
  unfolding interest del_io_event
  interest-del_io_event i = ground arith

  -- Taking events off a descriptor leaves it the others, and the other descriptors theirs.
  pub interest-del_event :
      (event : Events) (i : ℕ)
      → interest (del_event l fd event) i
        ≡ (if i == fd then minus (interest l i) event else interest l i)
  unfolding interest del_event
  interest-del_event event i = ground arith

  module _ (v : IsConsistent l) where
    -- Taking a descriptor out keeps the loop consistent: what is listened to has an entry, and each
    -- entry waits for something and has a callback for it.
    pub del_io_event-IsConsistent : IsConsistent (del_io_event l fd)
    unfolding del_io_event
    del_io_event-IsConsistent = record {
      listened = λ i h. ground (arith, v.listened i);
      waits = λ i e h. ground (arith, v.waits i e);
      reads = λ i e h. ground (arith, v.reads i e);
      writes = λ i e h. ground (arith, v.writes i e);
    }

    -- Adding one of EPOLLIN and EPOLLOUT keeps the loop consistent, whether `epoll_ctl` takes it or
    -- not.
    pub add_io_event-IsConsistent :
        (event : Events) (proc : C) (ctl : Bool)
        → event.epollout ≡ not event.epollin
        → IsConsistent (add_io_event l fd event proc ctl)
    unfolding add_io_event
    add_io_event-IsConsistent event proc ctl one = record {
      listened = λ i h. ground (arith, v.listened i);
      waits = λ i e h. ground (arith, v.waits i e);
      reads = λ i e h k. ground (arith, v.reads i (entry (l.io_evs_map i)));
      writes = λ i e h k. ground (arith, v.writes i (entry (l.io_evs_map i)));
    }

    -- Taking events off a descriptor keeps the loop consistent; an entry that would wait for nothing
    -- goes altogether.
    pub del_event-IsConsistent : (event : Events) → IsConsistent (del_event l fd event)
    unfolding del_event
    del_event-IsConsistent event = record {
      listened = λ i h. ground (arith, v.listened i);
      waits = λ i e h. ground (arith, v.waits i e);
      reads = λ i e h k. ground (arith, v.reads i (entry (l.io_evs_map i)));
      writes = λ i e h k. ground (arith, v.writes i (entry (l.io_evs_map i)));
    }

-- After a descriptor was taken out, it waits for what it is added with, and for nothing else.
pub interest-add-del :
    {C : Type 0} (l : EventLoop C) (fd : ℕ) (event : Events) (proc : C) (ctl : Bool)
    → interest (add_io_event (del_io_event l fd) fd event proc ctl) fd ≡ event
interest-add-del l fd event proc ctl = rw (
  interest-add_io_event (del_io_event l fd) fd event proc ctl fd,
  ==_refl fd,
  interest-del_io_event l fd fd,
  ==_refl fd,
)

module _ {C : Type 0} where
  -- The calls that change what the loop waits for. Callers add EPOLLIN or EPOLLOUT, one at a time.
  pub data Step : EventLoop C → EventLoop C → Type 0 where
    added :
        (l : EventLoop C) (fd : ℕ) (event : Events) (proc : C) (ctl : Bool)
        → event.epollout ≡ not event.epollin
        → Step l (add_io_event l fd event proc ctl)
    removed : (l : EventLoop C) (fd : ℕ) → Step l (del_io_event l fd)
    taken_off : (l : EventLoop C) (fd : ℕ) (event : Events) → Step l (del_event l fd event)

  pub data Reach (l : EventLoop C) : EventLoop C → Type 0 where
    here : Reach l l
    next : {m n : EventLoop C} → Reach l m → Step m n → Reach l n

  Step-IsConsistent : {l m : EventLoop C} → Step l m → IsConsistent l → IsConsistent m
  Step-IsConsistent (added l fd event proc ctl one) v =
      add_io_event-IsConsistent l fd v event proc ctl one
  Step-IsConsistent (removed l fd) v = del_io_event-IsConsistent l fd v
  Step-IsConsistent (taken_off l fd event) v = del_event-IsConsistent l fd v event

  -- Whatever events are added and taken off, and whether `epoll_ctl` takes them or not: what the loop of a
  -- new event_loop listens to has an entry, each entry waits for EPOLLIN or EPOLLOUT, and it has a
  -- callback for each that it waits for.
  pub Reach-IsConsistent : {l : EventLoop C} → Reach event_loop l → IsConsistent l
  Reach-IsConsistent here = record {
    listened = λ fd h. absurd (cc);
    waits = λ fd e h. absurd (cc);
    reads = λ fd e h. absurd (cc);
    writes = λ fd e h. absurd (cc);
  }
  Reach-IsConsistent (next r step) = Step-IsConsistent step (Reach-IsConsistent r)
