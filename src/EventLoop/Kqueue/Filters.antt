-- ===== src/EventLoop/Kqueue/Filters.antt =====
-- What registering and removing a descriptor do to the filters of kqueue.
use cppev.Prelude.{
  ℕ, ◌≡◌, refl, ◌∙◌, inl, inr, true, false, List, [], ◌∷◌, ◌++◌, append-nil, none, some, arith,
  ◌==◌, ==_refl, if◌then◌else◌,
}
use cppev.EventLoop.{Event, readable, writable, Entry, ok, threw, erase, matching}
use cppev.EventLoop.Registry.{matching-erase, matching-append}
use cppev.EventLoop.Kqueue.{
  Kqueue, fd_map_to_sys, KqueueLoop, fd_register, fd_remove, record_event, remember, set_key,
}
use cppev.EventLoop.Kqueue.Rounds.{IsSingle}

abbrev pub both_bits : Event
both_bits = record { readable_bit = true; writable_bit = true }

module _ (kq : Kqueue) where
  open kq use {
    Watched, evfilt_read, evfilt_write, read_value, write_value, has, ev_add, ev_delete, added,
    delete_present, delete_absent,
  }

  sys_read : fd_map_to_sys kq readable ≡ evfilt_read
  unfolding fd_map_to_sys
  sys_read = rw read_value

  sys_write : fd_map_to_sys kq writable ≡ evfilt_write
  unfolding fd_map_to_sys
  sys_write = rw write_value

  sys_both : fd_map_to_sys kq both_bits ≡ evfilt_read
  unfolding fd_map_to_sys
  sys_both = rw (read_value, write_value)

  differ : (evfilt_write == evfilt_read) ≡ false
  differ = rw (read_value, write_value)

  removed_half :
      (m : KqueueLoop kq) (v : Watched) (fd : ℕ)
      → m.fd_events fd ≡ some both_bits
      → ev_delete m.watched fd evfilt_read ≡ some v
      → ev_delete v fd evfilt_write ≡ none
      → fd_remove kq m fd true true
        ≡ threw (record m { watched = v; fd_events = set_key kq m.fd_events fd none })
  unfolding fd_remove
  removed_half m v fd recorded first second = rw (recorded, sys_read, first, sys_write, second)

  removed_single :
      (m : KqueueLoop kq) (v : Watched) (fd : ℕ) (ev : Event)
      → IsSingle ev
      → m.fd_events fd ≡ some ev
      → ev_delete m.watched fd (fd_map_to_sys kq ev) ≡ some v
      → fd_remove kq m fd true true
        ≡ ok (record m {
          watched = v;
          fd_events = set_key kq m.fd_events fd none;
          fds = erase fd m.fds;
        })
  unfolding fd_remove
  removed_single m v fd ev (inl e) recorded first =
      let f : ev_delete m.watched fd (fd_map_to_sys kq readable) ≡ some v = rw e at first in
      rw (recorded, e, f)
  removed_single m v fd ev (inr e) recorded first =
      let f : ev_delete m.watched fd (fd_map_to_sys kq writable) ≡ some v = rw e at first in
      rw (recorded, e, f)

  other_callbacks :
      (fd iop handler prio : ℕ) (ev : Event) (other : ℕ) (reported : Event) (fds : List Entry)
      → (if other == fd
          then []
          else matching other reported (
              fds
              ++ record { fd = fd; prio = prio; iop = iop; handler = handler; event = ev } ∷ []))
        ≡ (if other == fd then [] else matching other reported fds)
  unfolding matching
  other_callbacks fd iop handler prio ev other reported fds = ground (
    arith,
    matching-append other reported fds
        (record { fd = fd; prio = prio; iop = iop; handler = handler; event = ev } ∷ []),
    append-nil (matching other reported fds),
  )

  -- Registering a descriptor that has no recorded event for both events puts only its read filter
  -- into kqueue, since EVFILT_READ | EVFILT_WRITE is EVFILT_READ; and removing it throws, with the
  -- callbacks still in the table, since both events were recorded and the write filter is not there.
  pub fd_register_both :
      (l : KqueueLoop kq) (w : Watched) (fd iop handler prio : ℕ)
      → l.fd_events fd ≡ none
      → has l.watched fd evfilt_write ≡ false
      → ev_add l.watched fd evfilt_read ≡ some w
      → (m : KqueueLoop kq) × (fd_register kq l fd iop both_bits (some handler) true prio ≡ ok m)
        × (has m.watched fd evfilt_read ≡ true)
        × (has m.watched fd evfilt_write ≡ false)
        × ((n : KqueueLoop kq) × (fd_remove kq m fd true true ≡ threw n) × (n.fds ≡ m.fds))
  unfolding fd_register fd_remove
  fd_register_both l w fd iop handler prio unrecorded absent e =
      let m : KqueueLoop kq =
        record (record_event kq (remember kq l fd iop both_bits (some handler) prio) fd both_bits) {
          watched = w;
        } in
      let reads : has w fd evfilt_read ≡ true =
        rw (added l.watched w fd evfilt_read fd evfilt_read e, ==_refl fd, ==_refl evfilt_read) in
      let writes : has w fd evfilt_write ≡ false =
        rw (added l.watched w fd evfilt_read fd evfilt_write e, ==_refl fd, differ) absent in
      let (v, deleted, rest) = delete_present w fd evfilt_read reads in
      let writes' : has v fd evfilt_write ≡ false =
        rw (rest fd evfilt_write, ==_refl fd, differ) writes in
      let n : KqueueLoop kq = record m {
        watched = v;
        fd_events = set_key kq m.fd_events fd none;
      } in
      let recorded : m.fd_events fd ≡ some both_bits = rw (==_refl fd, unrecorded) in
      (
        m,
        rw (sys_both, e),
        reads,
        writes,
        (n, removed_half m v fd recorded deleted (delete_absent v fd evfilt_write writes'), refl),
      )

  -- Registering a descriptor that has no recorded event with a handler for one event and removing it
  -- return, if kqueue takes the filter. Then the filter is not there any more, no event of the
  -- descriptor is recorded or has a callback, and the events of every other descriptor have the
  -- callbacks that they had.
  fd_remove-fd_register :
      (l : KqueueLoop kq) (w : Watched) (fd iop handler prio : ℕ) (ev : Event)
      → IsSingle ev
      → l.fd_events fd ≡ none
      → ev_add l.watched fd (fd_map_to_sys kq ev) ≡ some w
      → (m : KqueueLoop kq) × (fd_register kq l fd iop ev (some handler) true prio ≡ ok m)
        × ((n : KqueueLoop kq) × (fd_remove kq m fd true true ≡ ok n)
            × (has n.watched fd (fd_map_to_sys kq ev) ≡ false)
            × (n.fd_events fd ≡ none)
            × ((other : ℕ) (reported : Event)
                → matching other reported n.fds
                  ≡ (if other == fd then [] else matching other reported l.fds)))
  unfolding fd_register fd_remove
  fd_remove-fd_register l w fd iop handler prio ev single unrecorded e =
      let m : KqueueLoop kq =
        record (record_event kq (remember kq l fd iop ev (some handler) prio) fd ev) {
          watched = w;
        } in
      let filter = fd_map_to_sys kq ev in
      let there : has w fd filter ≡ true =
        rw (added l.watched w fd filter fd filter e, ==_refl fd, ==_refl filter) in
      let (v, deleted, rest) = delete_present w fd filter there in
      let gone : has v fd filter ≡ false = rw (rest fd filter, ==_refl fd, ==_refl filter) in
      let recorded : m.fd_events fd ≡ some ev = rw (==_refl fd, unrecorded) in
      (
        m,
        rw e,
        (
          record m {
            watched = v;
            fd_events = set_key kq m.fd_events fd none;
            fds = erase fd m.fds;
          },
          removed_single m v fd ev single recorded deleted,
          gone,
          rw (==_refl fd),
          λ other reported.
              matching-erase fd other reported m.fds
              ∙ other_callbacks fd iop handler prio ev other reported l.fds,
        ),
      )
