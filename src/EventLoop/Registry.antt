-- ===== src/EventLoop/Registry.antt =====
-- What registering and removing a descriptor do to the table of callbacks and to epoll.
use cppev.Prelude.{
  ℕ, ◌≡◌, refl, ap, ◌∙◌, true, false, List, [], ◌∷◌, ◌++◌, some, arith, ◌==◌, ==_refl,
  if◌then◌else◌,
}
use cppev.EventLoop.{
  Event, Epoll, is_set, both_events, Entry, ok, threw, Loop, remember, fd_register, fd_remove,
  erase, matching,
}

pub matching-erase :
    (fd other : ℕ) (ev : Event) (fds : List Entry)
    → matching other ev (erase fd fds) ≡ (if other == fd then [] else matching other ev fds)
unfolding matching
matching-erase fd other ev [] = ground arith
matching-erase fd other ev (x ∷ xs) = ground (arith, matching-erase fd other ev xs)

pub matching-append :
    (fd : ℕ) (ev : Event) (xs ys : List Entry)
    → matching fd ev (xs ++ ys) ≡ matching fd ev xs ++ matching fd ev ys
unfolding matching
matching-append fd ev [] ys = refl
matching-append fd ev (x ∷ xs) ys = ground (arith, matching-append fd ev xs ys)

module _ (e : Epoll) where
  open e use {Watched, has, add, del, add_absent, add_present, del_present, del_absent}

  -- Registering with a handler and activation a descriptor that epoll does not watch returns. The
  -- descriptor is watched then, and an event that shares a bit with the registered ones gets this
  -- callback behind the earlier ones.
  fd_register-matching :
      (l : Loop e) (fd iop handler prio : ℕ) (ev reported : Event)
      → has l.watched fd ≡ false
      → is_set (both_events ev reported) ≡ true
      → (m : Loop e) × (fd_register e l fd iop ev (some handler) true prio ≡ ok m)
        × (has m.watched fd ≡ true)
        × (matching fd reported m.fds
            ≡ matching fd reported l.fds
              ++ record { prio = prio; iop = iop; handler = handler } ∷ [])
  unfolding fd_register matching
  fd_register-matching l fd iop handler prio ev reported absent shared =
      let (w, added, watched) = add_absent l.watched fd ev absent in
      (
        record (remember e l fd iop ev (some handler) prio) { watched = w },
        rw added,
        watched,
        matching-append fd reported l.fds _
            ∙ ap (λ q. matching fd reported l.fds ++ q) (rw (==_refl fd, shared)),
      )

  -- Registering a descriptor that epoll already watches, with activation, throws, and the handler
  -- has been entered in the table before that.
  fd_register_twice :
      (l : Loop e) (fd iop handler prio : ℕ) (ev reported : Event)
      → has l.watched fd ≡ true
      → is_set (both_events ev reported) ≡ true
      → (m : Loop e) × (fd_register e l fd iop ev (some handler) true prio ≡ threw m)
        × (matching fd reported m.fds
            ≡ matching fd reported l.fds
              ++ record { prio = prio; iop = iop; handler = handler } ∷ [])
  unfolding fd_register matching
  fd_register_twice l fd iop handler prio ev reported present shared = (
    remember e l fd iop ev (some handler) prio,
    rw (add_present l.watched fd ev present),
    matching-append fd reported l.fds _
        ∙ ap (λ q. matching fd reported l.fds ++ q) (rw (==_refl fd, shared)),
  )

  -- Removing a descriptor that epoll watches, with its callbacks, returns. The descriptor is not
  -- watched any more and no event of it has a callback, while the events of every other descriptor
  -- have the callbacks that they had.
  pub fd_remove-matching :
      (l : Loop e) (fd : ℕ)
      → has l.watched fd ≡ true
      → (m : Loop e) × (fd_remove e l fd true true ≡ ok m)
        × (has m.watched fd ≡ false)
        × ((other : ℕ) (ev : Event)
            → matching other ev m.fds ≡ (if other == fd then [] else matching other ev l.fds))
  unfolding fd_remove
  fd_remove-matching l fd present =
      let (w, removed, gone) = del_present l.watched fd present in
      (
        record l { watched = w; fds = erase fd l.fds },
        rw removed,
        gone,
        λ other ev. matching-erase fd other ev l.fds,
      )
