-- ===== src/Reactor/Handlers/Accepting.antt =====
-- A connection as it is handed to its worker: on_acpt_writable of src/lib/tcp.cc.
use cppev.Prelude.{ℕ, ◌+◌, ◌≡◌, ap, ◌∙◌, true, false, List, [], ◌∷◌, ◌++◌, ◌==◌, ==_refl, length}
use cppev.EventLoop.{
  Epoll, Event, readable, writable, Entry, fd_register, fd_remove, erase, matching, p0,
}
use cppev.EventLoop.Registry.{matching-append, matching-erase}
use cppev.Nio.{returned, threw, Stream, WriteAnswer, write_all, size_of}
use cppev.Reactor.Handlers.{
  buffer_io_step, Conn, Callbacks, async_write, wait_writable, set_up, on_acpt_writable,
}

-- The two entries that set_up makes, behind a table that has lost its entries of the descriptor.
abbrev entry : ℕ → ℕ → ℕ → Event → Entry
entry fd iop handler ev = record { fd = fd; prio = p0; iop = iop; handler = handler; event = ev }

module _ (fd iop readable_handler writable_handler : ℕ) (fds : List Entry) where
  table : List Entry
  table =
      (erase fd fds ++ entry fd iop writable_handler writable ∷ [])
      ++ entry fd iop readable_handler readable ∷ []

  matching-table :
      (ev : Event)
      → matching fd ev table
        ≡ matching fd ev (entry fd iop writable_handler writable ∷ [])
          ++ matching fd ev (entry fd iop readable_handler readable ∷ [])
  unfolding table
  matching-table ev =
      let erased : matching fd ev (erase fd fds) ≡ [] =
        rw (==_refl fd) at (matching-erase fd fd ev fds) in
      matching-append fd ev (erase fd fds ++ entry fd iop writable_handler writable ∷ []) _
      ∙ ap (λ q. q ++ matching fd ev (entry fd iop readable_handler readable ∷ []))
          (matching-append fd ev (erase fd fds) _
            ∙ ap (λ q. q ++ matching fd ev (entry fd iop writable_handler writable ∷ [])) erased)

  table_in :
      matching fd readable table ≡ record { prio = p0; iop = iop; handler = readable_handler } ∷ []
  unfolding matching
  table_in = matching-table readable ∙ rw (==_refl fd)

  table_out :
      matching fd writable table ≡ record { prio = p0; iop = iop; handler = writable_handler } ∷ []
  unfolding matching
  table_out = matching-table writable ∙ rw (==_refl fd)

module _ (e : Epoll) (on : Callbacks e) (c : Conn e) where
  open e use {Watched, has, del, add, del_present, del_absent, add_absent}

  -- A server whose on_accept calls async_write throws whenever some of the data is not written at
  -- once: the descriptor, which epoll watched before, has just been removed, and async_write removes
  -- it again.
  pub accept_partial_write :
      (n : ℕ) (sock : Stream) (writes : List WriteAnswer)
      → has c.loop.watched c.fd ≡ true
      → write_all (length c.writes + 1) c.writes buffer_io_step 0 c.sock
        ≡ returned (n, sock, writes)
      → (size_of sock.wbuffer == 0) ≡ false
      → on_acpt_writable e (record on { on_accept = async_write e on }) c ≡ threw
  unfolding on_acpt_writable async_write set_up wait_writable fd_remove fd_register
  accept_partial_write n sock writes watched wrote part =
      let (w, removed, gone) = del_present c.loop.watched c.fd watched in
      rw (removed, wrote, part, del_absent w c.fd gone)

  -- If the data of on_accept is written at once and on_write_complete does nothing, the connection is
  -- set up: epoll watches the descriptor, and its only callbacks are on_readable for readable events
  -- and on_writable for writable ones.
  pub accept_whole_write :
      (n : ℕ) (sock : Stream) (writes : List WriteAnswer)
      → has c.loop.watched c.fd ≡ true
      → write_all (length c.writes + 1) c.writes buffer_io_step 0 c.sock
        ≡ returned (n, sock, writes)
      → (size_of sock.wbuffer == 0) ≡ true
      → (d : Conn e) × (on_acpt_writable e
            (record on {
              on_accept = async_write e (record on { on_write_complete = λ x. returned x });
            })
            c
          ≡ returned d)
        × (has d.loop.watched c.fd ≡ true)
        × (matching c.fd readable d.loop.fds
            ≡ record { prio = p0; iop = c.iop; handler = on.readable_handler } ∷ [])
        × (matching c.fd writable d.loop.fds
            ≡ record { prio = p0; iop = c.iop; handler = on.writable_handler } ∷ [])
  unfolding on_acpt_writable async_write set_up fd_remove fd_register
  accept_whole_write n sock writes watched wrote whole =
      let (w, removed, gone) = del_present c.loop.watched c.fd watched in
      let (w', added, there) = add_absent w c.fd readable gone in
      let fds = table c.fd c.iop on.readable_handler on.writable_handler c.loop.fds in
      (
        record c {
          loop = record (c.loop) { watched = w'; fds = fds; owned = c.iop ∷ c.iop ∷ c.loop.owned };
          sock = sock;
          writes = writes;
        },
        unfold table in rw (removed, wrote, whole, added),
        there,
        table_in c.fd c.iop on.readable_handler on.writable_handler c.loop.fds,
        table_out c.fd c.iop on.readable_handler on.writable_handler c.loop.fds,
      )
