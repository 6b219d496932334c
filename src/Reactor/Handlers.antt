-- ===== src/Reactor/Handlers.antt =====
-- The callbacks of a connection in its worker: async_write, safely_close and the handlers of
-- iohandler in src/lib/tcp.cc. A throw ends the call; the state at the throw is not kept here.
pub mod Accepting
pub mod Closing
use cppev.Prelude.{
  ℕ, ◌+◌, Bool, true, false, not, ◌||◌, List, [], ◌∷◌, Option, none, some, ◌==◌, if◌then◌else◌,
  length,
}
use cppev.Buffer.{Buffer, clear}
use cppev.EventLoop.{Epoll, Event, readable, writable, Result, ok, Loop, fd_register, fd_remove, p0}
use cppev.EventLoop
use cppev.Nio.{
  Outcome, returned, threw, ◌>>=◌, Stream, ReadAnswer, WriteAnswer, read_all, write_all, size_of,
  close,
}

-- sysconfig::buffer_io_step
abbrev pub buffer_io_step : ℕ
buffer_io_step = 1024

module _ (e : Epoll) where
  open e use {Watched, drop}

  -- The event loop, the socket, and what the kernel will answer to its reads and writes. `fd` is the
  -- descriptor, `iop` the address of the object, `failures` the entry of its peer in failures_.
  pub record Conn : Type 0 where
    pub loop : Loop e
    pub sock : Stream
    pub fd : ℕ
    pub iop : ℕ
    pub reads : List ReadAnswer
    pub writes : List WriteAnswer
    pub so_error : ℕ
    pub failures : ℕ

  -- What the user registers, and the addresses of the two handlers that the worker registers.
  pub record Callbacks : Type 0 where
    pub on_accept : Conn → Outcome Conn
    pub on_connect : Conn → Outcome Conn
    pub on_read_complete : Conn → Outcome Conn
    pub on_write_complete : Conn → Outcome Conn
    pub on_closed : Conn → Outcome Conn
    pub readable_handler : ℕ
    pub writable_handler : ℕ

  abbrev with_loop : Conn → Result (Loop e) → Outcome Conn
  with_loop c (ok l) = returned (record c { loop = l })
  with_loop c (EventLoop.threw l) = threw

  abbrev pub register : Conn → Event → Option ℕ → Bool → Outcome Conn
  register c ev handler activate =
      with_loop c (fd_register e c.loop c.fd c.iop ev handler activate p0)

  abbrev pub remove : Conn → Bool → Bool → Outcome Conn
  remove c clean deactivate = with_loop c (fd_remove e c.loop c.fd clean deactivate)

  -- iopt->write_all() and iopt->read_all(): one round for each answer, and a last one
  abbrev pub write_out : Conn → Outcome Conn
  write_out c = do
    end ← write_all (length c.writes + 1) c.writes buffer_io_step 0 c.sock
    returned (record c { sock = end.1; writes = end.2 })

  abbrev pub read_in : Conn → Outcome Conn
  read_in c = do
    end ← read_all (length c.reads + 1) c.reads buffer_io_step 0 c.sock
    returned (record c { sock = end.1; reads = end.2 })

  abbrev pub all_written : Conn → Bool
  all_written c = size_of c.sock.wbuffer == 0

  module _ (on : Callbacks) where
    open on use {
      on_accept, on_connect, on_read_complete, on_write_complete, on_closed, readable_handler,
      writable_handler,
    }

    wait_writable : Conn → Outcome Conn
    wait_writable c = do d ← remove c false true; register d writable none true

    unfoldable pub async_write : Conn → Outcome Conn
    unfolding wait_writable
    async_write c = do
      d ← write_out c
      if all_written d then on_write_complete d else wait_writable d

    -- Closing the descriptor takes it out of epoll's interest list.
    pub safely_close : Conn → Outcome Conn
    safely_close c = do
      d ← remove c true false
      returned (record d {
        sock = close d.sock;
        loop = record (d.loop) { watched = drop d.loop.watched d.fd };
      })

    -- The end of on_readable and on_writable.
    finish : Bool → Conn → Outcome Conn
    finish gone c = do
      d ← if gone then on_closed c else returned c
      if gone then remove d true true else returned d

    pub on_readable : Conn → Outcome Conn
    unfolding finish
    on_readable c = do
      d ← read_in c
      f ← on_read_complete d
      finish (f.sock.eof || f.sock.reset)
          (record f { sock = record (f.sock) { rbuffer = clear f.sock.rbuffer } })

    written : Conn → Outcome Conn
    written c = do
      d ← remove c false true
      f ← on_write_complete d
      if not f.sock.closed then register f readable none true else returned f

    pub on_writable : Conn → Outcome Conn
    unfolding finish written
    on_writable c = do
      d ← write_out c
      f ← if all_written d then written d else returned d
      finish (f.sock.eop || f.sock.reset) f

    -- The common part of on_acpt_writable and on_cont_writable.
    set_up : (Conn → Outcome Conn) → Conn → Outcome Conn
    set_up notify c = do
      d ← register c writable (some writable_handler) false
      f ← notify d
      register f readable (some readable_handler) true

    pub on_acpt_writable : Conn → Outcome Conn
    unfolding set_up
    on_acpt_writable c = do d ← remove c true true; set_up on_accept d

    pub on_cont_writable : Conn → Outcome Conn
    unfolding set_up
    on_cont_writable c = do
      d ← remove c true true
      if d.so_error == 0
          then set_up on_connect d
          else returned (record d { failures = d.failures + 1 })
