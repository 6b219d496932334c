-- ===== src/Reactor/Handlers/Closing.antt =====
-- A connection that ends while it is read: on_readable of src/lib/tcp.cc.
use cppev.Prelude.{ℕ, ◌+◌, ◌≡◌, true, false, List, length}
use cppev.EventLoop.{Epoll, fd_remove, erase}
use cppev.Nio.{returned, threw, Stream, ReadAnswer, read_all, close}
use cppev.Buffer.{clear}
use cppev.Reactor.Handlers.{buffer_io_step, Conn, Callbacks, safely_close, finish, on_readable}

module _ (e : Epoll) (on : Callbacks e) (c : Conn e) where
  open e use {has, del, del_present, del_absent, drop, drop_gone}

  -- If the read reaches the end of the file and on_read_complete closes the connection by
  -- safely_close, on_readable throws once on_closed has done nothing: it removes from epoll the
  -- descriptor that the close took out already.
  pub close_at_eof :
      (n : ℕ) (sock : Stream) (reads : List ReadAnswer)
      → read_all (length c.reads + 1) c.reads buffer_io_step 0 c.sock ≡ returned (n, sock, reads)
      → sock.eof ≡ true
      → on_readable e
          (record on { on_read_complete = safely_close e on; on_closed = λ x. returned x })
          c
        ≡ threw
  unfolding on_readable safely_close finish fd_remove close
  close_at_eof n sock reads read ended =
      rw (read, ended, del_absent (drop c.loop.watched c.fd) c.fd (drop_gone c.loop.watched c.fd))

  -- If the read reaches the end of the file, and neither on_read_complete nor on_closed does
  -- anything, on_readable returns: a descriptor that epoll watched is not watched any more.
  end_at_eof :
      (n : ℕ) (sock : Stream) (reads : List ReadAnswer)
      → has c.loop.watched c.fd ≡ true
      → read_all (length c.reads + 1) c.reads buffer_io_step 0 c.sock ≡ returned (n, sock, reads)
      → sock.eof ≡ true
      → (d : Conn e) × (on_readable e
            (record on { on_read_complete = λ x. returned x; on_closed = λ x. returned x })
            c
          ≡ returned d)
        × (has d.loop.watched c.fd ≡ false)
  unfolding on_readable finish fd_remove
  end_at_eof n sock reads watched read ended =
      let (w, removed, gone) = del_present c.loop.watched c.fd watched in
      (
        record c {
          loop = record (c.loop) { watched = w; fds = erase c.fd c.loop.fds };
          sock = record sock { rbuffer = clear sock.rbuffer };
          reads = reads;
        },
        rw (read, ended, removed),
        gone,
      )
