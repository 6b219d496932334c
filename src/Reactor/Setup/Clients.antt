-- ===== src/Reactor/Setup/Clients.antt =====
-- The setters of tcp_client, which has its own copies of three of the server's.
use cppev.Prelude.{ℕ}
use cppev.Reactor.Setup.{Client}

unfoldable pub set_on_read_complete : ℕ → Client → Client
set_on_read_complete h c = record c { data_ = record (c.data_) { on_read_complete = h } }

unfoldable pub set_on_write_complete : ℕ → Client → Client
set_on_write_complete h c = record c { data_ = record (c.data_) { on_write_complete = h } }

unfoldable pub set_on_closed : ℕ → Client → Client
set_on_closed h c = record c { data_ = record (c.data_) { on_closed = h } }
