-- ===== src/Nio/Moving.antt =====
-- nio::move and nstream::move of src/include/cppev/nio.h.
use cppev.Prelude.{◌≡◌, refl, [], true}
use cppev.Prelude.Int.{negsuc}
use cppev.Nio.{Stream, move}

-- A move passes on the descriptor, the flags and the whole read buffer, and closes the source. Its
-- write buffer does not arrive: the target's write buffer has the indices of the source's read buffer
-- and no array, while the source keeps its own.
pub move-wbuffer :
    (self other : Stream)
    → ((move self other).0.fd ≡ other.fd)
      × ((move self other).0.rbuffer ≡ other.rbuffer)
      × ((move self other).0.wbuffer ≡ record (other.rbuffer) { store = [] })
      × ((move self other).1.wbuffer ≡ other.wbuffer)
      × ((move self other).1.fd ≡ negsuc 0)
      × ((move self other).1.closed ≡ true)
unfolding move
move-wbuffer self other = (refl, refl, refl, refl, refl, refl)
