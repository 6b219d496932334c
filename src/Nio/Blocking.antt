-- ===== src/Nio/Blocking.antt =====
-- The blocking mode of descriptors, and the objects made of them: set_io_nonblock, set_io_block,
-- get_pipes and get_fifos of src/lib/nio.cc, and the constructors of nio and nstream in
-- src/include/cppev/nio.h. fcntl(2), pipe(2), mkfifo(3) and open(2) are parameters.
use cppev.Prelude.{
  ℕ, ◌+◌, ◌-◌, ◌/◌, ◌%◌, ◌≡◌, refl, ap, ◌∙◌, Bool, true, false, [], ◌∷◌, Option, none, some, ◌==◌,
  arith, if◌then◌else◌,
}
use cppev.Prelude.Int.{ℤ}
use cppev.Buffer.{Buffer, create}
use cppev.Buffer.Bounds.{IsValid, create-IsValid}
use cppev.Nio.{Outcome, returned, threw, ◌>>=◌, Stream}

-- O_NONBLOCK on Linux.
abbrev pub o_nonblock : ℕ
o_nonblock = 2048

abbrev pub has_nonblock : ℕ → Bool
has_nonblock flags = flags / 2048 % 2 == 1

-- flags | O_NONBLOCK
abbrev pub with_nonblock : ℕ → ℕ
with_nonblock flags = if has_nonblock flags then flags else flags + o_nonblock

-- flags & ~O_NONBLOCK
abbrev pub without_nonblock : ℕ → ℕ
without_nonblock flags = if has_nonblock flags then flags - o_nonblock else flags

pub has-with : (flags : ℕ) → has_nonblock (with_nonblock flags) ≡ true
has-with flags = ground arith

pub without-with : (flags : ℕ) → without_nonblock (with_nonblock flags) ≡ without_nonblock flags
without-with flags = ground arith

-- F_GETFL and F_SETFL of fcntl(2), where `none` is -1. Flags that were read and are written back with
-- O_NONBLOCK changed read as they were written, and to set O_NONBLOCK clears it nowhere.
pub record Fcntl : Type 1 where
  pub State : Type 0
  pub getfl : State → ℤ → Option ℕ
  pub setfl : State → ℤ → ℕ → Option State
  pub set_kept :
      (s s' : State) (fd : ℤ) (flags : ℕ)
      → getfl s fd ≡ some flags
      → setfl s fd (with_nonblock flags) ≡ some s'
      → getfl s' fd ≡ some (with_nonblock flags)
  pub cleared_kept :
      (s s' : State) (fd : ℤ) (flags : ℕ)
      → getfl s fd ≡ some flags
      → setfl s fd (without_nonblock flags) ≡ some s'
      → getfl s' fd ≡ some (without_nonblock flags)
  pub others_kept :
      (s s' : State) (fd other : ℤ) (flags g : ℕ)
      → getfl s fd ≡ some flags
      → setfl s fd (with_nonblock flags) ≡ some s'
      → getfl s other ≡ some g
      → has_nonblock g ≡ true
      → (g' : ℕ) × (getfl s' other ≡ some g') × (has_nonblock g' ≡ true)

-- -1 throws.
abbrev or_throw {ℓ} : {A : Type ℓ} → Option A → Outcome A
or_throw none = threw
or_throw (some a) = returned a

-- buffer(), with room for one byte
abbrev pub empty_buffer : Buffer
empty_buffer = record { cap = 1; start = 0; offset = 0; store = 0 ∷ [] }

empty_buffer-create : create 1 ≡ some empty_buffer
unfolding create
empty_buffer-create = refl

pub empty_buffer-IsValid : IsValid empty_buffer
empty_buffer-IsValid = create-IsValid 1 empty_buffer (omega arith) empty_buffer-create

abbrev pub stream_of : ℤ → Stream
stream_of fd = record {
  fd = fd;
  closed = false;
  rbuffer = empty_buffer;
  wbuffer = empty_buffer;
  evlp = none;
  reset = false;
  eof = false;
  eop = false;
  sent = [];
}

module _ (os : Fcntl) where
  open os use {State, getfl, setfl, set_kept, cleared_kept, others_kept}

  unfoldable pub set_io_nonblock : State → ℤ → Outcome State
  set_io_nonblock s fd = do
    flags ← or_throw (getfl s fd)
    or_throw (setfl s fd (with_nonblock flags))

  unfoldable pub set_io_block : State → ℤ → Outcome State
  set_io_block s fd = do
    flags ← or_throw (getfl s fd)
    or_throw (setfl s fd (without_nonblock flags))

  -- nio(int fd) and nstream(int fd): the object of a descriptor, which becomes non-blocking
  unfoldable pub construct : State → ℤ → Outcome (Stream × State)
  unfolding set_io_nonblock
  construct s fd = do s' ← set_io_nonblock s fd; returned (stream_of fd, s')

  -- get_pipes(): the read end, the write end and the new state; pipe(2) answers with two descriptors
  unfoldable pub get_pipes : State → Option (ℤ × ℤ) → Outcome (Stream × Stream × State)
  unfolding construct
  get_pipes s none = threw
  get_pipes s (some ends) = do
    rd ← construct s (ends.0)
    wr ← construct (rd.1) (ends.1)
    returned (rd.0, wr.0, wr.1)

  -- What mkfifo(3) answers: the fifo was made, it exists, or there is an error.
  pub data FifoAnswer : Type 0 where
    made exists failed : FifoAnswer

  abbrev open_fifos : State → Option ℤ → Option ℤ → Outcome (Stream × Stream × State)
  open_fifos s fdr fdw = do
    r ← or_throw fdr
    w ← or_throw fdw
    rd ← construct s r
    wr ← construct (rd.1) w
    returned (rd.0, wr.0, wr.1)

  -- get_fifos(path), with the answers of the two calls of open(2)
  unfoldable pub get_fifos :
      State → FifoAnswer → Option ℤ → Option ℤ → Outcome (Stream × Stream × State)
  unfolding construct
  get_fifos s made fdr fdw = open_fifos s fdr fdw
  get_fifos s exists fdr fdw = open_fifos s fdr fdw
  get_fifos s failed fdr fdw = threw

  abbrev pub IsNonblocking : State → ℤ → Type 0
  IsNonblocking s fd = (flags : ℕ) × (getfl s fd ≡ some flags) × (has_nonblock flags ≡ true)

  module _ (s s' : State) (fd : ℤ) (flags : ℕ) (got : getfl s fd ≡ some flags)
      (put : setfl s fd (with_nonblock flags) ≡ some s') where
    set_io_nonblock_entry : set_io_nonblock s fd ≡ returned s'
    unfolding set_io_nonblock
    set_io_nonblock_entry = rw (got, put)

    set_io_nonblock-IsNonblocking : IsNonblocking s' fd
    set_io_nonblock-IsNonblocking =
        (with_nonblock flags, set_kept s s' fd flags got put, has-with flags)

    -- On a descriptor whose flags can be read and written, set_io_nonblock makes it non-blocking, and
    -- set_io_block after it leaves the flags that it had before, without O_NONBLOCK.
    pub set_io_block-set_io_nonblock :
        (t : State)
        → setfl s' fd (without_nonblock flags) ≡ some t
        → (set_io_nonblock s fd ≡ returned s')
          × IsNonblocking s' fd
          × (set_io_block s' fd ≡ returned t)
          × (getfl t fd ≡ some (without_nonblock flags))
    unfolding set_io_block
    set_io_block-set_io_nonblock t back =
        let read = set_kept s s' fd flags got put in
        let back' : setfl s' fd (without_nonblock (with_nonblock flags)) ≡ some t =
          rw (without-with flags) back in
        (
          set_io_nonblock_entry,
          set_io_nonblock-IsNonblocking,
          rw (read, back'),
          cleared_kept s' t fd (with_nonblock flags) read back' ∙ ap some (without-with flags),
        )

    pub construct_entry : construct s fd ≡ returned (stream_of fd, s')
    unfolding construct
    construct_entry = rw set_io_nonblock_entry

  -- If pipe(2) gives two descriptors whose flags can be read and written, get_pipes returns an open
  -- object with empty buffers for each, the read end first, and both descriptors are non-blocking.
  pub get_pipes-IsNonblocking :
      (s s1 s2 : State) (r w : ℤ) (f g : ℕ)
      → getfl s r ≡ some f
      → setfl s r (with_nonblock f) ≡ some s1
      → getfl s1 w ≡ some g
      → setfl s1 w (with_nonblock g) ≡ some s2
      → (get_pipes s (some (r, w)) ≡ returned (stream_of r, stream_of w, s2))
        × IsNonblocking s2 r
        × IsNonblocking s2 w
  unfolding get_pipes
  get_pipes-IsNonblocking s s1 s2 r w f g got put got' put' = (
    rw (construct_entry s s1 r f got put, construct_entry s1 s2 w g got' put'),
    others_kept s1 s2 w r g (with_nonblock f) got' put' (set_kept s s1 r f got put) (has-with f),
    set_io_nonblock-IsNonblocking s1 s2 w g got' put',
  )
