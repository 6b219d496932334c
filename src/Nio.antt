-- ===== src/Nio.antt =====
-- Non-blocking files and sockets: src/include/cppev/nio.h and src/lib/nio.cc.
-- The system calls are not modelled: each call takes the kernel's answers, in order, as a list, and
-- hands back those that it did not use.
pub mod Reading
pub mod ReadingAll
pub mod WritingAll
pub mod Writing
mod Moving
pub mod Blocking
mod Tests
use cppev.Prelude.{
  ◌≡◌, refl, ℕ, zero, suc, ◌+◌, ◌-◌, Bool, true, false, List, [], ◌∷◌, ◌++◌, Option, none, some,
  ltb, leb, ◌==◌, if◌then◌else◌, length,
}
use cppev.Prelude.Int.{ℤ, pos, negsuc}
use cppev.Buffer.Arrays.{put_bytes, slice}
use cppev.Buffer.{Buffer, resize, clear, consume, move_from}

-- The ways in which a call ends: it returns, it throws, it has no defined result, or the kernel has
-- not answered yet.
pub data Outcome {ℓ} (A : Type ℓ) : Type ℓ where
  returned : A → Outcome A
  threw : Outcome A
  undefined : Outcome A
  waiting : Outcome A

infixl 5 ◌>>=◌
abbrev pub ◌>>=◌ {ℓ κ} : {A : Type ℓ} {B : Type κ} → Outcome A → (A → Outcome B) → Outcome B
returned a >>= f = f a
threw >>= f = threw
undefined >>= f = undefined
waiting >>= f = waiting

pub returned-bind {ℓ κ} :
    {A : Type ℓ} {B : Type κ} (o : Outcome A) (f : A → Outcome B) (b : B)
    → o >>= f ≡ returned b
    → (a : A) × (o ≡ returned a) × (f a ≡ returned b)
returned-bind (returned a) f b e = (a, refl, e)
returned-bind threw f b e = cc
returned-bind undefined f b e = cc
returned-bind waiting f b e = cc

abbrev pub defined {ℓ} : {A : Type ℓ} → Option A → Outcome A
defined none = undefined
defined (some a) = returned a

pub returned-defined {ℓ} : {A : Type ℓ} (o : Option A) (a : A) → defined o ≡ returned a → o ≡ some a
returned-defined none a e = cc
returned-defined (some b) a e = cc

-- nio and nstream; `evlp` is the event loop that the object belongs to, none before set_evlp. `sent`
-- is no field of the class: the bytes that write(2) has taken from the object on its descriptor.
pub record Stream : Type 0 where
  pub fd : ℤ
  pub closed : Bool
  pub rbuffer : Buffer
  pub wbuffer : Buffer
  pub evlp : Option ℕ
  pub reset : Bool
  pub eof : Bool
  pub eop : Bool
  pub sent : List ℕ

-- What read(2) can answer: bytes, the end of the file, or -1 with an errno.
pub data ReadAnswer : Type 0 where
  got : List ℕ → ReadAnswer
  at_end interrupted would_block conn_reset failed : ReadAnswer

-- The bytes land at `offset_`, in the room that the resize made.
abbrev pub fill : Stream → List ℕ → Stream
fill s bytes = record s {
  rbuffer = record (s.rbuffer) {
    offset = s.rbuffer.offset + length bytes;
    store = put_bytes bytes s.rbuffer.offset s.rbuffer.store;
  };
}

-- while (len) { int curr = read(…); … }
unfoldable pub read_loop : List ReadAnswer → ℕ → Stream → Outcome (Stream × List ReadAnswer)
read_loop answers zero s = returned (s, answers)
read_loop [] (suc len) s = waiting
read_loop (got bytes ∷ answers) (suc len) s =
    read_loop answers (suc len - length bytes) (fill s bytes)
read_loop (at_end ∷ answers) (suc len) s = returned (record s { eof = true }, answers)
read_loop (interrupted ∷ answers) (suc len) s = read_loop answers (suc len) s
read_loop (would_block ∷ answers) (suc len) s = returned (s, answers)
read_loop (conn_reset ∷ answers) (suc len) s = returned (record s { reset = true }, answers)
read_loop (failed ∷ answers) (suc len) s = threw

-- read_chunk(len): the number of bytes read, and the new state
unfoldable pub read_chunk : List ReadAnswer → ℕ → Stream → Outcome (ℕ × Stream × List ReadAnswer)
read_chunk answers len s = do
  r ← defined (resize s.rbuffer (s.rbuffer.offset + len))
  end ← read_loop answers len (record s { rbuffer = r })
  returned (end.0.rbuffer.offset - s.rbuffer.offset, end.0, end.1)

-- read_all(step), with the total so far; a round that is not whole is the last
unfoldable pub read_all :
    ℕ → List ReadAnswer → ℕ → ℕ → Stream → Outcome (ℕ × Stream × List ReadAnswer)
read_all zero answers step total s = waiting
read_all (suc fuel) answers step total s = do
  round ← read_chunk answers step s
  elim (round.0 == step) [
    | true ↦ read_all fuel round.2 step (total + round.0) round.1
    | false ↦ returned (total + round.0, round.1, round.2)
  ]

-- What write(2) can answer: a number of bytes taken, or -1 with an errno.
pub data WriteAnswer : Type 0 where
  took : ℕ → WriteAnswer
  interrupted would_block broken_pipe conn_reset failed : WriteAnswer

-- write(fd_, buffer_ + start_, len) took n bytes, which are then in front of `start_`.
abbrev pub drain : Stream → ℕ → Stream
drain s n = record s {
  wbuffer = record (s.wbuffer) { start = s.wbuffer.start + n };
  sent = s.sent ++ slice n s.wbuffer.start s.wbuffer.store;
}

abbrev pub size_of : Buffer → ℕ
size_of b = b.offset - b.start

abbrev pub least : ℕ → ℕ → ℕ
least a b = if leb a b then a else b

-- while (len) { int curr = write(…); … }: `len` is at most the size of the buffer on entry
unfoldable pub write_loop : List WriteAnswer → ℕ → Stream → Outcome (Stream × List WriteAnswer)
write_loop answers zero s = returned (s, answers)
write_loop [] (suc len) s = waiting
write_loop (took n ∷ answers) (suc len) s =
    write_loop answers (least (suc len) (size_of s.wbuffer) - n) (drain s n)
write_loop (WriteAnswer.interrupted ∷ answers) (suc len) s =
    write_loop answers (least (suc len) (size_of s.wbuffer)) s
write_loop (WriteAnswer.would_block ∷ answers) (suc len) s = returned (s, answers)
write_loop (broken_pipe ∷ answers) (suc len) s = returned (record s { eop = true }, answers)
write_loop (WriteAnswer.conn_reset ∷ answers) (suc len) s =
    returned (record s { reset = true }, answers)
write_loop (WriteAnswer.failed ∷ answers) (suc len) s = threw

-- A buffer that was emptied is cleared.
abbrev pub tidy : Stream → Stream
tidy s = if size_of s.wbuffer == 0 then record s { wbuffer = clear s.wbuffer } else s

-- write_chunk(len): the number of bytes written, and the new state
unfoldable pub write_chunk : List WriteAnswer → ℕ → Stream → Outcome (ℕ × Stream × List WriteAnswer)
write_chunk answers len s = do
  end ← write_loop answers (least len (size_of s.wbuffer)) s
  returned (end.0.wbuffer.start - s.wbuffer.start, tidy end.0, end.1)

unfoldable pub write_all :
    ℕ → List WriteAnswer → ℕ → ℕ → Stream → Outcome (ℕ × Stream × List WriteAnswer)
write_all zero answers step total s = waiting
write_all (suc fuel) answers step total s = do
  round ← write_chunk answers step s
  elim (round.0 == step) [
    | true ↦ write_all fuel round.2 step (total + round.0) round.1
    | false ↦ returned (total + round.0, round.1, round.2)
  ]

-- nio::close(): the descriptor stays in the object
unfoldable pub close : Stream → Stream
close s = record s { closed = true }

-- nio::move and nstream::move for `*this = std::move(other)`: the new state of both objects.
-- The write buffer is taken from the read buffer, whose array is gone by then.
unfoldable pub move : Stream → Stream → Stream × Stream
move self other =
    let taken = move_from other.rbuffer in
    let taken' = move_from taken.1 in
    (
      record {
        fd = other.fd;
        closed = other.closed;
        rbuffer = taken.0;
        wbuffer = taken'.0;
        evlp = other.evlp;
        reset = other.reset;
        eof = other.eof;
        eop = other.eop;
        sent = other.sent;
      },
      record other { fd = negsuc 0; closed = true; rbuffer = taken'.1; evlp = none; sent = [] },
    )
