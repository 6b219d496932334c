-- ===== src/Nio/Tests.antt =====
-- The theorems on streams at concrete streams and answers.
use cppev.Prelude.{
  ℕ, ◌≤◌, ◌≡◌, refl, false, List, [], ◌∷◌, ◌++◌, some, arith, replicate, zero, suc, get_or, length,
}
use cppev.Prelude.Int.{pos}
use cppev.Buffer.{Buffer, contents, create}
use cppev.Buffer.Bounds.{IsValid, create-IsValid}
use cppev.Nio.{
  returned, Stream, ReadAnswer, got, interrupted, read_all, WriteAnswer, took, write_all,
}
use cppev.Nio.ReadingAll.{Drained, read_all-Drained}
use cppev.Nio.WritingAll.{write_all-contents}

abbrev fresh : Buffer
fresh = record { cap = 2; start = 0; offset = 0; store = replicate 2 0 }

fresh-IsValid : IsValid fresh
unfolding create
fresh-IsValid = create-IsValid 2 fresh (omega arith) refl

abbrev pending : Buffer
pending = record { cap = 2; start = 0; offset = 2; store = 5 ∷ 6 ∷ [] }

pending-IsValid : IsValid pending
pending-IsValid = record {
  ordered = omega arith;
  within = omega arith;
  sized = refl;
  positive = omega arith;
  int_cap = omega arith;
  zero_tail = λ k h. pending_tail k h;
}
  where
    pending_tail : (k : ℕ) → 2 ≤ k → ◌≡◌ {A = ℕ} (get_or pending.store k 0) 0
    pending_tail zero h = absurd (omega arith)
    pending_tail (suc zero) h = absurd (omega arith)
    pending_tail (suc (suc k)) h = refl

abbrev stream : Stream
stream = record {
  fd = pos 7;
  closed = false;
  rbuffer = fresh;
  wbuffer = pending;
  evlp = some 1;
  reset = false;
  eof = false;
  eop = false;
  sent = [];
}

-- One byte a round, the second after an interruption.
abbrev write_answers : List WriteAnswer
write_answers = took 1 ∷ WriteAnswer.interrupted ∷ took 1 ∷ []

write_all-contents_example :
    (t : Stream) × (rest : List WriteAnswer) × (front : List ℕ) × (write_all 3 write_answers 1 0
        stream
      ≡ returned (2, t, rest))
    × IsValid t.wbuffer
    × (front ++ contents t.wbuffer ≡ contents pending)
    × (length front ≡ 2)
    × (t.sent ≡ front)
    × (t.rbuffer ≡ stream.rbuffer)
write_all-contents_example =
    write_all-contents 3 write_answers 1 0 stream pending-IsValid (omega arith) (omega arith)
      ((omega arith, tt), ((omega arith, tt), (tt, tt)))

-- Two whole chunks of two bytes, and a part of one.
abbrev chunks : List ReadAnswer
chunks =
    got (1 ∷ 2 ∷ [])
    ∷ got (3 ∷ [])
    ∷ interrupted
    ∷ got (4 ∷ [])
    ∷ got (5 ∷ [])
    ∷ ReadAnswer.would_block
    ∷ []

read_all-Drained_example :
    (t : Stream) × (rest : List ReadAnswer) × (read_all 7 chunks 2 0 stream ≡ returned (5, t, rest))
    × Drained chunks stream t
read_all-Drained_example = read_all-Drained 1 chunks stream fresh-IsValid (omega arith) (
  omega arith,
  omega arith,
  (omega arith, omega arith, (omega arith, omega arith, (omega arith, omega arith, tt))),
)
