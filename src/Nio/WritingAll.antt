-- ===== src/Nio/WritingAll.antt =====
-- nstream::write_all of src/lib/nio.cc.
use cppev.Prelude.{
  ℕ, zero, suc, ◌+◌, ◌-◌, ◌<◌, ◌≡◌, refl, sym, ap, ap₂, ◌∙◌, inl, inr, Bool, true, false, subst,
  List, ◌++◌, append_assoc, arith, ◌==◌, ==_iff, Bool-cases, length, length-append, if◌then◌else◌,
}
use cppev.Buffer.{Buffer, contents}
use cppev.Buffer.Arrays.{slice}
use cppev.Buffer.Bounds.{IsValid}
use cppev.Nio.{returned, ◌>>=◌, Stream, WriteAnswer, size_of, least, write_chunk, write_all}
use cppev.Nio.Writing.{Answered, taken, left_of, write_chunk-left_of}

length-slice : (n i : ℕ) (s : List ℕ) → length (slice n i s) ≡ n
unfolding slice
length-slice zero i s = refl
length-slice (suc n) i s = ap suc (length-slice n (suc i) s)

-- The answers settle each round without an error: `size` bytes are left, of which a round offers at
-- most `step`. The first argument counts the rounds.
abbrev pub AllAnswered : ℕ → ℕ → ℕ → List WriteAnswer → Type 0
AllAnswered zero step size answers = ⊥
AllAnswered (suc rounds) step size answers =
    let n = taken (least step size) answers in
    let next = AllAnswered rounds step (size - n) (left_of (least step size) answers) in
    Answered (least step size) answers × (if n == step then next else Unit {0})

-- The number of bytes that the kernel takes in all rounds.
abbrev pub all_taken : ℕ → ℕ → ℕ → List WriteAnswer → ℕ
all_taken zero step size answers = 0
all_taken (suc rounds) step size answers =
    let n = taken (least step size) answers in
    let next = all_taken rounds step (size - n) (left_of (least step size) answers) in
    n + (if n == step then next else 0)

length-contents : (b : Buffer) → length (contents b) ≡ size_of b
unfolding contents
length-contents b = length-slice (b.offset - b.start) b.start b.store

-- What is left in a buffer whose first n bytes were taken.
size_left :
    (b c : Buffer) (n : ℕ)
    → slice n b.start b.store ++ contents c ≡ contents b
    → n + size_of c ≡ size_of b
size_left b c n e =
    let whole = ap length e in
    omega (
      arith,
      length-append (slice n b.start b.store) (contents c),
      length-slice n b.start b.store,
      length-contents b,
      length-contents c,
    )

write_all_more :
    (fuel : ℕ) (answers rest : List WriteAnswer) (step total n : ℕ) (s t : Stream)
    → write_chunk answers step s ≡ returned (n, t, rest)
    → (n == step) ≡ true
    → write_all (suc fuel) answers step total s ≡ write_all fuel rest step (total + n) t
unfolding write_all
write_all_more fuel answers rest step total n s t e full = rw (e, ◌>>=◌, full)

write_all_last :
    (fuel : ℕ) (answers rest : List WriteAnswer) (step total n : ℕ) (s t : Stream)
    → write_chunk answers step s ≡ returned (n, t, rest)
    → (n == step) ≡ false
    → write_all (suc fuel) answers step total s ≡ returned (total + n, t, rest)
unfolding write_all
write_all_last fuel answers rest step total n s t e part = rw (e, ◌>>=◌, part)

picked : {A : Type 0} (b : Bool) → b ≡ true → (if b then A else Unit {0}) → A
picked true e x = x
picked false e x = cc

-- The rounds behind a full one, and behind one that is not.
module _ (fuel step size left_size : ℕ) (answers : List WriteAnswer)
    (sizes : taken (least step size) answers + left_size ≡ size) where
  abbrev first_taken : ℕ
  first_taken = taken (least step size) answers

  abbrev left : List WriteAnswer
  left = left_of (least step size) answers

  rest_size : size - first_taken ≡ left_size
  rest_size = omega arith

  next_answered :
      (first_taken == step) ≡ true
      → AllAnswered (suc fuel) step size answers
      → AllAnswered fuel step left_size left
  next_answered full a =
      subst (λ z. AllAnswered fuel step z left) rest_size (picked (first_taken == step) full a.1)

  taken_full :
      (first_taken == step) ≡ true
      → all_taken (suc fuel) step size answers ≡ first_taken + all_taken fuel step left_size left
  taken_full full = rw full (ap (λ z. first_taken + all_taken fuel step z left) rest_size)

  taken_part : (first_taken == step) ≡ false → all_taken (suc fuel) step size answers ≡ first_taken
  taken_part part = rw part (omega arith)

fewer_left :
    (n step left size fuel : ℕ)
    → (n == step) ≡ true
    → 0 < step
    → n + left ≡ size
    → size < suc fuel
    → left < fuel
fewer_left n step left size fuel full h sizes enough = let e = (==_iff n step).0 full in omega arith

-- A write_all from a well-formed buffer in steps of at least one byte, whose answers settle each round
-- without an error, returns when it may make more rounds than the buffer has bytes. The result is the
-- total before and the number of bytes that the kernel took in all rounds; the bytes that write(2) took
-- from memory are the front of the buffer's bytes, in order, the rest stays in it, and the read buffer
-- is unchanged.
pub write_all-contents :
    (fuel : ℕ) (answers : List WriteAnswer) (step total : ℕ) (s : Stream)
    → IsValid s.wbuffer
    → 0 < step
    → size_of s.wbuffer < fuel
    → AllAnswered fuel step (size_of s.wbuffer) answers
    → let n = all_taken fuel step (size_of s.wbuffer) answers in
      (t : Stream) × (rest : List WriteAnswer) × (front : List ℕ) × (write_all fuel answers step
          total s
        ≡ returned (total + n, t, rest))
      × IsValid t.wbuffer
      × (front ++ contents t.wbuffer ≡ contents s.wbuffer)
      × (length front ≡ n)
      × (t.sent ≡ s.sent ++ front)
      × (t.rbuffer ≡ s.rbuffer)
write_all-contents zero answers step total s v h enough a = absurd a
write_all-contents (suc fuel) answers step total s v h enough a =
    let size = size_of s.wbuffer in
    let n = taken (least step size) answers in
    let left = left_of (least step size) answers in
    let (t, e, few, fits, valid, same, reads, sends) = write_chunk-left_of answers step s v a.0 in
    let sizes = size_left s.wbuffer t.wbuffer n same in
    let left_size = size_of t.wbuffer in
    elim (Bool-cases (n == step)) [
      | inl full ↦
          let more = next_answered fuel step size left_size answers sizes full a in
          let k = all_taken fuel step left_size left in
          let (u, rest, front, e', valid', same', long, sends', reads') =
            write_all-contents fuel left step (total + n) t valid h
              (fewer_left n step left_size size fuel full h sizes enough) more in
          let sum = taken_full fuel step size left_size answers sizes full in
          let first = slice n s.wbuffer.start s.wbuffer.store in
          (
            u,
            rest,
            first ++ front,
            write_all_more fuel answers left step total n s t e full
                ∙ e'
                ∙ ap (λ z. returned (z, u, rest)) (omega arith),
            valid',
            append_assoc first front (contents u.wbuffer) ∙ ap (λ z. first ++ z) same' ∙ same,
            length-append first front
                ∙ ap₂ (λ x y. x + y) (length-slice n s.wbuffer.start s.wbuffer.store) long
                ∙ sym sum,
            sends' ∙ ap (λ xs. xs ++ front) sends ∙ append_assoc s.sent first front,
            reads' ∙ reads,
          )
      | inr part ↦
          let sum = taken_part fuel step size left_size answers sizes part in
          (
            t,
            left,
            slice n s.wbuffer.start s.wbuffer.store,
            write_all_last fuel answers left step total n s t e part
                ∙ ap (λ z. returned (total + z, t, left)) (sym sum),
            valid,
            same,
            length-slice n s.wbuffer.start s.wbuffer.store ∙ sym sum,
            sends,
            reads,
          )
    ]
