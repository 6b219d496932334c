-- ===== src/Nio/Writing.antt =====
-- nstream::write_chunk of src/lib/nio.cc.
use cppev.Prelude.{
  ℕ, zero, suc, ◌+◌, ◌-◌, ◌≤◌, ◌≡◌, refl, sym, ap, ap₂, subst, ◌∙◌, inl, inr, true, List, [], ◌∷◌,
  ◌++◌, append_assoc, append-nil, arith, ◌==◌, Bool-cases,
}
use cppev.Buffer.{Buffer, clear, contents}
use cppev.Buffer.Arrays.{slice, slice-add}
use cppev.Buffer.Bounds.{IsValid}
use cppev.Buffer.Contents.{clear-IsValid}
use cppev.Nio.{
  returned, Stream, WriteAnswer, took, broken_pipe, drain, write_loop, size_of, least, tidy,
  write_chunk,
}

-- The answers settle a write of `len` bytes without an error. write(2) takes no more than it is given.
abbrev pub Answered : ℕ → List WriteAnswer → Type 0
Answered zero answers = Unit {0}
Answered (suc len) [] = ⊥
Answered (suc len) (took n ∷ answers) = (n ≤ suc len) × Answered (suc len - n) answers
Answered (suc len) (WriteAnswer.interrupted ∷ answers) = Answered (suc len) answers
Answered (suc len) (WriteAnswer.failed ∷ answers) = ⊥
Answered (suc len) _ = Unit {0}

-- The number of bytes that the kernel takes of a write of `len` bytes.
abbrev pub taken : ℕ → List WriteAnswer → ℕ
taken zero answers = 0
taken (suc len) [] = 0
taken (suc len) (took n ∷ answers) = n + taken (suc len - n) answers
taken (suc len) (WriteAnswer.interrupted ∷ answers) = taken (suc len) answers
taken (suc len) _ = 0

-- The answers that a write of `len` bytes leaves.
abbrev pub left_of : ℕ → List WriteAnswer → List WriteAnswer
left_of zero answers = answers
left_of (suc len) [] = []
left_of (suc len) (took n ∷ answers) = left_of (suc len - n) answers
left_of (suc len) (WriteAnswer.interrupted ∷ answers) = left_of (suc len) answers
left_of (suc len) (WriteAnswer.would_block ∷ answers) = answers
left_of (suc len) (broken_pipe ∷ answers) = answers
left_of (suc len) (WriteAnswer.conn_reset ∷ answers) = answers
left_of (suc len) (WriteAnswer.failed ∷ answers) = answers

-- n bytes from the front of the write buffer were taken by write(2), `start_` of the write buffer has
-- moved by n, and the read buffer is untouched.
record Moved (s t : Stream) (n : ℕ) : Type 0 where
  drained : t.wbuffer ≡ record (s.wbuffer) { start = s.wbuffer.start + n }
  untouched : t.rbuffer ≡ s.rbuffer
  passed : t.sent ≡ s.sent ++ slice n s.wbuffer.start s.wbuffer.store

Moved-zero :
    (s t : Stream) → t.wbuffer ≡ s.wbuffer → t.rbuffer ≡ s.rbuffer → t.sent ≡ s.sent → Moved s t 0
unfolding slice
Moved-zero s t e f g = record {
  passed = g ∙ sym (append-nil s.sent);
  drained =
      let z : s.wbuffer.start ≡ s.wbuffer.start + 0 = omega arith in
      e ∙ ap (λ k. record (s.wbuffer) { start = k }) z;
  untouched = f;
}

Moved-trans : (s t : Stream) (n m : ℕ) → Moved (drain s n) t m → Moved s t (n + m)
Moved-trans s t n m h = record {
  passed =
      h.passed
      ∙ append_assoc s.sent (slice n s.wbuffer.start s.wbuffer.store)
          (slice m (s.wbuffer.start + n) s.wbuffer.store)
      ∙ ap (λ xs. s.sent ++ xs) (sym (slice-add n m s.wbuffer.start s.wbuffer.store));
  drained =
      let z : s.wbuffer.start + n + m ≡ s.wbuffer.start + (n + m) = omega arith in
      h.drained ∙ ap (λ k. record (s.wbuffer) { start = k }) z;
  untouched = h.untouched;
}

least_le : (a b : ℕ) → a ≤ b → least a b ≡ a
least_le a b h = ground arith

-- The second bound on the length changes nothing, since the length never exceeds the size.
took_step :
    (n len : ℕ) (answers : List WriteAnswer) (s : Stream)
    → suc len ≤ size_of s.wbuffer
    → write_loop (took n ∷ answers) (suc len) s ≡ write_loop answers (suc len - n) (drain s n)
unfolding write_loop
took_step n len answers s h =
    ap (λ k. write_loop answers (k - n) (drain s n)) (least_le (suc len) (size_of s.wbuffer) h)

interrupted_step :
    (len : ℕ) (answers : List WriteAnswer) (s : Stream)
    → suc len ≤ size_of s.wbuffer
    → write_loop (WriteAnswer.interrupted ∷ answers) (suc len) s ≡ write_loop answers (suc len) s
unfolding write_loop
interrupted_step len answers s h =
    ap (λ k. write_loop answers k s) (least_le (suc len) (size_of s.wbuffer) h)

write_loop-Moved :
    (answers : List WriteAnswer) (len : ℕ) (s : Stream)
    → len ≤ size_of s.wbuffer
    → Answered len answers
    → (t : Stream) × (rest : List WriteAnswer) × (write_loop answers len s ≡ returned (t, rest))
      × Moved s t (taken len answers)
      × (taken len answers ≤ len)
      × (rest ≡ left_of len answers)
unfolding write_loop
write_loop-Moved answers zero s h a =
    (s, answers, refl, Moved-zero s s refl refl refl, omega arith, refl)
write_loop-Moved [] (suc len) s h a = absurd a
write_loop-Moved (took n ∷ answers) (suc len) s h a =
    let (t, rest, e, more, le, left) =
      write_loop-Moved answers (suc len - n) (drain s n) (omega arith) a.1 in
    (t, rest, took_step n len answers s h ∙ e, Moved-trans s t n _ more, omega arith, left)
write_loop-Moved (WriteAnswer.interrupted ∷ answers) (suc len) s h a =
    let (t, rest, e, more, le, left) = write_loop-Moved answers (suc len) s h a in
    (t, rest, interrupted_step len answers s h ∙ e, more, le, left)
write_loop-Moved (WriteAnswer.would_block ∷ answers) (suc len) s h a =
    (s, answers, refl, Moved-zero s s refl refl refl, omega arith, refl)
write_loop-Moved (broken_pipe ∷ answers) (suc len) s h a =
    (record s { eop = true }, answers, refl, Moved-zero s _ refl refl refl, omega arith, refl)
write_loop-Moved (WriteAnswer.conn_reset ∷ answers) (suc len) s h a =
    (record s { reset = true }, answers, refl, Moved-zero s _ refl refl refl, omega arith, refl)
write_loop-Moved (WriteAnswer.failed ∷ answers) (suc len) s h a = absurd a

-- The buffer after n of its bytes were written.
module _ (b : Buffer) (v : IsValid b) (n : ℕ) (h : n ≤ size_of b) where
  advanced : Buffer
  advanced = record b { start = b.start + n }

  advanced-IsValid : IsValid advanced
  unfolding advanced
  advanced-IsValid = record {
    ordered = let o = v.ordered in omega arith;
    within = v.within;
    sized = v.sized;
    positive = v.positive;
    int_cap = v.int_cap;
    zero_tail = v.zero_tail;
  }

  advanced-contents : slice n b.start b.store ++ contents advanced ≡ contents b
  unfolding contents advanced
  advanced-contents =
      let m = b.offset - (b.start + n) in
      let e : b.offset - b.start ≡ n + m = let o = v.ordered in omega arith in
      rw e (sym (slice-add n m b.start b.store))

tidy-contents :
    (s : Stream)
    → IsValid s.wbuffer
    → IsValid (tidy s).wbuffer
      × (contents (tidy s).wbuffer ≡ contents s.wbuffer)
      × ((tidy s).rbuffer ≡ s.rbuffer)
      × ((tidy s).sent ≡ s.sent)
tidy-contents s v = elim (Bool-cases (size_of s.wbuffer == 0)) [
  | inl empty ↦
      let none_left : s.wbuffer.offset - s.wbuffer.start ≡ 0 = ground arith in
      rw empty (clear-IsValid s.wbuffer v, unfold contents clear slice in rw none_left, refl, refl)
  | inr part ↦ rw part (v, refl, refl, refl)
]

write_chunk_entry :
    (answers rest : List WriteAnswer) (len : ℕ) (s t : Stream)
    → write_loop answers (least len (size_of s.wbuffer)) s ≡ returned (t, rest)
    → write_chunk answers len s ≡ returned (t.wbuffer.start - s.wbuffer.start, tidy t, rest)
unfolding write_chunk
write_chunk_entry answers rest len s t e = rw e

pub write_chunk-left_of :
    (answers : List WriteAnswer) (len : ℕ) (s : Stream)
    → IsValid s.wbuffer
    → Answered (least len (size_of s.wbuffer)) answers
    → let n = taken (least len (size_of s.wbuffer)) answers in
      (t : Stream) × (write_chunk answers len s
        ≡ returned (n, t, left_of (least len (size_of s.wbuffer)) answers))
      × (n ≤ len)
      × (n ≤ size_of s.wbuffer)
      × IsValid t.wbuffer
      × (slice n s.wbuffer.start s.wbuffer.store ++ contents t.wbuffer ≡ contents s.wbuffer)
      × (t.rbuffer ≡ s.rbuffer)
      × (t.sent ≡ s.sent ++ slice n s.wbuffer.start s.wbuffer.store)
write_chunk-left_of answers len s v a =
    let n = taken (least len (size_of s.wbuffer)) answers in
    let (t, rest, e, m, le, left) =
      write_loop-Moved answers (least len (size_of s.wbuffer)) s (ground arith) a in
    let few : n ≤ size_of s.wbuffer = ground arith in
    let valid : IsValid t.wbuffer =
      subst IsValid (sym m.drained) (unfold advanced in advanced-IsValid s.wbuffer v n few) in
    let (valid', same, reads, sends) = tidy-contents t valid in
    let start : t.wbuffer.start ≡ s.wbuffer.start + n = ap (λ (b : Buffer). b.start) m.drained in
    let count : t.wbuffer.start - s.wbuffer.start ≡ n = omega arith in
    (
      tidy t,
      write_chunk_entry answers rest len s t e ∙ ap₂ (λ k r. returned (k, tidy t, r)) count left,
      ground arith,
      few,
      valid',
      ap (λ q. slice n s.wbuffer.start s.wbuffer.store ++ q) (same ∙ ap contents m.drained)
          ∙ (unfold advanced in advanced-contents s.wbuffer v n few),
      reads ∙ m.untouched,
      sends ∙ m.passed,
    )

-- A write of a chunk from a well-formed buffer, whose answers settle it, returns. The result is the
-- number of bytes that the kernel took, at most the chunk and at most the size of the buffer; the
-- buffer is well formed and has lost just these bytes from its front, and the read buffer is
-- unchanged.
write_chunk-contents :
    (answers : List WriteAnswer) (len : ℕ) (s : Stream)
    → IsValid s.wbuffer
    → Answered (least len (size_of s.wbuffer)) answers
    → let n = taken (least len (size_of s.wbuffer)) answers in
      (t : Stream) × (rest : List WriteAnswer) × (write_chunk answers len s ≡ returned (n, t, rest))
      × (n ≤ len)
      × (n ≤ size_of s.wbuffer)
      × IsValid t.wbuffer
      × (slice n s.wbuffer.start s.wbuffer.store ++ contents t.wbuffer ≡ contents s.wbuffer)
      × (t.rbuffer ≡ s.rbuffer)
write_chunk-contents answers len s v a =
    let (t, e, few, size, valid, same, reads, sends) = write_chunk-left_of answers len s v a in
    (t, left_of (least len (size_of s.wbuffer)) answers, e, few, size, valid, same, reads)
