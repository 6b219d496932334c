-- ===== src/Nio/Reading.antt =====
-- nstream::read_chunk of src/lib/nio.cc.
use cppev.Prelude.{
  ℕ, zero, suc, ◌+◌, ◌-◌, ◌≤◌, ◌≡◌, refl, sym, ap, subst, ◌∙◌, true, List, [], ◌∷◌, ◌++◌,
  append-nil, append_assoc, some, arith, length, length-append,
}
use cppev.Buffer.{Buffer, resize, contents}
use cppev.Buffer.Bounds.{IsValid, Resized, resize-Resized, resize_total}
use cppev.Buffer.Contents.{Resized-contents, filled, filled-IsValid, filled-contents}
use cppev.Nio.{
  returned, Stream, ReadAnswer, got, at_end, interrupted, would_block, conn_reset, failed, fill,
  read_loop, read_chunk,
}

-- The answers settle a read of `len` bytes without an error. read(2) gives at least one byte, and
-- no more than were asked for.
abbrev pub Answered : ℕ → List ReadAnswer → Type 0
Answered zero answers = Unit {0}
Answered (suc len) [] = ⊥
Answered (suc len) (got bytes ∷ answers) =
    (1 ≤ length bytes) × (length bytes ≤ suc len) × Answered (suc len - length bytes) answers
Answered (suc len) (interrupted ∷ answers) = Answered (suc len) answers
Answered (suc len) (failed ∷ answers) = ⊥
Answered (suc len) _ = Unit {0}

-- The bytes that the kernel gives to a read of `len` bytes.
abbrev pub received : ℕ → List ReadAnswer → List ℕ
received zero answers = []
received (suc len) [] = []
received (suc len) (got bytes ∷ answers) = bytes ++ received (suc len - length bytes) answers
received (suc len) (interrupted ∷ answers) = received (suc len) answers
received (suc len) _ = []

-- What a read of `len` bytes leaves of the answers.
abbrev pub unread : ℕ → List ReadAnswer → List ReadAnswer
unread zero answers = answers
unread (suc len) [] = []
unread (suc len) (got bytes ∷ answers) = unread (suc len - length bytes) answers
unread (suc len) (interrupted ∷ answers) = unread (suc len) answers
unread (suc len) (at_end ∷ answers) = answers
unread (suc len) (would_block ∷ answers) = answers
unread (suc len) (conn_reset ∷ answers) = answers
unread (suc len) (failed ∷ answers) = answers

-- The read buffer of t is that of s with some bytes appended, and the write buffer is untouched.
pub record Grown (s t : Stream) (bytes : List ℕ) : Type 0 where
  pub valid : IsValid t.rbuffer
  pub appended : contents t.rbuffer ≡ contents s.rbuffer ++ bytes
  pub offset : t.rbuffer.offset ≡ s.rbuffer.offset + length bytes
  pub untouched : t.wbuffer ≡ s.wbuffer

none_read :
    (s t : Stream)
    → IsValid s.rbuffer
    → t.rbuffer ≡ s.rbuffer
    → t.wbuffer ≡ s.wbuffer
    → Grown s t []
none_read s t v e f = record {
  valid = subst IsValid (sym e) v;
  appended = ap contents e ∙ sym (append-nil _);
  offset = let o = ap (λ (b : Buffer). b.offset) e in omega arith;
  untouched = f;
}

room_itself : (b : Buffer) (n : ℕ) → IsValid b → b.offset + n ≤ b.cap → Resized b b (b.offset + n)
room_itself b n v h = record {
  valid = v;
  room = h;
  same_start = refl;
  same_offset = refl;
  same_bytes = λ k _. refl;
}

fill-Grown :
    (s : Stream) (bytes : List ℕ)
    → IsValid s.rbuffer
    → s.rbuffer.offset + length bytes ≤ s.rbuffer.cap
    → Grown s (fill s bytes) bytes
unfolding filled
fill-Grown s bytes v h =
    let z = room_itself s.rbuffer (length bytes) v h in
    record {
      valid = filled-IsValid s.rbuffer v bytes s.rbuffer z;
      appended = filled-contents s.rbuffer v bytes s.rbuffer z;
      offset = refl;
      untouched = refl;
    }

pub Grown-trans :
    (s t u : Stream) (xs ys : List ℕ) → Grown s t xs → Grown t u ys → Grown s u (xs ++ ys)
Grown-trans s t u xs ys g h = record {
  valid = h.valid;
  appended = h.appended ∙ ap (λ q. q ++ ys) g.appended ∙ append_assoc (contents s.rbuffer) xs ys;
  offset = let a = g.offset in let b = h.offset in omega (arith, length-append xs ys);
  untouched = h.untouched ∙ g.untouched;
}

pub read_loop-Grown :
    (answers : List ReadAnswer) (len : ℕ) (s : Stream)
    → IsValid s.rbuffer
    → s.rbuffer.offset + len ≤ s.rbuffer.cap
    → Answered len answers
    → (t : Stream) × (read_loop answers len s ≡ returned (t, unread len answers))
      × Grown s t (received len answers)
      × (t.rbuffer.cap ≡ s.rbuffer.cap)
unfolding read_loop
read_loop-Grown answers zero s v h a = (s, refl, none_read s s v refl refl, refl)
read_loop-Grown [] (suc len) s v h a = absurd a
read_loop-Grown (got bytes ∷ answers) (suc len) s v h a =
    let first = fill-Grown s bytes v (omega arith) in
    let (t, e, more, cap) =
      read_loop-Grown answers (suc len - length bytes) (fill s bytes) first.valid (omega arith)
        a.2 in
    (t, e, Grown-trans s (fill s bytes) t bytes _ first more, cap)
read_loop-Grown (at_end ∷ answers) (suc len) s v h a =
    (record s { eof = true }, refl, none_read s _ v refl refl, refl)
read_loop-Grown (interrupted ∷ answers) (suc len) s v h a =
    read_loop-Grown answers (suc len) s v h a
read_loop-Grown (would_block ∷ answers) (suc len) s v h a =
    (s, refl, none_read s s v refl refl, refl)
read_loop-Grown (conn_reset ∷ answers) (suc len) s v h a =
    (record s { reset = true }, refl, none_read s _ v refl refl, refl)
read_loop-Grown (failed ∷ answers) (suc len) s v h a = absurd a

Resized-Grown :
    (s t : Stream) (r : Buffer) (n : ℕ) (bytes : List ℕ)
    → IsValid s.rbuffer
    → Resized s.rbuffer r n
    → Grown (record s { rbuffer = r }) t bytes
    → Grown s t bytes
unfolding contents
Resized-Grown s t r n bytes v z g = record {
  valid = g.valid;
  appended = g.appended ∙ ap (λ q. q ++ bytes) (Resized-contents s.rbuffer v r n z);
  offset = let a = g.offset in let b = z.same_offset in omega arith;
  untouched = g.untouched;
}

pub read_chunk_entry :
    (answers rest : List ReadAnswer) (len : ℕ) (s t : Stream) (r : Buffer)
    → resize s.rbuffer (s.rbuffer.offset + len) ≡ some r
    → read_loop answers len (record s { rbuffer = r }) ≡ returned (t, rest)
    → read_chunk answers len s ≡ returned (t.rbuffer.offset - s.rbuffer.offset, t, rest)
unfolding read_chunk
read_chunk_entry answers rest len s t r e f = rw (e, f)

-- A read of a chunk whose answers settle it, into a well-formed buffer that ends within 2 ^ 30 with
-- the chunk, returns. The read buffer has the old bytes followed by those that the kernel gave, whose
-- number is the result; it is well formed and has room for the chunk behind the old bytes, the write
-- buffer is unchanged, and the answers behind those of this read are left.
pub read_chunk-Grown :
    (answers : List ReadAnswer) (len : ℕ) (s : Stream)
    → IsValid s.rbuffer
    → s.rbuffer.offset + len ≤ 1_073_741_824
    → Answered len answers
    → (t : Stream) × (read_chunk answers len s
        ≡ returned (length (received len answers), t, unread len answers))
      × Grown s t (received len answers)
      × (s.rbuffer.offset + len ≤ t.rbuffer.cap)
read_chunk-Grown answers len s v h a =
    let (r, e) = resize_total s.rbuffer v (s.rbuffer.offset + len) h in
    let z = resize-Resized s.rbuffer v (s.rbuffer.offset + len) r e in
    let room : r.offset + len ≤ r.cap = let o = z.same_offset in let w = z.room in omega arith in
    let (t, f, g, cap) = read_loop-Grown answers len (record s { rbuffer = r }) z.valid room a in
    let grown = Resized-Grown s t r _ _ v z g in
    let count : t.rbuffer.offset - s.rbuffer.offset ≡ length (received len answers) =
      let o = grown.offset in omega arith in
    (
      t,
      read_chunk_entry answers (unread len answers) len s t r e f
          ∙ ap (λ n. returned (n, t, unread len answers)) count,
      grown,
      let w = z.room in omega arith,
    )
