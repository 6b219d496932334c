-- ===== src/Buffer/Consume.antt =====
-- Taking bytes out of a buffer.
use cppev.Prelude.{
  ℕ, zero, suc, ◌+◌, ◌-◌, ◌≤◌, ◌≡◌, refl, sym, ap, inl, inr, true, false, List, [], ◌++◌,
  append-nil, some, arith, ◌==◌, if◌then◌else◌, Bool-cases, length,
}
use cppev.Prelude.Int.{pos, negsuc, ◌+ℤ◌}
use cppev.Buffer.{Buffer, clear, size, consume, get_string, contents}
use cppev.Buffer.Arrays.{slice, slice-add}
use cppev.Buffer.Bounds.{IsValid}
use cppev.Buffer.Contents.{clear-IsValid}

length-slice : (n i : ℕ) (s : List ℕ) → length (slice n i s) ≡ n
unfolding slice
length-slice zero i s = refl
length-slice (suc n) i s = ap suc (length-slice n (suc i) s)

pub length-contents : (b : Buffer) → length (contents b) ≡ b.offset - b.start
unfolding contents
length-contents b = length-slice (b.offset - b.start) b.start b.store

module _ (b : Buffer) (v : IsValid b) where
  -- The buffer after n bytes were taken.
  rest_of : ℕ → Buffer
  rest_of n = if b.start + n == b.offset then clear b else record b { start = b.start + n }

  consume_pos : (n : ℕ) → consume b (pos n) ≡ some (rest_of n)
  unfolding consume rest_of
  consume_pos n = let e : b.start + n - 0 ≡ b.start + n = omega arith in ground arith

  rest_of-IsValid : (n : ℕ) → n ≤ b.offset - b.start → IsValid (rest_of n)
  unfolding rest_of
  rest_of-IsValid n h = elim (Bool-cases (b.start + n == b.offset)) [
    | inl all ↦ rw all (clear-IsValid b v)
    | inr part ↦ rw part (record {
      ordered = let o = v.ordered in omega arith;
      within = v.within;
      sized = v.sized;
      positive = v.positive;
      int_cap = v.int_cap;
      zero_tail = v.zero_tail;
    })
  ]

  rest_of-contents :
      (n : ℕ)
      → n ≤ b.offset - b.start
      → slice n b.start b.store ++ contents (rest_of n) ≡ contents b
  unfolding rest_of contents clear slice
  rest_of-contents n h = elim (Bool-cases (b.start + n == b.offset)) [
    | inl all ↦
        let e : n ≡ b.offset - b.start = ground arith in
        rw (all, append-nil) (ap (λ m. slice m b.start b.store) e)
    | inr part ↦
        let m = b.offset - (b.start + n) in
        let e : b.offset - b.start ≡ n + m = let o = v.ordered in omega arith in
        rw (part, e) (sym (slice-add n m b.start b.store))
  ]

  rest_of-offset : (n : ℕ) → (rest_of n).offset ≤ b.offset
  unfolding rest_of clear
  rest_of-offset n = ground arith

  -- Taking n bytes, at most the size, returns the first n bytes, and leaves a well-formed buffer with
  -- the others; its end index does not grow.
  pub get_string-contents :
      (n : ℕ)
      → n ≤ b.offset - b.start
      → (str : List ℕ) × (r : Buffer) × (get_string b (pos n) true ≡ some (str, r))
        × (str ++ contents r ≡ contents b)
        × (length str ≡ n)
        × IsValid r
        × (r.offset ≤ b.offset)
  unfolding get_string
  get_string-contents n h = (
    slice n b.start b.store,
    rest_of n,
    rw (consume_pos n),
    rest_of-contents n h,
    length-slice n b.start b.store,
    rest_of-IsValid n h,
    rest_of-offset n,
  )

  size_pos : size b ≡ pos (b.offset - b.start)
  size_pos = let o = v.ordered in ground arith

  pub consume_all : consume b (negsuc 0) ≡ some (clear b)
  unfolding consume clear ◌+ℤ◌
  consume_all =
      let o = v.ordered in
      let e : b.start + (b.offset - b.start) - 0 ≡ b.offset = omega arith in
      rw size_pos (ground arith)

  -- With -1 all bytes are returned; the buffer is empty afterwards if they are removed, and
  -- unchanged if not.
  pub get_string_all :
      (get_string b (negsuc 0) true ≡ some (contents b, clear b))
      × (contents (clear b) ≡ [])
      × (get_string b (negsuc 0) false ≡ some (contents b, b))
  unfolding get_string contents consume clear slice ◌+ℤ◌
  get_string_all =
      let o = v.ordered in
      let e : b.start + (b.offset - b.start) - 0 ≡ b.offset = omega arith in
      (rw size_pos (ground arith), refl, rw size_pos)
