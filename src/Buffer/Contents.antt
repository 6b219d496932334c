-- ===== src/Buffer/Contents.antt =====
-- What the operations of a buffer do to its bytes.
use cppev.Prelude.{
  Option, none, inl, inr, subst, Option-cases, ℕ, ◌+◌, ◌-◌, ◌≤◌, ◌≡◌, sym, ap, ap₂, ◌∙◌, List, ◌++◌,
  some, arith, ltb, leb, if◌then◌else◌, ◌&&◌, length, get_or,
}
use cppev.Buffer.{Buffer, resize, tiny, clear, produce, contents}
use cppev.Buffer.Arrays.{
  shift_down, put_bytes, slice, get_or_past, length-shift_down, length-fill_zero, length-put_bytes,
  get_or-shift_down, get_or-fill_zero, get_or-put_bytes, slice_eq, slice-add, slice_list,
}
use cppev.Buffer.Bounds.{IsValid, Resized, resize-Resized, resize_total}

module _ (b : Buffer) (v : IsValid b) where
  clear_bytes : (k : ℕ) → ◌≡◌ {A = ℕ} (get_or (clear b).store k 0) 0
  unfolding clear
  clear_bytes k =
      let s = v.sized in ground (arith, get_or-fill_zero b.cap 0 b.store k, get_or_past b.store k)

  pub clear-IsValid : IsValid (clear b)
  unfolding clear
  clear-IsValid = record {
    ordered = omega arith;
    within = omega arith;
    sized = length-fill_zero b.cap 0 b.store ∙ v.sized;
    positive = v.positive;
    int_cap = v.int_cap;
    zero_tail = λ k _. clear_bytes k;
  }

  tiny_bytes :
      (k : ℕ)
      → get_or (tiny b).store k 0
        ≡ (if ltb k (b.offset - b.start) then get_or b.store (k + b.start) 0 else 0)
  unfolding tiny
  tiny_bytes k =
      let o = v.ordered in
      let w = v.within in
      let s = v.sized in
      let len = b.offset - b.start in
      ground (
        arith,
        get_or-fill_zero b.start len (shift_down len 0 b.start b.store) k,
        get_or-shift_down len 0 b.start b.store k,
        v.zero_tail k,
      )

  tiny-start : (tiny b).start ≡ 0
  unfolding tiny
  tiny-start = ground arith

  tiny-offset : (tiny b).offset ≡ b.offset - b.start
  unfolding tiny
  tiny-offset = ground arith

  tiny-cap : (tiny b).cap ≡ b.cap
  unfolding tiny
  tiny-cap = ground arith

  tiny-sized : length (tiny b).store ≡ b.cap
  unfolding tiny
  tiny-sized =
      let len = b.offset - b.start in
      ground (
        arith,
        v.sized,
        length-fill_zero b.start len (shift_down len 0 b.start b.store),
        length-shift_down len 0 b.start b.store,
      )

  pub tiny-IsValid : IsValid (tiny b)
  tiny-IsValid = record {
    ordered = omega (arith, tiny-start);
    within = let w = v.within in omega (arith, tiny-offset, tiny-cap);
    sized = tiny-sized ∙ sym tiny-cap;
    positive = let p = v.positive in omega (arith, tiny-cap);
    int_cap = let p = v.int_cap in omega (arith, tiny-cap);
    zero_tail = λ k t. ground (arith, tiny_bytes k, tiny-offset);
  }

  -- Moving the bytes to the start of the array keeps the buffer well formed and its bytes unchanged.
  tiny-contents : IsValid (tiny b) × (contents (tiny b) ≡ contents b) × ((tiny b).start ≡ 0)
  unfolding contents
  tiny-contents = (tiny-IsValid, same, tiny-start)
    where
      same : contents (tiny b) ≡ contents b
      same =
          let none_off : b.offset - b.start - 0 ≡ b.offset - b.start = omega arith in
          rw (tiny-start, tiny-offset, none_off)
            (slice_eq (b.offset - b.start) 0 b.start (tiny b).store b.store (λ k h.
              let e : 0 + k ≡ k = omega arith in
              let e' : k + b.start ≡ b.start + k = omega arith in
              rw e (ground (arith, tiny_bytes k))))

  module _ (xs : List ℕ) (r : Buffer) (z : Resized b r (b.offset + length xs)) where
    unfoldable pub filled : Buffer
    filled = record r { offset = r.offset + length xs; store = put_bytes xs r.offset r.store }

    pub filled_room : r.offset + length xs ≤ length r.store
    filled_room = let w = z.room in let s = z.valid.sized in let o = z.same_offset in omega arith

    filled_bytes :
        (k : ℕ)
        → get_or filled.store k 0 ≡ (
            if leb r.offset k && ltb k (r.offset + length xs)
            then get_or xs (k - r.offset) 0
            else get_or r.store k 0)
    unfolding filled
    filled_bytes k = get_or-put_bytes xs r.offset r.store k filled_room

    pub filled-IsValid : IsValid filled
    unfolding filled
    filled-IsValid = record {
      ordered = let o = z.valid.ordered in omega arith;
      within = let s = z.valid.sized in omega (arith, filled_room);
      sized = length-put_bytes xs r.offset r.store ∙ z.valid.sized;
      positive = z.valid.positive;
      int_cap = z.valid.int_cap;
      zero_tail = λ k t. ground (arith, filled_bytes k, z.valid.zero_tail k);
    }

    pub filled-contents : contents filled ≡ contents b ++ xs
    unfolding filled contents
    filled-contents =
        let o = v.ordered in
        let s = z.same_start in
        let e = z.same_offset in
        let m = b.offset - b.start in
        let n = length xs in
        let count : r.offset + n - r.start ≡ m + n = omega arith in
        let middle : r.start + m ≡ r.offset = omega arith in
        let front : slice m r.start filled.store ≡ slice m b.start b.store =
          slice_eq m r.start b.start filled.store b.store
            (λ k h. ground (arith, filled_bytes (r.start + k), z.same_bytes (b.start + k))) in
        let back : slice n r.offset filled.store ≡ xs = slice_list xs r.offset filled.store (λ k h.
          let back_to : r.offset + k - r.offset ≡ k = omega arith in
          ground (arith, filled_bytes (r.offset + k))) in
        rw (count, slice-add m n r.start filled.store, middle) (ap₂ ◌++◌ front back)

  -- A resize keeps the bytes.
  pub Resized-contents : (r : Buffer) (n : ℕ) → Resized b r n → contents r ≡ contents b
  unfolding contents
  Resized-contents r n z =
      let s = z.same_start in
      let o = z.same_offset in
      let count : r.offset - r.start ≡ b.offset - b.start = omega arith in
      rw count (
        slice_eq (b.offset - b.start) r.start b.start r.store b.store
          (λ k h. ground (arith, z.same_bytes (b.start + k))))

  produce_entry :
      (xs : List ℕ) (r : Buffer) (z : Resized b r (b.offset + length xs))
      → resize b (b.offset + length xs) ≡ some r
      → produce b xs ≡ some (filled xs r z)
  unfolding produce filled
  produce_entry xs r z e = rw e

  -- Appending to a well-formed buffer is possible while the bytes end within 2 ^ 30; it keeps the
  -- buffer well formed, its bytes are the old ones followed by the new ones, and its end index grows
  -- by their number.
  pub produce-contents :
      (xs : List ℕ)
      → b.offset + length xs ≤ 1_073_741_824
      → (r : Buffer) × (produce b xs ≡ some r)
        × IsValid r
        × (contents r ≡ contents b ++ xs)
        × (r.offset ≡ b.offset + length xs)
  unfolding produce filled
  produce-contents xs h =
      let (r, e) = resize_total b v (b.offset + length xs) h in
      let z = resize-Resized b v (b.offset + length xs) r e in
      (
        filled xs r z,
        produce_entry xs r z e,
        filled-IsValid xs r z,
        filled-contents xs r z,
        ap (λ k. k + length xs) z.same_offset,
      )

  -- The same of an append that is known to have a result.
  pub produced-contents :
      (xs : List ℕ) (r : Buffer)
      → produce b xs ≡ some r
      → IsValid r × (contents r ≡ contents b ++ xs)
  unfolding produce
  produced-contents xs r e = elim (Option-cases (resize b (b.offset + length xs))) [
    | inl nothing ↦ let f : ◌≡◌ {A = Option Buffer} none (some r) = rw nothing at e in absurd cc
    | inr (m, f) ↦
        let z = resize-Resized b v (b.offset + length xs) m f in
        let made : filled xs m z ≡ r = let g = produce_entry xs m z f in cc in
        subst (λ q. IsValid q × (contents q ≡ contents b ++ xs)) made
          (filled-IsValid xs m z, filled-contents xs m z)
  ]
