-- ===== src/Buffer/Arrays.antt =====
-- The loops of buffer.h over its heap array, and what each leaves at every index.
use cppev.Prelude.{
  ℕ, zero, suc, ◌+◌, ◌-◌, ◌≤◌, ◌<◌, ◌≡◌, refl, ◌∙◌, List, [], ◌∷◌, ◌++◌, arith, ltb, leb, ◌==◌,
  if◌then◌else◌, ◌&&◌, length, get_or, set, replicate, length-set,
}

-- for (int i = start_; i < offset_; ++i) nbuffer[i] = buffer_[i]: the first argument counts rounds
unfoldable pub copy_range : ℕ → ℕ → List ℕ → List ℕ → List ℕ
copy_range zero i src dst = dst
copy_range (suc n) i src dst = copy_range n (suc i) src (set dst i (get_or src i 0))

-- for (int i = 0; i < len; ++i) buffer_[i] = buffer_[i + start_]
unfoldable pub shift_down : ℕ → ℕ → ℕ → List ℕ → List ℕ
shift_down zero i d s = s
shift_down (suc n) i d s = shift_down n (suc i) d (set s i (get_or s (i + d) 0))

-- memset(buffer_.get() + i, 0, n)
unfoldable pub fill_zero : ℕ → ℕ → List ℕ → List ℕ
fill_zero zero i s = s
fill_zero (suc n) i s = fill_zero n (suc i) (set s i 0)

-- buffer_[offset_++] = ptr[i]
unfoldable pub put_bytes : List ℕ → ℕ → List ℕ → List ℕ
put_bytes [] i s = s
put_bytes (x ∷ xs) i s = put_bytes xs (suc i) (set s i x)

-- The n bytes from index i on.
unfoldable pub slice : ℕ → ℕ → List ℕ → List ℕ
slice zero i s = []
slice (suc n) i s = get_or s i 0 ∷ slice n (suc i) s

pub get_or-set :
    (s : List ℕ) (i v k : ℕ)
    → get_or (set s i v) k 0 ≡ (if i == k && ltb i (length s) then v else get_or s k 0)
get_or-set [] i v k = ground arith
get_or-set (x ∷ s) zero v zero = ground arith
get_or-set (x ∷ s) zero v (suc k) = ground arith
get_or-set (x ∷ s) (suc i) v zero = ground arith
get_or-set (x ∷ s) (suc i) v (suc k) = ground (arith, get_or-set s i v k)

pub get_or-replicate : (n k : ℕ) → ◌≡◌ {A = ℕ} (get_or (replicate n 0) k 0) 0
get_or-replicate zero k = refl
get_or-replicate (suc n) zero = refl
get_or-replicate (suc n) (suc k) = get_or-replicate n k

pub get_or_past : (s : List ℕ) (k : ℕ) → length s ≤ k → get_or s k 0 ≡ 0
get_or_past [] k h = refl
get_or_past (x ∷ s) zero h = absurd (omega arith)
get_or_past (x ∷ s) (suc k) h = get_or_past s k (omega arith)

pub length-copy_range : (n i : ℕ) (src dst : List ℕ) → length (copy_range n i src dst) ≡ length dst
unfolding copy_range
length-copy_range zero i src dst = refl
length-copy_range (suc n) i src dst =
    length-copy_range n (suc i) src _ ∙ length-set dst i (get_or src i 0)

pub length-shift_down : (n i d : ℕ) (s : List ℕ) → length (shift_down n i d s) ≡ length s
unfolding shift_down
length-shift_down zero i d s = refl
length-shift_down (suc n) i d s =
    length-shift_down n (suc i) d _ ∙ length-set s i (get_or s (i + d) 0)

pub length-fill_zero : (n i : ℕ) (s : List ℕ) → length (fill_zero n i s) ≡ length s
unfolding fill_zero
length-fill_zero zero i s = refl
length-fill_zero (suc n) i s = length-fill_zero n (suc i) _ ∙ length-set s i 0

pub length-put_bytes : (xs : List ℕ) (i : ℕ) (s : List ℕ) → length (put_bytes xs i s) ≡ length s
unfolding put_bytes
length-put_bytes [] i s = refl
length-put_bytes (x ∷ xs) i s = length-put_bytes xs (suc i) _ ∙ length-set s i x

pub get_or-copy_range :
    (n i : ℕ) (src dst : List ℕ) (k : ℕ)
    → i + n ≤ length dst
    → get_or (copy_range n i src dst) k 0
      ≡ (if leb i k && ltb k (i + n) then get_or src k 0 else get_or dst k 0)
unfolding copy_range
get_or-copy_range zero i src dst k h = ground arith
get_or-copy_range (suc n) i src dst k h =
    let dst' = set dst i (get_or src i 0) in
    ground (
      arith,
      get_or-copy_range n (suc i) src dst' k,
      get_or-set dst i (get_or src i 0) k,
      length-set dst i (get_or src i 0),
    )

-- The forward loop never reads what it has written.
pub get_or-shift_down :
    (n i d : ℕ) (s : List ℕ) (k : ℕ)
    → i + n ≤ length s
    → 0 < d
    → get_or (shift_down n i d s) k 0
      ≡ (if leb i k && ltb k (i + n) then get_or s (k + d) 0 else get_or s k 0)
unfolding shift_down
get_or-shift_down zero i d s k h p = ground arith
get_or-shift_down (suc n) i d s k h p =
    let v = get_or s (i + d) 0 in
    ground (
      arith,
      get_or-shift_down n (suc i) d (set s i v) k,
      get_or-set s i v k,
      get_or-set s i v (k + d),
      length-set s i v,
    )

pub get_or-fill_zero :
    (n i : ℕ) (s : List ℕ) (k : ℕ)
    → get_or (fill_zero n i s) k 0 ≡ (if leb i k && ltb k (i + n) then 0 else get_or s k 0)
unfolding fill_zero
get_or-fill_zero zero i s k = ground arith
get_or-fill_zero (suc n) i s k =
    ground (arith, get_or-fill_zero n (suc i) (set s i 0) k, get_or-set s i 0 k, get_or_past s k)

pub get_or-put_bytes :
    (xs : List ℕ) (i : ℕ) (s : List ℕ) (k : ℕ)
    → i + length xs ≤ length s
    → get_or (put_bytes xs i s) k 0
      ≡ (if leb i k && ltb k (i + length xs) then get_or xs (k - i) 0 else get_or s k 0)
unfolding put_bytes
get_or-put_bytes [] i s k h = ground arith
get_or-put_bytes (x ∷ xs) i s k h =
    ground (arith, get_or-put_bytes xs (suc i) (set s i x) k, get_or-set s i x k, length-set s i x)

-- Two regions that agree byte by byte.
pub slice_eq :
    (n i j : ℕ) (s t : List ℕ)
    → ((k : ℕ) → k < n → get_or s (i + k) 0 ≡ get_or t (j + k) 0)
    → slice n i s ≡ slice n j t
unfolding slice
slice_eq zero i j s t h = refl
slice_eq (suc n) i j s t h = ground (
  arith,
  h 0 (omega arith),
  slice_eq n (suc i) (suc j) s t (λ k p. ground (arith, h (suc k) (omega arith))),
)

pub slice-add : (m n i : ℕ) (s : List ℕ) → slice (m + n) i s ≡ slice m i s ++ slice n (i + m) s
unfolding slice
slice-add zero n i s = ground arith
slice-add (suc m) n i s =
    let e : suc m + n ≡ suc (m + n) = omega arith in
    let e' : i + suc m ≡ suc i + m = omega arith in
    rw (e, e') (ground (arith, slice-add m n (suc i) s))

pub slice_list :
    (xs : List ℕ) (i : ℕ) (s : List ℕ)
    → ((k : ℕ) → k < length xs → get_or s (i + k) 0 ≡ get_or xs k 0)
    → slice (length xs) i s ≡ xs
unfolding slice
slice_list [] i s h = refl
slice_list (x ∷ xs) i s h = ground (
  arith,
  h 0 (omega arith),
  slice_list xs (suc i) s (λ k p. ground (arith, h (suc k) (omega arith))),
)
