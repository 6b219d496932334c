-- ===== src/Subprocess/Strings.antt =====
-- stdout() and stderr() as strings.
use cppev.Prelude.{
  ℕ, zero, suc, ◌+◌, ◌-◌, ◌<◌, ◌≡◌, refl, List, [], ◌∷◌, some, arith, length, drop, get_or,
}
use cppev.Buffer.{Buffer, contents}
use cppev.Buffer.Arrays.{slice}
use cppev.Buffer.Bounds.{IsValid}
use cppev.Subprocess.{c_string}

-- The bytes before the first zero byte.
abbrev pub before_zero : List ℕ → List ℕ
before_zero [] = []
before_zero (zero ∷ bytes) = []
before_zero (suc c ∷ bytes) = suc c ∷ before_zero bytes

drop_step : (s : List ℕ) (i : ℕ) → i < length s → drop i s ≡ get_or s i 0 ∷ drop (suc i) s
drop_step [] i h = absurd (omega arith)
drop_step (x ∷ s) zero h = refl
drop_step (x ∷ s) (suc i) h = drop_step s i (omega arith)

c_string-slice :
    (n i : ℕ) (s : List ℕ)
    → i + n < length s
    → get_or s (i + n) 0 ≡ 0
    → c_string (drop i s) ≡ some (before_zero (slice n i s))
unfolding slice
c_string-slice zero i s h z =
    let e : i + 0 ≡ i = omega arith in
    let z' : get_or s i 0 ≡ 0 = rw e at z in rw (drop_step s i (omega arith), z')
c_string-slice (suc n) i s h z =
    let e : i + suc n ≡ suc i + n = omega arith in
    let rest = c_string-slice n (suc i) s (omega arith) (rw e at z) in
    rw (drop_step s i (omega arith)) (step (get_or s i 0) rest)
  where
    step :
        (c : ℕ)
        → c_string (drop (suc i) s) ≡ some (before_zero (slice n (suc i) s))
        → c_string (c ∷ drop (suc i) s) ≡ some (before_zero (c ∷ slice n (suc i) s))
    step zero r = refl
    step (suc c) r = rw (c_string, r)

-- A well-formed buffer with a free byte, read as a C string.
pub c_string-contents :
    (b : Buffer)
    → IsValid b
    → b.offset < b.cap
    → c_string (drop b.start b.store) ≡ some (before_zero (contents b))
unfolding contents
c_string-contents b v h =
    let o = v.ordered in
    let s = v.sized in
    let e : b.start + (b.offset - b.start) ≡ b.offset = omega arith in
    c_string-slice (b.offset - b.start) b.start b.store (omega arith)
      (rw e (v.zero_tail b.offset (omega arith)))
