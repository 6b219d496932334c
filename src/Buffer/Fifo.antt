-- ===== src/Buffer/Fifo.antt =====
-- Runs of appends and reads of a buffer, beside a plain queue of bytes.
use cppev.Prelude.{
  ℕ, ◌+◌, ◌-◌, ◌≤◌, ◌≡◌, refl, sym, ap, ◌∙◌, inl, inr, leb→le, true, false, List, [], ◌∷◌, ◌++◌,
  Option, none, some, arith, leb, ◌>>=◌, Bool-cases, Option-cases, length, take, drop,
}
use cppev.Prelude.Int.{pos}
use cppev.Buffer.{Buffer, put_string, get_string, contents, produce}
use cppev.Buffer.Bounds.{IsValid}
use cppev.Buffer.Contents.{produce-contents}
use cppev.Buffer.Consume.{length-contents, get_string-contents}

pub data Op : Type 0 where
  push : List ℕ → Op
  pull : ℕ → Op

-- The bytes read by the calls in turn, and the last buffer.
pub exec : Buffer → List Op → Option (List ℕ × Buffer)
exec b [] = some ([], b)
exec b (push xs ∷ ops) = do r ← put_string b xs; exec r ops
exec b (pull n ∷ ops) = do
  got ← get_string b (pos n) true
  last ← exec got.1 ops
  some (got.0 ++ last.0, last.1)

-- The same calls on a plain list; reading more than there is has no meaning.
unfoldable pub spec : List ℕ → List Op → Option (List ℕ × List ℕ)
spec q [] = some ([], q)
spec q (push xs ∷ ops) = spec (q ++ xs) ops
spec q (pull n ∷ ops) = elim (leb n (length q)) [
  | true ↦ do last ← spec (drop n q) ops; some (take n q ++ last.0, last.1)
  | false ↦ none
]

unfoldable pub pushed : List Op → ℕ
pushed [] = 0
pushed (push xs ∷ ops) = length xs + pushed ops
pushed (pull n ∷ ops) = pushed ops

split_at :
    (xs ys : List ℕ) → (take (length xs) (xs ++ ys) ≡ xs) × (drop (length xs) (xs ++ ys) ≡ ys)
split_at [] ys = (refl, refl)
split_at (x ∷ xs) ys = let ih = split_at xs ys in (ap (◌∷◌ x) ih.0, ih.1)

split_cut : (n : ℕ) (s c q : List ℕ) → s ++ c ≡ q → length s ≡ n → (take n q ≡ s) × (drop n q ≡ c)
split_cut n s c q w l = rw (← w, ← l) (split_at s c)

-- A run of the queue that succeeds, with its first result taken apart.
spec-pull :
    (n : ℕ) (q : List ℕ) (ops : List Op) (out q' : List ℕ)
    → spec q (pull n ∷ ops) ≡ some (out, q')
    → (n ≤ length q)
      × ((rest : List ℕ) × (spec (drop n q) ops ≡ some (rest, q')) × (out ≡ take n q ++ rest))
unfolding spec
spec-pull n q ops out q' e = elim (Bool-cases (leb n (length q))) [
  | inr short ↦ absurd (cc (rw (short, spec) at e))
  | inl fits ↦ elim (Option-cases (spec (drop n q) ops)) [
    | inl stuck ↦ absurd (cc (rw (fits, stuck, spec) at e))
    | inr (last, ran) ↦
        let same : ◌≡◌ {A = Option (List ℕ × List ℕ)} (some (take n q ++ last.0, last.1))
            (some (out, q')) =
          rw (fits, ran, spec) at e in
        (leb→le n (length q) fits, (last.0, ground arith, ground arith))
  ]
]

exec-pull :
    (b r r' : Buffer) (n : ℕ) (str rest : List ℕ) (ops : List Op)
    → get_string b (pos n) true ≡ some (str, r)
    → exec r ops ≡ some (rest, r')
    → exec b (pull n ∷ ops) ≡ some (str ++ rest, r')
unfolding exec
exec-pull b r r' n str rest ops e f = rw (e, f)

pair_eq :
    (out cut str rest : List ℕ) (r : Buffer)
    → out ≡ cut ++ rest
    → cut ≡ str
    → ◌≡◌ {A = Option (List ℕ × Buffer)} (some (str ++ rest, r)) (some (out, r))
pair_eq out cut str rest r e f = ground arith

exec-push :
    (b r : Buffer) (xs : List ℕ) (ops : List Op)
    → produce b xs ≡ some r
    → exec b (push xs ∷ ops) ≡ exec r ops
unfolding exec put_string
exec-push b r xs ops e = rw e

-- Whatever sequence of appends and reads a plain queue of bytes answers, a well-formed buffer with
-- the same bytes answers alike, byte for byte, as long as its end index and all that is appended
-- stay within 2 ^ 30; it ends well formed and with the bytes of the queue.
pub exec-spec :
    (b : Buffer) (q : List ℕ) (ops : List Op) (out q' : List ℕ)
    → IsValid b
    → contents b ≡ q
    → b.offset + pushed ops ≤ 1_073_741_824
    → spec q ops ≡ some (out, q')
    → (r : Buffer) × (exec b ops ≡ some (out, r)) × (contents r ≡ q') × IsValid r
unfolding exec spec pushed
exec-spec b q [] out q' v c h e = (b, ground arith, ground arith, v)
exec-spec b q (push xs ∷ ops) out q' v c h e =
    let (m, made, valid, bytes, end) = produce-contents b v xs (omega arith) in
    let (r, ran, left, w) =
      exec-spec m (q ++ xs) ops out q' valid (bytes ∙ ap (λ s. s ++ xs) c) (omega arith) e in
    (r, exec-push b m xs ops made ∙ ran, left, w)
exec-spec b q (pull n ∷ ops) out q' v c h e =
    let (fits, (rest, ran, split)) = spec-pull n q ops out q' e in
    let count : n ≤ b.offset - b.start =
      let same : length (contents b) ≡ length q = ap length c in omega (arith, length-contents b) in
    let (str, m, got, joined, len, valid, end) = get_string-contents b v n count in
    let whole : str ++ contents m ≡ q = joined ∙ c in
    let (front, back) = split_cut n str (contents m) q whole len in
    let (r, ran', left, w) =
      exec-spec m (drop n q) ops rest q' valid (sym back) (omega arith) ran in
    (
      r,
      exec-pull b m r n str rest ops got ran' ∙ pair_eq out (take n q) str rest r split front,
      left,
      w,
    )
