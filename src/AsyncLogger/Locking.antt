-- ===== src/AsyncLogger/Locking.antt =====
-- What operator<< does to lock_ and to the current buffer.
use cppev.Prelude.{
  ℕ, zero, suc, ◌≤◌, ◌≡◌, refl, sym, ap, subst, ◌∙◌, ◌⊎◌, inl, inr, Bool, true, false, List, [],
  ◌∷◌, ◌++◌, append-nil, append_assoc, arith, ◌==◌, ==_iff, Bool-cases,
}
use cppev.Nio.{Outcome, returned, waiting, ◌>>=◌, returned-bind, returned-defined}
use cppev.Buffer.{Buffer, put_string, contents}
use cppev.Buffer.Bounds.{IsValid}
use cppev.Buffer.Contents.{produced-contents}
use cppev.AsyncLogger.{
  Holder, nobody, logging, writing_thread, Logger, buffer_at, with_buffer, lock, header, put,
  begin_line, insert, unlock_all, end_line, line_start, line_bytes,
}

-- lock_ is locked once for each call of operator<< on the line that is being logged.
abbrev pub Balanced : Holder → ℕ → ℕ → Type 0
Balanced nobody depth recur = (depth ≡ 0) × (recur ≡ 0)
Balanced (logging t) depth recur = (depth ≡ recur) × (1 ≤ recur)
Balanced writing_thread depth recur = (depth ≡ 0) × (recur ≡ 0)

-- Thread t can lock.
abbrev pub Admits : Holder → ℕ → Type 0
Admits h t = (h ≡ nobody) ⊎ (h ≡ logging t)

abbrev locked_by : ℕ → Logger → Logger
locked_by t l = record l { holder = logging t; depth = suc l.depth }

lock-locked_by :
    (h : Holder) (t : ℕ) (l m : Logger)
    → l.holder ≡ h
    → Balanced h l.depth l.recur_level
    → lock t l ≡ returned m
    → (m ≡ locked_by t l) × Admits h t
lock-locked_by nobody t l m e b f =
    let f' : ◌≡◌ {A = Outcome Logger} (returned (record l { holder = logging t; depth = 1 }))
        (returned m) =
      rw e at f in
    let d : suc l.depth ≡ 1 = omega arith in (rw d cc, inl refl)
lock-locked_by (logging u) t l m e b f = elim (Bool-cases (u == t)) [
  | inl same ↦
      let f' : ◌≡◌ {A = Outcome Logger}
          (returned (record l { holder = logging u; depth = suc l.depth })) (returned m) =
        rw (e, same) at f in
      let u_t : logging u ≡ logging t = ap logging ((==_iff u t).0 same) in
      (
        rw u_t at (let g : m ≡ record l { holder = logging u; depth = suc l.depth } = cc in g),
        inr u_t,
      )
  | inr other ↦
      let f' : ◌≡◌ {A = Outcome Logger} waiting (returned m) = rw (e, other) at f in absurd cc
]
lock-locked_by writing_thread t l m e b f =
    let f' : ◌≡◌ {A = Outcome Logger} waiting (returned m) = rw e at f in absurd cc

-- Buffer i of l has some bytes more in m, and nothing else is changed.
pub record Put (i : Bool) (bytes : List ℕ) (l m : Logger) : Type 0 where
  pub buf : Buffer
  pub same : m ≡ with_buffer l i buf
  pub valid : IsValid buf
  pub more : contents buf ≡ contents (buffer_at l i) ++ bytes

put-Put :
    (str : List ℕ) (l m : Logger)
    → IsValid (buffer_at l l.curr)
    → put str l ≡ returned m
    → Put l.curr str l m
unfolding put_string
put-Put str l m v e =
    let (b, f, g) = returned-bind _ _ m e in
    let (valid, more) = produced-contents (buffer_at l l.curr) v str b (returned-defined _ b f) in
    record { buf = b; same = cc; valid = valid; more = more }

with_buffer_same : (l : Logger) (i : Bool) → with_buffer l i (buffer_at l i) ≡ l
with_buffer_same l false = refl
with_buffer_same l true = refl

-- The bytes of the current buffer grow, and the line is begun.
begin_line-Put :
    (r : ℕ) (time thread : List ℕ) (l m : Logger)
    → l.recur_level ≡ r
    → IsValid (buffer_at l l.curr)
    → begin_line time thread l ≡ returned m
    → Put l.curr (line_start l time thread) (record l { recur_level = suc l.recur_level }) m
begin_line-Put zero time thread l m e v f =
    rw e (put-Put (header l.level time thread) (record l { recur_level = 1 }) m v (rw e at f))
begin_line-Put (suc n) time thread l m e v f = rw e (record {
  buf = buffer_at l l.curr;
  same =
      let g : ◌≡◌ {A = Outcome Logger} (returned (record l { recur_level = suc (suc n) }))
          (returned m) =
        rw e at f in
      let h : m ≡ record l { recur_level = suc (suc n) } = cc in
      h ∙ sym (with_buffer_same (record l { recur_level = suc (suc n) }) l.curr);
  valid = v;
  more = sym (append-nil _);
})

pub buffer_at-with_buffer :
    (l : Logger) (i : Bool) (b : Buffer) → buffer_at (with_buffer l i b) i ≡ b
buffer_at-with_buffer l false b = refl
buffer_at-with_buffer l true b = refl

overwrite :
    (l : Logger) (i : Bool) (a b : Buffer) → with_buffer (with_buffer l i a) i b ≡ with_buffer l i b
overwrite l false a b = refl
overwrite l true a b = refl

Put-trans :
    (i : Bool) (xs ys : List ℕ) (l m n : Logger)
    → Put i xs l m
    → Put i ys m n
    → Put i (xs ++ ys) l n
Put-trans i xs ys l m n p q =
    let back : buffer_at m i ≡ p.buf =
      ap (λ k. buffer_at k i) p.same ∙ buffer_at-with_buffer l i p.buf in
    record {
      buf = q.buf;
      same = q.same ∙ ap (λ k. with_buffer k i q.buf) p.same ∙ overwrite l i p.buf q.buf;
      valid = q.valid;
      more =
          q.more
          ∙ ap (λ b. contents b ++ ys) back
          ∙ ap (λ bs. bs ++ ys) p.more
          ∙ append_assoc (contents (buffer_at l i)) xs ys;
    }

Put-curr : (i : Bool) (bytes : List ℕ) (l m : Logger) → Put i bytes l m → m.curr ≡ l.curr
Put-curr false bytes l m p = ap (λ (k : Logger). k.curr) p.same
Put-curr true bytes l m p = ap (λ (k : Logger). k.curr) p.same

Put-valid : (i : Bool) (bytes : List ℕ) (l m : Logger) → Put i bytes l m → IsValid (buffer_at m i)
Put-valid i bytes l m p =
    subst IsValid (sym (ap (λ k. buffer_at k i) p.same ∙ buffer_at-with_buffer l i p.buf)) p.valid

-- The logger after a call of operator<< by thread t that puts some bytes.
abbrev pub called : ℕ → Logger → Logger
called t l = record l { holder = logging t; depth = suc l.depth; recur_level = suc l.recur_level }

pub insert-Put :
    (t : ℕ) (time thread str : List ℕ) (l m : Logger)
    → IsValid (buffer_at l l.curr)
    → Balanced l.holder l.depth l.recur_level
    → insert t time thread str l ≡ returned m
    → Admits l.holder t × Put l.curr (line_bytes l time thread str) (called t l) m
unfolding insert
insert-Put t time thread str l m v b e =
    let (l1, e1, f1) = returned-bind (lock t l) (λ k. begin_line time thread k >>= put str) m e in
    let (l2, e2, f2) = returned-bind (begin_line time thread l1) (put str) m f1 in
    let (same, admits) = lock-locked_by l.holder t l l1 refl b e1 in
    let start =
      begin_line-Put l.recur_level time thread (locked_by t l) l2 refl v (rw same at e2) in
    let c = Put-curr l.curr _ _ l2 start in
    let rest = put-Put str l2 m (rw c (Put-valid l.curr _ _ l2 start)) f2 in
    (admits, Put-trans l.curr _ str (called t l) l2 m start (rw c at rest))

unlock_all-free :
    (n : ℕ) (l : Logger)
    → l.depth ≡ suc n
    → unlock_all (suc n) l ≡ record l { holder = nobody; depth = 0 }
unfolding unlock_all
unlock_all-free zero l e = rw e
unlock_all-free (suc n) l e = rw (e, unlock_all-free n (record l { depth = suc n }) refl)

abbrev pub released : Logger → Logger
released l = record l { holder = nobody; depth = 0; recur_level = 0 }

released-Put :
    (i : Bool) (t : ℕ) (bytes : List ℕ) (l m : Logger)
    → Put i bytes (called t l) m
    → Put i bytes (released l) (released m)
released-Put i t bytes l m p = record {
  buf = p.buf;
  same = ap released p.same ∙ released_with i;
  valid = p.valid;
  more = p.more ∙ ap (λ b. contents b ++ bytes) (same_buffer i);
}
  where
    released_with :
        (j : Bool) → released (with_buffer (called t l) j p.buf) ≡ with_buffer (released l) j p.buf
    released_with false = refl
    released_with true = refl

    same_buffer : (j : Bool) → buffer_at (called t l) j ≡ buffer_at (released l) j
    same_buffer false = refl
    same_buffer true = refl

Put-levels :
    (i : Bool) (bytes : List ℕ) (l m : Logger)
    → Put i bytes l m
    → (m.depth ≡ l.depth) × (m.recur_level ≡ l.recur_level)
Put-levels false bytes l m p =
    (ap (λ (k : Logger). k.depth) p.same, ap (λ (k : Logger). k.recur_level) p.same)
Put-levels true bytes l m p =
    (ap (λ (k : Logger). k.depth) p.same, ap (λ (k : Logger). k.recur_level) p.same)

pub Balanced-levels : (h : Holder) (d r : ℕ) → Balanced h d r → d ≡ r
Balanced-levels nobody d r b = omega arith
Balanced-levels (logging t) d r b = b.0
Balanced-levels writing_thread d r b = omega arith

pub end_line-Put :
    (t : ℕ) (time thread : List ℕ) (l m : Logger)
    → IsValid (buffer_at l l.curr)
    → Balanced l.holder l.depth l.recur_level
    → end_line t time thread l ≡ returned m
    → Admits l.holder t × Put l.curr (line_bytes l time thread (10 ∷ [])) (released l) m
unfolding end_line
end_line-Put t time thread l m v b e =
    let (n, e1, f1) =
      returned-bind (insert t time thread (10 ∷ []) l)
        (λ k. returned (unlock_all k.recur_level (record k { recur_level = 0 }))) m e in
    let (admits, p) = insert-Put t time thread (10 ∷ []) l n v b e1 in
    let (d, r) = Put-levels l.curr _ _ n p in
    let level = Balanced-levels l.holder _ _ b in
    let depth : n.depth ≡ suc l.recur_level = omega arith in
    let free = unlock_all-free l.recur_level (record n { recur_level = 0 }) depth in
    let made : released n ≡ m =
      let g : ◌≡◌ {A = Outcome Logger} (returned (released n)) (returned m) = rw (r, free) at f1 in
      cc in
    (
      admits,
      subst (λ k. Put l.curr (line_bytes l time thread (10 ∷ [])) (released l) k) made
          (released-Put l.curr t _ l n p),
    )

pub Put-Balanced :
    (i : Bool) (bytes : List ℕ) (l m : Logger)
    → Put i bytes l m
    → Balanced l.holder l.depth l.recur_level
    → Balanced m.holder m.depth m.recur_level
Put-Balanced false bytes l m p b =
    subst (λ (k : Logger). Balanced k.holder k.depth k.recur_level) (sym p.same) b
Put-Balanced true bytes l m p b =
    subst (λ (k : Logger). Balanced k.holder k.depth k.recur_level) (sym p.same) b
