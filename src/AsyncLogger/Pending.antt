-- ===== src/AsyncLogger/Pending.antt =====
-- What the logger has been given, and where it is: in write(2) or in one of the two buffers.
use cppev.Prelude.{
  ℕ, ◌-◌, ◌≡◌, refl, sym, ap, subst, ◌∙◌, inl, inr, Bool, true, false, not, List, [], ◌∷◌, ◌++◌,
  append-nil, append_assoc, arith,
}
use cppev.Buffer.{Buffer, size, clear, contents}
use cppev.Buffer.Arrays.{slice}
use cppev.Buffer.Bounds.{IsValid}
use cppev.AsyncLogger.{
  Holder, writing_thread, Logger, buffer_at, with_buffer, Writer, testing, locking, falling_asleep,
  asleep, woken, writing, ended, Text, System, is_zero, notify,
}
use cppev.AsyncLogger.Locking.{Balanced, Admits, Put}

-- The buffer that is not buffers_[curr_].
abbrev pub other_buffer : Logger → Buffer
other_buffer l = buffer_at l (not l.curr)

-- The bytes in the buffers, the older ones first.
abbrev pub held : Logger → List ℕ
held l = contents (other_buffer l) ++ contents (buffer_at l l.curr)

abbrev pub all_bytes : List Text → List ℕ
all_bytes [] = []
all_bytes (t ∷ ts) = t.bytes ++ all_bytes ts

all_bytes-append : (ts : List Text) (t : Text) → all_bytes (ts ++ t ∷ []) ≡ all_bytes ts ++ t.bytes
all_bytes-append [] t = append-nil t.bytes
all_bytes-append (u ∷ ts) t =
    ap (λ bs. u.bytes ++ bs) (all_bytes-append ts t)
    ∙ sym (append_assoc u.bytes (all_bytes ts) t.bytes)

-- run_impl uses the buffer that is not current, and otherwise that buffer is empty; it holds the
-- lock just while it falls asleep.
abbrev pub Apart : Writer → Logger → Type 0
Apart (writing prev) l = prev ≡ not l.curr
Apart falling_asleep l = (contents (other_buffer l) ≡ []) × (l.holder ≡ writing_thread)
Apart _ l = contents (other_buffer l) ≡ []

pub record Consistent (s : System) : Type 0 where
  pub valid : (i : Bool) → IsValid (buffer_at s.logger i)
  pub balanced : Balanced s.logger.holder s.logger.depth s.logger.recur_level
  pub apart : Apart s.writer s.logger
  pub account : s.passed ++ held s.logger ≡ all_bytes s.logged

pub empty_contents : (b : Buffer) → IsValid b → is_zero (size b) ≡ true → contents b ≡ []
unfolding contents slice
empty_contents b v e = let o = v.ordered in let z : b.offset - b.start ≡ 0 = ground arith in rw z

pub contents-clear : (b : Buffer) → contents (clear b) ≡ []
unfolding contents clear slice
contents-clear b = refl

-- The logger m has some bytes more than l in its current buffer, and the other one is the same.
pub record Extended (bytes : List ℕ) (l m : Logger) : Type 0 where
  pub curr : m.curr ≡ l.curr
  pub more : held m ≡ held l ++ bytes
  pub other : other_buffer m ≡ other_buffer l
  pub valid : (i : Bool) → IsValid (buffer_at m i)

pub Put-Extended :
    (i : Bool) (bytes : List ℕ) (l m : Logger)
    → l.curr ≡ i
    → ((j : Bool) → IsValid (buffer_at l j))
    → Put i bytes l m
    → Extended bytes l m
Put-Extended false bytes l m e v p =
    subst (λ k. Extended bytes l k) (sym p.same)
      (record {
        curr = refl;
        more = rw e (
            ap (λ q. contents l.second ++ q) p.more
            ∙ sym (append_assoc (contents l.second) (contents l.first) bytes));
        other = rw e refl;
        valid = λ j. elim j as (λ k. IsValid (buffer_at (with_buffer l false p.buf) k)) [
          | false ↦ p.valid
          | true ↦ v true
        ];
      })
Put-Extended true bytes l m e v p =
    subst (λ k. Extended bytes l k) (sym p.same)
      (record {
        curr = refl;
        more = rw e (
            ap (λ q. contents l.first ++ q) p.more
            ∙ sym (append_assoc (contents l.first) (contents l.second) bytes));
        other = rw e refl;
        valid = λ j. elim j as (λ k. IsValid (buffer_at (with_buffer l true p.buf) k)) [
          | false ↦ v false
          | true ↦ p.valid
        ];
      })

-- A call leaves run_impl apart, whatever it does to the lock that run_impl does not hold.
Apart-Extended :
    (w : Writer) (bytes : List ℕ) (l m : Logger)
    → other_buffer m ≡ other_buffer l
    → m.curr ≡ l.curr
    → (l.holder ≡ writing_thread → ⊥)
    → Apart w l
    → Apart w m × Apart (notify w) m
Apart-Extended testing bytes l m o c h a = let g = ap contents o ∙ a in (g, g)
Apart-Extended locking bytes l m o c h a = let g = ap contents o ∙ a in (g, g)
Apart-Extended falling_asleep bytes l m o c h a = absurd (h a.1)
Apart-Extended asleep bytes l m o c h a = let g = ap contents o ∙ a in (g, g)
Apart-Extended woken bytes l m o c h a = let g = ap contents o ∙ a in (g, g)
Apart-Extended (writing prev) bytes l m o c h a = rw c (a, a)
Apart-Extended ended bytes l m o c h a = let g = ap contents o ∙ a in (g, g)

Admits-free : (h : Holder) (t : ℕ) → Admits h t → h ≡ writing_thread → ⊥
Admits-free h t (inl e) f = cc
Admits-free h t (inr e) f = cc

account-Extended :
    (passed all bytes : List ℕ) (l m : Logger)
    → passed ++ held l ≡ all
    → held m ≡ held l ++ bytes
    → passed ++ held m ≡ all ++ bytes
account-Extended passed all bytes l m e f =
    ap (λ q. passed ++ q) f ∙ sym (append_assoc passed (held l) bytes) ∙ ap (λ q. q ++ bytes) e

abbrev pub logs : ℕ → List ℕ → Bool → System → Logger → Writer → System
logs t bytes ends s m w = record s {
  logger = m;
  writer = w;
  logged = s.logged ++ record { thread = t; bytes = bytes; ends = ends } ∷ [];
}

pub call-Consistent :
    (t : ℕ) (bytes : List ℕ) (ends : Bool) (s : System) (l m : Logger)
    → Consistent s
    → Admits s.logger.holder t
    → Extended bytes s.logger m
    → Balanced m.holder m.depth m.recur_level
    → Consistent (logs t bytes ends s m s.writer)
      × Consistent (logs t bytes ends s m (notify s.writer))
call-Consistent t bytes ends s l m c admits x b =
    let (same, woken_too) =
      Apart-Extended s.writer bytes s.logger m x.other x.curr (Admits-free s.logger.holder t admits)
        c.apart in
    let account : s.passed ++ held m
        ≡ all_bytes (s.logged ++ record { thread = t; bytes = bytes; ends = ends } ∷ []) =
      account-Extended s.passed (all_bytes s.logged) bytes s.logger m c.account x.more
      ∙ sym (all_bytes-append s.logged (record { thread = t; bytes = bytes; ends = ends })) in
    (
      record { valid = x.valid; balanced = b; apart = same; account = account },
      record { valid = x.valid; balanced = b; apart = woken_too; account = account },
    )

pub swap_account :
    (i : Bool) (l : Logger)
    → l.curr ≡ i
    → contents (other_buffer l) ≡ []
    → held (record l { curr = not l.curr }) ≡ held l
swap_account false l h e =
    let e' : contents l.second ≡ [] = rw h at e in rw (h, e', append-nil (contents l.first))
swap_account true l h e =
    let e' : contents l.first ≡ [] = rw h at e in rw (h, e', append-nil (contents l.second))

pub write_account :
    (i : Bool) (passed : List ℕ) (l : Logger) (buf : Buffer)
    → l.curr ≡ i
    → contents buf ≡ []
    → (passed ++ contents (other_buffer l)) ++ held (with_buffer l (not l.curr) buf)
      ≡ passed ++ held l
write_account false passed l buf h e =
    rw (h, e, append_assoc passed (contents l.second) (contents l.first))
write_account true passed l buf h e =
    rw (h, e, append_assoc passed (contents l.first) (contents l.second))

pub with_buffer-fields :
    (l : Logger) (i : Bool) (b : Buffer)
    → IsValid b
    → ((j : Bool) → IsValid (buffer_at l j))
    → ((with_buffer l i b).curr ≡ l.curr)
      × (Balanced
            (with_buffer l i b).holder
            (with_buffer l i b).depth
            (with_buffer l i b).recur_level
          ≡ Balanced l.holder l.depth l.recur_level)
      × ((j : Bool) → IsValid (buffer_at (with_buffer l i b) j))
with_buffer-fields l false b v w = (
  refl,
  refl,
  λ j. elim j as (λ k. IsValid (buffer_at (with_buffer l false b) k)) [ false ↦ v | true ↦ w true ],
)
with_buffer-fields l true b v w = (
  refl,
  refl,
  λ j. elim j as (λ k. IsValid (buffer_at (with_buffer l true b) k)) [ false ↦ w false | true ↦ v ],
)
