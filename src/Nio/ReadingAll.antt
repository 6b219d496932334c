-- ===== src/Nio/ReadingAll.antt =====
-- nstream::read_all of src/lib/nio.cc.
use cppev.Prelude.{
  ℕ, zero, suc, ◌+◌, ◌-◌, ◌≤◌, ◌<◌, ◌≡◌, refl, sym, ap, subst, ◌∙◌, inl, inr, true, false, List, [],
  ◌∷◌, ◌++◌, append-nil, append_assoc, arith, ◌==◌, ==_iff, if◌then◌else◌, length, length-append,
  Bool-cases,
}
use cppev.Buffer.Bounds.{IsValid}
use cppev.Nio.{
  Outcome, returned, Stream, ReadAnswer, got, at_end, interrupted, would_block, conn_reset, failed,
  read_chunk, read_all,
}
use cppev.Nio.Reading.{Answered, received, unread, Grown, Grown-trans, read_chunk-Grown}

-- All bytes that the kernel gives until it answers otherwise.
abbrev pub until_stop : List ReadAnswer → List ℕ
until_stop [] = []
until_stop (got bytes ∷ answers) = bytes ++ until_stop answers
until_stop (interrupted ∷ answers) = until_stop answers
until_stop (at_end ∷ answers) = []
until_stop (would_block ∷ answers) = []
until_stop (conn_reset ∷ answers) = []
until_stop (failed ∷ answers) = []

-- What is still asked for after a whole chunk.
abbrev pub next_len : ℕ → ℕ → ℕ
next_len step zero = step
next_len step (suc len) = suc len

-- The answers to reads of `step` bytes at a time, with `len` left of the current chunk: each gives at
-- least a byte and no more than is asked for, until one stops the reading, which is no error.
abbrev pub Paced : ℕ → ℕ → List ReadAnswer → Type 0
Paced step len [] = ⊥
Paced step len (got bytes ∷ answers) =
    (1 ≤ length bytes)
    × (length bytes ≤ len)
    × Paced step (next_len step (len - length bytes)) answers
Paced step len (interrupted ∷ answers) = Paced step len answers
Paced step len (failed ∷ answers) = ⊥
Paced step len (at_end ∷ answers) = Unit {0}
Paced step len (would_block ∷ answers) = Unit {0}
Paced step len (conn_reset ∷ answers) = Unit {0}

-- How a chunk of `len` bytes cuts the paced answers: it is whole and more is to be read, or it is the
-- last and not whole.
record Cut (step len : ℕ) (answers : List ReadAnswer) : Type 0 where
  settles : Answered len answers
  bytes :
      until_stop answers
      ≡ received len answers
        ++ (if length (received len answers) == len then until_stop (unread len answers) else [])
  few : length (received len answers) ≤ len
  whole :
      length (received len answers) ≡ len
      → (length (unread len answers) < length answers) × Paced step step (unread len answers)

-- Bytes that fill the chunk.
got_last :
    (step l : ℕ) (bytes : List ℕ) (answers : List ReadAnswer)
    → suc l - length bytes ≡ 0
    → 1 ≤ length bytes
    → length bytes ≤ suc l
    → Paced step step answers
    → Cut step (suc l) (got bytes ∷ answers)
got_last step l bytes answers e one few paced =
    let full : length bytes ≡ suc l = omega arith in
    let test : (length bytes == suc l) ≡ true = ground arith in
    record {
      settles = rw e (one, few, tt);
      bytes = rw (e, append-nil bytes, test, unread);
      few = rw (e, append-nil bytes) few;
      whole = λ _. rw (e, unread) (omega arith, paced);
    }

-- Bytes behind which the chunk goes on.
got_more :
    (step l k : ℕ) (bytes : List ℕ) (answers : List ReadAnswer)
    → suc l - length bytes ≡ suc k
    → 1 ≤ length bytes
    → length bytes ≤ suc l
    → Cut step (suc k) answers
    → Cut step (suc l) (got bytes ∷ answers)
got_more step l k bytes answers e one few c =
    let n = length (received (suc k) answers) in
    let sum = length-append bytes (received (suc k) answers) in
    let test : (length (bytes ++ received (suc k) answers) == suc l) ≡ (n == suc k) =
      ground arith in
    let room = c.few in
    record {
      settles = rw e (one, few, c.settles);
      bytes =
          rw (e, test, unread)
            (ap (λ r. bytes ++ r) c.bytes ∙ sym (append_assoc bytes (received (suc k) answers) _));
      few = rw e (omega arith);
      whole = λ h.
          let h' : length (bytes ++ received (suc k) answers) ≡ suc l = rw e at h in
          let (less, paced) = c.whole (omega arith) in rw (e, unread) (omega arith, paced);
    }

-- The last round of a read gave nothing more.
stopped :
    (step l : ℕ) (a : ReadAnswer) (answers : List ReadAnswer)
    → Answered (suc l) (a ∷ answers)
    → until_stop (a ∷ answers) ≡ []
    → received (suc l) (a ∷ answers) ≡ []
    → Cut step (suc l) (a ∷ answers)
stopped step l a answers h e f =
    let test : (◌==◌ (length {A = ℕ} []) (suc l)) ≡ false = ground arith in
    record {
      settles = h;
      bytes = rw (e, f, test);
      few = rw f (omega arith);
      whole = λ g. let g' : length {A = ℕ} [] ≡ suc l = rw f at g in absurd (omega arith);
    }

got-Cut :
    (step l m : ℕ) (bytes : List ℕ) (answers : List ReadAnswer)
    → suc l - length bytes ≡ m
    → 1 ≤ length bytes
    → length bytes ≤ suc l
    → Paced step (next_len step m) answers
    → ((k : ℕ) → Paced step (suc k) answers → Cut step (suc k) answers)
    → Cut step (suc l) (got bytes ∷ answers)
got-Cut step l zero bytes answers e one few paced ih = got_last step l bytes answers e one few paced
got-Cut step l (suc k) bytes answers e one few paced ih =
    got_more step l k bytes answers e one few (ih k paced)

same-Cut :
    (step l : ℕ) (answers : List ReadAnswer)
    → Cut step (suc l) answers
    → Cut step (suc l) (interrupted ∷ answers)
same-Cut step l answers c = record {
  settles = c.settles;
  bytes = c.bytes;
  few = c.few;
  whole = λ h. let (less, paced) = c.whole h in (omega arith, paced);
}

Paced-Cut :
    (step l : ℕ) (answers : List ReadAnswer) → Paced step (suc l) answers → Cut step (suc l) answers
Paced-Cut step l [] p = absurd p
Paced-Cut step l (got bytes ∷ answers) p =
    got-Cut step l (suc l - length bytes) bytes answers refl p.0 p.1 p.2
      (λ k q. Paced-Cut step k answers q)
Paced-Cut step l (interrupted ∷ answers) p = same-Cut step l answers (Paced-Cut step l answers p)
Paced-Cut step l (at_end ∷ answers) p = stopped step l at_end answers tt refl refl
Paced-Cut step l (would_block ∷ answers) p = stopped step l would_block answers tt refl refl
Paced-Cut step l (conn_reset ∷ answers) p = stopped step l conn_reset answers tt refl refl
Paced-Cut step l (failed ∷ answers) p = absurd p

-- What a read of all bytes makes of a stream: they are behind the old ones, and a byte is free.
pub record Drained (answers : List ReadAnswer) (s t : Stream) : Type 0 where
  pub grown : Grown s t (until_stop answers)
  pub free : t.rbuffer.offset < t.rbuffer.cap

read_all_last :
    (fuel total step : ℕ) (answers rest : List ReadAnswer) (n : ℕ) (s t : Stream)
    → read_chunk answers step s ≡ returned (n, t, rest)
    → (n == step) ≡ false
    → read_all (suc fuel) answers step total s ≡ returned (total + n, t, rest)
unfolding read_all
read_all_last fuel total step answers rest n s t e h =
    let test : elim (n == step) as (λ x. Outcome (ℕ × Stream × List ReadAnswer)) [
      | false ↦ returned (total + n, t, rest)
      | true ↦ read_all fuel rest step (total + n) t
    ]
        ≡ returned (total + n, t, rest) =
      rw h in
    rw e test

read_all_next :
    (fuel total step : ℕ) (answers rest : List ReadAnswer) (n : ℕ) (s t : Stream)
    → read_chunk answers step s ≡ returned (n, t, rest)
    → (n == step) ≡ true
    → read_all (suc fuel) answers step total s ≡ read_all fuel rest step (total + n) t
unfolding read_all
read_all_next fuel total step answers rest n s t e h =
    let test : elim (n == step) as (λ x. Outcome (ℕ × Stream × List ReadAnswer)) [
      | false ↦ returned (total + n, t, rest)
      | true ↦ read_all fuel rest step (total + n) t
    ]
        ≡ read_all fuel rest step (total + n) t =
      rw h in
    rw e test

read_all_from :
    (fuel total k : ℕ) (answers : List ReadAnswer) (s : Stream)
    → let step = suc k in
      length answers < fuel
      → IsValid s.rbuffer
      → s.rbuffer.offset + length (until_stop answers) + step ≤ 1_073_741_824
      → Paced step step answers
      → (t : Stream) × (rest : List ReadAnswer) × (read_all fuel answers step total s
          ≡ returned (total + length (until_stop answers), t, rest))
        × Drained answers s t
read_all_from zero total k answers s f v h p = absurd (omega arith)
read_all_from (suc fuel) total k answers s f v h p =
    let step : ℕ = suc k in
    let c = Paced-Cut step k answers p in
    let mine = received step answers in
    let left = unread step answers in
    let (m, e, g, cap) = read_chunk-Grown answers step s v (omega arith) c.settles in
    elim (Bool-cases (length mine == step)) [
      | inr last ↦
          let all : until_stop answers ≡ mine = (rw last at c.bytes) ∙ append-nil mine in
          let count : total + length mine ≡ total + length (until_stop answers) = rw all in
          let o = g.offset in
          (
            m,
            left,
            read_all_last fuel total step answers left (length mine) s m e last
                ∙ ap (λ n. returned (n, m, left)) count,
            record { grown = subst (Grown s m) (sym all) g; free = let q = c.few in ground arith },
          )
      | inl full ↦
          let all : until_stop answers ≡ mine ++ until_stop left = rw full at c.bytes in
          let (less, paced) = c.whole ((==_iff _ _).0 full) in
          let o = g.offset in
          let size : length (until_stop answers) ≡ length mine + length (until_stop left) =
            ap length all ∙ length-append mine (until_stop left) in
          let (t, rest, e', d) =
            read_all_from fuel (total + length mine) k left m (omega arith) g.valid (omega arith)
              paced in
          let count : total + length mine + length (until_stop left)
              ≡ total + length (until_stop answers) =
            omega arith in
          (
            t,
            rest,
            read_all_next fuel total step answers left (length mine) s m e full
                ∙ e'
                ∙ ap (λ n. returned (n, t, rest)) count,
            record {
              grown =
                  subst (Grown s t) (sym all) (Grown-trans s m t mine (until_stop left) g d.grown);
              free = d.free;
            },
          )
    ]

-- A read of everything, in steps of at least one byte, into a well-formed buffer that ends within
-- 2 ^ 30 with all bytes and one step more: if the kernel's answers to the steps come to an end without
-- an error, it returns the number of all bytes that the kernel gave until then. The read buffer is well
-- formed and has these bytes behind the old ones, with at least one byte of room left, and the write
-- buffer is unchanged.
pub read_all-Drained :
    (k : ℕ) (answers : List ReadAnswer) (s : Stream)
    → IsValid s.rbuffer
    → s.rbuffer.offset + length (until_stop answers) + suc k ≤ 1_073_741_824
    → Paced (suc k) (suc k) answers
    → (t : Stream) × (rest : List ReadAnswer) × (read_all (length answers + 1) answers (suc k) 0 s
        ≡ returned (length (until_stop answers), t, rest))
      × Drained answers s t
read_all-Drained k answers s v h p =
    let (t, rest, e, d) = read_all_from (length answers + 1) 0 k answers s (omega arith) v h p in
    let z : 0 + length (until_stop answers) ≡ length (until_stop answers) = omega arith in
    (t, rest, e ∙ ap (λ n. returned (n, t, rest)) z, d)
