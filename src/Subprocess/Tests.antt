-- ===== src/Subprocess/Tests.antt =====
-- The theorems on child processes at concrete answers of the kernel.
use cppev.Prelude.{
  ℕ, ◌≡◌, ◌≢◌, refl, Bool-cases, inl, inr, true, false, List, [], ◌∷◌, Option, none, some, arith,
  ◌==◌, ==_iff, if◌then◌else◌,
}
use cppev.Prelude.Int.{pos}
use cppev.Buffer.{Buffer, create, contents}
use cppev.Buffer.Bounds.{IsValid, create-IsValid}
use cppev.Nio.{returned, Stream, got, at_end, interrupted, would_block}
use cppev.Subprocess.{
  ran, Subprocess, parent, subp_open, arguments, running, ended, Round, exec_cmd,
}
use cppev.Subprocess.Child.{Dup2, runs, exits_with, subp_open_child, subp_open-child}
use cppev.Subprocess.Waiting.{exec_cmd-all}

abbrev empty : Buffer
empty = record { cap = 1; start = 0; offset = 0; store = 0 ∷ [] }

empty-IsValid : IsValid empty
unfolding create
empty-IsValid = create-IsValid 1 empty (omega arith) refl

abbrev stream : ℕ → Stream
stream fd = record {
  fd = pos fd;
  closed = false;
  rbuffer = empty;
  wbuffer = empty;
  evlp = none;
  reset = false;
  eof = false;
  eop = false;
  sent = [];
}

abbrev child : Subprocess
child = record { stdin = stream 4; stdout = stream 5; stderr = stream 7; pid = 99; returncode = 0 }

opened : subp_open (some (3, 4)) (some (5, 6)) (some (7, 8)) (parent 99) ≡ ran (returned child)
unfolding subp_open create
opened = refl

-- "/b/c d" runs /b/c with the arguments c and d.
argument_run :
    arguments (47 ∷ 98 ∷ 47 ∷ 99 ∷ 32 ∷ 100 ∷ [])
    ≡ some (47 ∷ 98 ∷ 47 ∷ 99 ∷ [], (99 ∷ []) ∷ (100 ∷ []) ∷ [])
unfolding arguments
argument_run = refl

-- The child writes "hi", a zero byte and "!", and ends with the status 256.
abbrev rounds : List Round
rounds =
    record {
      status = running;
      out = got (104 ∷ 105 ∷ []) ∷ would_block ∷ [];
      err = would_block ∷ [];
    }
    ∷ record {
      status = ended 256;
      out = interrupted ∷ got (0 ∷ 33 ∷ []) ∷ at_end ∷ [];
      err = at_end ∷ [];
    }
    ∷ []

exec_cmd-all_example : exec_cmd 4 rounds child ≡ ran (returned (256, 104 ∷ 105 ∷ [], []))
unfolding contents
exec_cmd-all_example =
    exec_cmd-all 3 rounds child refl refl (empty-IsValid, empty-IsValid, omega arith, omega arith)
      ((omega arith, omega arith, tt), tt, ((omega arith, omega arith, tt), tt, tt))

-- The descriptor `new` has the file of `old`, when there is one.
abbrev table_put : ℕ → ℕ → (ℕ → Option ℕ) → ℕ → Option ℕ
table_put old new t n = if n == new then elim (t old) [ none ↦ t new | some f ↦ some f ] else t n

table_put-new :
    (old new f : ℕ) (t : ℕ → Option ℕ) → t old ≡ some f → table_put old new t new ≡ some f
table_put-new old new f t e = let same = (==_iff new new).1 refl in rw (same, e)

table_put-other : (old new n : ℕ) (t : ℕ → Option ℕ) → n ≢ new → table_put old new t n ≡ t n
table_put-other old new n t h = elim (Bool-cases (n == new)) [
  | inl same ↦ absurd (h ((==_iff n new).0 same))
  | inr apart ↦ rw apart
]

abbrev open_files : Dup2
open_files = record {
  Table = ℕ → Option ℕ;
  file = λ t n. t n;
  put = table_put;
  at_new = table_put-new;
  at_other = table_put-other;
}

-- Each descriptor has the file of its own number.
abbrev own_files : ℕ → Option ℕ
own_files n = some n

subp_open-child_example :
    (s : Subprocess) × (t' : ℕ → Option ℕ) × (subp_open
        (some (3, 4))
        (some (5, 6))
        (some (7, 8))
        (parent 99)
      ≡ ran (returned s))
    × (s.stdin.fd ≡ pos 4)
    × (s.stdout.fd ≡ pos 5)
    × (s.stderr.fd ≡ pos 7)
    × (subp_open_child open_files
          (some (3, 4))
          (some (5, 6))
          (some (7, 8))
          (99 ∷ 32 ∷ 100 ∷ [])
          []
          true
          own_files
        ≡ ran (returned (runs (99 ∷ []) ((99 ∷ []) ∷ (100 ∷ []) ∷ []) [] t')))
    × (t' 0 ≡ some 3)
    × (t' 1 ≡ some 6)
    × (t' 2 ≡ some 8)
    × (subp_open_child open_files
          (some (3, 4))
          (some (5, 6))
          (some (7, 8))
          (99 ∷ 32 ∷ 100 ∷ [])
          []
          false
          own_files
        ≡ ran (returned (exits_with 127)))
unfolding arguments
subp_open-child_example =
    subp_open-child open_files (3, 4) (5, 6) (7, 8) 99 3 6 8 own_files (99 ∷ 32 ∷ 100 ∷ [])
      (99 ∷ []) ((99 ∷ []) ∷ (100 ∷ []) ∷ []) [] refl refl refl (omega arith) (omega arith) refl
