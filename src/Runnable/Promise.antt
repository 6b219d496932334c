-- ===== src/Runnable/Promise.antt =====
-- The promise of a thread object, whatever its threads do.
use cppev.Prelude.{
  ℕ, zero, suc, ◌+◌, ◌-◌, ◌≤◌, ◌≡◌, refl, sym, ap, ◌∙◌, Bool, true, false, List, [], ◌∷◌, ◌++◌,
  Option, none, some, length, get_elem?, set, if◌then◌else◌, leb, arith, inl, inr, ◌⊎◌,
}
use cppev.Nio.{returned}
use cppev.Runnable.{
  Phase, created, running, finished, cancelled, Runnable, fresh, Move, runs, enters, returns,
  is_cancelled, begin_impl, set_value, cancel_at, move_of, step, run_moves, wait_for, join,
}

abbrev one : Phase → ℕ
one finished = 1
one created = 0
one running = 0
one cancelled = 0

-- How many threads have returned from run_impl.
abbrev pub finishes : List Phase → ℕ
finishes [] = 0
finishes (p ∷ ps) = one p + finishes ps

finishes-set :
    (ps : List Phase) (i : ℕ) (p q : Phase)
    → get_elem? ps i ≡ some p
    → finishes (set ps i q) + one p ≡ finishes ps + one q
finishes-set [] i p q e = cc
finishes-set (x ∷ ps) zero p q e = let same : one x ≡ one p = ap one cc in omega arith
finishes-set (x ∷ ps) (suc i) p q e = omega (arith, finishes-set ps i p q e)

finishes-append : (ps : List Phase) → finishes (ps ++ created ∷ []) ≡ finishes ps
finishes-append [] = refl
finishes-append (p ∷ ps) = omega (arith, finishes-append ps)

pub record IsSettled (w : Runnable) : Type 0 where
  pub answer : w.is_set ≡ leb 1 (finishes w.threads)
  pub once : w.terminated ≡ false → finishes w.threads ≤ 1

-- A change of the threads that no return from run_impl is.
same_finishes :
    (w w' : Runnable)
    → w'.is_set ≡ w.is_set
    → (w'.terminated ≡ false → w.terminated ≡ false)
    → finishes w'.threads ≡ finishes w.threads
    → IsSettled w
    → IsSettled w'
same_finishes w w' s t e v = record {
  answer = s ∙ v.answer ∙ ap (leb 1) (sym e);
  once = λ f. let o = v.once (t f) in omega arith;
}

begin_impl-IsSettled :
    (i : ℕ) (ok : Bool) (w : Runnable) (o : Option Phase)
    → get_elem? w.threads i ≡ o
    → IsSettled w
    → IsSettled (begin_impl i ok w o)
begin_impl-IsSettled i true w (some created) e v =
    same_finishes w _ refl (λ f. f) (omega (arith, finishes-set w.threads i created running e)) v
begin_impl-IsSettled i false w (some created) e v = same_finishes w _ refl (λ f. cc) refl v
begin_impl-IsSettled i ok w (some running) e v = v
begin_impl-IsSettled i ok w (some finished) e v = v
begin_impl-IsSettled i ok w (some cancelled) e v = v
begin_impl-IsSettled i ok w none e v = v

-- The value is there afterwards, and was not before unless the program is terminated.
first_value :
    (b : Bool) (n m : ℕ) → b ≡ leb 1 n → m ≡ n + 1 → (true ≡ leb 1 m) × (b ≡ false → m ≤ 1)
first_value b n m h e = ground arith

set_value-IsSettled :
    (i : ℕ) (w : Runnable) (o : Option Phase)
    → get_elem? w.threads i ≡ o
    → IsSettled w
    → IsSettled (set_value i w o)
set_value-IsSettled i w (some running) e v =
    let ps = set w.threads i finished in
    let more : finishes ps ≡ finishes w.threads + 1 =
      omega (arith, finishes-set w.threads i running finished e) in
    let (answer, once) = first_value w.is_set (finishes w.threads) (finishes ps) v.answer more in
    record { answer = answer; once = once }
set_value-IsSettled i w (some created) e v = v
set_value-IsSettled i w (some finished) e v = v
set_value-IsSettled i w (some cancelled) e v = v
set_value-IsSettled i w none e v = v

cancel_at-IsSettled :
    (i : ℕ) (w : Runnable) (o : Option Phase)
    → get_elem? w.threads i ≡ o
    → IsSettled w
    → IsSettled (cancel_at i w o)
cancel_at-IsSettled i w (some running) e v =
    same_finishes w _ refl (λ f. f) (omega (arith, finishes-set w.threads i running cancelled e)) v
cancel_at-IsSettled i w (some created) e v = v
cancel_at-IsSettled i w (some finished) e v = v
cancel_at-IsSettled i w (some cancelled) e v = v
cancel_at-IsSettled i w none e v = v

move_of-IsSettled : (m : Move) (w : Runnable) → IsSettled w → IsSettled (move_of m w)
unfolding move_of
move_of-IsSettled (runs true) w v = same_finishes w _ refl (λ f. f) (finishes-append w.threads) v
move_of-IsSettled (runs false) w v = v
move_of-IsSettled (enters i ok) w v = begin_impl-IsSettled i ok w (get_elem? w.threads i) refl v
move_of-IsSettled (returns i) w v = set_value-IsSettled i w (get_elem? w.threads i) refl v
move_of-IsSettled (is_cancelled i) w v = cancel_at-IsSettled i w (get_elem? w.threads i) refl v

either-IsSettled :
    (b : Bool) (v w : Runnable) → IsSettled v → IsSettled w → IsSettled (if b then v else w)
either-IsSettled true v w x y = x
either-IsSettled false v w x y = y

step-IsSettled : (m : Move) (w : Runnable) → IsSettled w → IsSettled (step m w)
step-IsSettled m w v = either-IsSettled w.terminated w (move_of m w) v (move_of-IsSettled m w v)

run_moves-IsSettled :
    (moves : List Move) (w : Runnable) → IsSettled w → IsSettled (run_moves moves w)
run_moves-IsSettled [] w v = v
run_moves-IsSettled (m ∷ moves) w v = run_moves-IsSettled moves (step m w) (step-IsSettled m w v)

moves-IsSettled : (moves : List Move) → IsSettled (run_moves moves fresh)
moves-IsSettled moves =
    run_moves-IsSettled moves fresh (record { answer = refl; once = λ f. omega arith })

finished_some : (ps : List Phase) (i : ℕ) → get_elem? ps i ≡ some finished → 1 ≤ finishes ps
finished_some [] i e = cc
finished_some (p ∷ ps) zero e =
    let same : p ≡ finished = cc in let one_more : one p ≡ 1 = ap one same in omega arith
finished_some (p ∷ ps) (suc i) e = omega (arith, finished_some ps i e)

-- If the thread that join waits for has returned from run_impl, join returns and wait_for says that it
-- is ready.
finished-join :
    (moves : List Move)
    → let w = run_moves moves fresh in
      get_elem? w.threads (length w.threads - 1) ≡ some finished
      → (join w ≡ returned tt) × (wait_for w ≡ true)
unfolding wait_for join
finished-join moves e =
    let w = run_moves moves fresh in
    let some_one = finished_some w.threads _ e in
    (rw e, (moves-IsSettled moves).answer ∙ ground arith)

either_once : (b : Bool) (n : ℕ) → (b ≡ false → n ≤ 1) → (b ≡ true) ⊎ (n ≤ 1)
either_once true n h = inl refl
either_once false n h = inr (h refl)

-- Whatever a thread object and its threads do, wait_for says that it is ready once a thread has
-- returned from run_impl, and not before; and at most one has, or the program was terminated: a second
-- run whose run_impl returns terminates it.
pub run_moves-finishes :
    (moves : List Move)
    → let w = run_moves moves fresh in
      (wait_for w ≡ leb 1 (finishes w.threads)) × ((w.terminated ≡ true) ⊎ (finishes w.threads ≤ 1))
unfolding wait_for
run_moves-finishes moves =
    let w = run_moves moves fresh in
    let v = moves-IsSettled moves in
    (v.answer, either_once w.terminated (finishes w.threads) v.once)
