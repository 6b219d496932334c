-- ===== src/EventLoop/Dispatch.antt =====
-- The order in which loop_once makes its calls.
use mathlib.Core.List.{Perm, perm_middle, perm_append_comm}
use mathlib.Core.List.Perm
use cppev.Prelude.{
  ℕ, ◌≤◌, ◌≡◌, inl, inr, true, false, List, [], ◌∷◌, ◌++◌, append-nil, append_assoc, arith, Bool,
  ◌==◌, ◌&&◌, ◌||◌, if◌then◌else◌, Bool-cases, subst, refl, sym,
}
use cppev.EventLoop.{
  Event, Entry, Callback, matching, collect, before, enqueue, enqueue_all, dispatch,
}

-- Every callback comes before those behind it.
abbrev pub FirstOf : Callback → List Callback → Type 0
FirstOf c [] = Unit {0}
FirstOf c (d ∷ q) = (before c d ≡ true) × FirstOf c q

abbrev pub IsOrdered : List Callback → Type 0
IsOrdered [] = Unit {0}
IsOrdered (c ∷ q) = FirstOf c q × IsOrdered q

before_trans : (a b c : Callback) → before a b ≡ true → before b c ≡ true → before a c ≡ true
before_trans a b c h i = ground arith

before_total : (a b : Callback) → before a b ≡ false → before b a ≡ true
before_total a b h = ground arith

FirstOf-trans : (a b : Callback) (q : List Callback) → before a b ≡ true → FirstOf b q → FirstOf a q
FirstOf-trans a b [] h f = tt
FirstOf-trans a b (c ∷ q) h f = (before_trans a b c h f.0, FirstOf-trans a b q h f.1)

FirstOf-enqueue :
    (a c : Callback) (q : List Callback) → before a c ≡ true → FirstOf a q → FirstOf a (enqueue c q)
unfolding enqueue
FirstOf-enqueue a c [] h f = (h, tt)
FirstOf-enqueue a c (d ∷ q) h f = elim (Bool-cases (before c d)) [
  | inl first ↦ rw first (h, f)
  | inr later ↦ rw later (f.0, FirstOf-enqueue a c q h f.1)
]

enqueue-IsOrdered : (c : Callback) (q : List Callback) → IsOrdered q → IsOrdered (enqueue c q)
unfolding enqueue
enqueue-IsOrdered c [] o = (tt, tt)
enqueue-IsOrdered c (d ∷ q) o = elim (Bool-cases (before c d)) [
  | inl first ↦ rw first ((first, FirstOf-trans c d q first o.0), o)
  | inr later ↦
      rw later (FirstOf-enqueue d c q (before_total c d later) o.0, enqueue-IsOrdered c q o.1)
]

enqueue_all-IsOrdered : (cs q : List Callback) → IsOrdered q → IsOrdered (enqueue_all cs q)
unfolding enqueue_all
enqueue_all-IsOrdered [] q o = o
enqueue_all-IsOrdered (c ∷ cs) q o =
    enqueue_all-IsOrdered cs (enqueue c q) (enqueue-IsOrdered c q o)

enqueue-perm : (c : Callback) (q : List Callback) → Perm (enqueue c q) (c ∷ q)
unfolding enqueue
enqueue-perm c [] = Perm.refl (c ∷ [])
enqueue-perm c (d ∷ q) = elim (Bool-cases (before c d)) [
  | inl first ↦ rw first (Perm.refl (c ∷ d ∷ q))
  | inr later ↦ rw later (Perm.trans (Perm.cons d (enqueue-perm c q)) (Perm.swap c d q))
]

enqueue_all-perm : (cs q : List Callback) → Perm (enqueue_all cs q) (cs ++ q)
unfolding enqueue_all
enqueue_all-perm [] q = Perm.refl q
enqueue_all-perm (c ∷ cs) q =
    Perm.trans (enqueue_all-perm cs (enqueue c q))
      (Perm.trans (Perm.append (Perm.refl cs) (enqueue-perm c q)) (perm_middle cs q))

-- No callback has a lower priority than one behind it.
abbrev pub PriorityAbove : ℕ → List Callback → Type 0
PriorityAbove n [] = Unit {0}
PriorityAbove n (d ∷ q) = (d.prio ≤ n) × PriorityAbove n q

abbrev pub IsByPriority : List Callback → Type 0
IsByPriority [] = Unit {0}
IsByPriority (c ∷ q) = PriorityAbove c.prio q × IsByPriority q

FirstOf-PriorityAbove : (c : Callback) (q : List Callback) → FirstOf c q → PriorityAbove c.prio q
FirstOf-PriorityAbove c [] f = tt
FirstOf-PriorityAbove c (d ∷ q) f = let h = f.0 in (ground arith, FirstOf-PriorityAbove c q f.1)

IsOrdered-IsByPriority : (q : List Callback) → IsOrdered q → IsByPriority q
IsOrdered-IsByPriority [] o = tt
IsOrdered-IsByPriority (c ∷ q) o = (FirstOf-PriorityAbove c q o.0, IsOrdered-IsByPriority q o.1)

-- A registered event and a reported one have a bit in common.
abbrev pub meets : Event → Event → Bool
meets a b = (a.readable_bit && b.readable_bit) || (a.writable_bit && b.writable_bit)

-- The callback of an entry once for each report of its descriptor that meets its event.
abbrev pub calls_of : Entry → List (ℕ × Event) → List Callback
calls_of x [] = []
calls_of x ((fd, ev) ∷ ready) =
    if (x.fd == fd) && meets x.event ev
    then record { prio = x.prio; iop = x.iop; handler = x.handler } ∷ calls_of x ready
    else calls_of x ready

-- The calls that are due, entry by entry.
abbrev pub due_calls : List Entry → List (ℕ × Event) → List Callback
due_calls [] ready = []
due_calls (x ∷ fds) ready = calls_of x ready ++ due_calls fds ready

collect_none : (ready : List (ℕ × Event)) → collect ready [] ≡ []
unfolding collect matching
collect_none [] = refl
collect_none ((fd, ev) ∷ ready) = collect_none ready

matching-cons :
    (x : Entry) (fd : ℕ) (ev : Event) (fds : List Entry)
    → matching fd ev (x ∷ fds) ≡ calls_of x ((fd, ev) ∷ []) ++ matching fd ev fds
unfolding matching
matching-cons x fd ev fds = elim (Bool-cases ((x.fd == fd) && meets x.event ev)) [
  | inl hit ↦ rw hit refl
  | inr miss ↦ rw miss refl
]

calls_of-cons :
    (x : Entry) (fd : ℕ) (ev : Event) (ready : List (ℕ × Event))
    → calls_of x ((fd, ev) ∷ ready) ≡ calls_of x ((fd, ev) ∷ []) ++ calls_of x ready
calls_of-cons x fd ev ready = elim (Bool-cases ((x.fd == fd) && meets x.event ev)) [
  | inl hit ↦ rw hit refl
  | inr miss ↦ rw miss refl
]

-- Blocks of four in another order.
perm_blocks : (a m h c : List Callback) → Perm ((a ++ m) ++ (h ++ c)) ((a ++ h) ++ (m ++ c))
perm_blocks a m h c =
    let swapped = Perm.append (perm_append_comm m h) (Perm.refl c) in
    let inner : Perm (m ++ (h ++ c)) (h ++ (m ++ c)) =
      subst (λ z. Perm z (h ++ (m ++ c))) (append_assoc m h c)
        (subst (Perm ((m ++ h) ++ c)) (append_assoc h m c) swapped) in
    subst (λ z. Perm z ((a ++ h) ++ (m ++ c))) (sym (append_assoc a m (h ++ c)))
      (subst (Perm (a ++ (m ++ (h ++ c)))) (sym (append_assoc a h (m ++ c)))
        (Perm.append (Perm.refl a) inner))

collect-cons :
    (x : Entry) (fds : List Entry) (ready : List (ℕ × Event))
    → Perm (collect ready (x ∷ fds)) (calls_of x ready ++ collect ready fds)
unfolding collect
collect-cons x fds [] = Perm.refl []
collect-cons x fds ((fd, ev) ∷ ready) =
    rw (matching-cons x fd ev fds, calls_of-cons x fd ev ready)
      (Perm.trans
        (Perm.append (Perm.refl (calls_of x ((fd, ev) ∷ []) ++ matching fd ev fds))
          (collect-cons x fds ready))
        (perm_blocks (calls_of x ((fd, ev) ∷ [])) (matching fd ev fds) (calls_of x ready)
          (collect ready fds)))

collect-due_calls :
    (fds : List Entry) (ready : List (ℕ × Event)) → Perm (collect ready fds) (due_calls fds ready)
collect-due_calls [] ready = rw (collect_none ready) (Perm.refl [])
collect-due_calls (x ∷ fds) ready =
    Perm.trans (collect-cons x fds ready)
      (Perm.append (Perm.refl (calls_of x ready)) (collect-due_calls fds ready))

-- One round calls the callback of each registered entry once for each report of its descriptor that
-- has an event bit in common with the registration, and makes no other call; and no callback is called
-- after one of lower priority.
pub dispatch-IsByPriority :
    (ready : List (ℕ × Event)) (fds : List Entry)
    → IsByPriority (dispatch ready fds) × Perm (dispatch ready fds) (due_calls fds ready)
unfolding dispatch
dispatch-IsByPriority ready fds =
    let cs = collect ready fds in
    (
      IsOrdered-IsByPriority (enqueue_all cs []) (enqueue_all-IsOrdered cs [] tt),
      Perm.trans (subst (Perm (enqueue_all cs [])) (append-nil cs) (enqueue_all-perm cs []))
          (collect-due_calls fds ready),
    )
