-- ===== src/EventLoop/Kqueue/Rounds.antt =====
-- A round of the kqueue loop beside one of the epoll loop.
use cppev.Prelude.{
  ℕ, ◌≡◌, refl, sym, ap, ◌∙◌, ◌⊎◌, inl, inr, Bool, true, false, List, [], ◌∷◌, ◌++◌, append-nil,
  append_assoc, some, arith, ◌==◌, Bool-cases, if◌then◌else◌,
}
use cppev.EventLoop.{
  Event, readable, writable, Entry, Callback, matching, collect, before, enqueue, enqueue_all,
  dispatch, ok, run_all, loop_once,
}
use cppev.EventLoop.Kqueue
use cppev.EventLoop.Kqueue.{Kqueue, no_event, fd_map_to_event, events_of}

before_antisym : (a b : Callback) → before a b ≡ true → before b a ≡ true → a ≡ b
before_antisym a b h i =
    let p : a.prio ≡ b.prio = ground arith in
    let q : a.iop ≡ b.iop = ground arith in let r : a.handler ≡ b.handler = ground arith in cc

before_trans : (a b c : Callback) → before a b ≡ true → before b c ≡ true → before a c ≡ true
before_trans a b c h i = ground arith

before_total : (a b : Callback) → before a b ≡ false → before b a ≡ true
before_total a b h = ground arith

before_chain : (a b c : Callback) → before a c ≡ true → before b c ≡ false → before b a ≡ false
before_chain a b c h i = ground arith

-- The queue does not depend on the order in which two callbacks are put into it.
enqueue-first :
    (c e : Callback) (q : List Callback) → before c e ≡ true → enqueue c (e ∷ q) ≡ c ∷ e ∷ q
unfolding enqueue
enqueue-first c e q h = rw h

enqueue-later :
    (c e : Callback) (q : List Callback) → before c e ≡ false → enqueue c (e ∷ q) ≡ e ∷ enqueue c q
unfolding enqueue
enqueue-later c e q h = rw h

-- Two callbacks in front of a third.
enqueue-pair :
    (c d e : Callback) (q : List Callback)
    → before c e ≡ true
    → before d e ≡ true
    → enqueue c (d ∷ e ∷ q) ≡ enqueue d (c ∷ e ∷ q)
enqueue-pair c d e q ce de = elim (Bool-cases (before c d)) [
  | inl cd ↦ elim (Bool-cases (before d c)) [
    | inl dc ↦ rw (before_antisym c d cd dc)
    | inr nc ↦
        enqueue-first c d (e ∷ q) cd
        ∙ ap (λ r. c ∷ r) (sym (enqueue-first d e q de))
        ∙ sym (enqueue-later d c (e ∷ q) nc)
  ]
  | inr nd ↦
      enqueue-later c d (e ∷ q) nd
      ∙ ap (λ r. d ∷ r) (enqueue-first c e q ce)
      ∙ sym (enqueue-first d c (e ∷ q) (before_total c d nd))
]

-- A callback in front of a third and one behind it.
enqueue-apart :
    (c d e : Callback) (q : List Callback)
    → before c e ≡ true
    → before d e ≡ false
    → enqueue c (e ∷ enqueue d q) ≡ enqueue d (c ∷ e ∷ q)
enqueue-apart c d e q ce ne =
    enqueue-first c e (enqueue d q) ce
    ∙ ap (λ r. c ∷ r) (sym (enqueue-later d e q ne))
    ∙ sym (enqueue-later d c (e ∷ q) (before_chain c d e ce ne))

enqueue_comm :
    (c d : Callback) (q : List Callback) → enqueue c (enqueue d q) ≡ enqueue d (enqueue c q)
unfolding enqueue
enqueue_comm c d [] = elim (Bool-cases (before c d)) [
  | inl cd ↦ elim (Bool-cases (before d c)) [
    | inl dc ↦ rw (cd, dc, before_antisym c d cd dc)
    | inr nc ↦ rw (cd, nc)
  ]
  | inr nd ↦ let dc = before_total c d nd in rw (nd, dc)
]
enqueue_comm c d (e ∷ q) = elim (Bool-cases (before c e)) [
  | inl ce ↦ elim (Bool-cases (before d e)) [
    | inl de ↦
        ap (enqueue c) (enqueue-first d e q de)
        ∙ enqueue-pair c d e q ce de
        ∙ sym (ap (enqueue d) (enqueue-first c e q ce))
    | inr ne ↦
        ap (enqueue c) (enqueue-later d e q ne)
        ∙ enqueue-apart c d e q ce ne
        ∙ sym (ap (enqueue d) (enqueue-first c e q ce))
  ]
  | inr nc ↦ elim (Bool-cases (before d e)) [
    | inl de ↦
        ap (enqueue c) (enqueue-first d e q de)
        ∙ sym (enqueue-apart d c e q de nc)
        ∙ sym (ap (enqueue d) (enqueue-later c e q nc))
    | inr ne ↦
        ap (enqueue c) (enqueue-later d e q ne)
        ∙ enqueue-later c e (enqueue d q) nc
        ∙ ap (λ r. e ∷ r) (enqueue_comm c d q)
        ∙ sym (enqueue-later d e (enqueue c q) ne)
        ∙ sym (ap (enqueue d) (enqueue-later c e q nc))
  ]
]

enqueue_all-enqueue :
    (xs : List Callback) (c : Callback) (q : List Callback)
    → enqueue_all xs (enqueue c q) ≡ enqueue c (enqueue_all xs q)
unfolding enqueue_all
enqueue_all-enqueue [] c q = refl
enqueue_all-enqueue (x ∷ xs) c q =
    ap (enqueue_all xs) (enqueue_comm x c q) ∙ enqueue_all-enqueue xs c (enqueue x q)

enqueue_all-append :
    (xs ys q : List Callback) → enqueue_all (xs ++ ys) q ≡ enqueue_all ys (enqueue_all xs q)
unfolding enqueue_all
enqueue_all-append [] ys q = refl
enqueue_all-append (x ∷ xs) ys q = enqueue_all-append xs ys (enqueue x q)

-- enum class fd_event has two values, and a callback is registered for one of them.
abbrev pub IsSingle : Event → Type 0
IsSingle ev = (ev ≡ readable) ⊎ (ev ≡ writable)

abbrev pub AllSingle : List Entry → Type 0
AllSingle [] = Unit {0}
AllSingle (x ∷ xs) = IsSingle x.event × AllSingle xs

both : Event
both = record { readable_bit = true; writable_bit = true }

matching-both :
    (fd : ℕ) (fds : List Entry) (q : List Callback)
    → AllSingle fds
    → enqueue_all (matching fd both fds) q
      ≡ enqueue_all (matching fd writable fds) (enqueue_all (matching fd readable fds) q)
unfolding both matching enqueue_all
matching-both fd [] q h = refl
matching-both fd (x ∷ xs) q (inl e, h) = elim (Bool-cases (x.fd == fd)) [
  | inl here ↦ rw (here, e) (matching-both fd xs (enqueue _ q) h)
  | inr away ↦ rw away (matching-both fd xs q h)
]
matching-both fd (x ∷ xs) q (inr e, h) = elim (Bool-cases (x.fd == fd)) [
  | inl here ↦
      rw (here, e)
        (matching-both fd xs (enqueue _ q) h
          ∙ ap (enqueue_all (matching fd writable xs))
              (enqueue_all-enqueue (matching fd readable xs) _ q))
  | inr away ↦ rw away (matching-both fd xs q h)
]

matching_none : (fd : ℕ) (fds : List Entry) → AllSingle fds → matching fd no_event fds ≡ []
unfolding matching
matching_none fd [] h = refl
matching_none fd (x ∷ xs) (inl e, h) = ground (arith, matching_none fd xs h)
matching_none fd (x ∷ xs) (inr e, h) = ground (arith, matching_none fd xs h)

module _ (kq : Kqueue) where
  open kq use {evfilt_read, evfilt_write, read_value, write_value}

  -- The filters that kevent reports for the events that epoll_wait reports: one for each bit.
  abbrev filters_of_one : ℕ → Event → List (ℕ × ℕ)
  filters_of_one fd ev =
      (if ev.readable_bit then (fd, evfilt_read) ∷ [] else [])
      ++ (if ev.writable_bit then (fd, evfilt_write) ∷ [] else [])

  abbrev pub filters_of : List (ℕ × Event) → List (ℕ × ℕ)
  filters_of [] = []
  filters_of ((fd, ev) ∷ ready) = filters_of_one fd ev ++ filters_of ready

  read_event : fd_map_to_event kq evfilt_read ≡ readable
  read_event = rw (read_value, write_value)

  write_event : fd_map_to_event kq evfilt_write ≡ writable
  write_event = rw (read_value, write_value)

  -- Either way a reported event puts the same into the queue.
  round_of_one :
      (fd : ℕ) (r w : Bool) (fds : List Entry) (q : List Callback)
      → AllSingle fds
      → let ev : Event = record { readable_bit = r; writable_bit = w } in
        enqueue_all (collect (events_of kq (filters_of_one fd ev)) fds) q
        ≡ enqueue_all (matching fd ev fds) q
  unfolding collect both
  round_of_one fd true true fds q h =
      rw
        (
          read_event,
          write_event,
          append-nil (matching fd writable fds),
          enqueue_all-append (matching fd readable fds) (matching fd writable fds) q,
        )
        (sym (matching-both fd fds q h))
  round_of_one fd true false fds q h = rw (read_event, append-nil (matching fd readable fds))
  round_of_one fd false true fds q h = rw (write_event, append-nil (matching fd writable fds))
  round_of_one fd false false fds q h = rw (matching_none fd fds h)

  events_of-append :
      (xs ys : List (ℕ × ℕ)) → events_of kq (xs ++ ys) ≡ events_of kq xs ++ events_of kq ys
  events_of-append [] ys = refl
  events_of-append (x ∷ xs) ys =
      ap (λ r. (x.0, fd_map_to_event kq x.1) ∷ r) (events_of-append xs ys)

  collect-append :
      (xs ys : List (ℕ × Event)) (fds : List Entry)
      → collect (xs ++ ys) fds ≡ collect xs fds ++ collect ys fds
  unfolding collect
  collect-append [] ys fds = refl
  collect-append ((fd, ev) ∷ xs) ys fds =
      ap (λ r. matching fd ev fds ++ r) (collect-append xs ys fds)
      ∙ sym (append_assoc (matching fd ev fds) (collect xs fds) (collect ys fds))

  round_of_all :
      (ready : List (ℕ × Event)) (fds : List Entry) (q : List Callback)
      → AllSingle fds
      → enqueue_all (collect (events_of kq (filters_of ready)) fds) q
        ≡ enqueue_all (collect ready fds) q
  unfolding collect
  round_of_all [] fds q h = refl
  round_of_all ((fd, ev) ∷ ready) fds q h =
      let one = filters_of_one fd ev in
      let two = filters_of ready in
      ap (λ e. enqueue_all (collect e fds) q) (events_of-append one two)
      ∙ ap (λ c. enqueue_all c q) (collect-append (events_of kq one) (events_of kq two) fds)
      ∙ enqueue_all-append (collect (events_of kq one) fds) (collect (events_of kq two) fds) q
      ∙ ap (enqueue_all (collect (events_of kq two) fds))
          (round_of_one fd ev.readable_bit ev.writable_bit fds q h)
      ∙ round_of_all ready fds (enqueue_all (matching fd ev fds) q) h
      ∙ sym (enqueue_all-append (matching fd ev fds) (collect ready fds) q)

  -- On the same reports, of which kqueue makes one for each filter and epoll one for each descriptor,
  -- a round of the kqueue loop and one of the epoll loop make the same calls in the same order and end
  -- in the same state, if every callback is registered for one event only.
  pub loop_once-loop_once {ℓ} :
      {S : Type ℓ}
      → (entries : S → List Entry) (call : Callback → S → S) (ready : List (ℕ × Event)) (s : S)
      → AllSingle (entries s)
      → Kqueue.loop_once kq entries call (some (filters_of ready)) s
        ≡ loop_once entries call (some ready) s
  unfolding Kqueue.loop_once loop_once dispatch
  loop_once-loop_once entries call ready s h =
      ap (λ q. ok (run_all call q s)) (round_of_all ready (entries s) [] h)
