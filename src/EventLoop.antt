-- ===== src/EventLoop.antt =====
-- The event loop: src/include/cppev/event_loop.h and, for Linux, src/lib/event_loop_epoll.cc.
-- epoll is a parameter of the model. Objects and handlers go by their addresses, which are numbers.
mod Polling
pub mod Sample
pub mod Dispatch
pub mod Registry
pub mod Forever
pub mod Kqueue
mod Tests
pub use Polling.{Event, Epoll, readable, writable, both_events, is_set}
use cppev.Prelude.{
  ℕ, zero, suc, ◌+◌, Bool, true, false, not, ◌&&◌, ◌||◌, List, [], ◌∷◌, ◌++◌, Option, none, some,
  ltb, leb, ◌==◌, if◌then◌else◌,
}

-- An element of fds_: the key and the tuple (priority, nio, callback, event).
pub record Entry : Type 0 where
  pub fd : ℕ
  pub prio : ℕ
  pub iop : ℕ
  pub handler : ℕ
  pub event : Event

-- An element of fd_cbs_: the tuple (priority, nio, callback).
pub record Callback : Type 0 where
  pub prio : ℕ
  pub iop : ℕ
  pub handler : ℕ

-- enum priority, from p0 = 20 down to p6 = 14
abbrev pub p0 : ℕ
p0 = 20

abbrev pub p6 : ℕ
p6 = 14

-- A call returns, or throws with the state as it was at the throw.
pub data Result {ℓ} (A : Type ℓ) : Type ℓ where
  ok : A → Result A
  threw : A → Result A

infixl 5 ◌>>=◌
abbrev pub ◌>>=◌ {ℓ} : {A : Type ℓ} → Result A → (A → Result A) → Result A
ok a >>= f = f a
threw a >>= f = threw a

-- fds_.erase(fd)
abbrev pub erase : ℕ → List Entry → List Entry
erase fd [] = []
erase fd (x ∷ xs) = if x.fd == fd then erase fd xs else x ∷ erase fd xs

module _ (e : Epoll) where
  open e use {Watched, add, del}

  -- `watched` is the kernel's interest list; `owned` are the objects whose evlp_ is this loop.
  pub record Loop : Type 0 where
    pub watched : Watched
    pub fds : List Entry
    pub owned : List ℕ
    pub stop : Bool

  abbrev or_throw : Loop → Option Watched → Result Loop
  or_throw l none = threw l
  or_throw l (some w) = ok (record l { watched = w })

  -- set_evlp, and fds_.emplace for a handler that is not null
  abbrev pub remember : Loop → ℕ → ℕ → Event → Option ℕ → ℕ → Loop
  remember l fd iop ev none prio = record l { owned = iop ∷ l.owned }
  remember l fd iop ev (some h) prio =
      let entry : Entry = record { fd = fd; prio = prio; iop = iop; handler = h; event = ev } in
      record l { owned = iop ∷ l.owned; fds = l.fds ++ entry ∷ [] }

  unfoldable pub fd_register : Loop → ℕ → ℕ → Event → Option ℕ → Bool → ℕ → Result Loop
  fd_register l fd iop ev handler activate prio =
      let m = remember l fd iop ev handler prio in
      if activate then or_throw m (add m.watched fd ev) else ok m

  abbrev forget : ℕ → Bool → Loop → Result Loop
  forget fd clean l = ok (if clean then record l { fds = erase fd l.fds } else l)

  unfoldable pub fd_remove : Loop → ℕ → Bool → Bool → Result Loop
  fd_remove l fd clean deactivate = do
    m ← if deactivate then or_throw l (del l.watched fd) else ok l
    forget fd clean m

-- The callbacks that one reported event (fd, event) enqueues, in the order of fds_.
unfoldable pub matching : ℕ → Event → List Entry → List Callback
matching fd ev [] = []
matching fd ev (x ∷ xs) =
    let rest = matching fd ev xs in
    if (x.fd == fd) && is_set (both_events x.event ev)
    then record { prio = x.prio; iop = x.iop; handler = x.handler } ∷ rest
    else rest

unfoldable pub collect : List (ℕ × Event) → List Entry → List Callback
unfolding matching
collect [] fds = []
collect ((fd, ev) ∷ ready) fds = matching fd ev fds ++ collect ready fds

-- The order of the tuples in the priority queue: by priority, then by the two addresses.
abbrev pub before : Callback → Callback → Bool
before c d =
    ltb d.prio c.prio
    || ((c.prio == d.prio) && (ltb d.iop c.iop || ((c.iop == d.iop) && leb d.handler c.handler)))

-- The queue is kept with its top in front.
unfoldable pub enqueue : Callback → List Callback → List Callback
enqueue c [] = c ∷ []
enqueue c (d ∷ q) = if before c d then c ∷ d ∷ q else d ∷ enqueue c q

unfoldable pub enqueue_all : List Callback → List Callback → List Callback
unfolding enqueue
enqueue_all [] q = q
enqueue_all (c ∷ cs) q = enqueue_all cs (enqueue c q)

-- The calls of loop_once in their order: while (fd_cbs_.size()) { top, pop, call }. A handler may
-- register and remove, but the queue is private to loop_once.
unfoldable pub dispatch : List (ℕ × Event) → List Entry → List Callback
unfolding enqueue_all collect
dispatch ready fds = enqueue_all (collect ready fds) []

-- The second part of loop_once: each callback changes the state that the next one finds.
pub run_all {ℓ} : {S : Type ℓ} → (Callback → S → S) → List Callback → S → S
run_all call [] s = s
run_all call (c ∷ cs) s = run_all call cs (call c s)

-- loop_once on the events that epoll_wait reports; none is an error other than EINTR, which throws.
unfoldable pub loop_once {ℓ} :
    {S : Type ℓ} → (S → List Entry) → (Callback → S → S) → Option (List (ℕ × Event)) → S → Result S
unfolding dispatch run_all
loop_once entries call none s = threw s
loop_once entries call (some ready) s = ok (run_all call (dispatch ready (entries s)) s)
