-- ===== src/Reactor/Acceptor/Sharing.antt =====
-- How new connections are shared out among the workers.
use cppev.Prelude.{
  ℕ, zero, suc, ◌+◌, ◌≤◌, ◌<◌, ◌≡◌, refl, sym, ap, subst, ◌∙◌, false, List, [], ◌∷◌, some, arith,
  ◌==◌, length, length-append, get_elem?, set, length-set,
}
use cppev.EventLoop.{Epoll, writable, Loop, remember, fd_register, p0}
use cppev.Nio.{returned}
use cppev.Sockets.Connections.{Socket, AcceptAnswer, accept}
use cppev.Reactor.Balance.{int32_max, minloads_get_evlp, AllAtLeast, minloads_get_evlp-least}
use cppev.Reactor.Acceptor.{ev_loads, hand_over, hand_over_all, on_acpt_readable}
use cppev.Reactor.Acceptor.Evenness.{Even, sum, set-Even, sum-set}

module _ (e : Epoll) where
  open e use {Watched, has, add, add_absent, add_other}

  ev_loads-set :
      (ls : List (Loop e)) (k : ℕ) (l : Loop e)
      → ev_loads e (set ls k l) ≡ set (ev_loads e ls) k (length l.fds)
  ev_loads-set [] k l = refl
  ev_loads-set (x ∷ ls) zero l = refl
  ev_loads-set (x ∷ ls) (suc k) l = ap (λ r. length x.fds ∷ r) (ev_loads-set ls k l)

  get_elem?-ev_loads :
      (ls : List (Loop e)) (k m : ℕ)
      → get_elem? (ev_loads e ls) k ≡ some m
      → (l : Loop e) × (get_elem? ls k ≡ some l) × (length l.fds ≡ m)
  get_elem?-ev_loads [] k m h = cc
  get_elem?-ev_loads (x ∷ ls) zero m h = (x, refl, cc)
  get_elem?-ev_loads (x ∷ ls) (suc k) m h = get_elem?-ev_loads ls k m h

  -- No worker watches the descriptor.
  abbrev pub Unwatched : ℕ → List (Loop e) → Type 0
  Unwatched fd [] = Unit {0}
  Unwatched fd (l ∷ ls) = (has l.watched fd ≡ false) × Unwatched fd ls

  Unwatched-get :
      (fd k : ℕ) (l : Loop e) (ls : List (Loop e))
      → Unwatched fd ls
      → get_elem? ls k ≡ some l
      → has l.watched fd ≡ false
  Unwatched-get fd k l [] h g = cc
  Unwatched-get fd zero l (x ∷ ls) h g =
      let f : x ≡ l = cc in subst (λ (y : Loop e). has y.watched fd ≡ false) f h.0
  Unwatched-get fd (suc k) l (x ∷ ls) h g = Unwatched-get fd k l ls h.1 g

  Unwatched-set :
      (fd k : ℕ) (l : Loop e) (ls : List (Loop e))
      → Unwatched fd ls
      → has l.watched fd ≡ false
      → Unwatched fd (set ls k l)
  Unwatched-set fd k l [] h g = tt
  Unwatched-set fd zero l (x ∷ ls) h g = (g, h.1)
  Unwatched-set fd (suc k) l (x ∷ ls) h g = (h.0, Unwatched-set fd k l ls h.1 g)

  -- The workers after one connection more.
  pub record Shared (fd : ℕ) (ls ms : List (Loop e)) : Type 0 where
    pub even : Even (ev_loads e ms)
    pub total : sum (ev_loads e ms) ≡ sum (ev_loads e ls) + 1
    pub others : (other : ℕ) → (other == fd) ≡ false → Unwatched other ls → Unwatched other ms
    pub some_worker : 1 ≤ length ms

  length-remember :
      (l : Loop e) (fd iop handler : ℕ)
      → length (remember e l fd iop writable (some handler) p0).fds ≡ suc (length l.fds)
  length-remember l fd iop handler =
      let a =
        length-append l.fds
          (record { fd = fd; prio = p0; iop = iop; handler = handler; event = writable } ∷ []) in
      omega arith

  sum_first :
      (ls : List (Loop e))
      → 1 ≤ length ls
      → sum (ev_loads e ls) < int32_max
      → (k m : ℕ) × (minloads_get_evlp (ev_loads e ls) ≡ some k)
        × (get_elem? (ev_loads e ls) k ≡ some m)
        × AllAtLeast m (ev_loads e ls)
  sum_first [] h s = absurd (omega arith)
  sum_first (l ∷ ls) h s = minloads_get_evlp-least (length l.fds) (ev_loads e ls) (omega arith)

  hand_over_entry :
      (handler fd iop k : ℕ) (l : Loop e) (w : Watched) (ls : List (Loop e))
      → minloads_get_evlp (ev_loads e ls) ≡ some k
      → get_elem? ls k ≡ some l
      → add l.watched fd writable ≡ some w
      → hand_over e handler fd iop ls
        ≡ returned
            (set ls k (record (remember e l fd iop writable (some handler) p0) { watched = w }))
  unfolding hand_over fd_register
  hand_over_entry handler fd iop k l w ls f g h = rw (hand_over, f, g, h)

  hand_over-Shared :
      (handler fd iop : ℕ) (ls : List (Loop e))
      → 1 ≤ length ls
      → sum (ev_loads e ls) < int32_max
      → Even (ev_loads e ls)
      → Unwatched fd ls
      → (ms : List (Loop e)) × (hand_over e handler fd iop ls ≡ returned ms) × Shared fd ls ms
  hand_over-Shared handler fd iop ls some_worker bound even fresh =
      let (k, m, chosen, load, least) = sum_first ls some_worker bound in
      let (l, there, size) = get_elem?-ev_loads ls k m load in
      let (w, ok_added, watched) =
        add_absent l.watched fd writable (Unwatched-get fd k l ls fresh there) in
      let l' : Loop e = record (remember e l fd iop writable (some handler) p0) { watched = w } in
      let more : length l'.fds ≡ suc m = length-remember l fd iop handler ∙ ap suc size in
      let loads : ev_loads e (set ls k l') ≡ set (ev_loads e ls) k (suc m) =
        ev_loads-set ls k l' ∙ ap (set (ev_loads e ls) k) more in
      let count = sum-set k m (suc m) (ev_loads e ls) load in
      (
        set ls k l',
        hand_over_entry handler fd iop k l w ls chosen there ok_added,
        record {
          even = subst Even (sym loads) (set-Even k m (ev_loads e ls) load least even);
          total = ap sum loads ∙ omega arith;
          others = λ other differ free. Unwatched-set other k l' ls free (
              add_other l.watched w fd other writable ok_added differ
              ∙ Unwatched-get other k l ls free there);
          some_worker = let n = length-set ls k l' in omega arith;
        },
      )

  -- No two connections have the same descriptor, and no worker watches one of them.
  abbrev pub Apart : ℕ → List Socket → Type 0
  Apart fd [] = Unit {0}
  Apart fd (s ∷ ss) = ((s.fd == fd) ≡ false) × Apart fd ss

  abbrev pub Fresh : List Socket → List (Loop e) → Type 0
  Fresh [] ls = Unit {0}
  Fresh (s ∷ ss) ls = Unwatched s.fd ls × Apart s.fd ss × Fresh ss ls

  Fresh-Shared :
      (fd : ℕ) (ss : List Socket) (ls ms : List (Loop e))
      → Shared fd ls ms
      → Apart fd ss
      → Fresh ss ls
      → Fresh ss ms
  Fresh-Shared fd [] ls ms h a f = tt
  Fresh-Shared fd (s ∷ ss) ls ms h (here, a) (free, apart, f) =
      (h.others s.fd here free, apart, Fresh-Shared fd ss ls ms h a f)

  hand_over_all-Even :
      (handler : ℕ) (address : ℕ → ℕ) (conns : List Socket) (ls : List (Loop e))
      → 1 ≤ length ls
      → sum (ev_loads e ls) + length conns < int32_max
      → Even (ev_loads e ls)
      → Fresh conns ls
      → (ms : List (Loop e)) × (hand_over_all e handler address conns ls ≡ returned ms)
        × Even (ev_loads e ms)
        × (sum (ev_loads e ms) ≡ sum (ev_loads e ls) + length conns)
  unfolding hand_over_all
  hand_over_all-Even handler address [] ls w b even f = (ls, refl, even, omega arith)
  hand_over_all-Even handler address (s ∷ ss) ls w b even (free, apart, f) =
      let (ms, g, h) = hand_over-Shared handler s.fd (address s.fd) ls w (omega arith) even free in
      let t = h.total in
      let (ns, g', even', t') =
        hand_over_all-Even handler address ss ms h.some_worker (omega arith) h.even
          (Fresh-Shared s.fd ss ls ms h apart f) in
      (ns, rw g g', even', omega arith)

  -- If accept returns some connections, whose descriptors are different and in no worker's interest
  -- list, then with at least one worker, even loads, and fewer than INT32_MAX callbacks in all,
  -- on_acpt_readable returns: the workers have one callback more for each connection, and the loads
  -- are even again, so that no worker has more than one callback more than another.
  pub on_acpt_readable-Even :
      (handler : ℕ) (address : ℕ → ℕ) (batch : ℕ) (sock : Socket) (answers : List AcceptAnswer)
      → (conns : List Socket) (ls : List (Loop e)) → accept sock batch answers ≡ returned conns
      → 1 ≤ length ls
      → sum (ev_loads e ls) + length conns < int32_max
      → Even (ev_loads e ls)
      → Fresh conns ls
      → (ms : List (Loop e)) × (on_acpt_readable e handler address batch (some sock) answers ls
          ≡ returned ms)
        × Even (ev_loads e ms)
        × (sum (ev_loads e ms) ≡ sum (ev_loads e ls) + length conns)
  unfolding on_acpt_readable
  on_acpt_readable-Even handler address batch sock answers conns ls accepted w b even f =
      let (ms, g, even', t) = hand_over_all-Even handler address conns ls w b even f in
      (ms, rw accepted g, even', t)
