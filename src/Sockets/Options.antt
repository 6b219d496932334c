-- ===== src/Sockets/Options.antt =====
-- The options of a socket, and bind: nsock, nsocktcp and nsockudp of src/lib/nio.cc.
use cppev.Prelude.{ℕ, ◌≡◌, ◌≢◌, refl, Bool, true, false, not, List, Option, none, some, ◌==◌}
use cppev.Prelude.Int.{ℤ, pos, negsuc}
use cppev.Nio.{Outcome, returned, threw, ◌>>=◌}
use cppev.Sockets.Address.{Family, Inet, SockAddr, set_ip_port}

pub data SockOption : Type 0 where
  so_reuseaddr so_reuseport so_keepalive so_broadcast tcp_nodelay : SockOption
  so_rcvbuf so_sndbuf so_rcvlowat so_sndlowat : SockOption

abbrev pub is_nonzero : ℤ → Bool
is_nonzero (pos n) = not (n == 0)
is_nonzero (negsuc n) = true

abbrev pub IsFlag : SockOption → Type 0
IsFlag so_rcvbuf = ⊥
IsFlag so_sndbuf = ⊥
IsFlag so_rcvlowat = ⊥
IsFlag so_sndlowat = ⊥
IsFlag _ = Unit {0}

-- setsockopt(2), getsockopt(2) and bind(2) on the kernel's state: a flag that was set reads as zero or
-- not as it was written, SO_LINGER reads as written, and neither a bind nor setting one option changes
-- what another reads as. SO_ERROR is cleared by reading it.
pub record Kernel : Type 1 where
  pub State : Type 0
  pub setsockopt : State → ℕ → SockOption → ℤ → Option State
  pub getsockopt : State → ℕ → SockOption → Option ℤ
  pub set_linger : State → ℕ → ℤ × ℤ → Option State
  pub get_linger : State → ℕ → Option (ℤ × ℤ)
  pub take_error : State → ℕ → Option (ℤ × State)
  pub bind_to : State → ℕ → SockAddr → Option State
  pub flag_kept :
      (s s' : State) (fd : ℕ) (o : SockOption) (v : ℤ)
      → IsFlag o
      → setsockopt s fd o v ≡ some s'
      → (w : ℤ) × (getsockopt s' fd o ≡ some w) × (is_nonzero w ≡ is_nonzero v)
  pub other_kept :
      (s s' : State) (fd : ℕ) (o other : SockOption) (v : ℤ)
      → setsockopt s fd o v ≡ some s'
      → o ≢ other
      → getsockopt s' fd other ≡ getsockopt s fd other
  pub linger_kept :
      (s s' : State) (fd : ℕ) (v : ℤ × ℤ) → set_linger s fd v ≡ some s' → get_linger s' fd ≡ some v
  pub bind_kept :
      (s s' : State) (fd : ℕ) (a : SockAddr) (o : SockOption)
      → bind_to s fd a ≡ some s'
      → getsockopt s' fd o ≡ getsockopt s fd o

-- -1 from a call throws.
abbrev pub or_throw {ℓ} : {A : Type ℓ} → Option A → Outcome A
or_throw none = threw
or_throw (some a) = returned a

-- static_cast<int>(enable)
abbrev pub as_int : Bool → ℤ
as_int true = pos 1
as_int false = pos 0

module _ (kernel : Kernel) where
  open kernel use {
    State, setsockopt, getsockopt, set_linger, get_linger, take_error, bind_to, flag_kept,
    other_kept, linger_kept, bind_kept,
  }

  abbrev pub set_flag : SockOption → State → ℕ → Bool → Outcome State
  set_flag o s fd enable = or_throw (setsockopt s fd o (as_int enable))

  abbrev pub get_flag : SockOption → State → ℕ → Outcome Bool
  get_flag o s fd = do optval ← or_throw (getsockopt s fd o); returned (is_nonzero optval)

  abbrev pub set_so_reuseaddr : State → ℕ → Bool → Outcome State
  set_so_reuseaddr = set_flag so_reuseaddr

  abbrev pub get_so_reuseaddr : State → ℕ → Outcome Bool
  get_so_reuseaddr = get_flag so_reuseaddr

  abbrev pub set_so_reuseport : State → ℕ → Bool → Outcome State
  set_so_reuseport = set_flag so_reuseport

  abbrev pub get_so_reuseport : State → ℕ → Outcome Bool
  get_so_reuseport = get_flag so_reuseport

  abbrev pub set_so_keepalive : State → ℕ → Bool → Outcome State
  set_so_keepalive = set_flag so_keepalive

  abbrev pub get_so_keepalive : State → ℕ → Outcome Bool
  get_so_keepalive = get_flag so_keepalive

  abbrev pub set_so_broadcast : State → ℕ → Bool → Outcome State
  set_so_broadcast = set_flag so_broadcast

  abbrev pub get_so_broadcast : State → ℕ → Outcome Bool
  get_so_broadcast = get_flag so_broadcast

  abbrev pub set_tcp_nodelay : State → ℕ → Bool → Outcome State
  set_tcp_nodelay = set_flag tcp_nodelay

  abbrev pub get_tcp_nodelay : State → ℕ → Outcome Bool
  get_tcp_nodelay = get_flag tcp_nodelay

  abbrev pub set_so_rcvbuf : State → ℕ → ℤ → Outcome State
  set_so_rcvbuf s fd n = or_throw (setsockopt s fd so_rcvbuf n)

  abbrev pub get_so_rcvbuf : State → ℕ → Outcome ℤ
  get_so_rcvbuf s fd = or_throw (getsockopt s fd so_rcvbuf)

  abbrev pub set_so_sndbuf : State → ℕ → ℤ → Outcome State
  set_so_sndbuf s fd n = or_throw (setsockopt s fd so_sndbuf n)

  abbrev pub get_so_sndbuf : State → ℕ → Outcome ℤ
  get_so_sndbuf s fd = or_throw (getsockopt s fd so_sndbuf)

  abbrev pub set_so_rcvlowat : State → ℕ → ℤ → Outcome State
  set_so_rcvlowat s fd n = or_throw (setsockopt s fd so_rcvlowat n)

  abbrev pub get_so_rcvlowat : State → ℕ → Outcome ℤ
  get_so_rcvlowat s fd = or_throw (getsockopt s fd so_rcvlowat)

  abbrev pub set_so_sndlowat : State → ℕ → ℤ → Outcome State
  set_so_sndlowat s fd n = or_throw (setsockopt s fd so_sndlowat n)

  abbrev pub get_so_sndlowat : State → ℕ → Outcome ℤ
  get_so_sndlowat s fd = or_throw (getsockopt s fd so_sndlowat)

  abbrev pub set_so_linger : State → ℕ → Bool → ℤ → Outcome State
  set_so_linger s fd l_onoff l_linger = or_throw (set_linger s fd (as_int l_onoff, l_linger))

  abbrev pub get_so_linger : State → ℕ → Outcome (Bool × ℤ)
  get_so_linger s fd = do lg ← or_throw (get_linger s fd); returned (is_nonzero lg.0, lg.1)

  abbrev pub get_so_error : State → ℕ → Outcome (ℤ × State)
  get_so_error s fd = or_throw (take_error s fd)

  -- bind(ip, port)
  unfoldable pub bind : Inet → State → ℕ → Family → Option (List ℕ) → ℕ → Outcome State
  unfolding set_ip_port
  bind inet s fd f ip port = do
    a ← set_ip_port inet f ip port
    t ← set_so_reuseaddr s fd true
    or_throw (bind_to t fd a)

  nonzero_as_int : (b : Bool) → is_nonzero (as_int b) ≡ b
  nonzero_as_int true = refl
  nonzero_as_int false = refl

  flag_back :
      (o : SockOption) (s s' : State) (fd : ℕ) (b : Bool)
      → IsFlag o
      → setsockopt s fd o (as_int b) ≡ some s'
      → get_flag o s' fd ≡ returned b
  flag_back o s s' fd b f e =
      let (w, read, same) = flag_kept s s' fd o (as_int b) f e in rw (read, same, nonzero_as_int b)

  -- SO_KEEPALIVE, TCP_NODELAY and SO_LINGER, set in turn on a TCP socket, if the kernel accepts each,
  -- read back as they were set: none undoes one before it.
  pub get-set_tcp :
      (s s₁ s₂ : State) (fd : ℕ) (alive nodelay : Bool)
      → setsockopt s fd so_keepalive (as_int alive) ≡ some s₁
      → setsockopt s₁ fd tcp_nodelay (as_int nodelay) ≡ some s₂
      → ((do a ← set_so_keepalive s fd alive; set_tcp_nodelay a fd nodelay) ≡ returned s₂)
        × (get_so_keepalive s₂ fd ≡ returned alive)
        × (get_tcp_nodelay s₂ fd ≡ returned nodelay)
  get-set_tcp s s₁ s₂ fd alive nodelay e f =
      let kept = other_kept s₁ s₂ fd tcp_nodelay so_keepalive (as_int nodelay) f (λ h. cc) in
      (
        rw (e, f),
        rw (kept, flag_back so_keepalive s s₁ fd alive tt e),
        flag_back tcp_nodelay s₁ s₂ fd nodelay tt f,
      )

  -- SO_LINGER reads back as it was set, if the kernel accepts it.
  pub get-set_so_linger :
      (s s' : State) (fd : ℕ) (l_onoff : Bool) (l_linger : ℤ)
      → set_linger s fd (as_int l_onoff, l_linger) ≡ some s'
      → (set_so_linger s fd l_onoff l_linger ≡ returned s')
        × (get_so_linger s' fd ≡ returned (l_onoff, l_linger))
  get-set_so_linger s s' fd l_onoff l_linger e =
      let read = linger_kept s s' fd (as_int l_onoff, l_linger) e in
      (rw e, rw (read, nonzero_as_int l_onoff))

  -- A bind for which the address is made and the kernel accepts both calls returns, and then
  -- SO_REUSEADDR is on.
  bind-so_reuseaddr :
      (inet : Inet) (s t u : State) (fd : ℕ) (f : Family) (ip : Option (List ℕ)) (port : ℕ)
      (a : SockAddr)
      → set_ip_port inet f ip port ≡ returned a
      → setsockopt s fd so_reuseaddr (pos 1) ≡ some t
      → bind_to t fd a ≡ some u
      → (bind inet s fd f ip port ≡ returned u) × (get_so_reuseaddr u fd ≡ returned true)
  unfolding bind
  bind-so_reuseaddr inet s t u fd f ip port a e g h =
      let kept = bind_kept t u fd a so_reuseaddr h in
      (rw (e, g, h), rw (kept, flag_back so_reuseaddr s t fd true tt g))
