-- ===== src/Reactor/Connect.antt =====
-- Connection tasks: connector::add, connector::on_pipe_readable and tcp_client::add of src/lib/tcp.cc.
use native.Mathlib.Nat.{div-add-mod}
use cppev.Prelude.{
  ℕ, ◌+◌, ◌*◌, ◌/◌, ◌%◌, ◌≡◌, refl, sym, ap, subst, Bool, true, false, List, [], ◌∷◌, Option, none,
  some, arith, ◌==◌, if◌then◌else◌, length,
}
use cppev.Sockets.Address.{Family, unix}

-- The key (ip, port, family) of hosts_ and failures_ goes by a number.
abbrev pub Host : Type 0
Host = ℕ

-- hosts_ or failures_: how often each host is entered
abbrev pub Counts : Type 0
Counts = List (Host × ℕ)

unfoldable pub count_of : Host → Counts → ℕ
count_of h [] = 0
count_of h ((k, n) ∷ cs) = if k == h then n else count_of h cs

-- if (hosts_.count(h)) hosts_[h] += t; else hosts_[h] = t
unfoldable pub bump : Host → ℕ → Counts → Counts
bump h t [] = (h, t) ∷ []
bump h t ((k, n) ∷ cs) = if k == h then (k, n + t) ∷ cs else (k, n) ∷ bump h t cs

-- connector::add: what is left of it is the byte that wakes the connector up
unfoldable pub add : Host → ℕ → Counts → Counts
unfolding bump
add h t hosts = if t == 0 then hosts else bump h t hosts

add_each : Host → ℕ → List Counts → List Counts
add_each h t [] = []
add_each h t (c ∷ cs) = add h t c ∷ add_each h t cs

-- conts_[0]->add(…)
abbrev add_first : Host → ℕ → List Counts → List Counts
add_first h t [] = []
add_first h t (c ∷ cs) = add h t c ∷ cs

-- tcp_client::add, for t that is not negative: with no connector it divides by zero
unfoldable pub client_add : Host → ℕ → List Counts → Option (List Counts)
unfolding add_each add
client_add h t [] = none
client_add h t (c ∷ []) = some (add h t c ∷ [])
client_add h t (c ∷ d ∷ cs) =
    let n = length (c ∷ d ∷ cs) in some (add_first h (t % n) (add_each h (t / n) (c ∷ d ∷ cs)))

-- How often a host is to be connected, over all connectors.
unfoldable pub requested : Host → List Counts → ℕ
unfolding count_of
requested h [] = 0
requested h (c ∷ cs) = count_of h c + requested h cs

pub count_of-bump :
    (h j : Host) (t : ℕ) (cs : Counts)
    → count_of j (bump h t cs) ≡ count_of j cs + (if h == j then t else 0)
unfolding count_of bump
count_of-bump h j t [] = ground arith
count_of-bump h j t ((k, n) ∷ cs) = ground (arith, count_of-bump h j t cs)

pub count_of-add :
    (h j : Host) (t : ℕ) (cs : Counts)
    → count_of j (add h t cs) ≡ count_of j cs + (if h == j then t else 0)
unfolding add
count_of-add h j t cs = ground (arith, count_of-bump h j t cs)

requested-add_each :
    (h j : Host) (t : ℕ) (cs : List Counts)
    → requested j (add_each h t cs) ≡ requested j cs + length cs * (if h == j then t else 0)
unfolding requested add_each
requested-add_each h j t [] = omega arith
requested-add_each h j t (c ∷ cs) = omega (arith, count_of-add h j t c, requested-add_each h j t cs)

divided : (t n : ℕ) → n * (t / n) + t % n ≡ t
divided t n = div-add-mod t n

requested-add_first :
    (h j : Host) (t : ℕ) (c : Counts) (cs : List Counts)
    → requested j (add_first h t (c ∷ cs)) ≡ requested j (c ∷ cs) + (if h == j then t else 0)
unfolding requested
requested-add_first h j t c cs = omega (arith, count_of-add h j t c)

-- Quotient for each and remainder for one make up the whole.
shares_sum :
    (b : Bool) (t n x y z : ℕ)
    → y ≡ x + n * (if b then t / n else 0)
    → z ≡ y + (if b then t % n else 0)
    → z ≡ x + (if b then t else 0)
shares_sum true t n x y z h i = omega (arith, divided t n)
shares_sum false t n x y z h i = omega arith

all_added :
    (h j : Host) (t n : ℕ) (c : Counts) (cs : List Counts)
    → n ≡ length (c ∷ cs)
    → requested j (add_first h (t % n) (add_each h (t / n) (c ∷ cs)))
      ≡ requested j (c ∷ cs) + (if h == j then t else 0)
unfolding add_each
all_added h j t n c cs e =
    let first = requested-add_first h j (t % n) (add h (t / n) c) (add_each h (t / n) cs) in
    let each = requested-add_each h j (t / n) (c ∷ cs) in
    let each' =
      subst
        (λ k.
          requested j (add_each h (t / n) (c ∷ cs))
          ≡ requested j (c ∷ cs) + k * (if h == j then t / n else 0))
        (sym e) each in
    shares_sum (h == j) t n _ _ _ each' first

-- `tcp_client::add` with at least one connector adds t requests for the host, over all connectors
-- together, and none for any other host.
pub client_add-requested :
    (h j : Host) (t : ℕ) (c : Counts) (cs : List Counts)
    → (out : List Counts) × (client_add h t (c ∷ cs) ≡ some out)
      × (requested j out ≡ requested j (c ∷ cs) + (if h == j then t else 0))
unfolding client_add
client_add-requested h j t c [] = (_, refl, unfold requested in omega (arith, count_of-add h j t c))
client_add-requested h j t c (d ∷ cs) =
    (_, refl, all_added h j t (length (c ∷ d ∷ cs)) c (d ∷ cs) refl)

-- connector::add_unix and tcp_client::add_unix; `key` gives the number of (path, port, family)
module _ (key : List ℕ → ℕ → Family → Host) where
  unfoldable pub add_unix : List ℕ → ℕ → Counts → Counts
  unfolding add
  add_unix path t hosts = add (key path 0 unix) t hosts

  pub add_unix_each : List ℕ → ℕ → List Counts → List Counts
  unfolding add_unix
  add_unix_each path t [] = []
  add_unix_each path t (c ∷ cs) = add_unix path t c ∷ add_unix_each path t cs

  abbrev add_unix_first : List ℕ → ℕ → List Counts → List Counts
  add_unix_first path t [] = []
  add_unix_first path t (c ∷ cs) = add_unix path t c ∷ cs

  unfoldable pub client_add_unix : List ℕ → ℕ → List Counts → Option (List Counts)
  client_add_unix path t [] = none
  client_add_unix path t (c ∷ []) = some (add_unix path t c ∷ [])
  client_add_unix path t (c ∷ d ∷ cs) =
      let n = length (c ∷ d ∷ cs) in
      some (add_unix_first path (t % n) (add_unix_each path (t / n) (c ∷ d ∷ cs)))

  add_unix_each-add_each :
      (path : List ℕ) (t : ℕ) (cs : List Counts)
      → add_unix_each path t cs ≡ add_each (key path 0 unix) t cs
  unfolding add_unix_each add_unix add_each
  add_unix_each-add_each path t [] = refl
  add_unix_each-add_each path t (c ∷ cs) =
      ap (λ r. add (key path 0 unix) t c ∷ r) (add_unix_each-add_each path t cs)

  -- tcp_client::add_unix, which repeats the code of add, does what add does for the path with the port
  -- 0 and the local family, with any number of connectors.
  pub client_add_unix-client_add :
      (path : List ℕ) (t : ℕ) (cs : List Counts)
      → client_add_unix path t cs ≡ client_add (key path 0 unix) t cs
  unfolding client_add_unix add_unix client_add
  client_add_unix-client_add path t [] = refl
  client_add_unix-client_add path t (c ∷ []) = refl
  client_add_unix-client_add path t (c ∷ d ∷ cs) =
      let n = length (c ∷ d ∷ cs) in
      ap (λ r. some (add_first (key path 0 unix) (t % n) r))
        (add_unix_each-add_each path (t / n) (c ∷ d ∷ cs))
