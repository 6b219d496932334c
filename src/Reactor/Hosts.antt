-- ===== src/Reactor/Hosts.antt =====
-- The table hosts_ of a connector as the source has it: an unordered_map, in which the order of the
-- entries has no meaning.
use mathlib.Core.Quot
use mathlib.Core.Quot.{Quot, Quot-set}
use native.Mathlib.Nat.{ℕ_set}
use cppev.Prelude.{ℕ, ◌+◌, ◌≡◌, arith, ◌==◌, if◌then◌else◌}
use cppev.Reactor.Connect.{Host, Counts, count_of, add, count_of-add}

-- The same hosts, each as often.
abbrev pub SameCounts : Counts → Counts → Type 0
SameCounts c d = (h : Host) → count_of h c ≡ count_of h d

-- std::unordered_map<…> hosts_
abbrev pub Hosts : Type 0
Hosts = Quot SameCounts

add-SameCounts :
    (h : Host) (t : ℕ) (c d : Counts) → SameCounts c d → SameCounts (add h t c) (add h t d)
add-SameCounts h t c d e j = omega (arith, count_of-add h j t c, count_of-add h j t d, e j)

-- connector::add on the map
unfoldable pub add_host : Host → ℕ → Hosts → Hosts
unfolding add-SameCounts
add_host h t =
    Quot.lift Quot-set (λ c. Quot.mk (add h t c)) (λ c d e. Quot.sound (add-SameCounts h t c d e))

-- hosts_[h], zero for a host that is not there
unfoldable pub hosts_count : Host → Hosts → ℕ
hosts_count h = Quot.lift ℕ_set (count_of h) (λ c d e. e h)

adds_commute :
    (h j : Host) (t u : ℕ) (c : Counts) → SameCounts (add h t (add j u c)) (add j u (add h t c))
adds_commute h j t u c k = omega (
  arith,
  count_of-add h k t (add j u c),
  count_of-add j k u c,
  count_of-add j k u (add h t c),
  count_of-add h k t c,
)

adds_merge : (h : Host) (t u : ℕ) (c : Counts) → SameCounts (add h t (add h u c)) (add h (t + u) c)
adds_merge h t u c k =
    ground (arith, count_of-add h k t (add h u c), count_of-add h k u c, count_of-add h k (t + u) c)

hosts_count-add_host :
    (h j : Host) (t : ℕ) (m : Hosts)
    → hosts_count j (add_host h t m) ≡ hosts_count j m + (if h == j then t else 0)
unfolding add_host hosts_count
hosts_count-add_host h j t = Quot.ind (λ x. ℕ_set _ _) (λ c. count_of-add h j t c)

add_host_comm :
    (h j : Host) (t u : ℕ) (m : Hosts)
    → add_host h t (add_host j u m) ≡ add_host j u (add_host h t m)
unfolding add_host
add_host_comm h j t u = Quot.ind (λ x. Quot-set _ _) (λ c. Quot.sound (adds_commute h j t u c))

add_host_twice :
    (h : Host) (t u : ℕ) (m : Hosts) → add_host h t (add_host h u m) ≡ add_host h (t + u) m
unfolding add_host
add_host_twice h t u = Quot.ind (λ x. Quot-set _ _) (λ c. Quot.sound (adds_merge h t u c))

-- On the map of hosts, whose order is forgotten, connector::add is well defined: a host's count grows
-- by what was added for it and no other's does, the order of two calls makes no difference, and two
-- calls for one host are one call for the sum.
pub add_host-add_host :
    (h j : Host) (t u : ℕ) (m : Hosts)
    → (hosts_count j (add_host h t m) ≡ hosts_count j m + (if h == j then t else 0))
      × (add_host h t (add_host j u m) ≡ add_host j u (add_host h t m))
      × (add_host h t (add_host h u m) ≡ add_host h (t + u) m)
add_host-add_host h j t u m =
    (hosts_count-add_host h j t m, add_host_comm h j t u m, add_host_twice h t u m)
