-- ===== src/Sockets/Address.antt =====
-- Socket addresses: set_ip_port and query_ip_port_family of src/lib/nio.cc.
use cppev.Prelude.{ℕ, ◌+◌, ◌*◌, ◌/◌, ◌%◌, ◌<◌, ◌≡◌, refl, ap, ◌∙◌, arith, List, Option, none, some}
use cppev.Nio.{Outcome, returned, threw}
use native.Mathlib.Nat.{mod-eq_of_lt}

-- enum class family
pub data Family : Type 0 where
  ipv4 ipv6 unix : Family

-- What inet_pton(3) answers: 1 with an address, 0, or -1.
pub data Parsed : Type 0 where
  address : ℕ → Parsed
  malformed failed : Parsed

-- inet_ntop(3) prints each address that a text stands for, and what it prints is a text of the address.
pub record Inet : Type 0 where
  pub pton : Family → List ℕ → Parsed
  pub ntop : Family → ℕ → Option (List ℕ)
  pub prints :
      (f : Family) (ip : List ℕ) (a : ℕ)
      → pton f ip ≡ address a
      → (ip' : List ℕ) × (ntop f a ≡ some ip')
  pub printed : (f : Family) (ip : List ℕ) (a : ℕ) → ntop f a ≡ some ip → pton f ip ≡ address a

-- sockaddr_storage; the 16 bits of the port are in network byte order, as the machine reads them
pub record SockAddr : Type 0 where
  pub ss_family : Family
  pub addr : ℕ
  pub port : ℕ

-- htons(3) of a 16-bit number, and ntohs(3), on a little-endian machine: the two bytes change places.
abbrev pub swap_bytes : ℕ → ℕ
swap_bytes n = n % 256 * 256 + n / 256

unfoldable pub htons : ℕ → ℕ
htons n = swap_bytes n

unfoldable pub ntohs : ℕ → ℕ
ntohs n = swap_bytes n

ntohs-htons : (n : ℕ) → n < 65_536 → ntohs (htons n) ≡ n
unfolding ntohs htons
ntohs-htons n h = omega arith

module _ (inet : Inet) where
  open inet use {pton, ntop, prints, printed}

  abbrev from_parsed : Family → ℕ → Parsed → Outcome SockAddr
  from_parsed f port (address a) =
      returned (record { ss_family = f; addr = a; port = htons (port % 65_536) })
  from_parsed f port malformed = threw
  from_parsed f port failed = threw

  -- Without an ip it is the address of any interface, which is zero.
  abbrev with_ip : Family → Option (List ℕ) → ℕ → Outcome SockAddr
  with_ip f none port = returned (record { ss_family = f; addr = 0; port = htons (port % 65_536) })
  with_ip f (some ip) port = from_parsed f port (pton f ip)

  unfoldable pub set_ip_port : Family → Option (List ℕ) → ℕ → Outcome SockAddr
  set_ip_port ipv4 ip port = with_ip ipv4 ip port
  set_ip_port ipv6 ip port = with_ip ipv6 ip port
  set_ip_port unix ip port = threw

  abbrev from_printed : SockAddr → Option (List ℕ) → Outcome (List ℕ × ℕ × Family)
  from_printed a none = threw
  from_printed a (some ip) = returned (ip, ntohs a.port, a.ss_family)

  abbrev query_family : SockAddr → Family → Outcome (List ℕ × ℕ × Family)
  query_family a ipv4 = from_printed a (ntop ipv4 a.addr)
  query_family a ipv6 = from_printed a (ntop ipv6 a.addr)
  query_family a unix = threw

  unfoldable pub query_ip_port_family : SockAddr → Outcome (List ℕ × ℕ × Family)
  query_ip_port_family a = query_family a a.ss_family

  abbrev pub IsInet : Family → Type 0
  IsInet ipv4 = Unit {0}
  IsInet ipv6 = Unit {0}
  IsInet unix = ⊥

  set_entry :
      (f : Family) (ip : List ℕ) (a port : ℕ)
      → IsInet f
      → port < 65_536
      → pton f ip ≡ address a
      → set_ip_port f (some ip) port
        ≡ returned (record { ss_family = f; addr = a; port = htons port })
  unfolding set_ip_port
  set_entry ipv4 ip a port i h e = rw (e, mod-eq_of_lt h)
  set_entry ipv6 ip a port i h e = rw (e, mod-eq_of_lt h)
  set_entry unix ip a port i h e = absurd i

  query_entry :
      (f : Family) (ip : List ℕ) (a port : ℕ)
      → IsInet f
      → ntop f a ≡ some ip
      → query_ip_port_family (record { ss_family = f; addr = a; port = port })
        ≡ returned (ip, ntohs port, f)
  unfolding query_ip_port_family
  query_entry ipv4 ip a port i e = rw e
  query_entry ipv6 ip a port i e = rw e
  query_entry unix ip a port i e = absurd i

  -- For an internet family, a port of 16 bits and a text that inet_pton accepts, the socket address is
  -- made, with the two bytes of the port in network order, and querying it gives the family, the port
  -- and a text for which the same socket address is made.
  pub query-set_ip_port :
      (f : Family) (ip : List ℕ) (a port : ℕ)
      → IsInet f
      → port < 65_536
      → pton f ip ≡ address a
      → (s : SockAddr) × (ip' : List ℕ) × (set_ip_port f (some ip) port ≡ returned s)
        × (s.port ≡ port % 256 * 256 + port / 256)
        × (query_ip_port_family s ≡ returned (ip', port, f))
        × (set_ip_port f (some ip') port ≡ returned s)
  unfolding htons
  query-set_ip_port f ip a port i h e =
      let (ip', shown) = prints f ip a e in
      let again = printed f ip' a shown in
      let back = ap (λ p. returned (ip', p, f)) (ntohs-htons port h) in
      (
        record { ss_family = f; addr = a; port = htons port },
        ip',
        set_entry f ip a port i h e,
        refl,
        query_entry f ip' a (htons port) i shown ∙ back,
        set_entry f ip' a port i h again,
      )
