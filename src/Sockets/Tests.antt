-- ===== src/Sockets/Tests.antt =====
-- The theorems on sockets at concrete options, addresses and answers.
use cppev.Prelude.{
  ℕ, ◌≡◌, refl, sym, ap, ◌∙◌, Bool, true, false, List, [], ◌∷◌, ◌++◌, none, some, arith, ◌==◌,
  ==_refl, ==_iff, ap₂, ◌&&◌, ◌≢◌, take, Option, Bool-cases, inl, inr, if◌then◌else◌, replicate,
}
use cppev.Prelude.Int.{pos, negsuc}
use cppev.Buffer.{Buffer}
use cppev.Nio.{returned, threw}
use cppev.Nio.Blocking.{Fcntl, with_nonblock, has-with, stream_of}
use cppev.Sockets.Address.{
  ipv4, unix, SockAddr, set_ip_port, query_ip_port_family, query-set_ip_port,
}
use cppev.Sockets.Connections.{Socket, incoming, would_block, accept, fds_of}
use cppev.Sockets.Local.{Names, bind_unix, IsNamed, AllNamed, accept-bind_unix, bind_unix_long}
use cppev.Sockets.Objects.{TcpSocket, move_tcp, destroy, move_tcp-destroy}
use cppev.Sockets.Sample.{inet}

query-set_ip_port_example :
    (s : SockAddr) × (ip' : List ℕ) × (set_ip_port inet ipv4 (some (77 ∷ [])) 8080 ≡ returned s)
    × (s.port ≡ 36_895)
    × (query_ip_port_family inet s ≡ returned (ip', 8080, ipv4))
    × (set_ip_port inet ipv4 (some ip') 8080 ≡ returned s)
query-set_ip_port_example = query-set_ip_port inet ipv4 (77 ∷ []) 77 8080 tt (omega arith) refl

abbrev peer_address : SockAddr
peer_address = record { ss_family = ipv4; addr = 77; port = 36_895 }

-- Every descriptor is one open file, which has the flags.
abbrev one_file : Fcntl
one_file = record {
  State = ℕ;
  getfl = λ s fd. some s;
  setfl = λ s fd flags. some flags;
  set_kept = λ s s' fd flags got put. sym put;
  cleared_kept = λ s s' fd flags got put. sym put;
  others_kept = λ s s' fd other flags g got put at nonblocking.
      (with_nonblock flags, sym put, has-with flags);
}

abbrev tcp : ℕ → TcpSocket
tcp fd = record { stream = stream_of (pos fd); domain = unix; peer = some (47 ∷ [], negsuc 0) }

move_tcp-destroy_example :
    let (target, source) = move_tcp (tcp 3) (tcp 4) in
    (destroy target.stream ++ destroy source.stream ≡ destroy (stream_of (pos 4)))
    × (target.peer ≡ some (47 ∷ [], negsuc 0))
    × (target.domain ≡ unix)
    × (target.stream.eof ≡ false)
    × (target.stream.rbuffer ≡ (stream_of (pos 4)).rbuffer)
    × (target.stream.wbuffer.store ≡ [])
    × (source.stream.wbuffer ≡ (stream_of (pos 4)).wbuffer)
move_tcp-destroy_example = move_tcp-destroy (tcp 3) (tcp 4)

same_name : List ℕ → List ℕ → Bool
same_name [] [] = true
same_name [] (y ∷ ys) = false
same_name (x ∷ xs) [] = false
same_name (x ∷ xs) (y ∷ ys) = (x == y) && same_name xs ys

same_name_refl : (xs : List ℕ) → same_name xs xs ≡ true
unfolding same_name
same_name_refl [] = refl
same_name_refl (x ∷ xs) = rw (==_refl x) (same_name_refl xs)

same_name_eq : (xs ys : List ℕ) → same_name xs ys ≡ true → xs ≡ ys
unfolding same_name
same_name_eq [] [] e = refl
same_name_eq [] (y ∷ ys) e = cc
same_name_eq (x ∷ xs) [] e = cc
same_name_eq (x ∷ xs) (y ∷ ys) e = elim (Bool-cases (x == y)) [
  | inl same ↦ ap₂ ◌∷◌ ((==_iff x y).0 same) (same_name_eq xs ys (rw same at e))
  | inr apart ↦ absurd (cc (rw apart at e))
]

-- The names that exist.
abbrev NameSet : Type 0
NameSet = List ℕ → Bool

abbrev put_name : NameSet → List ℕ → Bool → NameSet
put_name s name b k = if same_name k name then b else s k

put_name_there : (s : NameSet) (name : List ℕ) (b : Bool) → put_name s name b name ≡ b
put_name_there s name b = rw (same_name_refl name)

put_name_other :
    (s : NameSet) (name other : List ℕ) (b : Bool)
    → other ≢ name
    → put_name s name b other ≡ s other
put_name_other s name other b h = elim (Bool-cases (same_name other name)) [
  | inl same ↦ absurd (h (same_name_eq other name same))
  | inr apart ↦ rw apart
]

put_name_made :
    (s s' : NameSet) (name : List ℕ) (b : Bool)
    → (if b then none else some (put_name s name true)) ≡ some s'
    → s' name ≡ true
put_name_made s s' name true e = cc
put_name_made s s' name false e =
    let f : put_name s name true ≡ s' = cc in
    sym (ap (λ (v : NameSet). v name) f) ∙ put_name_there s name true

put_name_gone :
    (s s' : NameSet) (name other : List ℕ)
    → ◌≡◌ {A = Option NameSet} (some (put_name s name false)) (some s')
    → s' other ≡ put_name s name false other
put_name_gone s s' name other e =
    let f : put_name s name false ≡ s' = cc in sym (ap (λ (v : NameSet). v other) f)

abbrev name_set : Names
name_set = record {
  State = NameSet;
  exists = λ s name. s name;
  unlink = λ s name. some (put_name s name false);
  bind_name = λ s fd name. if s name then none else some (put_name s name true);
  listen_on = λ s fd backlog. some s;
  bind_existing = λ s fd name h. rw h;
  bind_makes = λ s s' fd name e. put_name_made s s' name (s name) e;
  unlink_removes = λ s s' name e. put_name_gone s s' name name e ∙ put_name_there s name false;
  unlink_others =
      λ s s' name other e h. put_name_gone s s' name other e ∙ put_name_other s name other false h;
}

abbrev local : Socket
local = record { fd = 3; domain = unix; peer = none }

abbrev no_names : NameSet
no_names k = false

accept-bind_unix_example :
    IsNamed inet (47 ∷ []) none (record local { peer = some (47 ∷ [], negsuc 0) })
    × ((socks : List Socket) × (accept
            (record local { peer = some (47 ∷ [], negsuc 0) })
            4
            (incoming 8 ∷ would_block ∷ [])
          ≡ returned socks)
        × (fds_of socks ≡ 8 ∷ [])
        × AllNamed inet (47 ∷ []) none socks)
unfolding bind_unix
accept-bind_unix_example =
    accept-bind_unix name_set inet no_names (put_name no_names (47 ∷ []) true) local
      (record local { peer = some (47 ∷ [], negsuc 0) }) (47 ∷ []) false 4
      (incoming 8 ∷ would_block ∷ []) none refl refl tt

abbrev long_path : List ℕ
long_path = replicate 108 97

abbrev long_bound : NameSet
long_bound = put_name no_names (take 107 long_path) true

bind_unix_long_example :
    (s'' : NameSet) × (long_bound (take 107 long_path) ≡ true)
    × (bind_unix name_set long_bound local long_path true
        ≡ (record local { peer = some (long_path, negsuc 0) }, threw, s''))
    × (s'' (take 107 long_path) ≡ true)
unfolding bind_unix
bind_unix_long_example =
    bind_unix_long name_set no_names long_bound local
      (record local { peer = some (long_path, negsuc 0) }) local long_path false (omega arith) refl
