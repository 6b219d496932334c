-- ===== src/Sockets/Datagrams.antt =====
-- Datagrams: recv, send and send_unix of nsockudp in src/lib/nio.cc.
use cppev.Prelude.{
  ℕ, zero, suc, ◌+◌, ◌-◌, ◌≤◌, ◌<◌, ◌≡◌, refl, sym, ap, List, [], ◌∷◌, ◌++◌, none, some, arith,
  length, take,
}
use cppev.Prelude.Int.{ℤ, pos, negsuc}
use cppev.Buffer.{Buffer, consume, contents, clear}
use cppev.Buffer.Arrays.{put_bytes}
use cppev.Buffer.Bounds.{IsValid, Resized}
use cppev.Buffer.Contents.{filled, filled-IsValid, filled-contents}
use cppev.Buffer.Consume.{get_string_all, consume_all}
use cppev.Nio.{Outcome, returned, threw, defined, ◌>>=◌}
use cppev.Sockets.Address.{
  Family, ipv4, ipv6, unix, Inet, SockAddr, set_ip_port, query_ip_port_family,
}

-- What recvfrom(2) answers: a datagram with its sender, of which it delivers what the room holds, or
-- -1, after which the sender is not set.
pub data RecvAnswer : Type 0 where
  datagram : List ℕ → SockAddr → RecvAnswer
  failed : SockAddr → RecvAnswer

-- rbuffer().offset_ += ret, with the bytes that were delivered; an index below 0 is undefined.
abbrev pub received : Buffer → List ℕ → Buffer
received b bytes = record b {
  offset = b.offset + length bytes;
  store = put_bytes bytes b.offset b.store;
}

abbrev step_back : ℕ → Buffer → Outcome Buffer
step_back zero b = defined none
step_back (suc n) b = returned (record b { offset = n })

-- A datagram of no bytes makes ret zero, which throws.
abbrev take_in : Buffer → List ℕ → Outcome Buffer
take_in b [] = threw
take_in b (x ∷ xs) = returned (received b (x ∷ xs))

abbrev natural : ℤ → ℕ
natural (pos n) = n
natural (negsuc n) = 0

module _ (inet : Inet) where
  -- The sender: the path of the socket for a local one.
  abbrev sender : Family → List ℕ → SockAddr → Outcome (List ℕ × ℤ × Family)
  sender unix path a = returned (path, negsuc 0, unix)
  sender ipv4 path a = do
    from ← query_ip_port_family inet a
    returned (from.0, pos (from.1), from.2)
  sender ipv6 path a = do
    from ← query_ip_port_family inet a
    returned (from.0, pos (from.1), from.2)

  unfoldable pub recv :
      Family → List ℕ → RecvAnswer → Buffer → Outcome ((List ℕ × ℤ × Family) × Buffer)
  unfolding query_ip_port_family
  recv f path (datagram bytes a) b = do
    r ← take_in b (take (b.cap - b.offset) bytes)
    from ← sender f path a
    returned (from, r)
  recv f path (failed a) b = do r ← step_back b.offset b; from ← sender f path a; returned (from, r)

  abbrev after_send : ℤ → Buffer → Outcome Buffer
  after_send (pos zero) b = threw
  after_send ret b = defined (consume b ret)

  -- `ret` is what sendto(2) returns.
  unfoldable pub send : Family → List ℕ → ℕ → ℤ → Buffer → Outcome Buffer
  unfolding consume set_ip_port
  send f ip port ret b = do a ← set_ip_port inet f (some ip) port; after_send ret b

  unfoldable pub send_unix : ℤ → Buffer → Outcome Buffer
  unfolding consume
  send_unix ret b = after_send ret b

  fits_room :
      (b : Buffer) (bytes : List ℕ)
      → IsValid b
      → b.offset + length bytes ≤ b.cap
      → Resized b b (b.offset + length bytes)
  fits_room b bytes v h = record {
    valid = v;
    room = h;
    same_start = refl;
    same_offset = refl;
    same_bytes = λ k _. refl;
  }

  take_in_entry :
      (b : Buffer) (bytes : List ℕ)
      → 0 < length bytes
      → take_in b bytes ≡ returned (received b bytes)
  take_in_entry b [] h = absurd (omega arith)
  take_in_entry b (x ∷ xs) h = refl

  take_all : (n : ℕ) (xs : List ℕ) → length xs ≤ n → take n xs ≡ xs
  take_all n [] h = take_nil n
    where
      take_nil : (n : ℕ) → ◌≡◌ {A = List ℕ} (take n []) []
      take_nil zero = refl
      take_nil (suc n) = refl
  take_all zero (x ∷ xs) h = absurd (omega arith)
  take_all (suc n) (x ∷ xs) h = ap (λ r. x ∷ r) (take_all n xs (omega arith))

  -- What recv gives as the sender, by the family of the socket: the path of a local socket, or what
  -- the address of the datagram is a text of.
  abbrev pub SentBy : Family → List ℕ → SockAddr → List ℕ × ℤ × Family → Type 0
  SentBy unix path a from = from ≡ (path, negsuc 0, unix)
  SentBy ipv4 path a from =
      (query_ip_port_family inet a ≡ returned (from.0, natural from.1, from.2))
      × (from.1 ≡ pos (natural from.1))
  SentBy ipv6 path a from =
      (query_ip_port_family inet a ≡ returned (from.0, natural from.1, from.2))
      × (from.1 ≡ pos (natural from.1))

  sender-SentBy :
      (f : Family) (path : List ℕ) (a : SockAddr) (from : List ℕ × ℤ × Family)
      → SentBy f path a from
      → sender f path a ≡ returned from
  sender-SentBy unix path a from e = ap returned (sym e)
  sender-SentBy ipv4 path a from (e, p) = rw e (ap (λ z. returned (from.0, z, from.2)) (sym p))
  sender-SentBy ipv6 path a from (e, p) = rw e (ap (λ z. returned (from.0, z, from.2)) (sym p))

  -- On a socket with a well-formed read buffer, a datagram that is not empty and fits the room behind
  -- the buffer's bytes is appended to them, and the buffer stays well formed; the sender is returned.
  pub recv-contents :
      (f : Family) (from : List ℕ × ℤ × Family) (b : Buffer) (path bytes : List ℕ) (a : SockAddr)
      → SentBy f path a from
      → IsValid b
      → 0 < length bytes
      → b.offset + length bytes ≤ b.cap
      → (r : Buffer) × (recv f path (datagram bytes a) b ≡ returned (from, r))
        × IsValid r
        × (contents r ≡ contents b ++ bytes)
  unfolding recv filled
  recv-contents f from b path bytes a name v some_bytes h =
      let z = fits_room b bytes v h in
      let whole = take_all (b.cap - b.offset) bytes (omega arith) in
      (
        received b bytes,
        rw (whole, take_in_entry b bytes some_bytes, sender-SentBy f path a from name),
        filled-IsValid b v bytes b z,
        filled-contents b v bytes b z,
      )

  -- When recvfrom fails on a local socket, recv returns as if a datagram had come, and the read buffer
  -- ends one byte earlier than before, if its end index was not zero.
  recv_failed :
      (b : Buffer) (path : List ℕ) (a : SockAddr) (n : ℕ)
      → b.offset ≡ suc n
      → recv unix path (failed a) b ≡ returned ((path, negsuc 0, unix), record b { offset = n })
  unfolding recv
  recv_failed b path a n e = rw e

  -- When sendto fails, send_unix returns, and the whole of a well-formed write buffer is gone.
  send_failed :
      (b : Buffer)
      → IsValid b
      → (r : Buffer) × (send_unix (negsuc 0) b ≡ returned r) × (contents r ≡ [])
  unfolding send_unix
  send_failed b v = (clear b, rw (consume_all b v), (get_string_all b v).1)
