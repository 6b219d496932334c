-- ===== src/Sockets/Sample.antt =====
-- A kernel's options and a text form of addresses, as instances of what the sockets rely on.
use cppev.Prelude.{
  ℕ, ◌≡◌, ◌≢◌, refl, sym, ap, ◌∙◌, inl, inr, List, [], ◌∷◌, Option, none, some, ◌==◌, ==_refl,
  ==_iff, if◌then◌else◌, Bool-cases, get_or,
}
use cppev.Prelude.Int.{ℤ, pos}
use cppev.Sockets.Address.{Inet, Parsed, address, malformed}
use cppev.Sockets.Options.{
  SockOption, so_reuseaddr, so_reuseport, so_keepalive, so_broadcast, tcp_nodelay, so_rcvbuf,
  so_sndbuf, so_rcvlowat, so_sndlowat, is_nonzero, Kernel,
}

abbrev pub code : SockOption → ℕ
code so_reuseaddr = 0
code so_reuseport = 1
code so_keepalive = 2
code so_broadcast = 3
code tcp_nodelay = 4
code so_rcvbuf = 5
code so_sndbuf = 6
code so_rcvlowat = 7
code so_sndlowat = 8

abbrev decode : ℕ → SockOption
decode n =
    get_or
      (so_reuseaddr ∷ so_reuseport ∷ so_keepalive ∷ so_broadcast ∷ tcp_nodelay ∷ so_rcvbuf
        ∷ so_sndbuf ∷ so_rcvlowat ∷ [])
      n so_sndlowat

decode-code : (o : SockOption) → decode (code o) ≡ o
decode-code so_reuseaddr = refl
decode-code so_reuseport = refl
decode-code so_keepalive = refl
decode-code so_broadcast = refl
decode-code tcp_nodelay = refl
decode-code so_rcvbuf = refl
decode-code so_sndbuf = refl
decode-code so_rcvlowat = refl
decode-code so_sndlowat = refl

-- The options of one socket, and its linger.
pub record Settings : Type 0 where
  pub options : SockOption → ℤ
  pub linger : ℤ × ℤ

abbrev put : Settings → SockOption → ℤ → Settings
put s o v = record s { options = λ k. if code k == code o then v else s.options k }

abbrev option_of : SockOption → Option Settings → ℤ
option_of k none = pos 0
option_of k (some s) = s.options k

abbrev linger_of : Option Settings → ℤ × ℤ
linger_of none = (pos 0, pos 0)
linger_of (some s) = s.linger

pub put_same :
    (s s' : Settings) (o : SockOption) (v : ℤ)
    → ◌≡◌ {A = Option Settings} (some (put s o v)) (some s')
    → s'.options o ≡ v
put_same s s' o v e = sym (ap (option_of o) e) ∙ rw (==_refl (code o))

pub put_other :
    (s s' : Settings) (o other : SockOption) (v : ℤ)
    → ◌≡◌ {A = Option Settings} (some (put s o v)) (some s')
    → o ≢ other
    → s'.options other ≡ s.options other
put_other s s' o other v e h = elim (Bool-cases (code other == code o)) [
  | inl same ↦
      absurd (h (sym (decode-code o) ∙ sym (ap decode ((==_iff _ _).0 same)) ∙ decode-code other))
  | inr differs ↦ sym (ap (option_of other) e) ∙ rw differs
]

abbrev pub kernel : Kernel
kernel = record {
  State = Settings;
  setsockopt = λ s fd o v. some (put s o v);
  getsockopt = λ s fd o. some (s.options o);
  set_linger = λ s fd v. some (record s { linger = v });
  get_linger = λ s fd. some (s.linger);
  take_error = λ s fd. some (pos 0, s);
  bind_to = λ s fd a. some s;
  flag_kept = λ s s' fd o v f e. (s'.options o, refl, ap is_nonzero (put_same s s' o v e));
  other_kept = λ s s' fd o other v e h. ap some (put_other s s' o other v e h);
  linger_kept = λ s s' fd v e. ap some (sym (ap linger_of e));
  bind_kept = λ s s' fd a o e. ap some (sym (ap (option_of o) e));
}

-- A text of one character stands for the address of its number.
abbrev parse : List ℕ → Parsed
parse [] = malformed
parse (a ∷ []) = address a
parse (a ∷ b ∷ rest) = malformed

abbrev parse_some : Option (List ℕ) → Parsed
parse_some none = malformed
parse_some (some ip) = parse ip

abbrev pub inet : Inet
inet = record {
  pton = λ f ip. parse ip;
  ntop = λ f a. some (a ∷ []);
  prints = λ f ip a e. (a ∷ [], refl);
  printed = λ f ip a e. sym (ap parse_some e);
}
