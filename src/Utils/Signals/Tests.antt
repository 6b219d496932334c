-- ===== src/Utils/Signals/Tests.antt =====
-- The theorem on signal masks at sets that are functions, and checks of processes.
use cppev.Prelude.{
  ℕ, ◌≡◌, refl, Bool, true, false, ◌||◌, ◌&&◌, not, none, some, ltb, ◌==◌, if◌then◌else◌,
}
use cppev.Prelude.Int.{pos, negsuc, ◌*ℤ◌}
use cppev.Nio.{returned, threw}
use cppev.Utils.Signals.{Signals, delivered, no_process, send_signal, check_process_group}

abbrev Set : Type 0
Set = ℕ → Bool

abbrev valid : ℕ → Bool
valid k = ltb 0 k && ltb k 65

-- A thread is its mask, and no signal is pending.
abbrev sets : Signals
sets = record {
  Sigset = Set;
  is_signal = valid;
  sigismember = λ s k. s k;
  sigempty = λ k. false;
  sigfull = valid;
  sigaddset = λ s sig k. (valid sig && (k == sig)) || s k;
  sigdelset = λ s sig k. not (valid sig && (k == sig)) && s k;
  member_empty = λ k. refl;
  member_full = λ k. refl;
  member_add = λ s sig k. refl;
  member_del = λ s sig k. refl;
  ThreadState = Set;
  mask = λ t. t;
  block = λ t s k. s k || t k;
  unblock = λ t s k. not (s k) && t k;
  member_block = λ t s k. refl;
  member_unblock = λ t s k. refl;
  sigaction = λ t sig handler. if valid sig then some t else none;
  sigpending = λ t k. false;
}

-- Only the group -7 has a process.
group_checked :
    check_process_group (λ pid. elim pid [ pos n ↦ no_process | negsuc n ↦ delivered ]) (pos 7)
    ≡ returned true
unfolding ◌*ℤ◌
group_checked = refl

signal_zero : send_signal delivered 0 ≡ threw
unfolding send_signal
signal_zero = refl
