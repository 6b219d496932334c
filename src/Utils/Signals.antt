-- ===== src/Utils/Signals.antt =====
-- The signal functions of src/lib/utils.cc. The kernel and the sigset_t functions are a parameter.
pub mod Masks
mod Tests
use cppev.Prelude.{
  ℕ, suc, ◌≡◌, ◌≢◌, Bool, true, false, ◌||◌, ◌&&◌, not, List, [], ◌∷◌, Option, none, some, ◌==◌,
  if◌then◌else◌,
}
use cppev.Prelude.Int.{ℤ, pos, negsuc, ◌*ℤ◌}
use cppev.Nio.{Outcome, returned, threw, waiting, ◌>>=◌}

-- What kill(2) answers: 0, or -1 with errno ESRCH or another.
pub data KillAnswer : Type 0 where
  delivered no_process refused : KillAnswer

-- What sigaction(2) is told to do on a signal.
pub data Handler : Type 0 where
  ignored default_action : Handler
  calls : ℕ → Handler

-- The sets of signals and the mask of the calling thread. pthread_sigmask with SIG_BLOCK adds a set to
-- the mask and with SIG_UNBLOCK takes it away; a signal number that is none is an error (none) of
-- sigaction, and sigaddset and sigdelset leave the set alone then.
pub record Signals : Type 1 where
  pub Sigset : Type 0
  pub is_signal : ℕ → Bool
  pub sigismember : Sigset → ℕ → Bool
  pub sigempty : Sigset
  pub sigfull : Sigset
  pub sigaddset : Sigset → ℕ → Sigset
  pub sigdelset : Sigset → ℕ → Sigset
  pub member_empty : (k : ℕ) → sigismember sigempty k ≡ false
  pub member_full : (k : ℕ) → sigismember sigfull k ≡ is_signal k
  pub member_add :
      (s : Sigset) (sig k : ℕ)
      → sigismember (sigaddset s sig) k ≡ (is_signal sig && (k == sig)) || sigismember s k
  pub member_del :
      (s : Sigset) (sig k : ℕ)
      → sigismember (sigdelset s sig) k ≡ not (is_signal sig && (k == sig)) && sigismember s k
  pub ThreadState : Type 0
  pub mask : ThreadState → Sigset
  pub block : ThreadState → Sigset → ThreadState
  pub unblock : ThreadState → Sigset → ThreadState
  pub member_block :
      (t : ThreadState) (s : Sigset) (k : ℕ)
      → sigismember (mask (block t s)) k ≡ sigismember s k || sigismember (mask t) k
  pub member_unblock :
      (t : ThreadState) (s : Sigset) (k : ℕ)
      → sigismember (mask (unblock t s)) k ≡ not (sigismember s k) && sigismember (mask t) k
  pub sigaction : ThreadState → ℕ → Handler → Option ThreadState
  pub sigpending : ThreadState → Sigset

module _ (os : Signals) where
  open os use {
    Sigset, sigismember, sigempty, sigfull, sigaddset, sigdelset, ThreadState, mask, block, unblock,
    sigaction, sigpending,
  }

  -- handle_signal, ignore_signal and reset_signal
  abbrev pub handle_signal : ThreadState → ℕ → Handler → Outcome ThreadState
  handle_signal t sig handler = elim (sigaction t sig handler) [
    | none ↦ threw
    | some u ↦ returned u
  ]

  abbrev pub ignore_signal : ThreadState → ℕ → Outcome ThreadState
  ignore_signal t sig = handle_signal t sig ignored

  abbrev pub reset_signal : ThreadState → ℕ → Outcome ThreadState
  reset_signal t sig = handle_signal t sig default_action

  -- for (auto sig : sigs) sigaddset(&set, sig); and the same with sigdelset
  abbrev pub add_all : List ℕ → Sigset → Sigset
  add_all [] s = s
  add_all (sig ∷ sigs) s = add_all sigs (sigaddset s sig)

  abbrev pub del_all : List ℕ → Sigset → Sigset
  del_all [] s = s
  del_all (sig ∷ sigs) s = del_all sigs (sigdelset s sig)

  -- thread_block_signal of one signal and of several; pthread_sigmask with these arguments succeeds
  unfoldable pub thread_block_signal : ℕ → ThreadState → ThreadState
  thread_block_signal sig t = block t (sigaddset sigempty sig)

  unfoldable pub thread_block_signals : List ℕ → ThreadState → ThreadState
  thread_block_signals sigs t = block t (add_all sigs sigempty)

  unfoldable pub thread_unblock_signal : ℕ → ThreadState → ThreadState
  thread_unblock_signal sig t = unblock t (sigaddset sigempty sig)

  unfoldable pub thread_unblock_signals : List ℕ → ThreadState → ThreadState
  thread_unblock_signals sigs t = unblock t (add_all sigs sigempty)

  unfoldable pub thread_check_signal_mask : ℕ → ThreadState → Bool
  thread_check_signal_mask sig t = sigismember (mask t) sig

  unfoldable pub thread_check_signal_pending : ℕ → ThreadState → Bool
  thread_check_signal_pending sig t = sigismember (sigpending t) sig

  -- The mask during the sigsuspend of thread_suspend_for_signal, for one signal and for several.
  unfoldable pub suspend_mask : ℕ → Sigset
  suspend_mask sig = sigdelset sigfull sig

  unfoldable pub suspend_mask_all : List ℕ → Sigset
  suspend_mask_all sigs = del_all sigs sigfull

  -- The set of the sigwait of thread_wait_for_signal, for one signal and for several.
  unfoldable pub wait_set : ℕ → Sigset
  wait_set sig = sigaddset sigempty sig

  unfoldable pub wait_set_all : List ℕ → Sigset
  wait_set_all sigs = add_all sigs sigempty

-- send_signal(pid, sig), with what kill answers: true is the return
unfoldable pub send_signal : KillAnswer → ℕ → Outcome Bool
send_signal answer sig =
    if sig == 0
    then threw
    else elim answer [ delivered ↦ returned true | no_process ↦ threw | refused ↦ threw ]

-- check_process(pid), which kills with signal 0
abbrev pub check_process : (ℤ → KillAnswer) → ℤ → Outcome Bool
check_process kill pid = elim (kill pid) [
  | delivered ↦ returned true
  | no_process ↦ returned false
  | refused ↦ threw
]

-- check_process_group(pgid): -1 * pgid
abbrev pub check_process_group : (ℤ → KillAnswer) → ℤ → Outcome Bool
check_process_group kill pgid = check_process kill (negsuc 0 *ℤ pgid)
