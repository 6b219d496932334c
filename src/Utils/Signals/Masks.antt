-- ===== src/Utils/Signals/Masks.antt =====
-- What the signal functions do to masks and sets.
use cppev.Prelude.{ℕ, ◌≡◌, refl, ap, ◌∙◌, Bool, true, false, ◌||◌, ◌&&◌, not, List, [], ◌∷◌, ◌==◌}
use cppev.Utils.Signals.{
  Signals, add_all, del_all, thread_block_signals, thread_unblock_signals, thread_check_signal_mask,
  suspend_mask_all, wait_set_all,
}

-- Whether a signal is in a list.
abbrev pub listed : ℕ → List ℕ → Bool
listed k [] = false
listed k (sig ∷ sigs) = (k == sig) || listed k sigs

abbrev AllSignals : (ℕ → Bool) → List ℕ → Type 0
AllSignals valid [] = Unit {0}
AllSignals valid (sig ∷ sigs) = (valid sig ≡ true) × AllSignals valid sigs

or_swap : (a b c : Bool) → a || (b || c) ≡ (b || a) || c
or_swap true true c = refl
or_swap true false c = refl
or_swap false b c = or_assoc b c
  where
    or_assoc : (a b : Bool) → a || b ≡ (a || false) || b
    or_assoc true b = refl
    or_assoc false b = refl

not_swap : (a b c : Bool) → not a && (not b && c) ≡ not (b || a) && c
not_swap true true c = refl
not_swap true false c = refl
not_swap false true c = refl
not_swap false false c = refl

or_false : (a : Bool) → a || false ≡ a
or_false true = refl
or_false false = refl

masked_off : (a b : Bool) → not a && (a || b) ≡ not a && b
masked_off true b = refl
masked_off false b = refl

module _ (os : Signals) where
  open os use {
    Sigset, is_signal, sigismember, sigempty, sigfull, sigaddset, sigdelset, member_empty,
    member_full, member_add, member_del, ThreadState, mask, block, unblock, member_block,
    member_unblock,
  }

  member_add_all :
      (sigs : List ℕ) (s : Sigset) (k : ℕ)
      → AllSignals is_signal sigs
      → sigismember (add_all os sigs s) k ≡ listed k sigs || sigismember s k
  member_add_all [] s k v = refl
  member_add_all (sig ∷ sigs) s k (here, v) =
      member_add_all sigs (sigaddset s sig) k v
      ∙ ap (λ b. listed k sigs || b) (member_add s sig k)
      ∙ rw here (or_swap (listed k sigs) (k == sig) (sigismember s k))

  member_del_all :
      (sigs : List ℕ) (s : Sigset) (k : ℕ)
      → AllSignals is_signal sigs
      → sigismember (del_all os sigs s) k ≡ not (listed k sigs) && sigismember s k
  member_del_all [] s k v = refl
  member_del_all (sig ∷ sigs) s k (here, v) =
      member_del_all sigs (sigdelset s sig) k v
      ∙ ap (λ b. not (listed k sigs) && b) (member_del s sig k)
      ∙ rw here (not_swap (listed k sigs) (k == sig) (sigismember s k))

  in_set :
      (sigs : List ℕ) (k : ℕ)
      → AllSignals is_signal sigs
      → sigismember (add_all os sigs sigempty) k ≡ listed k sigs
  in_set sigs k v =
      member_add_all sigs sigempty k v
      ∙ ap (λ b. listed k sigs || b) (member_empty k)
      ∙ or_false (listed k sigs)

  -- For a list of signal numbers and any signal k: blocking the list adds its signals to the mask and
  -- leaves the others as they were; unblocking it then takes them out again and leaves the others;
  -- the mask of the suspension blocks every signal that is not in the list, and no other; and
  -- the wait is for the signals of the list, and no other.
  thread_unblock_signals-thread_block_signals :
      (sigs : List ℕ) (k : ℕ) (t : ThreadState)
      → AllSignals is_signal sigs
      → (thread_check_signal_mask os k (thread_block_signals os sigs t)
          ≡ listed k sigs || thread_check_signal_mask os k t)
        × (thread_check_signal_mask os k
              (thread_unblock_signals os sigs (thread_block_signals os sigs t))
            ≡ not (listed k sigs) && thread_check_signal_mask os k t)
        × (sigismember (suspend_mask_all os sigs) k ≡ not (listed k sigs) && is_signal k)
        × (sigismember (wait_set_all os sigs) k ≡ listed k sigs)
  unfolding thread_check_signal_mask thread_block_signals thread_unblock_signals suspend_mask_all
      wait_set_all
  thread_unblock_signals-thread_block_signals sigs k t v =
      let set = add_all os sigs sigempty in
      let e = in_set sigs k v in
      let blocked : sigismember (mask (block t set)) k ≡ listed k sigs || sigismember (mask t) k =
        member_block t set k ∙ ap (λ b. b || sigismember (mask t) k) e in
      (
        blocked,
        member_unblock (block t set) set k
            ∙ ap (λ b. not b && sigismember (mask (block t set)) k) e
            ∙ ap (λ b. not (listed k sigs) && b) blocked
            ∙ masked_off (listed k sigs) (sigismember (mask t) k),
        member_del_all sigs sigfull k v ∙ ap (λ b. not (listed k sigs) && b) (member_full k),
        e,
      )
