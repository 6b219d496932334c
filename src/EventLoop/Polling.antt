-- ===== src/EventLoop/Polling.antt =====
-- File events, and what the event loop relies on of epoll.
use cppev.Prelude.{ℕ, ◌≡◌, Bool, true, false, ◌&&◌, ◌||◌, Option, none, some, ◌==◌}

-- enum class fd_event: the two bits
pub record Event : Type 0 where
  pub readable_bit : Bool
  pub writable_bit : Bool

abbrev pub readable : Event
readable = record { readable_bit = true; writable_bit = false }

abbrev pub writable : Event
writable = record { readable_bit = false; writable_bit = true }

-- operator&
abbrev pub both_events : Event → Event → Event
both_events a b = record {
  readable_bit = a.readable_bit && b.readable_bit;
  writable_bit = a.writable_bit && b.writable_bit;
}

-- static_cast<bool>
abbrev pub is_set : Event → Bool
is_set a = a.readable_bit || a.writable_bit

-- epoll_ctl(2): a descriptor can be added once (EEXIST), and removed only while it is in the interest
-- list (ENOENT); `drop` is what close(2) of the descriptor does to the list. That an addition succeeds otherwise assumes that memory and watches suffice.
pub record Epoll : Type 1 where
  pub Watched : Type 0
  pub has : Watched → ℕ → Bool
  pub add : Watched → ℕ → Event → Option Watched
  pub del : Watched → ℕ → Option Watched
  pub drop : Watched → ℕ → Watched
  pub add_absent :
      (w : Watched) (fd : ℕ) (ev : Event)
      → has w fd ≡ false
      → (w' : Watched) × (add w fd ev ≡ some w') × (has w' fd ≡ true)
  pub add_other :
      (w w' : Watched) (fd k : ℕ) (ev : Event)
      → add w fd ev ≡ some w'
      → (k == fd) ≡ false
      → has w' k ≡ has w k
  pub add_present : (w : Watched) (fd : ℕ) (ev : Event) → has w fd ≡ true → add w fd ev ≡ none
  pub del_present :
      (w : Watched) (fd : ℕ)
      → has w fd ≡ true
      → (w' : Watched) × (del w fd ≡ some w') × (has w' fd ≡ false)
  pub del_absent : (w : Watched) (fd : ℕ) → has w fd ≡ false → del w fd ≡ none
  pub drop_gone : (w : Watched) (fd : ℕ) → has (drop w fd) fd ≡ false
