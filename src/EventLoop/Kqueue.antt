-- ===== src/EventLoop/Kqueue.antt =====
-- The event loop for macOS: src/lib/event_loop_kqueue.cc. kqueue is a parameter of the model.
-- Events, entries and callbacks are those of the parent.
pub mod Rounds
pub mod Filters
mod Tests
use Prim.Native.Nat.{bit_or}
use cppev.Prelude.{
  ℕ, ◌+◌, ◌-◌, ◌*◌, ◌/◌, ◌%◌, ◌^◌, ◌≡◌, ◌≢◌, Bool, true, false, ◌&&◌, ◌||◌, List, [], ◌∷◌, ◌++◌,
  Option, none, some, map, ◌==◌, if◌then◌else◌,
}
use cppev.Prelude.Int.{ℤ, pos, negsuc}
use cppev.EventLoop.{
  Event, readable, writable, both_events, is_set, Entry, Callback, Result, ok, threw, ◌>>=◌, erase,
  dispatch, run_all,
}

-- kevent(2). A filter is a number of 32 bits here: EVFILT_READ is -1 and EVFILT_WRITE is -2. An event
-- that is there can be added again; to delete one that is not there is an error (ENOENT).
pub record Kqueue : Type 1 where
  pub Watched : Type 0
  pub evfilt_read : ℕ
  pub evfilt_write : ℕ
  pub read_value : evfilt_read ≡ 4_294_967_295
  pub write_value : evfilt_write ≡ 4_294_967_294
  pub has : Watched → ℕ → ℕ → Bool
  pub ev_add : Watched → ℕ → ℕ → Option Watched
  pub ev_delete : Watched → ℕ → ℕ → Option Watched
  pub added :
      (w w' : Watched) (fd filter k g : ℕ)
      → ev_add w fd filter ≡ some w'
      → has w' k g ≡ ((k == fd) && (g == filter)) || has w k g
  pub delete_present :
      (w : Watched) (fd filter : ℕ)
      → has w fd filter ≡ true
      → (w' : Watched) × (ev_delete w fd filter ≡ some w')
        × ((k g : ℕ) → has w' k g ≡ (if (k == fd) && (g == filter) then false else has w k g))
  pub delete_absent :
      (w : Watched) (fd filter : ℕ) → has w fd filter ≡ false → ev_delete w fd filter ≡ none

-- operator|
abbrev pub either_event : Event → Event → Event
either_event a b = record {
  readable_bit = a.readable_bit || b.readable_bit;
  writable_bit = a.writable_bit || b.writable_bit;
}

-- static_cast<fd_event>(0)
abbrev pub no_event : Event
no_event = record { readable_bit = false; writable_bit = false }

module _ (kq : Kqueue) where
  open kq use {Watched, evfilt_read, evfilt_write, ev_add, ev_delete}

  -- An int that is made a uint32_t.
  unfoldable pub fd_map_to_sys : Event → ℕ
  fd_map_to_sys ev =
      let flags = if is_set (both_events ev readable) then bit_or 0 evfilt_read else 0 in
      if is_set (both_events ev writable) then bit_or flags evfilt_write else flags

  abbrev pub fd_map_to_event : ℕ → Event
  fd_map_to_event ev =
      let flags = if ev == evfilt_read then readable else no_event in
      if ev == evfilt_write then writable else flags

  -- `fd_events` is the map of that name; none is a key that is not there.
  pub record KqueueLoop : Type 0 where
    pub watched : Watched
    pub fds : List Entry
    pub fd_events : ℕ → Option Event
    pub owned : List ℕ

  abbrev pub set_key : (ℕ → Option Event) → ℕ → Option Event → ℕ → Option Event
  set_key m fd v k = if k == fd then v else m k

  abbrev joined : Option Event → Event → Event
  joined none ev = ev
  joined (some old) ev = either_event old ev

  abbrev pub record_event : KqueueLoop → ℕ → Event → KqueueLoop
  record_event l fd ev = record l {
    fd_events = set_key l.fd_events fd (some (joined (l.fd_events fd) ev));
  }

  abbrev or_throw : KqueueLoop → Option Watched → Result KqueueLoop
  or_throw l none = threw l
  or_throw l (some w) = ok (record l { watched = w })

  -- set_evlp, and fds_.emplace for a handler that is not null
  abbrev pub remember : KqueueLoop → ℕ → ℕ → Event → Option ℕ → ℕ → KqueueLoop
  remember l fd iop ev none prio = record l { owned = iop ∷ l.owned }
  remember l fd iop ev (some h) prio =
      let entry : Entry = record { fd = fd; prio = prio; iop = iop; handler = h; event = ev } in
      record l { owned = iop ∷ l.owned; fds = l.fds ++ entry ∷ [] }

  unfoldable pub fd_register : KqueueLoop → ℕ → ℕ → Event → Option ℕ → Bool → ℕ → Result KqueueLoop
  fd_register l fd iop ev handler activate prio =
      let m = remember l fd iop ev handler prio in
      if activate
      then or_throw (record_event m fd ev) (ev_add m.watched fd (fd_map_to_sys ev))
      else ok m

  -- fd_events_[fd], which is 0 for a key that is not there
  abbrev event_at : Option Event → Event
  event_at none = no_event
  event_at (some ev) = ev

  -- One round of the loop that deletes the recorded events.
  abbrev delete_event : ℕ → Event → Event → KqueueLoop → Result KqueueLoop
  delete_event fd ev_type ev l =
      if is_set (both_events ev_type ev)
      then or_throw l (ev_delete l.watched fd (fd_map_to_sys ev))
      else ok l

  abbrev deactivated : ℕ → KqueueLoop → Result KqueueLoop
  deactivated fd l =
      let ev_type = event_at (l.fd_events fd) in
      delete_event fd ev_type readable (record l { fd_events = set_key l.fd_events fd none })
      >>= delete_event fd ev_type writable

  abbrev forget : ℕ → Bool → KqueueLoop → Result KqueueLoop
  forget fd clean l = ok (if clean then record l { fds = erase fd l.fds } else l)

  unfoldable pub fd_remove : KqueueLoop → ℕ → Bool → Bool → Result KqueueLoop
  fd_remove l fd clean deactivate = do
    m ← if deactivate then deactivated fd l else ok l
    forget fd clean m

  -- The descriptors with the events that the reported filters stand for.
  abbrev pub events_of : List (ℕ × ℕ) → List (ℕ × Event)
  events_of [] = []
  events_of ((fd, filter) ∷ evs) = (fd, fd_map_to_event filter) ∷ events_of evs

  -- loop_once on the events that kevent reports; none is an error, after which nothing is done.
  unfoldable pub loop_once {ℓ} :
      {S : Type ℓ} → (S → List Entry) → (Callback → S → S) → Option (List (ℕ × ℕ)) → S → Result S
  unfolding dispatch run_all
  loop_once entries call none s = ok s
  loop_once entries call (some evs) s = ok (run_all call (dispatch (events_of evs) (entries s)) s)

-- The time limit of kevent for a limit in milliseconds that is not negative.
pub record Timespec : Type 0 where
  pub tv_sec : ℕ
  pub tv_nsec : ℕ

abbrev pub timespec : ℕ → Timespec
timespec timeout = record { tv_sec = timeout / 1000; tv_nsec = (timeout % 1000) * 1000 * 1000 }
