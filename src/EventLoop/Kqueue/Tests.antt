-- ===== src/EventLoop/Kqueue/Tests.antt =====
-- The theorems on the kqueue loop at a set of filters and a concrete loop.
use cppev.Prelude.{
  ℕ, ◌≡◌, refl, sym, ap, inl, inr, Bool, true, false, ◌&&◌, ◌||◌, List, [], ◌∷◌, Option, none, some,
  ◌==◌, if◌then◌else◌,
}
use cppev.EventLoop.{Event, readable, writable, Entry, Callback, ok, threw, loop_once}
use cppev.EventLoop.Kqueue
use cppev.EventLoop.Kqueue.{Kqueue, KqueueLoop, fd_map_to_sys, fd_register, fd_remove}
use cppev.EventLoop.Kqueue.Rounds.{filters_of, loop_once-loop_once}
use cppev.EventLoop.Kqueue.Filters.{both_bits, fd_register_both}

abbrev Filters : Type 0
Filters = ℕ → ℕ → Bool

abbrev with_filter : Filters → ℕ → ℕ → Filters
with_filter w fd filter k g = ((k == fd) && (g == filter)) || w k g

abbrev without_filter : Filters → ℕ → ℕ → Filters
without_filter w fd filter k g = if (k == fd) && (g == filter) then false else w k g

with_filter_only :
    (w w' : Filters) (fd filter k g : ℕ)
    → ◌≡◌ {A = Option Filters} (some (with_filter w fd filter)) (some w')
    → w' k g ≡ with_filter w fd filter k g
with_filter_only w w' fd filter k g e =
    let f : with_filter w fd filter ≡ w' = cc in ap (λ (v : Filters). v k g) (sym f)

abbrev filters : Kqueue
filters = record {
  Watched = Filters;
  evfilt_read = 4_294_967_295;
  evfilt_write = 4_294_967_294;
  read_value = refl;
  write_value = refl;
  has = λ w fd filter. w fd filter;
  ev_add = λ w fd filter. some (with_filter w fd filter);
  ev_delete = λ w fd filter. if w fd filter then some (without_filter w fd filter) else none;
  added = with_filter_only;
  delete_present = λ w fd filter h. (without_filter w fd filter, rw h, λ k g. refl);
  delete_absent = λ w fd filter h. rw h;
}

abbrev loop : KqueueLoop filters
loop = record { watched = λ k g. false; fds = []; fd_events = λ k. none; owned = [] }

fd_register_both_example :
    (m : KqueueLoop filters) × (fd_register filters loop 5 1 both_bits (some 9) true 20 ≡ ok m)
    × (m.watched 5 4_294_967_295 ≡ true)
    × (m.watched 5 4_294_967_294 ≡ false)
    × ((n : KqueueLoop filters) × (fd_remove filters m 5 true true ≡ threw n) × (n.fds ≡ m.fds))
fd_register_both_example =
    fd_register_both filters loop (with_filter loop.watched 5 4_294_967_295) 5 1 9 20 refl refl refl

abbrev entry : ℕ → ℕ → Event → Entry
entry fd handler event = record { fd = fd; prio = 20; iop = fd; handler = handler; event = event }

abbrev entries : List Entry
entries = entry 3 100 readable ∷ entry 3 200 writable ∷ entry 4 300 readable ∷ []

abbrev reported : List (ℕ × Event)
reported = (3, both_bits) ∷ (4, readable) ∷ []

-- A callback adds its handler to the list of those called.
abbrev note_call : Callback → List ℕ → List ℕ
note_call c hs = c.handler ∷ hs

loop_once-loop_once_example :
    Kqueue.loop_once filters (λ s. entries) note_call (some (filters_of filters reported)) []
    ≡ loop_once (λ s. entries) note_call (some reported) []
loop_once-loop_once_example =
    loop_once-loop_once filters (λ s. entries) note_call reported []
      (inl refl, (inr refl, (inl refl, tt)))
