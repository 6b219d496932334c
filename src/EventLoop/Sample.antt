-- ===== src/EventLoop/Sample.antt =====
-- An interest list, as an instance of what the event loop relies on.
use cppev.Prelude.{
  Option, ◌≡◌, ap, sym, ◌∙◌, inl, inr, Bool-cases, ℕ, Bool, true, false, none, some, ◌==◌, ==_refl,
  if◌then◌else◌,
}
use cppev.EventLoop.Polling.{Epoll}

abbrev Watches : Type 0
Watches = ℕ → Bool

abbrev watch : Watches → ℕ → Bool → Watches
watch w fd b k = if k == fd then b else w k

pub watch_other :
    (w w' : Watches) (fd k : ℕ)
    → (if w fd then none else some (watch w fd true)) ≡ some w'
    → (k == fd) ≡ false
    → w' k ≡ w k
watch_other w w' fd k e h = elim (Bool-cases (w fd)) [
  | inl there ↦ let f : ◌≡◌ {A = Option Watches} none (some w') = rw there at e in absurd cc
  | inr absent ↦
      let f : ◌≡◌ {A = Option Watches} (some (watch w fd true)) (some w') = rw absent at e in
      let g : watch w fd true ≡ w' = cc in
      let same : watch w fd true k ≡ w k = rw h in ap (λ (v : Watches). v k) (sym g) ∙ same
]

abbrev pub watches : Epoll
watches = record {
  Watched = Watches;
  has = λ w fd. w fd;
  add = λ w fd ev. if w fd then none else some (watch w fd true);
  del = λ w fd. if w fd then some (watch w fd false) else none;
  drop = λ w fd. watch w fd false;
  add_absent = λ w fd ev h. (watch w fd true, rw h, rw (==_refl fd));
  add_other = λ w w' fd k ev e h. watch_other w w' fd k e h;
  add_present = λ w fd ev h. rw h;
  del_present = λ w fd h. (watch w fd false, rw h, rw (==_refl fd));
  del_absent = λ w fd h. rw h;
  drop_gone = λ w fd. rw (==_refl fd);
}
