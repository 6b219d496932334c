-- ===== src/Locks/Sample.antt =====
-- Locks that are always free, as an instance of what the guards rely on.
use cppev.Prelude.{
  ℕ, suc, ◌+◌, ◌-◌, ◌≡◌, refl, inl, inr, arith, ◌==◌, ==_iff, if◌then◌else◌, ap, sym, Bool-cases,
}
use cppev.Locks.Guards.{Code, success, RwLocks}

abbrev Depths : Type 0
Depths = ℕ → ℕ

abbrev more : Depths → ℕ → Depths
more s l k = s k + (if l == k then 1 else 0)

abbrev fewer : Depths → ℕ → Depths
fewer s l k = s k - (if l == k then 1 else 0)

abbrev reading : Code × Depths → ℕ → ℕ
reading (c, s) k = s k

fewer_back : (s : Depths) (l n k : ℕ) → s l ≡ suc n → fewer s l k + (if l == k then 1 else 0) ≡ s k
fewer_back s l n k h = elim (Bool-cases (l == k)) [
  | inl same ↦ let e = ap s ((==_iff _ _).0 same) in rw same (omega arith)
  | inr differs ↦ rw differs (omega arith)
]

pub more_read :
    (s s' : Depths) (l k : ℕ)
    → ◌≡◌ {A = Code × Depths} (success, more s l) (success, s')
    → s' k ≡ s k + (if l == k then 1 else 0)
more_read s s' l k e = sym (ap (λ p. reading p k) e)

abbrev free_locks : RwLocks
free_locks = record {
  State = Depths;
  depth = λ s k. s k;
  sys_rdlock = λ s l. (success, more s l);
  sys_wrlock = λ s l. (success, more s l);
  sys_tryrdlock = λ s l. (success, more s l);
  sys_trywrlock = λ s l. (success, more s l);
  sys_unlock = λ s l. (success, fewer s l);
  read_locked = λ s s' l k e. more_read s s' l k e;
  write_locked = λ s s' l k e. more_read s s' l k e;
  unlocked = λ s l n h. (fewer s l, refl, λ k. fewer_back s l n k h);
}
