-- ===== src/Buffer/Tests.antt =====
-- The theorems on the buffer at concrete buffers.
use cppev.Prelude.{ℕ, zero, suc, ◌≤◌, ◌≡◌, refl, [], ◌∷◌, some, arith, get_or}
use cppev.Buffer.{Buffer, contents}
use cppev.Buffer.Arrays.{slice}
use cppev.Buffer.Bounds.{IsValid}
use cppev.Buffer.Fifo.{push, pull, exec, spec, pushed, exec-spec}

-- Of four bytes, one is consumed and two are left.
abbrev loaded : Buffer
loaded = record { cap = 4; start = 1; offset = 3; store = 9 ∷ 7 ∷ 8 ∷ 0 ∷ [] }

loaded_tail : (k : ℕ) → 3 ≤ k → ◌≡◌ {A = ℕ} (get_or loaded.store k 0) 0
loaded_tail zero h = absurd (omega arith)
loaded_tail (suc zero) h = absurd (omega arith)
loaded_tail (suc (suc zero)) h = absurd (omega arith)
loaded_tail (suc (suc (suc zero))) h = refl
loaded_tail (suc (suc (suc (suc k)))) h = refl

loaded-IsValid : IsValid loaded
loaded-IsValid = record {
  ordered = omega arith;
  within = omega arith;
  sized = refl;
  positive = omega arith;
  int_cap = omega arith;
  zero_tail = loaded_tail;
}

exec-spec_example :
    (r : Buffer) × (exec loaded (push (1 ∷ 2 ∷ 3 ∷ []) ∷ pull 4 ∷ [])
      ≡ some (7 ∷ 8 ∷ 1 ∷ 2 ∷ [], r))
    × (contents r ≡ 3 ∷ [])
    × IsValid r
unfolding contents slice spec pushed
exec-spec_example =
    exec-spec loaded (7 ∷ 8 ∷ []) (push (1 ∷ 2 ∷ 3 ∷ []) ∷ pull 4 ∷ []) (7 ∷ 8 ∷ 1 ∷ 2 ∷ [])
      (3 ∷ []) loaded-IsValid refl (omega arith) refl
