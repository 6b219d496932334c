-- ===== src/Ipc/Tests.antt =====
-- The theorems on shared memory and semaphores at one name and one semaphore.
use cppev.Prelude.{ℕ, ◌+◌, ◌≡◌, arith}
use cppev.Nio.{returned}
use cppev.Ipc.Counting.{acquire, release, acquire-release}
use cppev.Ipc.Sample.{counter}

acquire-release_example :
    (t u : ℕ) × (release counter 3 5 ≡ returned t)
    × (t ≡ 5 + 3)
    × (acquire counter 3 t ≡ returned u)
    × (u ≡ 5)
acquire-release_example = acquire-release counter 3 5 (omega arith)
