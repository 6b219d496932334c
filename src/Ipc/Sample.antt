-- ===== src/Ipc/Sample.antt =====
-- One name and one semaphore, as instances of what the constructors and the semaphore rely on.
use cppev.Prelude.{
  ℕ, zero, suc, ◌+◌, refl, true, List, [], Option, none, some, ltb, lt→ltb, if◌then◌else◌,
  replicate,
}
use cppev.Ipc.Opening.{Names, Answer, opened, absent, exists}
use cppev.Ipc.Counting.{Semaphores, sem_value_max}
use cppev.Ipc.Counting

abbrev open_object : Option (List ℕ) → Answer
open_object none = absent
open_object (some bytes) = opened

abbrev create_object : Option (List ℕ) → Answer × Option (List ℕ)
create_object none = (opened, some [])
create_object (some bytes) = (exists, some bytes)

abbrev one_name : Names
one_name = record {
  Dir = Option (List ℕ);
  content = λ d. d;
  open_it = open_object;
  create_it = create_object;
  truncate = λ size d. some d;
  map_it = λ size d. true;
  memset = λ size d. some (replicate size 0);
  open_present = λ d bytes e. rw e;
  open_absent = λ d e. rw e;
  create_absent = λ d e. (some [], rw e, refl);
  create_present = λ d bytes e. rw e;
  memset_zero = λ d d' size e f. refl;
}

abbrev take_one : ℕ → Counting.Answer ℕ
take_one zero = Counting.blocked
take_one (suc n) = Counting.done n

abbrev try_one : ℕ → Counting.Answer ℕ
try_one zero = Counting.again
try_one (suc n) = Counting.done n

abbrev pub counter : Semaphores
counter = record {
  Sem = ℕ;
  value = λ s. s;
  sem_wait = take_one;
  sem_trywait = try_one;
  sem_post = λ s. if ltb s sem_value_max then Counting.done (s + 1) else Counting.failed;
  waited = λ s n e. (n, rw e, refl);
  tried = λ s n e. (n, rw e, refl);
  tried_zero = λ s e. rw e;
  posted = λ s h. (s + 1, rw (lt→ltb s sem_value_max h), refl);
}
