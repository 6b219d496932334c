-- ===== src/Ipc/Opening.antt =====
-- The constructors of shared_memory and semaphore in src/lib/ipc.cc, which open an object or create
-- it, and the moves of src/include/cppev/ipc.h. What the other processes do before the second call and
-- before the third is an argument.
use cppev.Prelude.{
  ℕ, zero, suc, ◌≡◌, refl, Bool, true, false, List, [], ◌∷◌, Option, none, some, replicate,
  if◌then◌else◌,
}
use cppev.Nio.{Outcome, returned, threw, ◌>>=◌}

-- What shm_open and sem_open answer: a descriptor, ENOENT, EEXIST, or another error.
pub data Answer : Type 0 where
  opened absent exists failed : Answer

-- The objects under one name, in the kernel that all processes share. An opening without O_CREAT needs
-- the object, one with O_CREAT and O_EXCL creates it just if it is absent, and ftruncate gives an empty
-- object so many zero bytes; `memset` writes them through the mapping.
pub record Names : Type 1 where
  pub Dir : Type 0
  pub content : Dir → Option (List ℕ)
  pub open_it : Dir → Answer
  pub create_it : Dir → Answer × Dir
  pub truncate : ℕ → Dir → Option Dir
  pub map_it : ℕ → Dir → Bool
  pub memset : ℕ → Dir → Dir
  pub open_present : (d : Dir) (bytes : List ℕ) → content d ≡ some bytes → open_it d ≡ opened
  pub open_absent : (d : Dir) → content d ≡ none → open_it d ≡ absent
  pub create_absent :
      (d : Dir)
      → content d ≡ none
      → (d' : Dir) × (create_it d ≡ (opened, d')) × (content d' ≡ some [])
  pub create_present :
      (d : Dir) (bytes : List ℕ) → content d ≡ some bytes → create_it d ≡ (exists, d)
  pub memset_zero :
      (d d' : Dir) (size : ℕ)
      → content d ≡ some []
      → truncate size d ≡ some d'
      → content (memset size d') ≡ some (replicate size 0)

module _ (names : Names) where
  open names use {
    Dir, content, open_it, create_it, truncate, map_it, memset, open_present, open_absent,
    create_absent, create_present, memset_zero,
  }

  -- The third call, after EEXIST.
  abbrev after_exists : Dir → Answer → Outcome (Bool × Dir)
  after_exists d opened = returned (false, d)
  after_exists d _ = threw

  abbrev after_create : (Dir → Dir) → Answer × Dir → Outcome (Bool × Dir)
  after_create o₂ (opened, d) = returned (true, d)
  after_create o₂ (exists, d) = after_exists (o₂ d) (open_it (o₂ d))
  after_create o₂ (_, d) = threw

  abbrev after_open : (Dir → Dir) → (Dir → Dir) → Dir → Answer → Outcome (Bool × Dir)
  after_open o₁ o₂ d opened = returned (false, d)
  after_open o₁ o₂ d absent = after_create o₂ (create_it (o₁ d))
  after_open o₁ o₂ d _ = threw

  -- semaphore(name): creator_, and the objects then. shared_memory(name, size) begins with the same.
  unfoldable pub open_or_create : (Dir → Dir) → (Dir → Dir) → Dir → Outcome (Bool × Dir)
  open_or_create o₁ o₂ d = after_open o₁ o₂ d (open_it d)

  abbrev map_memory : ℕ → Bool → Dir → Outcome (Bool × Dir)
  map_memory size creator d =
      if map_it size d then returned (creator, if creator then memset size d else d) else threw

  abbrev truncated : ℕ → Option Dir → Outcome (Bool × Dir)
  truncated size none = threw
  truncated size (some d) = map_memory size true d

  abbrev sized : ℕ → Bool × Dir → Outcome (Bool × Dir)
  sized size (true, d) = truncated size (truncate size d)
  sized size (false, d) = map_memory size false d

  -- shared_memory(name, size)
  unfoldable pub shared_memory : ℕ → (Dir → Dir) → (Dir → Dir) → Dir → Outcome (Bool × Dir)
  unfolding open_or_create
  shared_memory size o₁ o₂ d = do made ← open_or_create o₁ o₂ d; sized size made

  -- If no object has the name at the first call nor at the second, and the kernel grants the size and
  -- the mapping, the process is the creator, and the memory is zero.
  shared_memory_created :
      (size : ℕ) (o₁ o₂ : Dir → Dir) (d : Dir)
      → content d ≡ none
      → content (o₁ d) ≡ none
      → ((e : Dir) → (e' : Dir) × (truncate size e ≡ some e') × (map_it size e' ≡ true))
      → (d' : Dir) × (shared_memory size o₁ o₂ d ≡ returned (true, d'))
        × (content d' ≡ some (replicate size 0))
  unfolding shared_memory
  shared_memory_created size o₁ o₂ d e f granted =
      let (made, h, empty) = create_absent (o₁ d) f in
      let (d', sizes, maps) = granted made in
      (memset size d', rw (open_absent d e, h, sizes, maps), memset_zero made d' size empty sizes)

  -- If another process creates the object between the first call and the second, and it still exists
  -- at the third, this process opens it, is not the creator, and changes nothing.
  shared_memory_raced :
      (size : ℕ) (o₁ o₂ : Dir → Dir) (d : Dir) (bytes later : List ℕ)
      → content d ≡ none
      → content (o₁ d) ≡ some bytes
      → content (o₂ (o₁ d)) ≡ some later
      → map_it size (o₂ (o₁ d)) ≡ true
      → shared_memory size o₁ o₂ d ≡ returned (false, o₂ (o₁ d))
  unfolding shared_memory
  shared_memory_raced size o₁ o₂ d bytes later e f g maps =
      rw (open_absent d e, create_present (o₁ d) bytes f, open_present (o₂ (o₁ d)) later g, maps)

-- The members of shared_memory and of semaphore; `ptr` is ptr_ or sem_, none for the null pointer or
-- SEM_FAILED.
pub record Handle : Type 0 where
  pub name : List ℕ
  pub size : ℕ
  pub ptr : Option ℕ
  pub creator : Bool

-- The private move of both classes: the new state of both objects.
unfoldable pub move_handle : Handle → Handle → Handle × Handle
move_handle self other = (other, record { name = []; size = 0; ptr = none; creator = false })

-- The destructor of shared_memory: the address and the size that it unmaps.
unfoldable pub destroy : Handle → Option (ℕ × ℕ)
destroy h = elim (h.size) [ zero ↦ none | suc n ↦ at_address (suc n) h.ptr ]
  where
    at_address : ℕ → Option ℕ → Option (ℕ × ℕ)
    at_address n none = none
    at_address n (some p) = some (p, n)

-- unlink: the name that is passed to the kernel, if it is not empty
unfoldable pub unlink : Handle → Option (List ℕ)
unlink h = elim (h.name) [ [] ↦ none | c ∷ cs ↦ some (c ∷ cs) ]

-- After a move the target unmaps and unlinks just what the source would have, and the source does
-- neither.
pub destroy-move_handle :
    (self other : Handle)
    → (destroy (move_handle self other).0 ≡ destroy other)
      × (unlink (move_handle self other).0 ≡ unlink other)
      × (destroy (move_handle self other).1 ≡ none)
      × (unlink (move_handle self other).1 ≡ none)
unfolding destroy move_handle unlink
destroy-move_handle self other = (refl, refl, refl, refl)
