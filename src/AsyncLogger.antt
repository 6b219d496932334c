-- ===== src/AsyncLogger.antt =====
-- The asynchronous logger: src/include/cppev/async_logger.h and src/lib/async_logger.cc.
-- A step is what one thread does without letting another see an intermediate state: a call of
-- operator<<, a locked section of run_impl, a line of the destructor. `waiting` is a step whose
-- thread is blocked. `undefined` is a buffer that outgrows its int.
pub mod Locking
pub mod Pending
pub mod Stepping
pub mod Lines
pub mod Stopping
mod Tests
use cppev.Prelude.{
  ℕ, zero, suc, ◌+◌, ◌-◌, Bool, true, false, not, ◌||◌, List, [], ◌∷◌, ◌++◌, ◌==◌, if◌then◌else◌,
}
use cppev.Prelude.Int.{ℤ, pos, negsuc}
use cppev.Nio.{Outcome, returned, waiting, undefined, ◌>>=◌, defined}
use cppev.Buffer.{Buffer, size, put_string, clear, contents}

-- Who holds lock_.
pub data Holder : Type 0 where
  nobody : Holder
  logging : ℕ → Holder
  writing_thread : Holder

-- curr_ is 0 or 1, here false or true, and `depth` is how often the holder has locked lock_.
pub record Logger : Type 0 where
  pub level : ℕ
  pub stop : Bool
  pub holder : Holder
  pub depth : ℕ
  pub curr : Bool
  pub recur_level : ℕ
  pub first : Buffer
  pub second : Buffer

-- buffers_[i]
abbrev pub buffer_at : Logger → Bool → Buffer
buffer_at l i = elim i [ false ↦ l.first | true ↦ l.second ]

abbrev pub with_buffer : Logger → Bool → Buffer → Logger
with_buffer l i b = elim i [ false ↦ record l { first = b } | true ↦ record l { second = b } ]

-- std::recursive_mutex: the holder can lock again
abbrev pub lock : ℕ → Logger → Outcome Logger
lock t l = elim l.holder [
  | nobody ↦ returned (record l { holder = logging t; depth = 1 })
  | logging u ↦ if u == t then returned (record l { depth = suc l.depth }) else waiting
  | writing_thread ↦ waiting
]

abbrev pub unlock : Logger → Logger
unlock l = elim l.depth [
  | zero ↦ l
  | suc zero ↦ record l { holder = nobody; depth = 0 }
  | suc (suc n) ↦ record l { depth = suc n }
]

-- "INFO] [" and "ERROR] [" in ASCII
abbrev level_name : ℕ → List ℕ
level_name l =
    if l == 1
    then 73 ∷ 78 ∷ 70 ∷ 79 ∷ 93 ∷ 32 ∷ 91 ∷ []
    else 69 ∷ 82 ∷ 82 ∷ 79 ∷ 82 ∷ 93 ∷ 32 ∷ 91 ∷ []

-- What write_header puts, on Linux: "- [", the level, the time, "] [LWP ", the thread and "] ".
-- `time` is the result of timestamp() and `thread` that of gettid(), printed.
unfoldable pub header : ℕ → List ℕ → List ℕ → List ℕ
header level time thread =
    (45 ∷ 32 ∷ 91 ∷ [])
    ++ level_name level
    ++ time
    ++ (93 ∷ 32 ∷ 91 ∷ 76 ∷ 87 ∷ 80 ∷ 32 ∷ [])
    ++ thread
    ++ (93 ∷ 32 ∷ [])

-- buffers_[curr_].put_string(str)
abbrev pub put : List ℕ → Logger → Outcome Logger
put str l = do b ← defined (put_string (buffer_at l l.curr) str); returned (with_buffer l l.curr b)

-- if (0 == recur_level_++) write_header(buffers_[curr_])
abbrev pub begin_line : List ℕ → List ℕ → Logger → Outcome Logger
begin_line time thread l = elim l.recur_level [
  | zero ↦ put (header l.level time thread) (record l { recur_level = 1 })
  | suc n ↦ returned (record l { recur_level = suc (suc n) })
]

-- operator<<(const char *str), called by thread t
unfoldable pub insert : ℕ → List ℕ → List ℕ → List ℕ → Logger → Outcome Logger
insert t time thread str l = do m ← lock t l; n ← begin_line time thread m; put str n

-- while (recur--) lock_.unlock();
pub unlock_all : ℕ → Logger → Logger
unlock_all zero l = l
unlock_all (suc recur) l = unlock_all recur (unlock l)

-- operator<<(const async_logger &), up to the notification
unfoldable pub end_line : ℕ → List ℕ → List ℕ → Logger → Outcome Logger
unfolding insert unlock_all
end_line t time thread l = do
  m ← insert t time thread (10 ∷ []) l
  returned (unlock_all m.recur_level (record m { recur_level = 0 }))

-- Where run_impl is: before its test of stop_, before it locks, in cond_.wait with its condition
-- found false but the lock not yet released, asleep there, awake and about to lock, in front of the
-- use of buffers_[prev], and at its end.
pub data Writer : Type 0 where
  testing locking falling_asleep asleep woken : Writer
  writing : Bool → Writer
  ended : Writer

-- Where the destructor is: not called, behind stop_ = true, and in join().
pub data Destructor : Type 0 where
  not_called stopping joining : Destructor

-- `logged` are the texts of the calls of operator<<, with their threads and whether the call ends a
-- line, and `passed` are the bytes that were passed to write(2), whose result the code ignores.
pub record Text : Type 0 where
  pub thread : ℕ
  pub bytes : List ℕ
  pub ends : Bool

pub record System : Type 0 where
  pub logger : Logger
  pub writer : Writer
  pub destructor : Destructor
  pub logged : List Text
  pub passed : List ℕ

-- 0 == size()
abbrev pub is_zero : ℤ → Bool
is_zero (pos zero) = true
is_zero (pos (suc n)) = false
is_zero (negsuc n) = false

-- cond_.notify_one(); only run_impl waits for it
abbrev pub notify : Writer → Writer
notify asleep = woken
notify w = w

-- The locked section of run_impl, once the lock is free: it swaps the buffers, or waits.
abbrev pub section : System → Outcome System
section s =
    let l = s.logger in
    elim l.holder [
      | nobody ↦ returned (
          if not (is_zero (size (buffer_at l l.curr))) || l.stop
          then record s { logger = record l { curr = not l.curr }; writer = writing l.curr }
          else record s { logger = record l { holder = writing_thread }; writer = falling_asleep })
      | _ ↦ waiting
    ]

-- if (buf.size()) { write(level_, buf.rawbuf(), buf.size()); buf.clear(); }
abbrev pub write_out : Bool → System → System
write_out prev s =
    let buf = buffer_at s.logger prev in
    if is_zero (size buf) then record s { writer = testing } else record s {
      writer = testing;
      passed = s.passed ++ contents buf;
      logger = with_buffer s.logger prev (clear buf);
    }

-- The step of run_impl from where it is.
abbrev pub run_impl : System → Outcome System
run_impl s = elim s.writer [
  | testing ↦ returned (record s { writer = if s.logger.stop then ended else locking })
  | locking ↦ section s
  | falling_asleep ↦
      returned (record s { logger = record (s.logger) { holder = nobody }; writer = asleep })
  | asleep ↦ waiting
  | woken ↦ section s
  | writing prev ↦ returned (write_out prev s)
  | ended ↦ waiting
]

-- The step of the destructor from where it is; join() returns when run_impl has ended.
abbrev pub destroy : System → Outcome System
destroy s = elim s.destructor [
  | not_called ↦
      returned (record s { logger = record (s.logger) { stop = true }; destructor = stopping })
  | stopping ↦ returned (record s { writer = notify s.writer; destructor = joining })
  | joining ↦ waiting
]

-- A step: thread t logs a text or ends a line, run_impl or the destructor goes on, or cond_.wait
-- wakes without a notification.
pub data Move : Type 0 where
  log_text : ℕ → List ℕ → List ℕ → List ℕ → Move
  log_end : ℕ → List ℕ → List ℕ → Move
  write_step destroy_step wake : Move

-- The bytes that a call puts, the header of a new line included.
abbrev pub line_start : Logger → List ℕ → List ℕ → List ℕ
line_start l time thread = elim l.recur_level [ zero ↦ header l.level time thread | suc n ↦ [] ]

abbrev pub line_bytes : Logger → List ℕ → List ℕ → List ℕ → List ℕ
line_bytes l time thread str = line_start l time thread ++ str

unfoldable pub step : Move → System → Outcome System
unfolding insert end_line
step (log_text t time thread str) s = do
  l ← insert t time thread str s.logger
  let text : Text = record {
    thread = t;
    bytes = line_bytes s.logger time thread str;
    ends = false;
  } in
      returned (record s { logger = l; logged = s.logged ++ text ∷ [] })
step (log_end t time thread) s = do
  l ← end_line t time thread s.logger
  let text : Text = record {
    thread = t;
    bytes = line_bytes s.logger time thread (10 ∷ []);
    ends = true;
  } in
      returned (record s { logger = l; writer = notify s.writer; logged = s.logged ++ text ∷ [] })
step write_step s = run_impl s
step destroy_step s = destroy s
step wake s = returned (record s { writer = notify s.writer })

-- A schedule; it ends at the first step whose thread is blocked.
unfoldable pub run : List Move → System → Outcome System
unfolding step
run [] s = returned s
run (m ∷ moves) s = do t ← step m s; run moves t

-- async_logger(level), with a level that is not negative, and its thread before the first step
abbrev pub started : ℕ → Buffer → System
started level fresh = record {
  logger = record {
    level = level;
    stop = false;
    holder = nobody;
    depth = 0;
    curr = false;
    recur_level = 0;
    first = fresh;
    second = fresh;
  };
  writer = testing;
  destructor = not_called;
  logged = [];
  passed = [];
}
