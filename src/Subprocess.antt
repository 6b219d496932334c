-- ===== src/Subprocess.antt =====
-- Child processes: src/include/cppev/subprocess.h and src/lib/subprocess.cc.
-- pipe, fork and waitpid are the kernel's: each call takes their answers.
pub mod Child
pub mod Strings
pub mod Waiting
mod Tests
use cppev.Prelude.{
  ℕ, zero, suc, ◌+◌, ◌-◌, ◌≡◌, Bool, true, false, List, [], ◌∷◌, ◌++◌, Option, none, some, drop,
  length,
}
use cppev.Prelude.Int.{ℤ, pos, negsuc}
use cppev.Buffer.{Buffer, create, produce}
use cppev.Nio.{
  Outcome, returned, threw, undefined, waiting, defined, Stream, ReadAnswer, WriteAnswer, read_all,
  write_all,
}
use cppev.Utils.Strings.{split}

-- How a call ends; `exited` is the end of the calling process by _exit(-1).
pub data Result {ℓ} (A : Type ℓ) : Type ℓ where
  ran : Outcome A → Result A
  exited : Result A

infixl 5 ◌>>=◌
abbrev pub ◌>>=◌ {ℓ κ} : {A : Type ℓ} {B : Type κ} → Result A → (A → Result B) → Result B
ran (returned a) >>= f = f a
ran threw >>= f = ran threw
ran undefined >>= f = ran undefined
ran waiting >>= f = ran waiting
exited >>= f = exited

pub record Subprocess : Type 0 where
  pub stdin : Stream
  pub stdout : Stream
  pub stderr : Stream
  pub pid : ℕ
  pub returncode : ℕ

-- nstream(fd), whose fcntl calls succeed: both buffers are made by buffer().
abbrev nstream : ℕ → Result Stream
nstream fd = do
  b ← ran (defined (create 1))
  ran (
      returned (record {
        fd = pos fd;
        closed = false;
        rbuffer = b;
        wbuffer = b;
        evlp = none;
        reset = false;
        eof = false;
        eop = false;
        sent = [];
      }))

-- pipe(fds): fds[0] and fds[1]; none is an error
abbrev pipe : Option (ℕ × ℕ) → Result (ℕ × ℕ)
pipe none = ran threw
pipe (some fds) = ran (returned fds)

-- The streams of the parent, and the descriptors that are for the child.
pub record Pipes : Type 0 where
  pub stdin : Stream
  pub stdout : Stream
  pub stderr : Stream
  pub input : ℕ
  pub output : ℕ
  pub errors : ℕ

-- The part of subp_open(cmd, env) before fork: `input`, `output` and `errors` are zero, one and two.
unfoldable pub open_pipes : Option (ℕ × ℕ) → Option (ℕ × ℕ) → Option (ℕ × ℕ) → Result Pipes
open_pipes pipe_in pipe_out pipe_err = do
  in_fds ← pipe pipe_in
  stdin ← nstream in_fds.1
  out_fds ← pipe pipe_out
  stdout ← nstream out_fds.0
  err_fds ← pipe pipe_err
  stderr ← nstream err_fds.0
  ran (
      returned (record {
        stdin = stdin;
        stdout = stdout;
        stderr = stderr;
        input = in_fds.0;
        output = out_fds.1;
        errors = err_fds.1;
      }))

-- fork() in the calling process.
pub data ForkAnswer : Type 0 where
  parent : ℕ → ForkAnswer
  failed : ForkAnswer

-- subp_open(cmd, env) in the calling process. returncode_ has no value before poll; it is 0 here.
unfoldable pub subp_open :
    Option (ℕ × ℕ) → Option (ℕ × ℕ) → Option (ℕ × ℕ) → ForkAnswer → Result Subprocess
unfolding open_pipes
subp_open pipe_in pipe_out pipe_err fork = do
  pipes ← open_pipes pipe_in pipe_out pipe_err
  elim fork [
    | parent pid ↦ ran (
        returned (record {
          stdin = pipes.stdin;
          stdout = pipes.stdout;
          stderr = pipes.stderr;
          pid = pid;
          returncode = 0;
        }))
    | failed ↦ exited
  ]

-- The last element, as with back().
abbrev back : List (List ℕ) → Option (List ℕ)
back [] = none
back (x ∷ []) = some x
back (x ∷ y ∷ xs) = back (y ∷ xs)

-- What the child passes to execvp: the file, and argv without its null pointer. The separators are a
-- space and a slash; none is an exception of split.
unfoldable pub arguments : List ℕ → Option (List ℕ × List (List ℕ))
unfolding split
arguments cmd = elim (split cmd (32 ∷ [])) [
  | none ↦ none
  | some [] ↦ none
  | some (path ∷ rest) ↦ elim (split path (47 ∷ [])) [
    | none ↦ none
    | some parts ↦ elim (back parts) [ none ↦ none | some name ↦ some (path, name ∷ rest) ]
  ]
]

-- waitpid(pid_, &returncode_, WNOHANG): 0, the process with its status, or -1
pub data WaitAnswer : Type 0 where
  running : WaitAnswer
  ended : ℕ → WaitAnswer
  failed : WaitAnswer

abbrev pub poll : WaitAnswer → Subprocess → Result (Bool × Subprocess)
poll running s = ran (returned (false, s))
poll (ended status) s = ran (returned (true, record s { returncode = status }))
poll WaitAnswer.failed s = exited

-- read_all on a stream, with a round of fuel for each answer and one more
abbrev pub drain : ℕ → List ReadAnswer → Stream → Outcome Stream
drain step answers s = elim (read_all (length answers + 1) answers step 0 s) [
  | returned (n, t, rest) ↦ returned t
  | threw ↦ threw
  | undefined ↦ undefined
  | waiting ↦ waiting
]

-- if (input != nullptr && len != 0) …: no input is the empty one
abbrev send_input : ℕ → List ℕ → List WriteAnswer → Stream → Outcome Stream
send_input step [] answers s = returned s
send_input step (c ∷ input) answers s = elim (produce s.wbuffer (c ∷ input)) [
  | none ↦ undefined
  | some b ↦ elim (write_all (length answers + 1) answers step 0 (record s { wbuffer = b })) [
    | returned (n, t, rest) ↦ returned t
    | threw ↦ threw
    | undefined ↦ undefined
    | waiting ↦ waiting
  ]
]

-- communicate(input, len), where `step` is sysconfig::buffer_io_step
unfoldable pub communicate :
    ℕ
    → List ReadAnswer
    → List ReadAnswer
    → List ℕ
    → List WriteAnswer
    → Subprocess
    → Result Subprocess
communicate step out err input sent s = do
  stdout ← ran (drain step out s.stdout)
  stderr ← ran (drain step err s.stderr)
  stdin ← ran (send_input step input sent s.stdin)
  ran (returned (record s { stdin = stdin; stdout = stdout; stderr = stderr }))

-- What the kernel answers to one round of wait(interval).
pub record Round : Type 0 where
  pub status : WaitAnswer
  pub out : List ReadAnswer
  pub err : List ReadAnswer

-- while (!poll()) { communicate(); sleep } communicate();
unfoldable pub wait : ℕ → List Round → Subprocess → Result Subprocess
unfolding communicate
wait step [] s = ran waiting
wait step (r ∷ rounds) s = do
  polled ← poll r.status s
  t ← communicate step r.out r.err [] [] polled.1
  elim polled.0 [ true ↦ ran (returned t) | false ↦ wait step rounds t ]

-- A std::string from a char pointer: the bytes before the first zero byte; none is a read past the end.
abbrev pub c_string : List ℕ → Option (List ℕ)
c_string [] = none
c_string (zero ∷ bytes) = some []
c_string (suc c ∷ bytes) = elim (c_string bytes) [ none ↦ none | some rest ↦ some (suc c ∷ rest) ]

-- stdout() and stderr(): rawbuf() of the read buffer, as a string
abbrev pub text_of : Stream → Option (List ℕ)
text_of s = c_string (drop s.rbuffer.start s.rbuffer.store)

-- exec_cmd(cmd, env), behind the constructor
unfoldable pub exec_cmd : ℕ → List Round → Subprocess → Result (ℕ × List ℕ × List ℕ)
unfolding wait
exec_cmd step rounds s = do
  t ← wait step rounds s
  out ← ran (defined (text_of t.stdout))
  err ← ran (defined (text_of t.stderr))
  ran (returned (t.returncode, out, err))
