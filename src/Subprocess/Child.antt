-- ===== src/Subprocess/Child.antt =====
-- What the child of subp_open does between fork and execvp, of src/lib/subprocess.cc. dup2(2) and
-- execvp(3) are the kernel's.
use cppev.Prelude.{ℕ, ◌<◌, ◌≡◌, ◌≢◌, refl, ◌∙◌, Bool, true, false, List, Option, none, some, arith}
use cppev.Prelude.Int.{pos}
use cppev.Buffer.{create}
use cppev.Subprocess.{
  Result, ran, ◌>>=◌, Subprocess, Pipes, open_pipes, parent, subp_open, arguments,
}
use cppev.Nio.{returned}

-- dup2(2) on a table of open files, by descriptor: `put` is the table after dup2(old, new), also when
-- it fails. An open file is then also at the new descriptor, and the others stay as they are.
pub record Dup2 : Type 1 where
  pub Table : Type 0
  pub file : Table → ℕ → Option ℕ
  pub put : ℕ → ℕ → Table → Table
  pub at_new : (old new f : ℕ) (t : Table) → file t old ≡ some f → file (put old new t) new ≡ some f
  pub at_other : (old new n : ℕ) (t : Table) → n ≢ new → file (put old new t) n ≡ file t n

module _ (os : Dup2) where
  -- How the child ends its copy of the constructor: with a new program, by _exit, or by an exception
  -- of split.
  pub data Child : Type 0 where
    runs : (path : List ℕ) (argv environ : List (List ℕ)) → os.Table → Child
    exits_with : ℕ → Child
    throws : Child

  -- dup2(zero, STDIN_FILENO), dup2(one, STDOUT_FILENO) and dup2(two, STDERR_FILENO)
  unfoldable pub redirect : ℕ → ℕ → ℕ → os.Table → os.Table
  redirect first second third t = os.put third 2 (os.put second 1 (os.put first 0 t))

  -- The branch pid == 0. `found` says whether execvp succeeds.
  unfoldable pub in_child : Pipes → List ℕ → List (List ℕ) → Bool → os.Table → Child
  unfolding redirect
  in_child pipes cmd env found t = elim (arguments cmd) [
    | none ↦ throws
    | some (path, argv) ↦ elim found [
      | true ↦ runs path argv env (redirect pipes.input pipes.output pipes.errors t)
      | false ↦ exits_with 127
    ]
  ]

  -- subp_open(cmd, env) in the child, where fork returns 0
  unfoldable pub subp_open_child :
      Option (ℕ × ℕ)
      → Option (ℕ × ℕ)
      → Option (ℕ × ℕ)
      → List ℕ
      → List (List ℕ)
      → Bool
      → os.Table
      → Result Child
  unfolding in_child open_pipes
  subp_open_child pipe_in pipe_out pipe_err cmd env found t = do
    pipes ← open_pipes pipe_in pipe_out pipe_err
    ran (returned (in_child pipes cmd env found t))

  -- redirect puts the three files at the descriptors 0, 1 and 2. The first may be any descriptor.
  pub file-redirect :
      (first second third f g h : ℕ) (t : os.Table)
      → os.file t first ≡ some f
      → os.file t second ≡ some g
      → os.file t third ≡ some h
      → 2 < second
      → 2 < third
      → (os.file (redirect first second third t) 0 ≡ some f)
        × (os.file (redirect first second third t) 1 ≡ some g)
        × (os.file (redirect first second third t) 2 ≡ some h)
  unfolding redirect
  file-redirect first second third f g h t p q r far far' =
      let t1 = os.put first 0 t in
      let t2 = os.put second 1 t1 in
      let q1 = os.at_other first 0 second t (omega arith) ∙ q in
      let r1 = os.at_other first 0 third t (omega arith) ∙ r in
      let r2 = os.at_other second 1 third t1 (omega arith) ∙ r1 in
      (
        os.at_other third 2 0 t2 (omega arith)
            ∙ os.at_other second 1 0 t1 (omega arith)
            ∙ os.at_new first 0 f t p,
        os.at_other third 2 1 t2 (omega arith) ∙ os.at_new second 1 g t1 q1,
        os.at_new third 2 h t2 r2,
      )

  -- subp_open over three pipes whose ends for the child are open and whose second and third such ends
  -- are above 2, for a command with the arguments argv, returns in the parent with streams on the
  -- other ends of the pipes. In the child it runs the program with argv and just the environment
  -- given, with the ends of the three pipes at the descriptors 0, 1 and 2, when execvp succeeds; when
  -- it does not, the child exits with 127.
  pub subp_open-child :
      (in_fds out_fds err_fds : ℕ × ℕ) (pid f g h : ℕ) (t : os.Table) (cmd path : List ℕ)
      (argv env : List (List ℕ))
      → os.file t in_fds.0 ≡ some f
      → os.file t out_fds.1 ≡ some g
      → os.file t err_fds.1 ≡ some h
      → 2 < out_fds.1
      → 2 < err_fds.1
      → arguments cmd ≡ some (path, argv)
      → (s : Subprocess) × (t' : os.Table) × (subp_open
            (some in_fds)
            (some out_fds)
            (some err_fds)
            (parent pid)
          ≡ ran (returned s))
        × (s.stdin.fd ≡ pos in_fds.1)
        × (s.stdout.fd ≡ pos out_fds.0)
        × (s.stderr.fd ≡ pos err_fds.0)
        × (subp_open_child (some in_fds) (some out_fds) (some err_fds) cmd env true t
            ≡ ran (returned (runs path argv env t')))
        × (os.file t' 0 ≡ some f)
        × (os.file t' 1 ≡ some g)
        × (os.file t' 2 ≡ some h)
        × (subp_open_child (some in_fds) (some out_fds) (some err_fds) cmd env false t
            ≡ ran (returned (exits_with 127)))
  unfolding subp_open create subp_open_child in_child
  subp_open-child in_fds out_fds err_fds pid f g h t cmd path argv env p q r far far' e =
      let (a, b, c) = file-redirect in_fds.0 out_fds.1 err_fds.1 f g h t p q r far far' in
      (_, _, refl, refl, refl, refl, rw (in_child, e), a, b, c, rw (in_child, e))
