-- ===== src/Reactor/Attempts.antt =====
-- connector::on_pipe_readable of src/lib/tcp.cc: the tasks of one wake-up.
pub mod Handling
use cppev.Prelude.{
  ℕ, zero, suc, ◌+◌, ◌≤◌, ◌<◌, ◌≡◌, refl, sym, ap, ap₂, subst, ◌∙◌, Bool, true, false, ◌||◌, List,
  [], ◌∷◌, Option, none, some, arith, ◌==◌, if◌then◌else◌, length, set, get_or,
}
use cppev.Reactor.Balance.{int32_max, minloads_get_evlp, minloads_get_evlp-least}
use cppev.Reactor.Connect.{Host, Counts, count_of, bump, count_of-bump}

-- How the calls of one attempt end: get_nsocktcp and connect return, and connect says true, for a
-- connection that is made or in progress, or false; get_nsocktcp throws; connect throws, as for an ip
-- that is no address; or fd_register throws behind a connect that says true.
pub data Answer : Type 0 where
  connected refused no_socket bad_address unwatched : Answer

-- `loads` are the registrations of each worker, `assigned` the registered attempts, newest first,
-- each with the worker that got it.
pub record Tasks : Type 0 where
  pub loads : List ℕ
  pub assigned : List (Host × ℕ)
  pub failures : Counts
  pub answers : List Answer

-- The handler goes on or returns, or it has thrown; it is `stuck` on the null pointer of no worker,
-- or when the kernel has not answered.
pub data Run : Type 0 where
  done thrown : Tasks → Run
  stuck : Run

infixl 5 ◌>>=◌
abbrev pub ◌>>=◌ : Run → (Tasks → Run) → Run
done s >>= f = f s
thrown s >>= f = thrown s
stuck >>= f = stuck

abbrev load_one : ℕ → List ℕ → List ℕ
load_one k loads = set loads k (get_or loads k 0 + 1)

-- fd_register in the worker that has the least load. When it throws, the callback is in fds_ already.
abbrev register_at : Bool → Host → List Answer → Tasks → Option ℕ → Run
register_at watched h answers s none = stuck
register_at true h answers s (some k) =
    done
      (record s { loads = load_one k s.loads; assigned = (h, k) ∷ s.assigned; answers = answers })
register_at false h answers s (some k) =
    thrown (record s { loads = load_one k s.loads; answers = answers })

register : Bool → Host → List Answer → Tasks → Run
register watched h answers s = register_at watched h answers s (minloads_get_evlp s.loads)

attempt : Host → List Answer → Tasks → Run
unfolding register
attempt h [] s = stuck
attempt h (connected ∷ answers) s = register true h answers s
attempt h (refused ∷ answers) s =
    done (record s { failures = bump h 1 s.failures; answers = answers })
attempt h (no_socket ∷ answers) s = thrown (record s { answers = answers })
attempt h (bad_address ∷ answers) s = thrown (record s { answers = answers })
attempt h (unwatched ∷ answers) s = register false h answers s

-- for (int i = 0; i < iter->second; ++i)
attempts : Host → ℕ → Tasks → Run
unfolding attempt
attempts h zero s = done s
attempts h (suc n) s = attempt h s.answers s >>= attempts h n

-- The loop over the swapped-out hosts_, which are gone when it throws.
unfoldable pub on_pipe_readable : Counts → Tasks → Run
unfolding attempts
on_pipe_readable [] s = done s
on_pipe_readable ((h, n) ∷ hosts) s = attempts h n s >>= on_pipe_readable hosts
