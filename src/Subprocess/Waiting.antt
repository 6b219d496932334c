-- ===== src/Subprocess/Waiting.antt =====
-- subp_open::wait and exec_cmd, with what the child writes until it ends.
use cppev.Prelude.{
  ℕ, suc, ◌+◌, ◌≤◌, ◌<◌, ◌≡◌, refl, ap, ◌∙◌, List, [], ◌∷◌, ◌++◌, append-nil, some, arith, length,
  length-append,
}
use cppev.Buffer.{contents}
use cppev.Buffer.Bounds.{IsValid}
use cppev.Nio.{returned, Stream, ReadAnswer}
use cppev.Nio.Reading.{Grown, Grown-trans}
use cppev.Nio.ReadingAll.{until_stop, Paced, read_all-Drained}
use cppev.Subprocess.{
  ran, Subprocess, WaitAnswer, running, ended, drain, communicate, Round, wait, text_of, exec_cmd,
}
use cppev.Subprocess.Strings.{before_zero, c_string-contents}

-- What counts behind a round, if the child goes on.
abbrev if_running {ℓ} : {A : Type ℓ} → WaitAnswer → A → (ℕ → A) → A → A
if_running running later now never = later
if_running (ended status) later now never = now status
if_running WaitAnswer.failed later now never = never

-- Each round reads without an error, and in the last one the child has ended.
abbrev pub Settled : ℕ → List Round → Type 0
Settled step [] = ⊥
Settled step (r ∷ rounds) =
    Paced step step r.out
    × Paced step step r.err
    × if_running r.status (Settled step rounds) (λ status. Unit {0}) ⊥

abbrev pub status_of : List Round → ℕ
status_of [] = 0
status_of (r ∷ rounds) = if_running r.status (status_of rounds) (λ status. status) 0

-- All bytes of the child up to its last round.
abbrev pub all_out : List Round → List ℕ
all_out [] = []
all_out (r ∷ rounds) = until_stop r.out ++ if_running r.status (all_out rounds) (λ status. []) []

abbrev pub all_err : List Round → List ℕ
all_err [] = []
all_err (r ∷ rounds) = until_stop r.err ++ if_running r.status (all_err rounds) (λ status. []) []

-- The read buffer has some bytes more, and a free byte behind them.
pub record Filled (s t : Stream) (bytes : List ℕ) : Type 0 where
  pub grown : Grown s t bytes
  pub free : t.rbuffer.offset < t.rbuffer.cap

drain-Filled :
    (k : ℕ) (answers : List ReadAnswer) (s : Stream)
    → IsValid s.rbuffer
    → s.rbuffer.offset + length (until_stop answers) + suc k ≤ 1_073_741_824
    → Paced (suc k) (suc k) answers
    → (t : Stream) × (drain (suc k) answers s ≡ returned t) × Filled s t (until_stop answers)
drain-Filled k answers s v h p =
    let (t, rest, e, d) = read_all-Drained k answers s v h p in
    (t, rw (drain, e), record { grown = d.grown; free = d.free })

Filled-trans :
    (s t u : Stream) (xs ys : List ℕ) → Filled s t xs → Filled t u ys → Filled s u (xs ++ ys)
Filled-trans s t u xs ys f g = record {
  grown = Grown-trans s t u xs ys f.grown g.grown;
  free = g.free;
}

-- The two read buffers of a child have some bytes more.
pub record Heard (s t : Subprocess) (out err : List ℕ) : Type 0 where
  pub heard_out : Filled s.stdout t.stdout out
  pub heard_err : Filled s.stderr t.stderr err

-- Both read buffers are well formed, and have room for some bytes and a step more.
abbrev pub Roomy : ℕ → Subprocess → List ℕ → List ℕ → Type 0
Roomy step s out err =
    IsValid s.stdout.rbuffer
    × IsValid s.stderr.rbuffer
    × (s.stdout.rbuffer.offset + length out + step ≤ 1_073_741_824)
    × (s.stderr.rbuffer.offset + length err + step ≤ 1_073_741_824)

communicate-Heard :
    (k : ℕ) (out err : List ReadAnswer) (s : Subprocess)
    → Roomy (suc k) s (until_stop out) (until_stop err)
    → Paced (suc k) (suc k) out
    → Paced (suc k) (suc k) err
    → (t : Subprocess) × (communicate (suc k) out err [] [] s ≡ ran (returned t))
      × Heard s t (until_stop out) (until_stop err)
      × (t.returncode ≡ s.returncode)
unfolding communicate
communicate-Heard k out err s (vo, ve, ho, he) po pe =
    let (o, eo, fo) = drain-Filled k out s.stdout vo ho po in
    let (e, ee, fe) = drain-Filled k err s.stderr ve he pe in
    (
      record s { stdout = o; stderr = e },
      rw (eo, ee),
      record { heard_out = fo; heard_err = fe },
      refl,
    )

-- What wait(interval) makes of a child whose rounds are settled.
pub record Waited (step : ℕ) (rounds : List Round) (s t : Subprocess) : Type 0 where
  pub returns : wait step rounds s ≡ ran (returned t)
  pub status : t.returncode ≡ status_of rounds
  pub heard : Heard s t (all_out rounds) (all_err rounds)

-- The last round.
wait_ended :
    (step status : ℕ) (r : Round) (rounds : List Round) (s t : Subprocess)
    → r.status ≡ ended status
    → communicate step r.out r.err [] [] (record s { returncode = status }) ≡ ran (returned t)
    → Heard s t (until_stop r.out) (until_stop r.err)
    → t.returncode ≡ status
    → Waited step (r ∷ rounds) s t
unfolding wait
wait_ended step status r rounds s t e f h c = record {
  returns = rw (e, f);
  status = rw e c;
  heard = rw (e, append-nil (until_stop r.out), append-nil (until_stop r.err)) h;
}

-- A round before that.
wait_running :
    (step : ℕ) (r : Round) (rounds : List Round) (s t u : Subprocess)
    → r.status ≡ running
    → communicate step r.out r.err [] [] s ≡ ran (returned t)
    → Heard s t (until_stop r.out) (until_stop r.err)
    → Waited step rounds t u
    → Waited step (r ∷ rounds) s u
unfolding wait
wait_running step r rounds s t u e f h w = record {
  returns = rw (e, f) w.returns;
  status = rw e w.status;
  heard = rw e (record {
    heard_out = Filled-trans s.stdout t.stdout u.stdout _ _ h.heard_out w.heard.heard_out;
    heard_err = Filled-trans s.stderr t.stderr u.stderr _ _ h.heard_err w.heard.heard_err;
  });
}

Roomy-first :
    (step : ℕ) (s : Subprocess) (out err more_out more_err : List ℕ)
    → Roomy step s (out ++ more_out) (err ++ more_err)
    → Roomy step s out err
Roomy-first step s out err more_out more_err (vo, ve, ho, he) =
    let lo = length-append out more_out in
    let le = length-append err more_err in (vo, ve, omega arith, omega arith)

Roomy-rest :
    (step : ℕ) (s t : Subprocess) (out err more_out more_err : List ℕ)
    → Roomy step s (out ++ more_out) (err ++ more_err)
    → Heard s t out err
    → Roomy step t more_out more_err
Roomy-rest step s t out err more_out more_err (vo, ve, ho, he) h =
    let lo = length-append out more_out in
    let le = length-append err more_err in
    let go = h.heard_out.grown in
    let ge = h.heard_err.grown in
    let oo = go.offset in let oe = ge.offset in (go.valid, ge.valid, omega arith, omega arith)

wait_round :
    (k : ℕ) (w : WaitAnswer) (r : Round) (rounds : List Round) (s : Subprocess)
    → r.status ≡ w
    → Roomy (suc k) s (all_out (r ∷ rounds)) (all_err (r ∷ rounds))
    → Settled (suc k) (r ∷ rounds)
    → ((t : Subprocess)
        → Roomy (suc k) t (all_out rounds) (all_err rounds)
        → Settled (suc k) rounds
        → (u : Subprocess) × Waited (suc k) rounds t u)
    → (u : Subprocess) × Waited (suc k) (r ∷ rounds) s u
wait_round k running r rounds s e room (po, pe, rest) ih =
    let room' : Roomy (suc k) s (until_stop r.out ++ all_out rounds)
        (until_stop r.err ++ all_err rounds) =
      rw e at room in
    let (t, f, h, c) =
      communicate-Heard k r.out r.err s
        (Roomy-first (suc k) s (until_stop r.out) (until_stop r.err) _ _ room') po pe in
    let (u, w) =
      ih t (Roomy-rest (suc k) s t (until_stop r.out) (until_stop r.err) _ _ room' h)
        (rw e at rest) in
    (u, wait_running (suc k) r rounds s t u e f h w)
wait_round k (ended status) r rounds s e room (po, pe, rest) ih =
    let s' : Subprocess = record s { returncode = status } in
    let (t, f, h, c) =
      communicate-Heard k r.out r.err s'
        (Roomy-first (suc k) s (until_stop r.out) (until_stop r.err) _ _ room) po pe in
    (
      t,
      wait_ended (suc k) status r rounds s t e f
          (record { heard_out = h.heard_out; heard_err = h.heard_err }) c,
    )
wait_round k WaitAnswer.failed r rounds s e room (po, pe, rest) ih = absurd (rw e at rest)

wait-Waited :
    (k : ℕ) (rounds : List Round) (s : Subprocess)
    → Roomy (suc k) s (all_out rounds) (all_err rounds)
    → Settled (suc k) rounds
    → (t : Subprocess) × Waited (suc k) rounds s t
wait-Waited k [] s room settled = absurd settled
wait-Waited k (r ∷ rounds) s room settled =
    wait_round k r.status r rounds s refl room settled (λ t. wait-Waited k rounds t)

text_of-Filled :
    (s t : Stream) (bytes : List ℕ)
    → contents s.rbuffer ≡ []
    → Filled s t bytes
    → text_of t ≡ some (before_zero bytes)
text_of-Filled s t bytes e f =
    let same : contents t.rbuffer ≡ bytes = f.grown.appended ∙ ap (λ q. q ++ bytes) e in
    c_string-contents t.rbuffer f.grown.valid f.free ∙ ap (λ q. some (before_zero q)) same

-- exec_cmd on a child whose read buffers are empty at first, with room below 2 ^ 30 for all that it
-- writes and one step more: if each of its rounds reads without an error until the kernel has nothing
-- more, and the child ends, then exec_cmd returns the status that waitpid gave, and of each of the two
-- outputs the bytes before the first zero byte of all that was read.
pub exec_cmd-all :
    (k : ℕ) (rounds : List Round) (s : Subprocess)
    → contents s.stdout.rbuffer ≡ []
    → contents s.stderr.rbuffer ≡ []
    → Roomy (suc k) s (all_out rounds) (all_err rounds)
    → Settled (suc k) rounds
    → exec_cmd (suc k) rounds s
      ≡ ran
          (returned (status_of rounds, before_zero (all_out rounds), before_zero (all_err rounds)))
unfolding exec_cmd
exec_cmd-all k rounds s eo ee room settled =
    let (t, w) = wait-Waited k rounds s room settled in
    let fo = text_of-Filled s.stdout t.stdout (all_out rounds) eo w.heard.heard_out in
    let fe = text_of-Filled s.stderr t.stderr (all_err rounds) ee w.heard.heard_err in
    rw (w.returns, fo, fe, w.status)
