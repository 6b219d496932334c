-- ===== src/Reactor/Attempts/Handling.antt =====
-- What has become of the requests when connector::on_pipe_readable of src/lib/tcp.cc ends.
use cppev.Prelude.{
  ℕ, zero, suc, ◌+◌, ◌≤◌, ◌<◌, ◌≡◌, refl, sym, ap, ap₂, subst, ◌∙◌, Bool, true, false, ◌||◌, List,
  [], ◌∷◌, some, arith, ◌==◌, if◌then◌else◌, length, set, get_or,
}
use cppev.Reactor.Balance.{int32_max, minloads_get_evlp, minloads_get_evlp-least}
use cppev.Reactor.Connect.{Host, Counts, count_of, bump, count_of-bump}
use cppev.Reactor.Attempts.{
  Answer, connected, refused, no_socket, bad_address, unwatched, Tasks, Run, done, thrown, stuck,
  ◌>>=◌, load_one, register, attempt, attempts, on_pipe_readable,
}

abbrev pub assigned_to : Host → List (Host × ℕ) → ℕ
assigned_to j [] = 0
assigned_to j ((h, k) ∷ xs) = (if h == j then 1 else 0) + assigned_to j xs

-- The attempts for a host that were registered, and those that failed.
abbrev pub handled : Host → Tasks → ℕ
handled j s = assigned_to j s.assigned + count_of j s.failures

-- How often the tasks name a host.
abbrev pub wanted : Host → Counts → ℕ
wanted j [] = 0
wanted j ((h, n) ∷ hosts) = (if h == j then n else 0) + wanted j hosts

-- There is an answer for each of n attempts, and the first worker stays below INT32_MAX with them.
abbrev pub first_load : List ℕ → ℕ
first_load [] = int32_max
first_load (l ∷ ls) = l

pub record Ready (n : ℕ) (s : Tasks) : Type 0 where
  pub answered : n ≤ length s.answers
  pub room : first_load s.loads + n < int32_max

first_load-set :
    (ls : List ℕ) (k : ℕ) → first_load (set ls k (get_or ls k 0 + 1)) ≤ first_load ls + 1
first_load-set [] k = omega arith
first_load-set (l ∷ ls) zero = omega arith
first_load-set (l ∷ ls) (suc k) = omega arith

chosen : (ls : List ℕ) → first_load ls < int32_max → (k : ℕ) × (minloads_get_evlp ls ≡ some k)
chosen [] h = absurd (omega arith)
chosen (l ∷ ls) h = let (k, m, e, at, least) = minloads_get_evlp-least l ls h in (k, e)

abbrev pub total : Counts → ℕ
total [] = 0
total ((h, n) ∷ hosts) = n + total hosts

-- The attempts that were registered or counted as failed, of all hosts.
abbrev pub settled : Tasks → ℕ
settled s = length s.assigned + total s.failures

total-bump : (h : Host) (n : ℕ) (cs : Counts) → total (bump h n cs) ≡ total cs + n
unfolding bump
total-bump h n [] = omega arith
total-bump h n ((k, m) ∷ cs) = ground (arith, total-bump h n cs)

abbrev pub throws : Answer → Bool
throws connected = false
throws refused = false
throws no_socket = true
throws bad_address = true
throws unwatched = true

-- Whether one of the first n answers throws.
abbrev pub any_throws : ℕ → List Answer → Bool
any_throws zero answers = false
any_throws (suc n) [] = false
any_throws (suc n) (a ∷ answers) = throws a || any_throws n answers

-- n attempts, `wanted` of which are for each host, went well, and m are still to come.
record Went (wanted : Host → ℕ) (n m : ℕ) (s t : Tasks) : Type 0 where
  ready : Ready m t
  ahead : (k : ℕ) → any_throws (n + k) s.answers ≡ any_throws k t.answers
  all : (j : Host) → handled j t ≡ handled j s + wanted j
  count : settled t ≡ settled s + n

-- One of n attempts thrown.
record Broke (wanted : Host → ℕ) (n : ℕ) (s t : Tasks) : Type 0 where
  found : (k : ℕ) → any_throws (n + k) s.answers ≡ true
  most : (j : Host) → handled j t ≤ handled j s + wanted j
  fewer : settled t < settled s + n

-- Both ways in which a part of the handler can end.
abbrev Ends : (Host → ℕ) → ℕ → ℕ → Tasks → Run → Type 0
Ends wanted n m s (done t) = Went wanted n m s t
Ends wanted n m s (thrown t) = Broke wanted n s t
Ends wanted n m s stuck = ⊥

Went-Went :
    (f g : Host → ℕ) (n k m : ℕ) (s t u : Tasks)
    → Went f n (k + m) s t
    → Went g k m t u
    → Went (λ j. f j + g j) (n + k) m s u
Went-Went f g n k m s t u a b = record {
  ready = b.ready;
  ahead = λ i.
      let e : n + k + i ≡ n + (k + i) = omega arith in
      ap (λ x. any_throws x s.answers) e ∙ a.ahead (k + i) ∙ b.ahead i;
  all = λ j. let p = a.all j in let q = b.all j in omega arith;
  count = let p = a.count in let q = b.count in omega arith;
}

Went-Broke :
    (f g : Host → ℕ) (n k m : ℕ) (s t u : Tasks)
    → Went f n m s t
    → Broke g k t u
    → Broke (λ j. f j + g j) (n + k) s u
Went-Broke f g n k m s t u a b = record {
  found = λ i.
      let e : n + k + i ≡ n + (k + i) = omega arith in
      ap (λ x. any_throws x s.answers) e ∙ a.ahead (k + i) ∙ b.found i;
  most = λ j. let p = a.all j in let q = b.most j in omega arith;
  fewer = let p = a.count in let q = b.fewer in omega arith;
}

Broke-more :
    (f g : Host → ℕ) (n k : ℕ) (s t : Tasks) → Broke f n s t → Broke (λ j. f j + g j) (n + k) s t
Broke-more f g n k s t b = record {
  found = λ i.
      let e : n + k + i ≡ n + (k + i) = omega arith in
      ap (λ x. any_throws x s.answers) e ∙ b.found (k + i);
  most = λ j. let q = b.most j in omega arith;
  fewer = let q = b.fewer in omega arith;
}

Ends-then :
    (f g : Host → ℕ) (n k m : ℕ) (s : Tasks) (o : Run) (next : Tasks → Run)
    → Ends f n (k + m) s o
    → ((t : Tasks) → Ready (k + m) t → Ends g k m t (next t))
    → Ends (λ j. f j + g j) (n + k) m s (o >>= next)
Ends-then f g n k m s (done t) next a b = after (next t) (b t a.ready)
  where
    after : (o : Run) → Ends g k m t o → Ends (λ j. f j + g j) (n + k) m s o
    after (done u) c = Went-Went f g n k m s t u a c
    after (thrown u) c = Went-Broke f g n k (k + m) s t u a c
    after stuck c = absurd c
Ends-then f g n k m s (thrown t) next a b = Broke-more f g n k s t a
Ends-then f g n k m s stuck next a b = absurd a

abbrev once : Host → Host → ℕ
once h j = if h == j then 1 else 0

first_answer :
    (a : Answer) (rest answers : List Answer) (k : ℕ)
    → answers ≡ a ∷ rest
    → any_throws (1 + k) answers ≡ (throws a || any_throws k rest)
first_answer a rest answers k e = let more : 1 + k ≡ suc k = omega arith in ap₂ any_throws more e

-- A connection that is refused, and one that is registered with worker k.
counted_failure :
    (h : Host) (m : ℕ) (answers : List Answer) (s : Tasks)
    → s.answers ≡ refused ∷ answers
    → Ready (suc m) s
    → Went (once h) 1 m s (record s { failures = bump h 1 s.failures; answers = answers })
counted_failure h m answers s e r =
    let l = ap length e in
    let a = r.answered in
    let room = r.room in
    record {
      ready = record { answered = omega arith; room = omega arith };
      ahead = λ k. first_answer refused answers s.answers k e;
      all = λ j. omega (arith, count_of-bump h j 1 s.failures);
      count = omega (arith, total-bump h 1 s.failures);
    }

register-Went :
    (h : Host) (m k : ℕ) (answers : List Answer) (s : Tasks)
    → s.answers ≡ connected ∷ answers
    → Ready (suc m) s
    → Went
        (once h)
        1
        m
        s
        (record s { loads = load_one k s.loads; assigned = (h, k) ∷ s.assigned; answers = answers })
register-Went h m k answers s e r =
    let l = ap length e in
    let a = r.answered in
    let room = r.room in
    record {
      ready = record { answered = omega arith; room = omega (arith, first_load-set s.loads k) };
      ahead = λ i. first_answer connected answers s.answers i e;
      all = λ j. omega arith;
      count = omega arith;
    }

broken :
    (h : Host) (a : Answer) (answers : List Answer) (s : Tasks) (loads : List ℕ)
    → s.answers ≡ a ∷ answers
    → throws a ≡ true
    → Broke (once h) 1 s (record s { loads = loads; answers = answers })
broken h a answers s loads e bad = record {
  found = λ k. first_answer a answers s.answers k e ∙ ap (λ b. b || any_throws k answers) bad;
  most = λ j. omega arith;
  fewer = omega arith;
}

attempt-Ends :
    (h : Host) (m : ℕ) (answers : List Answer) (s : Tasks)
    → s.answers ≡ answers
    → Ready (suc m) s
    → Ends (once h) 1 m s (attempt h answers s)
unfolding attempt register
attempt-Ends h m [] s e r = let l = ap length e in let a = r.answered in absurd (omega arith)
attempt-Ends h m (connected ∷ answers) s e r =
    let room = r.room in
    let (k, found) = chosen s.loads (omega arith) in rw found (register-Went h m k answers s e r)
attempt-Ends h m (refused ∷ answers) s e r = counted_failure h m answers s e r
attempt-Ends h m (no_socket ∷ answers) s e r = broken h no_socket answers s s.loads e refl
attempt-Ends h m (bad_address ∷ answers) s e r = broken h bad_address answers s s.loads e refl
attempt-Ends h m (unwatched ∷ answers) s e r =
    let room = r.room in
    let (k, found) = chosen s.loads (omega arith) in
    rw found (broken h unwatched answers s (load_one k s.loads) e refl)

-- The same, with the wanted attempts written otherwise.
Ends-same :
    (f g : Host → ℕ) (n m : ℕ) (s : Tasks) (o : Run)
    → ((j : Host) → f j ≡ g j)
    → Ends f n m s o
    → Ends g n m s o
Ends-same f g n m s (done t) e a = record {
  ready = a.ready;
  ahead = a.ahead;
  all = λ j. a.all j ∙ ap (λ x. handled j s + x) (e j);
  count = a.count;
}
Ends-same f g n m s (thrown t) e a = record {
  found = a.found;
  most = λ j. let p = a.most j in let q = e j in omega arith;
  fewer = a.fewer;
}
Ends-same f g n m s stuck e a = absurd a

Ends-zero : (m : ℕ) (s : Tasks) → Ready m s → Ends (λ j. 0) 0 m s (done s)
Ends-zero m s r = record {
  ready = r;
  ahead = λ k. let z : 0 + k ≡ k = omega arith in ap (λ n. any_throws n s.answers) z;
  all = λ j. omega arith;
  count = omega arith;
}

attempts-Ends :
    (h : Host) (n m : ℕ) (s : Tasks)
    → Ready (n + m) s
    → Ends (λ j. if h == j then n else 0) n m s (attempts h n s)
unfolding attempts
attempts-Ends h zero m s r =
    let z : 0 + m ≡ m = omega arith in
    Ends-same (λ j. 0) _ 0 m s (done s) (λ j. ground arith) (Ends-zero m s (rw z at r))
attempts-Ends h (suc n) m s r =
    let e : suc n + m ≡ suc (n + m) = omega arith in
    let one : 1 + n ≡ suc n = omega arith in
    let both =
      Ends-then (once h) (λ j. if h == j then n else 0) 1 n m s (attempt h s.answers s)
        (attempts h n) (attempt-Ends h (n + m) s.answers s refl (rw e at r))
        (λ t ready. attempts-Ends h n m t ready) in
    let wants = λ (j : Host). once h j + (if h == j then n else 0) in
    Ends-same wants _ (suc n) m s (attempts h (suc n) s) (λ j. ground arith)
      (subst (λ k. Ends wants k m s (attempts h (suc n) s)) one both)

on_pipe_readable-Ends :
    (hosts : Counts) (m : ℕ) (s : Tasks)
    → Ready (total hosts + m) s
    → Ends (λ j. wanted j hosts) (total hosts) m s (on_pipe_readable hosts s)
unfolding on_pipe_readable
on_pipe_readable-Ends [] m s r = let z : 0 + m ≡ m = omega arith in Ends-zero m s (rw z at r)
on_pipe_readable-Ends ((h, n) ∷ hosts) m s r =
    let e : n + total hosts + m ≡ n + (total hosts + m) = omega arith in
    Ends-then (λ j. if h == j then n else 0) (λ j. wanted j hosts) n (total hosts) m s
      (attempts h n s) (on_pipe_readable hosts) (attempts-Ends h n (total hosts + m) s (rw e at r))
      (λ t ready. on_pipe_readable-Ends hosts m t ready)

-- What has become of the requests when the handler ends.
abbrev pub Outcomes : Counts → Tasks → Run → Type 0
Outcomes hosts s (done t) =
    (any_throws (total hosts) s.answers ≡ false)
    × ((j : Host) → handled j t ≡ handled j s + wanted j hosts)
Outcomes hosts s (thrown t) =
    (any_throws (total hosts) s.answers ≡ true)
    × ((j : Host) → handled j t ≤ handled j s + wanted j hosts)
    × (settled t < settled s + total hosts)
Outcomes hosts s stuck = ⊥

Ends-Outcomes :
    (hosts : Counts) (s : Tasks) (o : Run)
    → Ends (λ j. wanted j hosts) (total hosts) 0 s o
    → Outcomes hosts s o
Ends-Outcomes hosts s (done t) a =
    let e : total hosts + 0 ≡ total hosts = omega arith in
    (ap (λ n. any_throws n s.answers) (sym e) ∙ a.ahead 0, a.all)
Ends-Outcomes hosts s (thrown t) a =
    let e : total hosts + 0 ≡ total hosts = omega arith in
    (ap (λ n. any_throws n s.answers) (sym e) ∙ a.found 0, a.most, a.fewer)
Ends-Outcomes hosts s stuck a = absurd a

-- If there is an answer for every attempt, and the first worker exists and stays below INT32_MAX
-- registrations, a wake-up of the connector ends. It returns just when none of the calls of the
-- attempts throws; then every requested connection of every host has either been registered with a
-- worker or been counted as a failure, and none twice. When one of them throws, so does the handler:
-- no host has more attempts registered or counted than were requested, and in all there are fewer.
pub on_pipe_readable-Outcomes :
    (hosts : Counts) (s : Tasks)
    → Ready (total hosts) s
    → Outcomes hosts s (on_pipe_readable hosts s)
on_pipe_readable-Outcomes hosts s r =
    let e : total hosts + 0 ≡ total hosts = omega arith in
    Ends-Outcomes hosts s (on_pipe_readable hosts s)
      (on_pipe_readable-Ends hosts 0 s (subst (λ n. Ready n s) (sym e) r))
