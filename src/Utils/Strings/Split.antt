-- ===== src/Utils/Strings/Split.antt =====
-- Splitting and joining texts: `split` and `join` of src/lib/utils.cc.
use native.Mathlib.Nat.{mod-eq_of_lt}
use cppev.Prelude.{
  ℕ, zero, suc, ◌+◌, ◌-◌, ◌*◌, ◌%◌, ◌≤◌, ◌<◌, ◌≡◌, refl, sym, ap, ◌∙◌, inl, inr, true, false, List,
  [], ◌∷◌, ◌++◌, append-nil, append_assoc, none, some, arith, ltb, leb, ltb→lt, leb→le, le→leb,
  Bool-cases, Option-cases, length, get_or, take, drop, take-append-drop, drop-drop, drop-length,
  length-append,
}
use cppev.Utils.Strings.{
  Bytes, word, match_at, find_seps, pieces, cut_up, split, join_loop, total_size, reserved, join,
}

-- The join, without its accumulator.
glue : Bytes → List Bytes → Bytes
glue sep [] = []
glue sep (p ∷ []) = p
glue sep (p ∷ q ∷ ps) = p ++ (sep ++ glue sep (q ∷ ps))

join_loop-glue : (sep ret : Bytes) (ps : List Bytes) → join_loop sep ret ps ≡ ret ++ glue sep ps
unfolding join_loop glue
join_loop-glue sep ret [] = sym (append-nil ret)
join_loop-glue sep ret (p ∷ []) = refl
join_loop-glue sep ret (p ∷ q ∷ ps) =
    simp (join_loop-glue sep (ret ++ (p ++ sep)) (q ∷ ps), append_assoc)

pub drop_cons : (s : Bytes) (i : ℕ) → i < length s → drop i s ≡ get_or s i 0 ∷ drop (suc i) s
drop_cons [] i h = absurd (omega arith)
drop_cons (x ∷ s) zero h = refl
drop_cons (x ∷ s) (suc i) h = drop_cons s i (omega arith)

-- A match at i says that the text from i on begins with the separator.
pub match_at-drop :
    (str sep : Bytes) (i : ℕ)
    → i + length sep ≤ length str
    → match_at str i sep ≡ true
    → drop i str ≡ sep ++ drop (i + length sep) str
unfolding match_at
match_at-drop str [] i h m = let e : i + 0 ≡ i = omega arith in rw e
match_at-drop str (c ∷ sep) i h m =
    let e : i + suc (length sep) ≡ suc i + length sep = omega arith in
    rw (e, drop_cons str i (omega arith))
      (ground (arith, match_at-drop str sep (suc i) (omega arith)))

cut_front : (str : Bytes) (b i : ℕ) → b ≤ i → take (i - b) (drop b str) ++ drop i str ≡ drop b str
cut_front str b i h =
    let e : b + (i - b) ≡ i = omega arith in
    ap (λ s. take (i - b) (drop b str) ++ s)
      (sym (drop-drop (i - b) b str ∙ ap (λ k. drop k str) e))
    ∙ take-append-drop (i - b) (drop b str)

pub last_piece :
    (str : Bytes) (b : ℕ) → b ≤ length str → take (length str - b) (drop b str) ≡ drop b str
last_piece str b h =
    sym (append-nil _)
    ∙ ap (λ s. take (length str - b) (drop b str) ++ s) (sym (drop-length str))
    ∙ cut_front str b (length str) h

-- The first piece, when a separator follows it.
glue_first :
    (str sep : Bytes) (m prev b i n : ℕ) (rest : List ℕ)
    → (prev + m) % word ≡ b
    → glue sep (pieces str m prev ((i ∷ rest) ++ n ∷ []))
      ≡ take (i - b) (drop b str) ++ (sep ++ glue sep (pieces str m i (rest ++ n ∷ [])))
unfolding pieces glue
glue_first str sep m prev b i n [] w = rw (← w)
glue_first str sep m prev b i n (j ∷ rest) w = rw (← w)

module _ (str sep : Bytes) (nonempty : 0 < length sep) (fits : length sep ≤ length str)
    (small : length str < 2_147_483_648) where
  -- Between two separators nothing of the text is lost.
  glue-pieces :
      (fuel i b prev : ℕ) (found : List ℕ)
      → b ≤ i
      → b ≤ length str
      → (prev + length sep) % word ≡ b
      → find_seps fuel str sep i ≡ some found
      → glue sep (pieces str (length sep) prev (found ++ length str ∷ [])) ≡ drop b str
  unfolding find_seps pieces glue
  glue-pieces zero i b prev found h k w e = cc
  glue-pieces (suc fuel) i b prev found h k w e =
      elim (Bool-cases (leb i (length str - length sep))) [
        | inr past ↦
            let none_left : found ≡ [] = ground arith in rw (none_left, w) (last_piece str b k)
        | inl inside ↦ elim (Bool-cases (match_at str i sep)) [
          | inr miss ↦
              glue-pieces fuel (suc i) b prev found (omega arith) k w
                (rw (inside, miss, find_seps) at e)
          | inl hit ↦ elim (Option-cases (find_seps fuel str sep (i + length sep))) [
            | inl stuck ↦ absurd (cc (rw (inside, hit, stuck, find_seps) at e))
            | inr (rest, ran) ↦
                let found_eq : i ∷ rest ≡ found = ground arith in
                let room : i + length sep ≤ length str = ground arith in
                let wraps : (i + length sep) % word ≡ i + length sep = mod-eq_of_lt (omega arith) in
                let ih =
                  glue-pieces fuel (i + length sep) (i + length sep) i rest (omega arith) room wraps
                    ran in
                rw (← found_eq) (
                  glue_first str sep (length sep) prev b i (length str) rest w
                  ∙ ap (λ s. take (i - b) (drop b str) ++ (sep ++ s)) ih
                  ∙ ap (λ s. take (i - b) (drop b str) ++ s)
                      (sym (match_at-drop str sep i room hit))
                  ∙ cut_front str b i h)
          ]
        ]
      ]

  find_miss :
      (fuel i : ℕ)
      → i ≤ length str - length sep
      → match_at str i sep ≡ false
      → find_seps (suc fuel) str sep i ≡ find_seps fuel str sep (suc i)
  unfolding find_seps
  find_miss fuel i h m = let inside = le→leb _ _ h in rw (inside, m, find_seps)

  find_hit :
      (fuel i : ℕ) (found : List ℕ)
      → i ≤ length str - length sep
      → match_at str i sep ≡ true
      → find_seps fuel str sep (i + length sep) ≡ some found
      → find_seps (suc fuel) str sep i ≡ some (i ∷ found)
  unfolding find_seps
  find_hit fuel i found h m e = let inside = le→leb _ _ h in rw (inside, m, find_seps, e)

  -- The search for separators ends within its fuel.
  find_seps_total :
      (fuel i : ℕ)
      → length str - i < fuel
      → (found : List ℕ) × (find_seps fuel str sep i ≡ some found)
  unfolding find_seps
  find_seps_total zero i h = absurd (omega arith)
  find_seps_total (suc fuel) i h = elim (Bool-cases (leb i (length str - length sep))) [
    | inr past ↦ ([], rw (past, find_seps))
    | inl within ↦
        let inside : i ≤ length str - length sep = leb→le _ _ within in
        elim (Bool-cases (match_at str i sep)) [
          | inr miss ↦
              let (found, e) = find_seps_total fuel (suc i) (omega arith) in
              (found, find_miss fuel i inside miss ∙ e)
          | inl hit ↦
              let (found, e) = find_seps_total fuel (i + length sep) (omega arith) in
              (i ∷ found, find_hit fuel i found inside hit e)
        ]
  ]

  glue-cut_up :
      (found : List ℕ)
      → find_seps (length str + 1) str sep 0 ≡ some found
      → glue sep (cut_up str sep found) ≡ str
  unfolding cut_up glue
  glue-cut_up [] e = refl
  glue-cut_up (i ∷ found) e =
      glue-pieces (length str + 1) 0 0 ((word - length sep) % word) (i ∷ found) (omega arith)
        (omega arith) (omega arith) e

  split_entry :
      (found : List ℕ)
      → find_seps (length str + 1) str sep 0 ≡ some found
      → split str sep ≡ some (cut_up str sep found)
  unfolding split
  split_entry found e = rw e (ground arith)

-- The joined text has the size that `join` reserves.
length-glue :
    (sep p : Bytes) (ps : List Bytes)
    → length (glue sep (p ∷ ps)) ≡ total_size (p ∷ ps) + length sep * length ps
unfolding glue total_size
length-glue sep p [] = omega arith
length-glue sep p (q ∷ ps) = omega (
  arith,
  length-append p (sep ++ glue sep (q ∷ ps)),
  length-append sep (glue sep (q ∷ ps)),
  length-glue sep q ps,
)

cut_up_cons :
    (str sep : Bytes) (found : List ℕ)
    → (p : Bytes) × (ps : List Bytes) × (cut_up str sep found ≡ p ∷ ps)
unfolding cut_up pieces
cut_up_cons str sep [] = (str, [], refl)
cut_up_cons str sep (i ∷ found) = (_, _, refl)

-- A join whose text fits does not throw.
join-glue :
    (max_size : ℕ) (str sep p : Bytes) (ps : List Bytes)
    → 0 < length sep
    → length str < 2_147_483_648
    → length str ≤ max_size
    → glue sep (p ∷ ps) ≡ str
    → join max_size (p ∷ ps) sep ≡ some str
unfolding join
join-glue max_size str sep p ps h small fits e =
    let size : length str ≡ total_size (p ∷ ps) + length sep * length ps =
      sym (ap length e) ∙ length-glue sep p ps in
    let few : length ps ≤ length sep * length ps = grind arith in
    let count : (suc (length ps) + (word - 1)) % word ≡ length ps = omega arith in
    let room : ltb max_size (reserved (p ∷ ps) sep) ≡ false =
      unfold reserved in rw count (ground arith) in
    rw (room, join_loop-glue sep [] (p ∷ ps), e)

split_short : (str sep : Bytes) → length str < length sep → split str sep ≡ some (str ∷ [])
unfolding split
split_short str sep h = ground arith

-- A text below 2 ^ 31 bytes, split at a separator that is not empty, gives parts whose join with
-- that separator is the text again, when the text does not exceed std::string::max_size().
pub join-split :
    (max_size : ℕ) (str sep : Bytes)
    → 0 < length sep
    → length str < 2_147_483_648
    → length str ≤ max_size
    → (parts : List Bytes) × (split str sep ≡ some parts) × (join max_size parts sep ≡ some str)
join-split max_size str sep h small fits = elim (Bool-cases (ltb (length str) (length sep))) [
  | inl short ↦ (
    str ∷ [],
    split_short str sep (ltb→lt _ _ short),
    join-glue max_size str sep str [] h small fits (unfold glue in refl),
  )
  | inr long ↦
      let enough : length sep ≤ length str = ground arith in
      let (found, e) = find_seps_total str sep h enough small (length str + 1) 0 (omega arith) in
      let (p, ps, cons) = cut_up_cons str sep found in
      let whole = glue-cut_up str sep h enough small found e in
      (
        p ∷ ps,
        split_entry str sep h enough small found e ∙ ap some cons,
        join-glue max_size str sep p ps h small fits (ap (glue sep) (sym cons) ∙ whole),
      )
]

-- Joining no parts throws for every separator that is not empty and whose wrapped size, 2 ^ 64 less
-- its length, exceeds std::string::max_size(): the size of the separators is computed as
-- sep.size() * (0 - 1).
join-nil :
    (max_size : ℕ) (sep : Bytes)
    → 0 < length sep
    → length sep + max_size < word
    → join max_size [] sep ≡ none
unfolding join reserved total_size
join-nil max_size sep h k =
    let e : (0 + length sep * ((0 + (word - 1)) % word)) % word ≡ word - length sep = omega arith in
    rw e (ground arith)
