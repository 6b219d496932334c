-- ===== src/Utils/Strings/Strip.antt =====
-- `lstrip` and `rstrip` of src/lib/utils.cc.
use cppev.Prelude.{
  ℕ, zero, suc, ◌+◌, ◌-◌, ◌%◌, ◌≤◌, ◌<◌, ◌≡◌, refl, sym, ap, ◌∙◌, ◌⊎◌, inl, inr, true, false, [],
  ◌∷◌, ◌++◌, append_assoc, some, arith, leb, leb→le, le→leb, ◌==◌, Bool-cases, length, get_or, drop,
  length-append, length-drop,
}
use cppev.Utils.Strings.{
  Bytes, word, match_at, match_back, ends_at, strip_left, strip_right, do_strip, lstrip, rstrip,
}
use cppev.Utils.Strings.Split.{match_at-drop, last_piece, drop_cons}

-- k copies of a text
abbrev pub copies : ℕ → Bytes → Bytes
copies zero chars = []
copies (suc k) chars = chars ++ copies k chars

left_stop :
    (fuel : ℕ) (str chars : Bytes) (p r : ℕ)
    → leb (length chars) (r - p) ≡ true
    → match_at str p chars ≡ true
    → strip_left (suc fuel) str chars p r ≡ strip_left fuel str chars (p + length chars) r
unfolding strip_left
left_stop fuel str chars p r h m = rw (h, m, strip_left)

-- The left loop ends at an index q behind some copies of `chars`, where another copy does not fit or
-- does not stand.
strip_left-copies :
    (fuel : ℕ) (str chars : Bytes) (p : ℕ)
    → 0 < length chars
    → p ≤ length str
    → length str - p < fuel
    → (k : ℕ) × (q : ℕ) × (strip_left fuel str chars p (length str) ≡ some q)
      × (p ≤ q)
      × (q ≤ length str)
      × (drop p str ≡ copies k chars ++ drop q str)
      × ((length str - q < length chars) ⊎ (match_at str q chars ≡ false))
unfolding strip_left
strip_left-copies zero str chars p h w f = absurd (omega arith)
strip_left-copies (suc fuel) str chars p h w f =
    elim (Bool-cases (leb (length chars) (length str - p))) [
      | inr short ↦ (0, p, rw (short, strip_left), omega arith, w, refl, inl (ground arith))
      | inl room ↦ elim (Bool-cases (match_at str p chars)) [
        | inr miss ↦ (0, p, rw (room, miss, strip_left), omega arith, w, refl, inr miss)
        | inl hit ↦
            let fits : length chars ≤ length str - p = leb→le _ _ room in
            let (k, q, e, le, bound, same, stop) =
              strip_left-copies fuel str chars (p + length chars) h (omega arith) (omega arith) in
            (
              suc k,
              q,
              left_stop fuel str chars p (length str) room hit ∙ e,
              omega arith,
              bound,
              match_at-drop str chars p (omega arith) hit
                  ∙ ap (λ s. chars ++ s) same
                  ∙ sym (append_assoc chars (copies k chars) (drop q str)),
              stop,
            )
      ]
    ]

-- Whether a text begins with `chars`.
abbrev pub StartsWith : Bytes → Bytes → Type 0
StartsWith s chars = (rest : Bytes) × (s ≡ chars ++ rest)

get_or_front : (xs ys : Bytes) (c : ℕ) → get_or (c ∷ xs ++ ys) 0 0 ≡ c
get_or_front xs ys c = refl

match_at-StartsWith :
    (str chars rest : Bytes) (i : ℕ)
    → i + length chars ≤ length str
    → drop i str ≡ chars ++ rest
    → match_at str i chars ≡ true
unfolding match_at
match_at-StartsWith str [] rest i w h = refl
match_at-StartsWith str (c ∷ chars) rest i w h =
    let both : get_or str i 0 ∷ drop (suc i) str ≡ c ∷ (chars ++ rest) =
      sym (drop_cons str i (omega arith)) ∙ h in
    ground (arith, match_at-StartsWith str chars rest (suc i) (omega arith))

stopped-not-StartsWith :
    (str chars : Bytes) (q : ℕ)
    → q ≤ length str
    → ((length str - q < length chars) ⊎ (match_at str q chars ≡ false))
    → ¬ StartsWith (drop q str) chars
stopped-not-StartsWith str chars q w (inl short) (rest, e) =
    let l = length-drop q str in
    let l' : length (drop q str) ≡ length (chars ++ rest) = ap length e in
    omega (arith, length-append chars rest)
stopped-not-StartsWith str chars q w (inr miss) (rest, e) =
    let l = length-drop q str in
    let l' : length (drop q str) ≡ length (chars ++ rest) = ap length e in
    let hit = match_at-StartsWith str chars rest q (omega (arith, length-append chars rest)) e in cc

lstrip_entry :
    (str chars : Bytes) (q : ℕ)
    → 0 < length chars
    → q ≤ length str
    → strip_left (length str + 1) str chars 0 (length str) ≡ some q
    → lstrip str chars ≡ some (drop q str)
unfolding lstrip do_strip
lstrip_entry str chars q h w e =
    let nonempty : (length chars == 0) ≡ false = ground arith in
    rw (nonempty, e) (ap some (last_piece str q w))

-- With strip text that is not empty, `lstrip` returns a text, which does not begin with the strip
-- text, and the argument is some copies of the strip text followed by that text.
lstrip-copies :
    (str chars : Bytes)
    → 0 < length chars
    → (k : ℕ) × (result : Bytes) × (lstrip str chars ≡ some result)
      × (str ≡ copies k chars ++ result)
      × (¬ StartsWith result chars)
lstrip-copies str chars h =
    let (k, q, e, le, bound, same, stop) =
      strip_left-copies (length str + 1) str chars 0 h (omega arith) (omega arith) in
    (
      k,
      drop q str,
      lstrip_entry str chars q h bound e,
      same,
      stopped-not-StartsWith str chars q bound stop,
    )

wrapped_back :
    (n : ℕ) (str chars : Bytes) (low i j : ℕ) → i ≤ low → match_back n str chars low i j ≡ true
unfolding match_back
wrapped_back zero str chars low i j h = refl
wrapped_back (suc n) str chars low i j h = ground arith

-- When as many bytes are left as the strip text has, the backward comparison is skipped.
ends_at_whole :
    (str chars : Bytes) (r : ℕ) → r ≡ length chars → 0 < r → r < word → ends_at str chars r ≡ true
unfolding ends_at
ends_at_whole str chars r e h w =
    let low : (r + word - length chars - 1) % word ≡ word - 1 = omega arith in
    rw low
      (wrapped_back (length chars) str chars (word - 1) (r - 1) (length chars - 1) (omega arith))

right_step :
    (fuel : ℕ) (str chars : Bytes) (p r : ℕ)
    → length chars ≤ r - p
    → ends_at str chars r ≡ true
    → strip_right (suc fuel) str chars p r ≡ strip_right fuel str chars p (r - length chars)
unfolding strip_right match_back
right_step fuel str chars p r h e = let room = le→leb _ _ h in rw (room, e, strip_right)

right_stop :
    (fuel : ℕ) (str chars : Bytes) (p r : ℕ)
    → r - p < length chars
    → strip_right (suc fuel) str chars p r ≡ some r
unfolding strip_right match_back
right_stop fuel str chars p r h = ground arith

strip_right_same :
    (str chars : Bytes) (r : ℕ)
    → 0 < length chars
    → length chars < word
    → r ≡ length chars
    → strip_right (r + 1) str chars 0 r ≡ some 0
strip_right_same str chars r h w e =
    let two : r + 1 ≡ suc (suc (r - 1)) = omega arith in
    let gone : r - length chars ≡ 0 = omega arith in
    rw two (
      right_step (suc (r - 1)) str chars 0 r (omega arith)
        (ends_at_whole str chars r e (omega arith) (omega arith))
      ∙ ap (strip_right (suc (r - 1)) str chars 0) gone
      ∙ right_stop (r - 1) str chars 0 0 (omega arith))

-- `rstrip` returns the empty text for every text that is as long as the strip text, also where the
-- two differ, for strip text that is not empty.
rstrip_same_length :
    (str chars : Bytes)
    → 0 < length chars
    → length chars < word
    → length str ≡ length chars
    → rstrip str chars ≡ some []
unfolding rstrip do_strip
rstrip_same_length str chars h w e =
    let nonempty : (length chars == 0) ≡ false = ground arith in
    rw (nonempty, strip_right_same str chars (length str) h w e)
