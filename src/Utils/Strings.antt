-- ===== src/Utils/Strings.antt =====
-- `split`, `join` and the three strips of src/lib/utils.cc, on lists of bytes.
-- A size_t is a number modulo 2 ^ 64. `none` is an exception: an empty separator or strip text, and
-- for `join`, which is noexcept, the end of the program. Loops take fuel; `none` is also their end of fuel.
mod Split
mod Strip
mod Tests
use cppev.Prelude.{
  ℕ, zero, suc, ◌+◌, ◌-◌, ◌*◌, ◌%◌, ◌^◌, Bool, true, false, List, [], ◌∷◌, ◌++◌, Option, none, some,
  ltb, leb, ◌==◌, if◌then◌else◌, ◌>>=◌, length, get_or, take, drop,
}

abbrev pub Bytes : Type 0
Bytes = List ℕ

abbrev pub word : ℕ
word = 2 ^ 64

-- for (j = i; j < i + sep.size(); ++j) if (str[j] != sep[j-i]) …
unfoldable pub match_at : Bytes → ℕ → Bytes → Bool
match_at str i [] = true
match_at str i (c ∷ sep) = elim (get_or str i 0 == c) [
  | true ↦ match_at str (suc i) sep
  | false ↦ false
]

abbrev push_front : ℕ → Option (List ℕ) → Option (List ℕ)
push_front i none = none
push_front i (some found) = some (i ∷ found)

-- The indices of the separators: for (i = 0; i <= str.size() - sep.size(); ) …
pub find_seps : ℕ → Bytes → Bytes → ℕ → Option (List ℕ)
find_seps zero str sep i = none
find_seps (suc fuel) str sep i = elim (leb i (length str - length sep)) [
  | true ↦ elim (match_at str i sep) [
    | true ↦ push_front i (find_seps fuel str sep (i + length sep))
    | false ↦ find_seps fuel str sep (suc i)
  ]
  | false ↦ some []
]

-- std::string(str, begin, end - begin) between each two entries of sep_index
pub pieces : Bytes → ℕ → ℕ → List ℕ → List Bytes
pieces str m prev [] = []
pieces str m prev (end ∷ ends) =
    let begin = (prev + m) % word in take (end - begin) (drop begin str) ∷ pieces str m end ends

-- With no separator found, sep_index has two entries.
cut_up : Bytes → Bytes → List ℕ → List Bytes
unfolding pieces
cut_up str sep [] = str ∷ []
cut_up str sep (i ∷ found) =
    pieces str (length sep) ((word - length sep) % word) ((i ∷ found) ++ length str ∷ [])

unfoldable pub split : Bytes → Bytes → Option (List Bytes)
unfolding find_seps cut_up match_at
split str sep =
    if length sep == 0
    then none
    else if ltb (length str) (length sep)
    then some (str ∷ [])
    else do found ← find_seps (length str + 1) str sep 0; some (cut_up str sep found)

pub join_loop : Bytes → Bytes → List Bytes → Bytes
join_loop sep ret [] = ret
join_loop sep ret (p ∷ []) = ret ++ p
join_loop sep ret (p ∷ q ∷ ps) = join_loop sep (ret ++ (p ++ sep)) (q ∷ ps)

pub total_size : List Bytes → ℕ
total_size [] = 0
total_size (p ∷ ps) = length p + total_size ps

-- The argument of ret.reserve(size), in size_t arithmetic.
pub reserved : List Bytes → Bytes → ℕ
unfolding total_size
reserved arr sep = (total_size arr + length sep * ((length arr + (word - 1)) % word)) % word

-- max_size is std::string::max_size(): a larger reserve throws std::length_error.
unfoldable pub join : ℕ → List Bytes → Bytes → Option Bytes
unfolding join_loop reserved
join max_size arr sep =
    if ltb max_size (reserved arr sep) then none else some (join_loop sep [] arr)

-- while (r - p >= chars.size()): the left end p, moved past the copies of chars
pub strip_left : ℕ → Bytes → Bytes → ℕ → ℕ → Option ℕ
strip_left zero str chars p r = none
strip_left (suc fuel) str chars p r = elim (leb (length chars) (r - p)) [
  | true ↦ elim (match_at str p chars) [
    | true ↦ strip_left fuel str chars (p + length chars) r
    | false ↦ some p
  ]
  | false ↦ some p
]

-- for (size_t i = r - 1; i > r - chars.size() - 1; --i) if (str[i] != chars[j--]) …: the bound `low`
-- wraps to 2 ^ 64 - 1 when r is chars.size(). At most chars.size() rounds pass the test.
unfoldable pub match_back : ℕ → Bytes → Bytes → ℕ → ℕ → ℕ → Bool
match_back zero str chars low i j = true
match_back (suc n) str chars low i j = elim (ltb low i) [
  | true ↦ elim (get_or str i 0 == get_or chars j 0) [
    | true ↦ match_back n str chars low (i - 1) (j - 1)
    | false ↦ false
  ]
  | false ↦ true
]

abbrev pub ends_at : Bytes → Bytes → ℕ → Bool
unfolding match_back
ends_at str chars r =
    match_back (length chars) str chars ((r + word - length chars - 1) % word) (r - 1)
      (length chars - 1)

pub strip_right : ℕ → Bytes → Bytes → ℕ → ℕ → Option ℕ
unfolding match_back
strip_right zero str chars p r = none
strip_right (suc fuel) str chars p r = elim (leb (length chars) (r - p)) [
  | true ↦ elim (ends_at str chars r) [
    | true ↦ strip_right fuel str chars p (r - length chars)
    | false ↦ some r
  ]
  | false ↦ some r
]

-- do_strip: the two flags of `type` are the two Booleans.
pub do_strip : Bytes → Bytes → Bool → Bool → Option Bytes
unfolding strip_left strip_right match_at
do_strip str chars left right = if length chars == 0 then none else do
  p ← if left then strip_left (length str + 1) str chars 0 (length str) else some 0
  r ← if right then strip_right (length str + 1) str chars p (length str) else some (length str)
  some (take (r - p) (drop p str))

unfoldable pub strip : Bytes → Bytes → Option Bytes
unfolding do_strip
strip str chars = do_strip str chars true true

unfoldable pub lstrip : Bytes → Bytes → Option Bytes
unfolding do_strip
lstrip str chars = do_strip str chars true false

unfoldable pub rstrip : Bytes → Bytes → Option Bytes
unfolding do_strip
rstrip str chars = do_strip str chars false true
