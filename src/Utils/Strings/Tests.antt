-- ===== src/Utils/Strings/Tests.antt =====
-- Runs of the string functions.
use cppev.Prelude.{ℕ, List, [], ◌∷◌, none, some, ◌≡◌, refl, arith}
use cppev.Utils.Strings.{Bytes, split, join, strip, rstrip}
use cppev.Utils.Strings.Split.{join-split}

abbrev max_size : ℕ
max_size = 9_223_372_036_854_775_807

split_run : split (1 ∷ 0 ∷ 2 ∷ 0 ∷ []) (0 ∷ []) ≡ some ((1 ∷ []) ∷ (2 ∷ []) ∷ [] ∷ [])
unfolding split
split_run = refl

join_run : join max_size ((1 ∷ []) ∷ (2 ∷ []) ∷ []) (0 ∷ []) ≡ some (1 ∷ 0 ∷ 2 ∷ [])
unfolding join
join_run = refl

join-nil_run : join max_size [] (0 ∷ []) ≡ none
unfolding join
join-nil_run = refl

strip_run : strip (0 ∷ 0 ∷ 1 ∷ 2 ∷ 0 ∷ []) (0 ∷ []) ≡ some (1 ∷ 2 ∷ [])
unfolding strip
strip_run = refl

rstrip_run : rstrip (3 ∷ 0 ∷ 0 ∷ []) (0 ∷ []) ≡ some []
unfolding rstrip
rstrip_run = refl

join-split_example :
    (parts : List Bytes) × (split (1 ∷ 0 ∷ 2 ∷ 0 ∷ []) (0 ∷ []) ≡ some parts)
    × (join max_size parts (0 ∷ []) ≡ some (1 ∷ 0 ∷ 2 ∷ 0 ∷ []))
join-split_example =
    join-split max_size (1 ∷ 0 ∷ 2 ∷ 0 ∷ []) (0 ∷ []) (omega arith) (omega arith) (omega arith)
