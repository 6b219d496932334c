-- ===== src/Utils/Numbers.antt =====
-- The greatest common divisor and the least common multiple of src/lib/utils.cc, on positive
-- numbers. `none` is a failed assert, or a product outside int64_t.
pub mod Gcd
pub mod Lcm
mod Tests
use cppev.Prelude.{
  ℕ, zero, suc, ◌*◌, ◌/◌, ◌%◌, ◌^◌, Bool, ◌||◌, List, [], ◌∷◌, Option, none, some, ltb, ◌==◌,
  if◌then◌else◌, ◌>>=◌,
}

abbrev pub int64_limit : ℕ
int64_limit = 2 ^ 63

-- while (true) { remain = p % r; p = r; r = remain; if (remain == 0) break; }
pub gcd_loop : ℕ → ℕ → ℕ → Option ℕ
gcd_loop zero p r = none
gcd_loop (suc fuel) p r = let rest = gcd_loop fuel r (p % r) in if p % r == 0 then some r else rest

-- The second number bounds the rounds.
unfoldable pub greatest_common_divisor : ℕ → ℕ → Option ℕ
unfolding gcd_loop
greatest_common_divisor p r = if p == 0 || r == 0 then none else gcd_loop r p r

gcd_from : ℕ → List ℕ → Option ℕ
gcd_from prev [] = some prev
gcd_from prev (n ∷ ns) = do g ← greatest_common_divisor prev n; gcd_from g ns

unfoldable pub greatest_common_divisors : List ℕ → Option ℕ
unfolding gcd_from greatest_common_divisor
greatest_common_divisors [] = none
greatest_common_divisors (n ∷ []) = none
greatest_common_divisors (n ∷ m ∷ ns) = gcd_from n (m ∷ ns)

-- (p / gcd) * r
unfoldable pub least_common_multiple : ℕ → ℕ → Option ℕ
unfolding greatest_common_divisor
least_common_multiple p r = do
  g ← greatest_common_divisor p r
  if ltb (p / g * r) int64_limit then some (p / g * r) else none

lcm_from : ℕ → List ℕ → Option ℕ
lcm_from prev [] = some prev
lcm_from prev (n ∷ ns) = do l ← least_common_multiple prev n; lcm_from l ns

unfoldable pub least_common_multiples : List ℕ → Option ℕ
unfolding lcm_from least_common_multiple
least_common_multiples [] = none
least_common_multiples (n ∷ []) = none
least_common_multiples (n ∷ m ∷ ns) = lcm_from n (m ∷ ns)
