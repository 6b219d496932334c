-- ===== src/Utils/Numbers/Tests.antt =====
-- The theorems on the divisors and multiples at concrete numbers.
use native.Mathlib.Nat.{dvd_of_mod-eq-zero}
use cppev.Prelude.{ℕ, ◌≡◌, refl, some, arith}
use cppev.Utils.Numbers.{greatest_common_divisor, least_common_multiple}
use cppev.Utils.Numbers.Gcd.{IsGcd, greatest_common_divisor-IsGcd}
use cppev.Utils.Numbers.Lcm.{IsLcm, least_common_multiple-IsLcm}

gcd_run : greatest_common_divisor 12 18 ≡ some 6
unfolding greatest_common_divisor
gcd_run = refl

greatest_common_divisor-IsGcd_example :
    (g : ℕ) × (greatest_common_divisor 12 18 ≡ some g) × IsGcd 12 18 g
greatest_common_divisor-IsGcd_example =
    greatest_common_divisor-IsGcd 12 18 (omega arith) (omega arith)

least_common_multiple-IsLcm_example : (l : ℕ) × (least_common_multiple 4 6 ≡ some l) × IsLcm 4 6 l
least_common_multiple-IsLcm_example =
    least_common_multiple-IsLcm 4 6 24 (omega arith) (omega arith) (omega arith)
      (dvd_of_mod-eq-zero 4 refl) (dvd_of_mod-eq-zero 6 refl) (omega arith)
