-- ===== src/Utils/Numbers/Lcm.antt =====
-- `least_common_multiple` of src/lib/utils.cc.
use Prim.Native.Nat.{◌∣◌}
use native.Mathlib.Nat.{
  dvd-mul_left, dvd-mul_right, mul-dvd-mul_right, mul-dvd-mul_left, dvd_of_mul-dvd-mul_right,
  div-mul_cancel, mul_comm, pos_of_dvd_of_pos, le_of_dvd, dvd_trans, dvd_refl,
}
use cppev.Prelude.{
  List, [], ◌∷◌, refl, ℕ, ◌*◌, ◌/◌, ◌≤◌, ◌<◌, ◌≡◌, sym, ap, ◌∙◌, some, arith, lt→ltb,
}
use cppev.Utils.Numbers.{
  int64_limit, greatest_common_divisor, least_common_multiple, lcm_from, least_common_multiples,
}
use cppev.Utils.Numbers.Gcd.{IsGcd, AllPositive, greatest_common_divisor-IsGcd}

-- l is a multiple of p and r, and divides every common multiple.
pub record IsLcm (p r l : ℕ) : Type 0 where
  pub left : p ∣ l
  pub right : r ∣ l
  pub least : (m : ℕ) → p ∣ m → r ∣ m → l ∣ m

regroup : (x y g : ℕ) → x * (y * g) ≡ x * g * y
regroup x y g = omega arith

swap_last : (x y g : ℕ) → x * y * g ≡ x * g * y
swap_last x y g = omega arith

quotient-IsLcm : (p r g : ℕ) → 0 < g → IsGcd p r g → IsLcm p r (p / g * r)
quotient-IsLcm p r g h is = record {
  left =
      let e : p / g * r ≡ p * (r / g) =
        ap (λ x. p / g * x) (sym (div-mul_cancel g is.right))
        ∙ regroup (p / g) (r / g) g
        ∙ ap (λ x. x * (r / g)) (div-mul_cancel g is.left) in
      rw e (dvd-mul_right p (r / g));
  right = dvd-mul_left r (p / g);
  least = λ m a b.
      let by_p : p * r ∣ m * p = rw (mul_comm m p) (mul-dvd-mul_left r p b) in
      let by_r : p * r ∣ m * r = mul-dvd-mul_right p a r in
      let all : p * r ∣ m * g = is.scaled m (p * r) by_p by_r in
      dvd_of_mul-dvd-mul_right (p / g * r) h
        (rw (swap_last (p / g) r g, div-mul_cancel g is.left) all);
}

lcm_entry :
    (p r g : ℕ)
    → greatest_common_divisor p r ≡ some g
    → p / g * r < int64_limit
    → least_common_multiple p r ≡ some (p / g * r)
unfolding least_common_multiple
lcm_entry p r g e h = let fits = lt→ltb _ _ h in rw (e, fits)

le-lt_trans : {a b c : ℕ} → a ≤ b → b < c → a < c
le-lt_trans h i = omega arith

-- For positive numbers with a positive common multiple below 2 ^ 63 the result exists, which means
-- that no step overflows, and it is their least common multiple.
pub least_common_multiple-IsLcm :
    (p r m : ℕ)
    → 0 < p
    → 0 < r
    → 0 < m
    → p ∣ m
    → r ∣ m
    → m < int64_limit
    → (l : ℕ) × (least_common_multiple p r ≡ some l) × IsLcm p r l
least_common_multiple-IsLcm p r m hp hr hm a b fits =
    let (g, e, is) = greatest_common_divisor-IsGcd p r hp hr in
    let lcm = quotient-IsLcm p r g (pos_of_dvd_of_pos is.left hp) is in
    let small : p / g * r ≤ m = le_of_dvd hm (lcm.least m a b) in
    (p / g * r, lcm_entry p r g e (le-lt_trans small fits), lcm)

-- m is a multiple of every number of the list.
abbrev pub MultipleOf : ℕ → List ℕ → Type 0
MultipleOf m [] = Unit {0}
MultipleOf m (n ∷ ns) = (n ∣ m) × MultipleOf m ns

lcm_from-step :
    (p n l : ℕ) (ns : List ℕ)
    → least_common_multiple p n ≡ some l
    → lcm_from p (n ∷ ns) ≡ lcm_from l ns
unfolding lcm_from
lcm_from-step p n l ns e = rw e

lcm_from-multiple :
    (p m : ℕ) (ns : List ℕ)
    → 0 < p
    → AllPositive ns
    → 0 < m
    → p ∣ m
    → MultipleOf m ns
    → m < int64_limit
    → (l : ℕ) × (lcm_from p ns ≡ some l) × (0 < l) × (p ∣ l) × MultipleOf l ns
unfolding lcm_from
lcm_from-multiple p m [] h a hm pm all fits = (p, refl, h, dvd_refl p, tt)
lcm_from-multiple p m (n ∷ ns) h a hm pm all fits =
    let (k, e, is) = least_common_multiple-IsLcm p n m h a.0 hm pm all.0 fits in
    let km = is.least m pm all.0 in
    let (l, f, some_l, kl, rest) =
      lcm_from-multiple k m ns (pos_of_dvd_of_pos km hm) a.1 hm km all.1 fits in
    (
      l,
      lcm_from-step p n k ns e ∙ f,
      some_l,
      dvd_trans p is.left kl,
      (dvd_trans n is.right kl, rest),
    )

-- For two or more positive numbers with a positive common multiple below 2 ^ 63, the fold over the
-- vector succeeds, and its result is a positive multiple of each of them.
pub least_common_multiples-multiple :
    (n k m : ℕ) (ns : List ℕ)
    → AllPositive (n ∷ k ∷ ns)
    → 0 < m
    → MultipleOf m (n ∷ k ∷ ns)
    → m < int64_limit
    → (l : ℕ) × (least_common_multiples (n ∷ k ∷ ns) ≡ some l) × (0 < l) × MultipleOf l (n ∷ k ∷ ns)
unfolding least_common_multiples
least_common_multiples-multiple n k m ns a hm all fits =
    let (l, e, some_l, nl, rest) = lcm_from-multiple n m (k ∷ ns) a.0 a.1 hm all.0 all.1 fits in
    (l, e, some_l, (nl, rest))
