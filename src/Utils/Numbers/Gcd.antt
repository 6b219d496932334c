-- ===== src/Utils/Numbers/Gcd.antt =====
-- `greatest_common_divisor` of src/lib/utils.cc, for two numbers and for a vector.
use Prim.Native.Nat.{◌∣◌}
use native.Mathlib.Nat.{
  dvd_refl, dvd-mod_iff, dvd_of_mod-eq-zero, dvd_trans, dvd-sub, dvd-mul_right_of_dvd, mod_def,
  mul-sub, mul_assoc, pos_of_dvd_of_pos,
}
use cppev.Prelude.{
  ℕ, zero, suc, ◌-◌, ◌*◌, ◌/◌, ◌%◌, ◌≤◌, ◌<◌, ◌≡◌, ◌≢◌, refl, sym, ap, ◌∙◌, inl, inr, List, [], ◌∷◌,
  some, arith, ◌==◌, Bool-cases, ==_iff,
}
use cppev.Utils.Numbers.{gcd_loop, greatest_common_divisor, gcd_from, greatest_common_divisors}

-- g divides p and r, and every common divisor of the two divides g; `scaled` says the latter of
-- every common multiple of the two numbers.
pub record IsGcd (p r g : ℕ) : Type 0 where
  pub left : g ∣ p
  pub right : g ∣ r
  pub greatest : (d : ℕ) → d ∣ p → d ∣ r → d ∣ g
  pub scaled : (m d : ℕ) → d ∣ m * p → d ∣ m * r → d ∣ m * g

gcd_step : (fuel p r : ℕ) → p % r ≢ 0 → gcd_loop (suc fuel) p r ≡ gcd_loop fuel r (p % r)
unfolding gcd_loop
gcd_step fuel p r h = ground arith

scaled_mod : (m p r d : ℕ) → d ∣ m * p → d ∣ m * r → d ∣ m * (p % r)
scaled_mod m p r d a b =
    let e : m * (p % r) ≡ m * p - m * r * (p / r) =
      ap (λ x. m * x) (mod_def p r)
      ∙ mul-sub m p (r * (p / r))
      ∙ ap (λ x. m * p - x) (sym (mul_assoc m r (p / r))) in
    rw e (dvd-sub d a (dvd-mul_right_of_dvd d b (p / r)))

pub gcd_loop-IsGcd :
    (fuel p r : ℕ) → 0 < r → r ≤ fuel → (g : ℕ) × (gcd_loop fuel p r ≡ some g) × IsGcd p r g
unfolding gcd_loop
gcd_loop-IsGcd zero p r h f = absurd (omega arith)
gcd_loop-IsGcd (suc fuel) p r h f = elim (Bool-cases (p % r == 0)) [
  | inl last ↦
      let e : p % r ≡ 0 = (==_iff _ _).0 last in
      (
        r,
        rw (last, gcd_loop),
        record {
          left = dvd_of_mod-eq-zero r e;
          right = dvd_refl r;
          greatest = λ d _ q. q;
          scaled = λ m d _ q. q;
        },
      )
  | inr more ↦
      let pos : 0 < p % r = ground arith in
      let small : p % r < r = omega arith in
      let (g, e, ih) = gcd_loop-IsGcd fuel r (p % r) pos (omega arith) in
      (
        g,
        gcd_step fuel p r (ground arith) ∙ e,
        record {
          left = (dvd-mod_iff g ih.left).0 ih.right;
          right = ih.left;
          greatest = λ d a b. ih.greatest d b ((dvd-mod_iff d b).1 a);
          scaled = λ m d a b. ih.scaled m d b (scaled_mod m p r d a b);
        },
      )
]

gcd_entry : (p r : ℕ) → 0 < p → 0 < r → greatest_common_divisor p r ≡ gcd_loop r p r
unfolding greatest_common_divisor
gcd_entry p r hp hr = ground arith

-- For positive numbers the loop ends, and its result is their greatest common divisor.
pub greatest_common_divisor-IsGcd :
    (p r : ℕ) → 0 < p → 0 < r → (g : ℕ) × (greatest_common_divisor p r ≡ some g) × IsGcd p r g
greatest_common_divisor-IsGcd p r hp hr =
    let (g, e, right) = gcd_loop-IsGcd r p r hr (omega arith) in (g, gcd_entry p r hp hr ∙ e, right)

-- g divides every number of the list, and so does every common divisor.
abbrev pub DividesAll : ℕ → List ℕ → Type 0
DividesAll d [] = Unit {0}
DividesAll d (n ∷ ns) = (d ∣ n) × DividesAll d ns

abbrev pub AllPositive : List ℕ → Type 0
AllPositive [] = Unit {0}
AllPositive (n ∷ ns) = (0 < n) × AllPositive ns

DividesAll-trans : (d g : ℕ) (ns : List ℕ) → d ∣ g → DividesAll g ns → DividesAll d ns
DividesAll-trans d g [] h a = tt
DividesAll-trans d g (n ∷ ns) h a = (dvd_trans d h a.0, DividesAll-trans d g ns h a.1)

gcd_from-step :
    (p n g : ℕ) (ns : List ℕ)
    → greatest_common_divisor p n ≡ some g
    → gcd_from p (n ∷ ns) ≡ gcd_from g ns
unfolding gcd_from
gcd_from-step p n g ns e = rw e

gcd_from-greatest :
    (p : ℕ) (ns : List ℕ)
    → 0 < p
    → AllPositive ns
    → (g : ℕ) × (gcd_from p ns ≡ some g)
      × DividesAll g (p ∷ ns)
      × ((d : ℕ) → DividesAll d (p ∷ ns) → d ∣ g)
unfolding gcd_from
gcd_from-greatest p [] h a = (p, refl, (dvd_refl p, tt), λ d q. q.0)
gcd_from-greatest p (n ∷ ns) h a =
    let (m, e, is) = greatest_common_divisor-IsGcd p n h a.0 in
    let (g, f, all, most) = gcd_from-greatest m ns (pos_of_dvd_of_pos is.left h) a.1 in
    (
      g,
      gcd_from-step p n m ns e ∙ f,
      (dvd_trans g all.0 is.left, (dvd_trans g all.0 is.right, all.1)),
      λ d q. most d (is.greatest d q.0 q.1.0, q.1.1),
    )

-- For two or more positive numbers the fold over the vector succeeds: its result divides each of
-- them, and every number that divides all of them divides it.
pub greatest_common_divisors-greatest :
    (n m : ℕ) (ns : List ℕ)
    → AllPositive (n ∷ m ∷ ns)
    → (g : ℕ) × (greatest_common_divisors (n ∷ m ∷ ns) ≡ some g)
      × DividesAll g (n ∷ m ∷ ns)
      × ((d : ℕ) → DividesAll d (n ∷ m ∷ ns) → d ∣ g)
unfolding greatest_common_divisors
greatest_common_divisors-greatest n m ns a = gcd_from-greatest n (m ∷ ns) a.0 a.1
