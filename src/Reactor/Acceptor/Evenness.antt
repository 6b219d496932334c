-- ===== src/Reactor/Acceptor/Evenness.antt =====
-- Loads that differ by one at most.
use cppev.Prelude.{
  ℕ, zero, suc, ◌+◌, ◌≤◌, ◌≡◌, ◌⊎◌, inl, inr, List, [], ◌∷◌, some, arith, get_elem?, set,
}
use cppev.Reactor.Balance.{AllAtLeast}

abbrev pub AllAtMost : ℕ → List ℕ → Type 0
AllAtMost m [] = Unit {0}
AllAtMost m (n ∷ ns) = (n ≤ m) × AllAtMost m ns

-- Two loads differ by one at most.
pub record Even (loads : List ℕ) : Type 0 where
  pub low : ℕ
  pub above : AllAtLeast low loads
  pub below : AllAtMost (suc low) loads

abbrev pub sum : List ℕ → ℕ
sum [] = 0
sum (n ∷ ns) = n + sum ns

AllAtLeast-get : (m k n : ℕ) (ls : List ℕ) → AllAtLeast m ls → get_elem? ls k ≡ some n → m ≤ n
AllAtLeast-get m k n [] h e = cc
AllAtLeast-get m zero n (x ∷ ls) h e = let f : x ≡ n = cc in let g = h.0 in omega arith
AllAtLeast-get m (suc k) n (x ∷ ls) h e = AllAtLeast-get m k n ls h.1 e

AllAtMost-get : (m k n : ℕ) (ls : List ℕ) → AllAtMost m ls → get_elem? ls k ≡ some n → n ≤ m
AllAtMost-get m k n [] h e = cc
AllAtMost-get m zero n (x ∷ ls) h e = let f : x ≡ n = cc in let g = h.0 in omega arith
AllAtMost-get m (suc k) n (x ∷ ls) h e = AllAtMost-get m k n ls h.1 e

AllAtLeast-set : (m k n : ℕ) (ls : List ℕ) → AllAtLeast m ls → m ≤ n → AllAtLeast m (set ls k n)
AllAtLeast-set m k n [] h g = tt
AllAtLeast-set m zero n (x ∷ ls) h g = (g, h.1)
AllAtLeast-set m (suc k) n (x ∷ ls) h g = (h.0, AllAtLeast-set m k n ls h.1 g)

AllAtMost-set : (m k n : ℕ) (ls : List ℕ) → AllAtMost m ls → n ≤ m → AllAtMost m (set ls k n)
AllAtMost-set m k n [] h g = tt
AllAtMost-set m zero n (x ∷ ls) h g = (g, h.1)
AllAtMost-set m (suc k) n (x ∷ ls) h g = (h.0, AllAtMost-set m k n ls h.1 g)

AllAtMost-weaken : (m n : ℕ) (ls : List ℕ) → AllAtMost m ls → m ≤ n → AllAtMost n ls
AllAtMost-weaken m n [] h g = tt
AllAtMost-weaken m n (x ∷ ls) h g = (let f = h.0 in omega arith, AllAtMost-weaken m n ls h.1 g)

-- One more for a least load keeps the loads even.
pub set-Even :
    (k m : ℕ) (ls : List ℕ)
    → get_elem? ls k ≡ some m
    → AllAtLeast m ls
    → Even ls
    → Even (set ls k (suc m))
set-Even k m ls e least even =
    let low = even.low in
    let reached = AllAtMost-get (suc low) k m ls even.below e in
    let order : (m ≤ low) ⊎ (suc low ≤ m) = omega arith in
    elim order [
      | inl h ↦ record {
        low = low;
        above =
            AllAtLeast-set low k (suc m) ls even.above
              (let g = AllAtLeast-get low k m ls even.above e in omega arith);
        below = AllAtMost-set (suc low) k (suc m) ls even.below (omega arith);
      }
      | inr h ↦ record {
        low = m;
        above = AllAtLeast-set m k (suc m) ls least (omega arith);
        below =
            AllAtMost-set (suc m) k (suc m) ls
              (AllAtMost-weaken (suc low) (suc m) ls even.below (omega arith)) (omega arith);
      }
    ]

pub sum-set :
    (k m n : ℕ) (ls : List ℕ) → get_elem? ls k ≡ some m → sum (set ls k n) + m ≡ sum ls + n
sum-set k m n [] e = cc
sum-set zero m n (x ∷ ls) e = let f : x ≡ m = cc in omega arith
sum-set (suc k) m n (x ∷ ls) e = omega (arith, sum-set k m n ls e)
