-- ===== src/Reactor/Balance.antt =====
-- The choice of a worker: tp_shared_data::minloads_get_evlp of src/lib/tcp.cc.
use cppev.Prelude.{
  ℕ, suc, ◌+◌, ◌-◌, ◌^◌, ◌≤◌, ◌<◌, ◌≡◌, refl, ap, ◌∙◌, ◌⊎◌, inl, inr, true, false, List, [], ◌∷◌,
  Option, none, some, arith, ltb, ltb→lt, if◌then◌else◌, get_elem?, Bool-cases,
}

abbrev pub int32_max : ℕ
int32_max = 2 ^ 31 - 1

-- for (auto evlp : evls) if (evlp->ev_loads() < minloads) …: `i` is the index of the next worker
pub scan_loads : ℕ → Option ℕ → ℕ → List ℕ → Option ℕ
scan_loads minloads best i [] = best
scan_loads minloads best i (load ∷ loads) =
    let lighter = ltb load minloads in
    scan_loads (if lighter then load else minloads) (if lighter then some i else best) (suc i) loads

-- The index of the chosen worker in evls, from the loads; none is the null pointer.
unfoldable pub minloads_get_evlp : List ℕ → Option ℕ
unfolding scan_loads
minloads_get_evlp loads = scan_loads int32_max none 0 loads

abbrev pub AllAtLeast : ℕ → List ℕ → Type 0
AllAtLeast m [] = Unit {0}
AllAtLeast m (n ∷ ns) = (m ≤ n) × AllAtLeast m ns

AllAtLeast-trans : (a b : ℕ) (ns : List ℕ) → a ≤ b → AllAtLeast b ns → AllAtLeast a ns
AllAtLeast-trans a b [] h q = tt
AllAtLeast-trans a b (n ∷ ns) h q = (let q' = q.0 in omega arith, AllAtLeast-trans a b ns h q.1)

-- The worker behind `i` at distance k is chosen: it has the load m, which is below the bound and
-- nowhere undercut.
record Chosen (minloads i : ℕ) (best : Option ℕ) (loads : List ℕ) : Type 0 where
  k : ℕ
  m : ℕ
  result : scan_loads minloads best i loads ≡ some (i + k)
  load : get_elem? loads k ≡ some m
  less : m < minloads
  least : AllAtLeast m loads

heavy_step :
    (minloads : ℕ) (best : Option ℕ) (i load : ℕ) (loads : List ℕ)
    → minloads ≤ load
    → scan_loads minloads best i (load ∷ loads) ≡ scan_loads minloads best (suc i) loads
unfolding scan_loads
heavy_step minloads best i load loads h = let b : ltb load minloads ≡ false = ground arith in rw b

light_step :
    (minloads : ℕ) (best : Option ℕ) (i load : ℕ) (loads : List ℕ)
    → load < minloads
    → scan_loads minloads best i (load ∷ loads) ≡ scan_loads load (some i) (suc i) loads
unfolding scan_loads
light_step minloads best i load loads h = let b : ltb load minloads ≡ true = ground arith in rw b

further : (i k : ℕ) → ◌≡◌ {A = Option ℕ} (some (suc i + k)) (some (i + suc k))
further i k = let e : suc i + k ≡ i + suc k = omega arith in rw e

-- The scan ends with its best so far, whose load nothing undercuts, or with a better one behind.
scan_loads_lem :
    (minloads : ℕ) (best : Option ℕ) (i : ℕ) (loads : List ℕ)
    → ((scan_loads minloads best i loads ≡ best) × AllAtLeast minloads loads)
      ⊎ Chosen minloads i best loads
unfolding scan_loads
scan_loads_lem minloads best i [] = inl (refl, tt)
scan_loads_lem minloads best i (load ∷ loads) = elim (Bool-cases (ltb load minloads)) [
  | inr heavy ↦
      let h : minloads ≤ load = ground arith in
      elim (scan_loads_lem minloads best (suc i) loads) [
        | inl (e, above) ↦ inl (heavy_step minloads best i load loads h ∙ e, (h, above))
        | inr c ↦ inr (record {
          k = suc c.k;
          m = c.m;
          result = heavy_step minloads best i load loads h ∙ c.result ∙ further i c.k;
          load = c.load;
          less = c.less;
          least = (let l = c.less in omega arith, c.least);
        })
      ]
  | inl light ↦
      let h : load < minloads = ltb→lt _ _ light in
      elim (scan_loads_lem load (some i) (suc i) loads) [
        | inl (e, above) ↦ inr (record {
          k = 0;
          m = load;
          result =
              let z : i ≡ i + 0 = omega arith in
              light_step minloads best i load loads h ∙ e ∙ ap some z;
          load = refl;
          less = h;
          least = (omega arith, above);
        })
        | inr c ↦ inr (record {
          k = suc c.k;
          m = c.m;
          result = light_step minloads best i load loads h ∙ c.result ∙ further i c.k;
          load = c.load;
          less = let l = c.less in omega arith;
          least = (let l = c.less in omega arith, c.least);
        })
      ]
]

-- With at least one worker whose load is below INT32_MAX, a worker is chosen, and no worker has a
-- smaller load than it.
pub minloads_get_evlp-least :
    (first : ℕ) (loads : List ℕ)
    → first < int32_max
    → (k m : ℕ) × (minloads_get_evlp (first ∷ loads) ≡ some k)
      × (get_elem? (first ∷ loads) k ≡ some m)
      × AllAtLeast m (first ∷ loads)
unfolding minloads_get_evlp
minloads_get_evlp-least first loads h = elim (scan_loads_lem int32_max none 0 (first ∷ loads)) [
  | inl (e, above) ↦ absurd (let a = above.0 in omega arith)
  | inr c ↦ let z : 0 + c.k ≡ c.k = omega arith in (c.k, c.m, c.result ∙ ap some z, c.load, c.least)
]
