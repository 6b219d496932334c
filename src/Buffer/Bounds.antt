-- ===== src/Buffer/Bounds.antt =====
-- The well-formedness of a buffer (src/include/cppev/buffer.h).
use cppev.Prelude.{
  ℕ, zero, suc, ◌-◌, ◌*◌, ◌≤◌, ◌<◌, ◌≡◌, refl, subst, ◌∙◌, inl, inr, false, some, arith, ltb, leb,
  if◌then◌else◌, ◌&&◌, Bool-cases, Option-cases, length, get_or, replicate, length-replicate,
}
use cppev.Buffer.{Buffer, int_limit, create, grow, base_cap, resize}
use cppev.Buffer.Arrays.{copy_range, get_or-replicate, length-copy_range, get_or-copy_range}

-- The indices are in order, the array has the stated capacity, which is an int,
-- and every byte from `offset` on is zero.
pub record IsValid (b : Buffer) : Type 0 where
  pub ordered : b.start ≤ b.offset
  pub within : b.offset ≤ b.cap
  pub sized : length b.store ≡ b.cap
  pub positive : 1 ≤ b.cap
  pub int_cap : b.cap < int_limit
  pub zero_tail : (k : ℕ) → b.offset ≤ k → ◌≡◌ {A = ℕ} (get_or b.store k 0) 0

pub create-IsValid : (n : ℕ) (b : Buffer) → n < int_limit → create n ≡ some b → IsValid b
unfolding create
create-IsValid zero b h e = cc
create-IsValid (suc n) b h e =
    let b' : Buffer = record { cap = suc n; start = 0; offset = 0; store = replicate (suc n) 0 } in
    let made : b' ≡ b = ground arith in
    let valid : IsValid b' = record {
      ordered = omega arith;
      within = omega arith;
      sized = length-replicate (suc n) 0;
      positive = omega arith;
      int_cap = h;
      zero_tail = λ k _. get_or-replicate (suc n) k;
    } in
    rw made at valid

-- What the doubling loop returns is large enough and is an int.
pub grow_sound :
    (fuel want cap c : ℕ)
    → cap < int_limit
    → grow fuel want cap ≡ some c
    → (want ≤ c) × (cap ≤ c) × (c < int_limit)
unfolding grow
grow_sound zero want n c h e = cc
grow_sound (suc fuel) want n c h e = ground (arith, grow_sound fuel want (n * 2) c)

grow_step :
    (fuel want n : ℕ)
    → n < want
    → n * 2 < int_limit
    → grow (suc fuel) want n ≡ grow fuel want (n * 2)
unfolding grow
grow_step fuel want n h i = ground arith

-- It returns while the wanted size is at most 2 ^ 30: the fuel lasts and no doubling overflows.
pub grow_total :
    (fuel want cap : ℕ)
    → 1 ≤ cap
    → cap < int_limit
    → want ≤ 1_073_741_824
    → want - cap < fuel
    → (c : ℕ) × (grow fuel want cap ≡ some c)
unfolding grow
grow_total zero want n p h w f = absurd (omega arith)
grow_total (suc fuel) want n p h w f = elim (Bool-cases (ltb n want)) [
  | inr big ↦ (n, rw (big, grow))
  | inl small ↦
      let (c, e) = grow_total fuel want (n * 2) (omega arith) (ground arith) w (ground arith) in
      (c, grow_step fuel want n (ground arith) (ground arith) ∙ e)
]

-- A resize keeps the indices and the bytes, and makes the room that was asked for.
pub record Resized (b r : Buffer) (want : ℕ) : Type 0 where
  pub valid : IsValid r
  pub room : want ≤ r.cap
  pub same_start : r.start ≡ b.start
  pub same_offset : r.offset ≡ b.offset
  pub same_bytes : (k : ℕ) → b.start ≤ k → ◌≡◌ {A = ℕ} (get_or r.store k 0) (get_or b.store k 0)

module _ (b : Buffer) (v : IsValid b) where
  enlarged : ℕ → Buffer
  enlarged c = record b {
    cap = c;
    store = copy_range (b.offset - b.start) b.start b.store (replicate c 0);
  }

  enlarged_bytes :
      (c k : ℕ)
      → b.cap ≤ c
      → get_or (enlarged c).store k 0
        ≡ (if leb b.start k && ltb k b.offset then get_or b.store k 0 else 0)
  unfolding enlarged
  enlarged_bytes c k h =
      let o = v.ordered in
      let w = v.within in
      ground (
        arith,
        length-replicate c (let z : ℕ = 0 in z),
        get_or-copy_range (b.offset - b.start) b.start b.store (replicate c 0) k,
        get_or-replicate c k,
      )

  enlarged-Resized :
      (c want : ℕ) → b.cap ≤ c → c < int_limit → want ≤ c → Resized b (enlarged c) want
  unfolding enlarged
  enlarged-Resized c want h i w = record {
    valid = record {
      ordered = v.ordered;
      within = let w = v.within in omega arith;
      sized =
          length-copy_range (b.offset - b.start) b.start b.store (replicate c 0)
          ∙ length-replicate c 0;
      positive = let p = v.positive in omega arith;
      int_cap = i;
      zero_tail = λ k t. ground (arith, enlarged_bytes c k h);
    };
    room = w;
    same_start = refl;
    same_offset = refl;
    same_bytes = λ k s. ground (arith, enlarged_bytes c k h, v.zero_tail k);
  }

  pub resize-Resized : (want : ℕ) (r : Buffer) → resize b want ≡ some r → Resized b r want
  unfolding resize enlarged
  resize-Resized want r e = elim (Bool-cases (leb want b.cap)) [
    | inl enough ↦
        let same : b ≡ r = ground arith in
        let kept : Resized b b want = record {
          valid = v;
          room = ground arith;
          same_start = refl;
          same_offset = refl;
          same_bytes = λ k _. refl;
        } in
        subst (λ x. Resized b x want) same kept
    | inr short ↦ elim (Option-cases (grow want want (base_cap b.cap))) [
      | inl stopped ↦ cc (rw (short, stopped) at e)
      | inr (c, grown) ↦
          let made : enlarged c ≡ r = ground arith in
          let base : base_cap b.cap ≡ b.cap = let p = v.positive in ground arith in
          let grown' : grow want want b.cap ≡ some c = rw base at grown in
          let (w, h, i) = grow_sound want want b.cap c v.int_cap grown' in
          subst (λ x. Resized b x want) made (enlarged-Resized c want h i w)
    ]
  ]

  resize_grown :
      (want c : ℕ)
      → b.cap < want
      → grow want want b.cap ≡ some c
      → resize b want ≡ some (enlarged c)
  unfolding resize enlarged
  resize_grown want c h e =
      let short : leb want b.cap ≡ false = ground arith in
      let base : base_cap b.cap ≡ b.cap = let p = v.positive in ground arith in rw (short, base, e)

  pub resize_total : (want : ℕ) → want ≤ 1_073_741_824 → (r : Buffer) × (resize b want ≡ some r)
  unfolding resize
  resize_total want h = elim (Bool-cases (leb want b.cap)) [
    | inl enough ↦ (b, rw enough)
    | inr short ↦
        let (c, e) =
          grow_total want want b.cap v.positive v.int_cap h (let p = v.positive in ground arith) in
        (enlarged c, resize_grown want c (ground arith) e)
  ]
