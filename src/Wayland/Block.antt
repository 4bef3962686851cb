-- ===== src/Wayland/Block.antt =====
-- Blocks of memory as lists: memcpy into a block, and a part of one.
use native.Mathlib.Nat.{mod-lt}
use k1os.Prelude.{
  ℕ, zero, suc, ◌+◌, ◌-◌, ◌⊎◌, dec_lt, ◌%◌, ◌++◌, length-append, ◌≤◌, ◌<◌, ◌≡◌, refl, sym, lt→ltb,
  le→ltb, ap, ◌∙◌, ◌&&◌, List, [], ◌∷◌, arith, ltb, leb, if◌then◌else◌, length, get_or, take, drop,
  length-take, length-drop, dec_le, get_or-append, get_or-take, get_or-drop,
}
use k1os.Wayland.Cyclic.{mod-step, window, length-window, get_or-window, list-ext}

-- `memcpy(p + i, src, length of src)`, in a block.
unfoldable pub blit : List ℕ → ℕ → List ℕ → List ℕ
blit xs i [] = xs
blit [] i (y ∷ ys) = []
blit (x ∷ xs) zero (y ∷ ys) = y ∷ blit xs zero ys
blit (x ∷ xs) (suc i) (y ∷ ys) = x ∷ blit xs i (y ∷ ys)

-- The `n` bytes of a block from `i` on.
abbrev pub slice : List ℕ → ℕ → ℕ → List ℕ
slice xs i n = take n (drop i xs)

-- memcpy into a block of `c` bytes from `h` on, in two parts where the end of the block is met.
unfoldable pub blit_round : List ℕ → ℕ → ℕ → List ℕ → List ℕ
blit_round xs c h src =
    if leb (h + length src) c
    then blit xs h src
    else blit (blit xs h (take (c - h) src)) 0 (drop (c - h) src)

pub length-blit : (xs : List ℕ) (i : ℕ) (ys : List ℕ) → length (blit xs i ys) ≡ length xs
unfolding blit
length-blit xs i [] = refl
length-blit [] i (y ∷ ys) = refl
length-blit (x ∷ xs) zero (y ∷ ys) = ap suc (length-blit xs zero ys)
length-blit (x ∷ xs) (suc i) (y ∷ ys) = ap suc (length-blit xs i (y ∷ ys))

pub get_or-blit :
    (xs : List ℕ) (i : ℕ) (ys : List ℕ) (j : ℕ)
    → i + length ys ≤ length xs
    → get_or (blit xs i ys) j 0
      ≡ (if leb i j && ltb j (i + length ys) then get_or ys (j - i) 0 else get_or xs j 0)
unfolding blit
get_or-blit xs i [] j h = ground arith
get_or-blit [] i (y ∷ ys) j h = absurd (omega arith)
get_or-blit (x ∷ xs) zero (y ∷ ys) zero h = ground arith
get_or-blit (x ∷ xs) zero (y ∷ ys) (suc j) h =
    let e : suc j - 0 ≡ suc j = omega arith in
    let e' : j - 0 ≡ j = omega arith in rw e (ground (arith, get_or-blit xs zero ys j, e'))
get_or-blit (x ∷ xs) (suc i) (y ∷ ys) zero h = ground arith
get_or-blit (x ∷ xs) (suc i) (y ∷ ys) (suc j) h =
    let e : suc j - suc i ≡ j - i = omega arith in
    rw e (ground (arith, get_or-blit xs i (y ∷ ys) j))

pub get_or-slice :
    (xs : List ℕ) (i n j : ℕ) → j < n → get_or (slice xs i n) j 0 ≡ get_or xs (i + j) 0
get_or-slice xs i n j h = get_or-take n (drop i xs) j 0 h ∙ get_or-drop i xs j 0

pub length-slice : (xs : List ℕ) (i n : ℕ) → i + n ≤ length xs → length (slice xs i n) ≡ n
length-slice xs i n h = omega (arith, length-take n (drop i xs), length-drop i xs)

module _ (xs : List ℕ) (c h : ℕ) (src : List ℕ) (sized : length xs ≡ c) (hc : h < c)
    (room : length src ≤ c) where
  pub length-blit_round : length (blit_round xs c h src) ≡ c
  unfolding blit_round
  length-blit_round = ground (
    arith,
    length-blit xs h src,
    length-blit xs h (take (c - h) src),
    length-blit (blit xs h (take (c - h) src)) 0 (drop (c - h) src),
  )

  pub get_or-blit_round :
      (j : ℕ)
      → j < c
      → get_or (blit_round xs c h src) j 0 ≡ (
          if leb h j && ltb j (h + length src)
          then get_or src (j - h) 0
          else if ltb (j + c) (h + length src)
          then get_or src (j + c - h) 0
          else get_or xs j 0)
  unfolding blit_round
  get_or-blit_round j p = elim (dec_le (h + length src) c) [
    | yes q ↦ ground (arith, get_or-blit xs h src j)
    | no q ↦
        let first = take (c - h) src in
        let rest = drop (c - h) src in
        let start : j - 0 ≡ j = omega arith in
        let turn : c - h + j ≡ j + c - h = omega arith in
        ground (
          arith,
          start,
          turn,
          length-take (c - h) src,
          length-drop (c - h) src,
          length-blit xs h first,
          get_or-blit (blit xs h first) 0 rest j,
          get_or-blit xs h first j,
          get_or-take (c - h) src (j - h) 0,
          get_or-drop (c - h) src j 0,
        )
  ]

-- Where a position after a window of `n` falls in a block that is filled from its end `h` on.
module _ {A : Type 0} (src : ℕ → A) (old : A) where
  place :
      (j h i n c t l : ℕ)
      → j < c
      → h < c
      → t < c
      → (j ≡ t + i) ⊎ (j + c ≡ t + i) × (c ≤ t + i)
      → (h ≡ t + n) ⊎ (h + c ≡ t + n) × (c ≤ t + n)
      → i < n + l
      → n + l ≤ c
      → (if leb h j && ltb j (h + l)
          then src (j - h)
          else if ltb (j + c) (h + l)
          then src (j + c - h)
          else old)
        ≡ (if ltb i n then old else src (i - n))
  place j h i n c t l r rh r' k k' p room = elim (dec_lt i n) [
    | yes q ↦ ground arith
    | no q ↦ elim (dec_le h j) [
      | yes w ↦ let e : j - h ≡ i - n = omega arith in rw e (ground arith)
      | no w ↦ let e : j + c - h ≡ i - n = omega arith in rw e (ground arith)
    ]
  ]

-- What is copied to the end of a window extends it.
module _ (xs : List ℕ) (c t n h : ℕ) (src : List ℕ) (sized : length xs ≡ c) (pos : 0 < c)
    (at : h ≡ (t + n) % c) (room : n + length src ≤ c) where
  window-element :
      (i : ℕ)
      → i < n + length src
      → get_or (blit_round xs c h src) ((t + i) % c) 0
        ≡ (if ltb i n then get_or xs ((t + i) % c) 0 else get_or src (i - n) 0)
  window-element i p =
      let j = (t + i) % c in
      let r = mod-lt (t + i) pos in
      let r' = mod-lt t pos in
      let r'' = mod-lt (t + n) pos in
      let m = mod-step t i c pos (omega arith) in
      let m' = mod-step t n c pos (omega arith) in
      let g = get_or-blit_round xs c h src sized (rw at r'') (omega arith) j r in
      let k : (j ≡ t % c + i) ⊎ (j + c ≡ t % c + i) × (c ≤ t % c + i) = ground (arith, m) in
      let k' : (h ≡ t % c + n) ⊎ (h + c ≡ t % c + n) × (c ≤ t % c + n) = ground (arith, m', at) in
      g
      ∙ place (λ k. get_or src k 0) (get_or xs j 0) j h i n c (t % c) (length src) r (rw at r'') r'
          k k' p room

  pub window-blit_round :
      window (blit_round xs c h src) c t (n + length src) ≡ window xs c t n ++ src
  window-blit_round =
      list-ext _ _
        (omega (
          arith,
          length-window (blit_round xs c h src) c t (n + length src),
          length-window xs c t n,
          length-append (window xs c t n) src,
        ))
        λ i p.
          let q : i < n + length src =
            omega (arith, p, length-window (blit_round xs c h src) c t (n + length src)) in
          let new = get_or-window (blit_round xs c h src) c t (n + length src) i q in
          ground (
            arith,
            new,
            window-element i q,
            get_or-append (window xs c t n) src i 0,
            length-window xs c t n,
            get_or-window xs c t n i,
            ap (λ k. get_or src k 0) (ap (λ k. i - k) (length-window xs c t n)),
          )

-- `n` bytes round a block from `t` on, in one part or two.
module _ (xs : List ℕ) (c t n : ℕ) (sized : length xs ≡ c) (pos : 0 < c) (fits : n ≤ c) where
  pub slice-window : t % c + n ≤ c → slice xs (t % c) n ≡ window xs c t n
  slice-window h =
      list-ext _ _ (omega (arith, length-slice xs (t % c) n, length-window xs c t n)) λ i p.
        let q : i < n = omega (arith, p, length-slice xs (t % c) n) in
        let e : (t + i) % c ≡ t % c + i = ground (arith, mod-step t i c pos) in
        get_or-slice xs (t % c) n i q ∙ sym (get_or-window xs c t n i q ∙ ap (λ k. get_or xs k 0) e)

  pub slices-window :
      c ≤ t % c + n → slice xs (t % c) (c - t % c) ++ slice xs 0 (n - (c - t % c)) ≡ window xs c t n
  slices-window h =
      let r = mod-lt t pos in
      let first = slice xs (t % c) (c - t % c) in
      let rest = slice xs 0 (n - (c - t % c)) in
      let l = length-slice xs (t % c) (c - t % c) (omega arith) in
      let l' = length-slice xs 0 (n - (c - t % c)) (omega arith) in
      list-ext (first ++ rest) (window xs c t n)
        (omega (arith, l, l', length-append first rest, length-window xs c t n))
        λ i p.
          let q : i < n = omega (arith, p, l, l', length-append first rest) in
          let e = mod-step t i c pos (omega arith) in
          let seen = get_or-window xs c t n i q in
          get_or-append first rest i 0 ∙ elim (dec_lt i (length first)) [
            | yes w ↦
                let at : (t + i) % c ≡ t % c + i = ground (arith, e, l) in
                rw (lt→ltb i (length first) w) (
                  get_or-slice xs (t % c) (c - t % c) i (omega (arith, l))
                  ∙ sym (seen ∙ ap (λ k. get_or xs k 0) at))
            | no w ↦
                let at : (t + i) % c ≡ 0 + (i - length first) = ground (arith, e, l) in
                rw (le→ltb i (length first) (omega arith)) (
                  get_or-slice xs 0 (n - (c - t % c)) (i - length first) (omega (arith, l))
                  ∙ sym (seen ∙ ap (λ k. get_or xs k 0) at))
          ]
