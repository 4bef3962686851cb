-- ===== src/Wayland/Ring/Space.antt =====
-- Growing and shrinking a ring buffer: what ring_buffer_ensure_space promises.
use native.Mathlib.Nat.{mod-eq_of_lt, add-zero}
use k1os.Prelude.{
  ℕ, zero, suc, ◌+◌, ◌-◌, ◌%◌, ◌^◌, ◌≤◌, ◌<◌, ◌≡◌, refl, sym, ap, ◌∙◌, ◌⊎◌, inl, inr, Bool, false,
  ◌&&◌, arith, ltb, lt→ltb, le→ltb, le→leb, ==_ne, ==_eq, ℕ_discrete, ◌==◌, if◌then◌else◌, length,
  get_or, length-replicate, take_all, replicate, dec_lt, two-pow_mono, Bool-cases,
}
use k1os.Wayland.Array.{size_mod}
use k1os.Wayland.Cyclic.{window, length-window, get_or-window, list-ext}
use k1os.Wayland.Block.{blit, length-blit, get_or-blit}
use k1os.Wayland.Ring.{
  Ring, capacity, default_size_pot, ring_size, ring_copy, max_size_bits_from,
  get_max_size_bits_for_size, get_bits_for_size, Ensured, ready, too_big, no_memory, ring_allocate,
  ring_ensure_space,
}
use k1os.Wayland.Ring.Contents.{IsRing, contents, length-contents, ring_copy_lem, capacity-bound}

max_size_bits_from-bounds :
    (rounds bits size : ℕ)
    → size ≤ 2 ^ (bits + rounds)
    → let r = max_size_bits_from rounds bits size in
      (size ≤ 2 ^ r) × (bits ≤ r) × (r ≤ bits + rounds)
unfolding max_size_bits_from
max_size_bits_from-bounds zero bits size h = (rw (add-zero bits) at h, omega arith, omega arith)
max_size_bits_from-bounds (suc rounds) bits size h = elim (dec_lt (2 ^ bits) size) [
  | yes p ↦
      let e : bits + suc rounds ≡ bits + 1 + rounds = omega arith in
      let ih = max_size_bits_from-bounds rounds (bits + 1) size (rw e at h) in
      rw (lt→ltb (2 ^ bits) size p) (ih.0, omega (arith, ih.1), omega (arith, ih.2))
  | no p ↦ rw (le→ltb (2 ^ bits) size (omega arith)) (omega arith, omega arith, omega arith)
]

max_size_bits_from-le :
    (rounds bits k size : ℕ) → bits ≤ k → size ≤ 2 ^ k → max_size_bits_from rounds bits size ≤ k
unfolding max_size_bits_from
max_size_bits_from-le zero bits k size h p = h
max_size_bits_from-le (suc rounds) bits k size h p = elim (dec_lt (2 ^ bits) size) [
  | yes q ↦
      let above : bits < k = elim (dec_lt bits k) [
        | yes l ↦ l
        | no l ↦ absurd (omega (arith, two-pow_mono k bits (omega arith)))
      ] in
      rw (lt→ltb (2 ^ bits) size q) (max_size_bits_from-le rounds (bits + 1) k size (omega arith) p)
  | no q ↦ rw (le→ltb (2 ^ bits) size (omega arith)) h
]

-- A number of bits is wanted that gives room for `size` bytes and is 62 at most.
abbrev Suffices : ℕ → ℕ → Type 0
Suffices size r = (size ≤ 2 ^ r) × (r ≤ 62)

Suffices-floor :
    (size w : ℕ)
    → Suffices size w
    → Suffices size (if ltb w default_size_pot then default_size_pot else w)
Suffices-floor size w (h, k) = elim (dec_lt w default_size_pot) [
  | yes p ↦
      rw (lt→ltb w default_size_pot p) (omega (arith, two-pow_mono w 12 (omega arith)), omega arith)
  | no p ↦ rw (le→ltb w default_size_pot (omega arith)) (h, k)
]

Suffices-wanted : (size : ℕ) → size ≤ 2 ^ 62 → Suffices size (get_max_size_bits_for_size size)
unfolding get_max_size_bits_for_size
Suffices-wanted zero h = omega arith
Suffices-wanted (suc k) h =
    let size = suc k in
    let e : default_size_pot + 52 ≡ 64 = refl in
    rw (==_ne size 0 (omega arith)) (
      (max_size_bits_from-bounds 52 default_size_pot size (omega arith)).0,
      max_size_bits_from-le 52 default_size_pot 62 size (omega arith) h,
    )

-- Without a limit that is met, the wanted bits; with it, the limit.
pub bits_for_size :
    (b : Ring) (net : ℕ)
    → net ≤ 2 ^ 62
    → b.max_size_bits ≤ 62
    → Suffices net (get_bits_for_size b net)
      ⊎ (get_bits_for_size b net ≡ b.max_size_bits) × (0 < b.max_size_bits)
unfolding get_bits_for_size
bits_for_size b net h m =
    limited _ (Suffices-floor net (get_max_size_bits_for_size net) (Suffices-wanted net h))
  where
    limited :
        (bits : ℕ)
        → Suffices net bits
        → let r =
            if ltb 0 b.max_size_bits && ltb b.max_size_bits bits then b.max_size_bits else bits in
          Suffices net r ⊎ (r ≡ b.max_size_bits) × (0 < b.max_size_bits)
    limited bits s = elim (Bool-cases (ltb 0 b.max_size_bits && ltb b.max_size_bits bits)) [
      | inl e ↦ rw e (inr (refl, ground arith))
      | inr e ↦ rw e (inl s)
    ]

-- The ring that ring_buffer_allocate leaves.
abbrev moved : Ring → ℕ → Ring
moved b size_bits = record b {
  buf = blit (replicate (2 ^ size_bits) 0) 0 (ring_copy b (ring_size b));
  size_bits = size_bits;
  head = ring_size b;
  tail = 0;
}

module _ (b : Ring) (size_bits : ℕ) (v : IsRing b) (small : size_bits ≤ 62)
    (fits : ring_size b ≤ 2 ^ size_bits) where
  whole : ring_copy b (ring_size b) ≡ contents b
  whole =
      ring_copy_lem b (ring_size b) v (omega arith)
      ∙ take_all (ring_size b) (contents b) (length-contents b)

  size-moved : ring_size (moved b size_bits) ≡ ring_size b
  unfolding ring_size
  size-moved = omega arith

  moved-IsRing : IsRing (moved b size_bits)
  moved-IsRing = record {
    sized = length-blit _ 0 _ ∙ length-replicate (2 ^ size_bits) 0;
    small = small;
    head_lt = omega (arith, capacity-bound b v, v.fits);
    tail_lt = omega arith;
    fits = rw size-moved fits;
  }

  zeros-blit :
      (i : ℕ)
      → i < length (contents b)
      → get_or (blit (replicate (2 ^ size_bits) 0) 0 (contents b)) i 0 ≡ get_or (contents b) i 0
  zeros-blit i p =
      let e : i - 0 ≡ i = omega arith in
      get_or-blit (replicate (2 ^ size_bits) 0) 0 (contents b) i
        (omega (arith, length-replicate {A = ℕ} (2 ^ size_bits) 0, length-contents b, fits))
      ∙ rw (le→leb 0 i (omega arith), lt→ltb i (0 + length (contents b)) (omega arith))
          (ap (λ k. get_or (contents b) k 0) e)

  contents-moved : contents (moved b size_bits) ≡ contents b
  contents-moved =
      let n = ring_size b in
      let l = length-contents b in
      ap (window (moved b size_bits).buf (2 ^ size_bits) 0) size-moved
      ∙ list-ext _ (contents b) (length-window (moved b size_bits).buf (2 ^ size_bits) 0 n ∙ sym l)
          λ i p.
            let q : i < n =
              omega (arith, p, length-window (moved b size_bits).buf (2 ^ size_bits) 0 n) in
            let at : (0 + i) % 2 ^ size_bits ≡ i = mod-eq_of_lt (omega arith) ∙ omega arith in
            get_or-window (moved b size_bits).buf (2 ^ size_bits) 0 n i q
            ∙ rw (at, whole) (zeros-blit i (omega (arith, q, l)))

-- How a request of ring_buffer_ensure_space for `count` bytes ends.
pub data Answered (can_alloc : ℕ → Bool) (b : Ring) (count : ℕ) : Ensured → Type 0 where
  given :
      {r : Ring}
      → IsRing r
      → contents r ≡ contents b
      → ring_size r + count ≤ capacity r
      → r.max_size_bits ≡ b.max_size_bits
      → Answered can_alloc b count (ready r)
  over_limit :
      0 < b.max_size_bits
      → 2 ^ b.max_size_bits < ring_size b + count
      → Answered can_alloc b count too_big
  out_of_memory : {n : ℕ} → can_alloc n ≡ false → Answered can_alloc b count no_memory

-- A request for `count` more bytes in a sound ring, of 2 ^ 62 bytes in all at most, gives a sound ring with the same bytes, the same
-- limit and that much room; or it fails, because the bytes exceed the limit or no memory is left.
pub ring_ensure_space_lem :
    (can_alloc : ℕ → Bool) (b : Ring) (count : ℕ)
    → IsRing b
    → b.max_size_bits ≤ 62
    → ring_size b + count ≤ 2 ^ 62
    → Answered can_alloc b count (ring_ensure_space can_alloc b count)
unfolding ring_ensure_space ring_allocate
ring_ensure_space_lem can_alloc b count v m h =
    let net : (ring_size b + count) % size_mod ≡ ring_size b + count = omega arith in
    rw net (
      choose (get_bits_for_size b (ring_size b + count))
        (bits_for_size b (ring_size b + count) h m))
  where
    within :
        {bits : ℕ} {net : ℕ}
        → Suffices net bits ⊎ (bits ≡ b.max_size_bits) × (0 < b.max_size_bits)
        → bits ≤ 62
    within (inl s) = s.1
    within (inr (e, _)) = omega arith

    kept :
        {bits : ℕ}
        → bits ≡ b.size_bits
        → ring_size b + count ≤ 2 ^ bits
        → ring_size b + count ≤ capacity b
    kept e room = rw e at room

    refused :
        {bits : ℕ}
        → Suffices (ring_size b + count) bits ⊎ (bits ≡ b.max_size_bits) × (0 < b.max_size_bits)
        → 2 ^ bits < ring_size b + count
        → Answered can_alloc b count too_big
    refused (inl s) p = absurd (omega (arith, s.0))
    refused (inr (e, q)) p = over_limit q (rw e at p)

    moves :
        {bits : ℕ}
        → bits ≤ 62
        → ring_size b + count ≤ 2 ^ bits
        → Answered can_alloc b count (ring_allocate can_alloc b bits)
    moves {bits} small room = elim (Bool-cases (can_alloc (2 ^ bits))) [
      | inl e ↦
          rw (e, ring_allocate)
            (given (moved-IsRing b bits v small (omega arith))
              (contents-moved b bits v small (omega arith))
              (rw (size-moved b bits v small (omega arith)) room) refl)
      | inr e ↦ rw (e, ring_allocate) (out_of_memory e)
    ]

    choose :
        (bits : ℕ)
        → Suffices (ring_size b + count) bits ⊎ (bits ≡ b.max_size_bits) × (0 < b.max_size_bits)
        → Answered can_alloc b count (
            if ltb (2 ^ bits) (ring_size b + count)
            then too_big
            else if bits == b.size_bits
            then ready b
            else ring_allocate can_alloc b bits)
    choose bits s = elim (dec_lt (2 ^ bits) (ring_size b + count)) [
      | yes p ↦ rw (lt→ltb (2 ^ bits) (ring_size b + count) p) (refused s p)
      | no p ↦
          rw (le→ltb (2 ^ bits) (ring_size b + count) (omega arith))
            (elim (ℕ_discrete bits b.size_bits) [
              | yes e ↦ rw (==_eq bits b.size_bits e) (given v refl (kept e (omega arith)) refl)
              | no ne ↦ rw (==_ne bits b.size_bits ne) (moves (within s) (omega arith))
            ])
    ]
