-- ===== src/Wayland/Connection/Receive/Scatter.antt =====
-- The parts that ring_buffer_put_iov of packages/wayland/build/src/connection.c gives to a vectored read.
use native.Mathlib.Nat.{mod-lt}
use k1os.Prelude.{
  ℕ, zero, suc, ◌+◌, ◌-◌, ◌≤◌, ◌<◌, ◌≡◌, ◌⊎◌, inl, inr, refl, ap, ◌∙◌, List, [], ◌∷◌, arith, ltb,
  if◌then◌else◌, length, take, drop, drop_all, length-drop, dec_lt, dec_le, ℕ_discrete, lt→ltb,
  le→ltb, le→leb, lt→leb, ==_eq, ==_ne, two-pow-pos,
}
use k1os.Wayland.Cyclic.{mod-step}
use k1os.Wayland.Block.{blit, blit_round}
use k1os.Wayland.Ring.{Ring, ring_size, capacity, mask, ring_put_iov}
use k1os.Wayland.Ring.Contents.{IsRing, head-mask}
use k1os.Wayland.Connection.Receive.{scatter}

-- How many bytes the parts hold.
unfoldable pub room : List (ℕ × ℕ) → ℕ
room [] = 0
room ((offset, len) ∷ parts) = len + room parts

take_long : (n : ℕ) (xs : List ℕ) → length xs ≤ n → take n xs ≡ xs
take_long zero [] h = refl
take_long zero (x ∷ xs) h = absurd (omega arith)
take_long (suc n) [] h = refl
take_long (suc n) (x ∷ xs) h = ap (◌∷◌ x) (take_long n xs (omega arith))

blit-nil : (xs : List ℕ) → blit xs 0 [] ≡ xs
unfolding blit
blit-nil [] = refl
blit-nil (x ∷ xs) = refl

module _ (b : Ring) (v : IsRing b) (space : ring_size b < capacity b) where
  abbrev free : ℕ
  free = capacity b - ring_size b

  -- One part, or a part up to the end of the block and one from its start on.
  put_iov_cases :
      (ring_put_iov b ≡ (mask b b.head, free) ∷ []) × (mask b b.head + free ≤ capacity b)
      ⊎ (ring_put_iov b ≡ (mask b b.head, capacity b - mask b b.head) ∷ (0, mask b b.tail) ∷ [])
        × (capacity b - mask b b.head + mask b b.tail ≡ free)
  unfolding ring_put_iov
  put_iov_cases =
      let c = capacity b in
      let pos = two-pow-pos b.size_bits in
      let hd = mask b b.head in
      let tl = mask b b.tail in
      let r = mod-lt b.tail pos in
      let r' = mod-lt b.head pos in
      let at : hd ≡ (if ltb (tl + ring_size b) c then tl + ring_size b else tl + ring_size b - c) =
        head-mask b v ∙ mod-step b.tail (ring_size b) c pos v.fits in
      elim (dec_lt hd tl) [
        | yes p ↦
            let e : tl - hd ≡ free = ground (arith, at) in
            rw (lt→ltb hd tl p, e) (inl (refl, ground (arith, at)))
        | no p ↦ elim (ℕ_discrete tl 0) [
          | yes z ↦
              let e : c - hd ≡ free = ground (arith, at) in
              rw (le→ltb hd tl (omega arith), ==_eq tl 0 z, e) (inl (refl, ground (arith, at)))
          | no nz ↦ rw (le→ltb hd tl (omega arith), ==_ne tl 0 nz) (inr (refl, ground (arith, at)))
        ]
      ]

  module _ (bytes : List ℕ) where
    one_part :
        length bytes ≤ free
        → mask b b.head + free ≤ capacity b
        → scatter b.buf ((mask b b.head, free) ∷ []) bytes
          ≡ blit_round b.buf (capacity b) (mask b b.head) bytes
    unfolding scatter blit_round
    one_part h k =
        rw
          (le→leb (mask b b.head + length bytes) (capacity b) (omega arith), take_long free bytes h)
          refl

    two_parts :
        length bytes ≤ free
        → capacity b - mask b b.head + mask b b.tail ≡ free
        → scatter b.buf
            ((mask b b.head, capacity b - mask b b.head) ∷ (0, mask b b.tail) ∷ [])
            bytes
          ≡ blit_round b.buf (capacity b) (mask b b.head) bytes
    unfolding scatter blit_round
    two_parts h k =
        let hd = mask b b.head in
        let n = capacity b - hd in
        let below = mod-lt b.head (two-pow-pos b.size_bits) in
        elim (dec_le (hd + length bytes) (capacity b)) [
          | yes p ↦
              rw
                (
                  le→leb (hd + length bytes) (capacity b) p,
                  take_long n bytes (omega arith),
                  drop_all n bytes (omega arith),
                  take_long (mask b b.tail) [] (omega arith),
                )
                (blit-nil (blit b.buf hd bytes))
          | no p ↦
              rw
                (
                  lt→leb (hd + length bytes) (capacity b) (omega arith),
                  take_long (mask b b.tail) (drop n bytes) (omega (arith, length-drop n bytes)),
                )
                refl
        ]

  -- Bytes that fill the parts stand where ring_buffer_put would copy them.
  pub scatter-put_iov :
      (bytes : List ℕ)
      → length bytes ≤ room (ring_put_iov b)
      → (scatter b.buf (ring_put_iov b) bytes ≡ blit_round b.buf (capacity b) (mask b b.head) bytes)
        × (ring_size b + length bytes ≤ capacity b)
  unfolding room
  scatter-put_iov bytes h = elim put_iov_cases [
    | inl (e, k) ↦
        let few : length bytes ≤ free = omega (arith, ap room e, h) in
        (
          ap (λ (parts : List (ℕ × ℕ)). scatter b.buf parts bytes) e ∙ one_part bytes few k,
          omega arith,
        )
    | inr (e, k) ↦
        let few : length bytes ≤ free = omega (arith, ap room e, h) in
        (
          ap (λ (parts : List (ℕ × ℕ)). scatter b.buf parts bytes) e ∙ two_parts bytes few k,
          omega arith,
        )
  ]
