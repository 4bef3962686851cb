-- ===== src/Wayland/Ring/Contents.antt =====
-- The bytes that a ring buffer holds, oldest first, and what its operations do to them.
use native.Mathlib.Nat.{mod-lt}
use mathlib.Core.List.{append-nil, flatten}
use k1os.Prelude.{
  ℕ, zero, suc, ◌+◌, ◌-◌, ◌%◌, ◌^◌, ◌≤◌, ◌<◌, ◌≡◌, refl, sym, ap, ◌∙◌, List, [], ◌∷◌, ◌++◌, arith,
  lt→ltb, le→ltb, ==_ne, ==_eq, ℕ_discrete, le→leb, lt→leb, length, take, drop, dec_lt, dec_le,
  two-pow-pos, two-pow_mono, mod-mod_pow,
}
use k1os.Wayland.Array.{size_mod}
use k1os.Wayland.Cyclic.{mod-step, window, length-window, take-window, drop-window, window-cong}
use k1os.Wayland.Block.{
  slice-window, slices-window, blit_round, window-blit_round, length-blit_round,
}
use k1os.Wayland.Ring.{
  Ring, capacity, mask, ring_size, ring_put, ring_copy, ring_consume, ring_get_iov,
}

pub record IsRing (b : Ring) : Type 0 where
  pub sized : length b.buf ≡ capacity b
  pub small : b.size_bits ≤ 62
  pub head_lt : b.head < size_mod
  pub tail_lt : b.tail < size_mod
  pub fits : ring_size b ≤ capacity b

abbrev pub contents : Ring → List ℕ
contents b = window b.buf (capacity b) b.tail (ring_size b)

pub length-contents : (b : Ring) → length (contents b) ≡ ring_size b
length-contents b = length-window b.buf (capacity b) b.tail (ring_size b)

module _ (b : Ring) (v : IsRing b) where
  capacity-pos : 0 < capacity b
  capacity-pos = two-pow-pos b.size_bits

  pub capacity-bound : capacity b ≤ 2 ^ 62
  capacity-bound = two-pow_mono b.size_bits 62 v.small

  pub head-mask : mask b b.head ≡ (b.tail + ring_size b) % capacity b
  unfolding ring_size
  head-mask =
      let e : b.head ≡ (b.tail + ring_size b) % size_mod = omega (arith, v.head_lt, v.tail_lt) in
      ap (λ (n : ℕ). n % capacity b) e
      ∙ mod-mod_pow b.size_bits (b.tail + ring_size b) (omega (arith, v.small))

-- The ring after a put of `src`, which is not empty.
abbrev after_put : Ring → List ℕ → Ring
after_put b src = record b {
  buf = blit_round b.buf (capacity b) (mask b b.head) src;
  head = (b.head + length src) % size_mod;
}

module _ (b : Ring) (src : List ℕ) (v : IsRing b)
    (room : ring_size b + length src ≤ capacity b) where
  size-after_put : ring_size (after_put b src) ≡ ring_size b + length src
  unfolding ring_size
  size-after_put = omega (arith, v.head_lt, v.tail_lt, capacity-bound b v, room)

  contents-after_put : contents (after_put b src) ≡ contents b ++ src
  contents-after_put =
      ap (window (after_put b src).buf (capacity b) b.tail) size-after_put
      ∙ window-blit_round b.buf (capacity b) b.tail (ring_size b) (mask b b.head) src v.sized
          (capacity-pos b v) (head-mask b v) room

  after_put-IsRing : IsRing (after_put b src)
  after_put-IsRing = record {
    sized =
        length-blit_round b.buf (capacity b) (mask b b.head) src v.sized
          (mod-lt b.head (capacity-pos b v)) (omega (arith, room));
    small = v.small;
    head_lt = omega arith;
    tail_lt = v.tail_lt;
    fits = omega (arith, size-after_put, room);
  }

-- Bytes put into a sound ring with room for them stand behind those that it holds, also where they
-- go round the end of the block, and the ring stays sound.
pub ring_put_lem :
    (b : Ring) (src : List ℕ)
    → IsRing b
    → ring_size b + length src ≤ capacity b
    → (contents (ring_put b src) ≡ contents b ++ src) × IsRing (ring_put b src)
unfolding ring_put
ring_put_lem b [] v room = (sym (append-nil (contents b)), v)
ring_put_lem b (x ∷ src) v room =
    rw (==_ne (length (x ∷ src)) 0 (omega arith))
      (contents-after_put b (x ∷ src) v room, after_put-IsRing b (x ∷ src) v room)

-- Copying `count` bytes out of a sound ring that holds as many reads its oldest ones, in order.
pub ring_copy_lem :
    (b : Ring) (count : ℕ)
    → IsRing b
    → count ≤ ring_size b
    → ring_copy b count ≡ take count (contents b)
unfolding ring_copy
ring_copy_lem b zero v h = refl
ring_copy_lem b (suc k) v h =
    let c = capacity b in
    let n = suc k in
    let t = b.tail in
    rw (==_ne n 0 (omega arith), take-window b.buf c t (ring_size b) n h)
      (elim (dec_le (t % c + n) c) [
        | yes p ↦
            rw (le→leb (t % c + n) c p)
              (slice-window b.buf c t n v.sized (capacity-pos b v) (omega arith) p)
        | no p ↦
            rw (lt→leb (t % c + n) c (omega arith))
              (slices-window b.buf c t n v.sized (capacity-pos b v) (omega arith) (omega arith))
      ])

pub ring_size-ring_consume :
    (b : Ring) (count : ℕ)
    → IsRing b
    → count ≤ ring_size b
    → ring_size (ring_consume b count) ≡ ring_size b - count
unfolding ring_consume ring_size
ring_size-ring_consume b count v h = omega (arith, v.head_lt, v.tail_lt)

-- Consuming `count` bytes of a sound ring that holds as many drops its oldest ones, and the ring
-- stays sound.
pub ring_consume_lem :
    (b : Ring) (count : ℕ)
    → IsRing b
    → count ≤ ring_size b
    → (contents (ring_consume b count) ≡ drop count (contents b)) × IsRing (ring_consume b count)
unfolding ring_consume
ring_consume_lem b count v h =
    let size = ring_size-ring_consume b count v h in
    let c = capacity b in
    (
      ap (window b.buf c ((b.tail + count) % size_mod)) size
          ∙ window-cong b.buf c _ _ (ring_size b - count)
              (mod-mod_pow b.size_bits (b.tail + count) (omega (arith, v.small)))
          ∙ sym (drop-window b.buf c b.tail (ring_size b) count h),
      record {
        sized = v.sized;
        small = v.small;
        head_lt = v.head_lt;
        tail_lt = omega arith;
        fits = omega (arith, size, v.fits);
      },
    )

-- The parts that a vectored write sends are, in order, all the bytes of a sound ring that is not
-- empty.
pub ring_get_iov_lem :
    (b : Ring) → IsRing b → 0 < ring_size b → flatten (ring_get_iov b) ≡ contents b
unfolding ring_get_iov flatten
ring_get_iov_lem b v h =
    let c = capacity b in
    let n = ring_size b in
    let t = b.tail % c in
    let r = mod-lt b.tail (capacity-pos b v) in
    let e = head-mask b v in
    let s = mod-step b.tail n c (capacity-pos b v) v.fits in
    elim (dec_lt (t + n) c) [
      | yes p ↦
          let at : mask b b.head ≡ t + n = ground (arith, e, s) in
          let d : mask b b.head - t ≡ n = omega arith in
          rw (lt→ltb t (mask b b.head) (omega arith), d)
            (append-nil _
              ∙ slice-window b.buf c b.tail n v.sized (capacity-pos b v) v.fits (omega arith))
      | no p ↦
          let at : mask b b.head ≡ t + n - c = ground (arith, e, s) in
          rw (le→ltb t (mask b b.head) (omega (arith, v.fits)))
            (elim (ℕ_discrete (mask b b.head) 0) [
              | yes z ↦
                  let d : c - t ≡ n = omega arith in
                  rw (==_eq (mask b b.head) 0 z, d)
                    (append-nil _
                      ∙ slice-window b.buf c b.tail n v.sized (capacity-pos b v) v.fits
                          (omega arith))
              | no nz ↦
                  let d : mask b b.head ≡ n - (c - t) = omega arith in
                  rw (==_ne (mask b b.head) 0 nz, append-nil, d)
                    (slices-window b.buf c b.tail n v.sized (capacity-pos b v) v.fits (omega arith))
            ])
    ]
