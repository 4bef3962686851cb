-- ===== src/Wayland/Shm/Bounds.antt =====
-- The test of shm_pool_create_buffer of packages/wayland/build/src/wayland-shm.c on the numbers of a buffer.
use native.Mathlib.Nat.{le-div_iff_mul-le, div-lt_iff_lt-mul, mul_comm}
use k1os.Prelude.{
  ℕ, zero, suc, ◌+◌, ◌*◌, ◌/◌, ◌≤◌, ◌<◌, ◌≡◌, ◌↔◌, subst, ◌⊎◌, inl, inr, true, not, ◌||◌, arith,
  ltb, ◌==◌, Bool-cases, ltb→lt, ltb→ge,
}
use k1os.Wayland.Shm.{ℤ, pos, negsuc, int32_max, is_valid_shape}

-- The rows are there, none is shorter than its width, and all of them lie in the mapping.
abbrev pub Fits : ℤ → ℤ → ℤ → ℤ → ℕ → Type 0
Fits (pos offset) (pos width) (pos height) (pos stride) size =
    (1 ≤ width)
    × (1 ≤ height)
    × (width ≤ stride)
    × (stride * height ≤ int32_max)
    × (offset + stride * height ≤ size)
Fits _ _ _ _ size = ⊥

-- Either test on the bytes of a buffer, where they are `bytes`, and `rows` of them are allowed.
div-cases :
    (stride height : ℕ)
    → 0 < stride
    → ((height ≤ int32_max / stride) × (stride * height ≤ int32_max))
      ⊎ ((int32_max / stride < height) × (int32_max < stride * height))
div-cases stride height h = elim (Bool-cases (ltb (int32_max / stride) height)) [
  | inl e ↦
      let less = ltb→lt (int32_max / stride) height e in
      inr (
        less,
        subst (λ (n : ℕ). int32_max < n) (mul_comm height stride) ((div-lt_iff_lt-mul h).0 less),
      )
  | inr e ↦
      let most = ltb→ge (int32_max / stride) height e in
      inl (
        most,
        subst (λ (n : ℕ). n ≤ int32_max) (mul_comm height stride) ((le-div_iff_mul-le h).0 most),
      )
]

-- The test, where `rows` stands for the quotient and `bytes` for the product.
test_iff :
    (o w h s size rows bytes : ℕ)
    → (0 < s → ((h ≤ rows) × (bytes ≤ int32_max)) ⊎ ((rows < h) × (int32_max < bytes)))
    → (not ((w == 0) || (h == 0) || ltb s w || ltb rows h || ltb size (o + bytes)) ≡ true)
      ↔ ((1 ≤ w) × (1 ≤ h) × (w ≤ s) × (bytes ≤ int32_max) × (o + bytes ≤ size))
test_iff o w h zero size rows bytes link = ground arith
test_iff o w h (suc s) size rows bytes link = elim (link (omega arith)) [
  | inl fits ↦ ground arith
  | inr over ↦ ground arith
]

-- The test accepts the numbers of a buffer where and only where they are natural, the buffer has rows
-- that are no shorter than its width, its bytes are no more than the largest int32_t, and they lie in
-- the mapping.
pub is_valid_shape_iff :
    (offset width height stride : ℤ) (size : ℕ)
    → (is_valid_shape offset width height stride size ≡ true) ↔ Fits offset width height stride size
unfolding is_valid_shape
is_valid_shape_iff (pos o) (pos w) (pos h) (pos s) size =
    test_iff o w h s size (int32_max / s) (s * h) (div-cases s h)
is_valid_shape_iff (negsuc _) _ _ _ size = ground arith
is_valid_shape_iff (pos _) (negsuc _) _ _ size = ground arith
is_valid_shape_iff (pos _) (pos _) (negsuc _) _ size = ground arith
is_valid_shape_iff (pos _) (pos _) (pos _) (negsuc _) size = ground arith
