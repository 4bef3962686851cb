-- ===== src/Wayland/Cyclic.antt =====
-- Positions round a block.
use native.Mathlib.Nat.{mod-add-mod, mod-eq_of_lt, mod-eq-sub-mod, mod-lt}
use k1os.Prelude.{
  ℕ, zero, suc, ◌+◌, ◌-◌, ◌%◌, ◌≤◌, ◌<◌, ◌≡◌, refl, ap, sym, ap₂, ◌∙◌, List, [], ◌∷◌, arith, ltb,
  if◌then◌else◌, length, get_or, take, drop, dec_lt, lt→ltb, le→ltb,
}

-- A step of at most `c` from a masked position.
pub mod-step :
    (t i c : ℕ)
    → 0 < c
    → i ≤ c
    → (t + i) % c ≡ (if ltb (t % c + i) c then t % c + i else t % c + i - c)
mod-step t i c p h = elim (dec_lt (t % c + i) c) [
  | yes q ↦ rw (lt→ltb _ _ q) (sym (mod-add-mod t c i) ∙ mod-eq_of_lt q)
  | no q ↦
      let r = mod-lt t p in
      rw (le→ltb (t % c + i) c (omega arith))
        (sym (mod-add-mod t c i) ∙ mod-eq-sub-mod (omega arith) ∙ mod-eq_of_lt (omega arith))
]

-- The `n` bytes from position `t` on, going round at `c`.
unfoldable pub window : List ℕ → ℕ → ℕ → ℕ → List ℕ
window xs c t zero = []
window xs c t (suc n) = get_or xs (t % c) 0 ∷ window xs c (t + 1) n

pub length-window : (xs : List ℕ) (c t n : ℕ) → length (window xs c t n) ≡ n
unfolding window
length-window xs c t zero = refl
length-window xs c t (suc n) = ap suc (length-window xs c (t + 1) n)

pub get_or-window :
    (xs : List ℕ) (c t n i : ℕ) → i < n → get_or (window xs c t n) i 0 ≡ get_or xs ((t + i) % c) 0
unfolding window
get_or-window xs c t zero i h = absurd (omega arith)
get_or-window xs c t (suc n) zero h = ap (λ k. get_or xs (k % c) 0) (omega arith)
get_or-window xs c t (suc n) (suc i) h =
    get_or-window xs c (t + 1) n i (omega arith) ∙ ap (λ k. get_or xs (k % c) 0) (omega arith)

-- Lists are equal that have the same length and the same elements.
pub list-ext :
    (xs ys : List ℕ)
    → length xs ≡ length ys
    → ((i : ℕ) → i < length xs → get_or xs i 0 ≡ get_or ys i 0)
    → xs ≡ ys
list-ext [] [] e h = refl
list-ext [] (y ∷ ys) e h = absurd (omega arith)
list-ext (x ∷ xs) [] e h = absurd (omega arith)
list-ext (x ∷ xs) (y ∷ ys) e h =
    ap₂ ◌∷◌ (h 0 (omega arith)) (list-ext xs ys (omega arith) (λ i p. h (suc i) (omega arith)))

pub take-window : (xs : List ℕ) (c t n k : ℕ) → k ≤ n → take k (window xs c t n) ≡ window xs c t k
unfolding window
take-window xs c t n zero h = refl
take-window xs c t zero (suc k) h = absurd (omega arith)
take-window xs c t (suc n) (suc k) h =
    ap (◌∷◌ (get_or xs (t % c) 0)) (take-window xs c (t + 1) n k (omega arith))

pub window-cong : (xs : List ℕ) (c t u n : ℕ) → t % c ≡ u % c → window xs c t n ≡ window xs c u n
unfolding window
window-cong xs c t u zero e = refl
window-cong xs c t u (suc n) e =
    let step : (t + 1) % c ≡ (u + 1) % c =
      sym (mod-add-mod t c 1) ∙ ap (λ k. (k + 1) % c) e ∙ mod-add-mod u c 1 in
    ap₂ (λ k rest. get_or xs k 0 ∷ rest) e (window-cong xs c (t + 1) (u + 1) n step)

pub drop-window :
    (xs : List ℕ) (c t n k : ℕ) → k ≤ n → drop k (window xs c t n) ≡ window xs c (t + k) (n - k)
unfolding window
drop-window xs c t n zero h = ap₂ (window xs c) (omega arith) (omega arith)
drop-window xs c t zero (suc k) h = absurd (omega arith)
drop-window xs c t (suc n) (suc k) h =
    drop-window xs c (t + 1) n k (omega arith) ∙ ap₂ (window xs c) (omega arith) (omega arith)
