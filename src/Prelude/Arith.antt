-- ===== src/Prelude/Arith.antt =====
-- Facts about powers and remainders.
use Prim.Native.Nat.{ℕ, zero, suc, ◌+◌, ◌-◌, ◌*◌, ◌%◌, ◌^◌, ◌≤◌, ◌<◌}
use mathlib.Core.Path.{◌≡◌, ap, ◌∙◌}
use native.Mathlib.Nat.{pow-suc, add-zero, add-suc, mod-mod_of_dvd, dvd-mul_right}
use native.Mathlib.Omega.{arith}

pub two-pow-pos : (j : ℕ) → 0 < 2 ^ j
two-pow-pos zero = omega arith
two-pow-pos (suc j) = omega (arith, pow-suc 2 j, two-pow-pos j)

pub two-pow-add : (k j : ℕ) → 2 ^ (k + j) ≡ 2 ^ k * 2 ^ j
two-pow-add k zero = rw (add-zero k) (omega arith)
two-pow-add k (suc j) =
    rw (add-suc k j, pow-suc 2 (k + j), pow-suc 2 j, two-pow-add k j) (omega arith)

pub mod-mod_pow : (k x : ℕ) → k ≤ 64 → x % 2 ^ 64 % 2 ^ k ≡ x % 2 ^ k
mod-mod_pow k x h =
    let e : 64 ≡ k + (64 - k) = omega arith in
    let whole : 2 ^ 64 ≡ 2 ^ k * 2 ^ (64 - k) = ap (λ (n : ℕ). 2 ^ n) e ∙ two-pow-add k (64 - k) in
    mod-mod_of_dvd (2 ^ k) x (rw whole (dvd-mul_right (2 ^ k) (2 ^ (64 - k))))

pub two-pow_mono : (k j : ℕ) → k ≤ j → 2 ^ k ≤ 2 ^ j
two-pow_mono k j h =
    let e : j ≡ k + (j - k) = omega arith in
    rw (ap (λ (n : ℕ). 2 ^ n) e, two-pow-add k (j - k)) (grind (arith, two-pow-pos (j - k)))
