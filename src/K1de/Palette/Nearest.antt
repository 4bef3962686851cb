-- ===== src/K1de/Palette/Nearest.antt =====
-- The search of nearest_16 in packages/k1de/src/main.rs.
use native.Mathlib.Nat.{mul-le-mul, mod-lt}
use k1os.Prelude.{
  ℕ, zero, suc, ◌+◌, ◌-◌, ◌*◌, ◌^◌, ◌%◌, ◌/◌, ◌≤◌, ◌<◌, ◌≡◌, refl, subst, List, [], ◌∷◌, arith,
  length, get_or, dec_lt, lt→ltb, le→ltb,
}
use k1os.K1de.Palette.{palette, red, green, blue, squared, dist, nearest_from, nearest_16}

squared_le : (a b : ℕ) → a < 256 → b < 256 → squared a b ≤ 255 * 255
squared_le a b ha hb = let d : a - b + (b - a) ≤ 255 = omega arith in mul-le-mul d d

byte_lt : (n : ℕ) → n % 256 < 256
byte_lt n = mod-lt n (omega arith)

-- The search starts above every distance.
dist_lt : (color p : ℕ) → dist color p < 2 ^ 31 - 1
unfolding dist
dist_lt color p = omega (
  arith,
  squared_le (red color) (red p) (byte_lt (color / 2 ^ 16)) (byte_lt (p / 2 ^ 16)),
  squared_le (green color) (green p) (byte_lt (color / 2 ^ 8)) (byte_lt (p / 2 ^ 8)),
  squared_le (blue color) (blue p) (byte_lt color) (byte_lt p),
)

-- The result `r` of a search among the entries `ps`, the first of them with the number `i`.
data Found (color i best best_dist r : ℕ) (ps : List ℕ) : Type 0 where
  kept :
      r ≡ best
      → ((k : ℕ) → k < length ps → best_dist ≤ dist color (get_or ps k 0))
      → Found color i best best_dist r ps
  closer :
      (j : ℕ)
      → j < length ps
      → r ≡ i + j
      → dist color (get_or ps j 0) < best_dist
      → ((k : ℕ) → k < length ps → dist color (get_or ps j 0) ≤ dist color (get_or ps k 0))
      → Found color i best best_dist r ps

-- A bound on all entries from one on the first and one on the others.
at_every :
    (color b p : ℕ) (ps : List ℕ)
    → b ≤ dist color p
    → ((k : ℕ) → k < length ps → b ≤ dist color (get_or ps k 0))
    → (k : ℕ) → k < length (p ∷ ps)
    → b ≤ dist color (get_or (p ∷ ps) k 0)
at_every color b p ps h hs zero l = h
at_every color b p ps h hs (suc k) l = hs k (omega arith)

module _ (color i best best_dist r p : ℕ) (ps : List ℕ) where
  Found-closer :
      dist color p < best_dist
      → Found color (i + 1) i (dist color p) r ps
      → Found color i best best_dist r (p ∷ ps)
  Found-closer h (kept e all) =
      closer 0 (omega arith) (omega (arith, e)) h (at_every color _ p ps (omega arith) all)
  Found-closer h (closer j l e d all) =
      closer (suc j) (omega arith) (omega (arith, e)) (omega (arith, d, h))
        (at_every color _ p ps (omega (arith, d)) all)

  Found-other :
      best_dist ≤ dist color p
      → Found color (i + 1) best best_dist r ps
      → Found color i best best_dist r (p ∷ ps)
  Found-other h (kept e all) = kept e (at_every color _ p ps h all)
  Found-other h (closer j l e d all) =
      closer (suc j) (omega arith) (omega (arith, e)) d
        (at_every color _ p ps (omega (arith, d, h)) all)

nearest_from-Found :
    (color i best best_dist : ℕ) (ps : List ℕ)
    → Found color i best best_dist (nearest_from color i ps best best_dist) ps
unfolding nearest_from
nearest_from-Found color i best best_dist [] = kept refl (λ k l. absurd (omega arith))
nearest_from-Found color i best best_dist (p ∷ ps) = elim (dec_lt (dist color p) best_dist) [
  | yes h ↦ rw (lt→ltb (dist color p) best_dist h) (
      Found-closer color i best best_dist _ p ps h
        (nearest_from-Found color (i + 1) i (dist color p) ps))
  | no h ↦ rw (le→ltb (dist color p) best_dist (omega arith)) (
      Found-other color i best best_dist _ p ps (omega arith)
        (nearest_from-Found color (i + 1) best best_dist ps))
]

nearest_of-Found :
    (color r : ℕ)
    → Found color 0 0 (2 ^ 31 - 1) r palette
    → (r < 16)
      × ((k : ℕ) → k < 16 → dist color (get_or palette r 0) ≤ dist color (get_or palette k 0))
nearest_of-Found color r (kept e all) =
    absurd (omega (arith, all 0 (omega arith), dist_lt color (get_or palette 0 0)))
nearest_of-Found color r (closer j l e d all) =
    let same : j ≡ r = omega (arith, e) in
    (
      omega (arith, e, l),
      subst
          (λ n.
            (k : ℕ) → k < 16 → dist color (get_or palette n 0) ≤ dist color (get_or palette k 0))
          same all,
    )

-- For every colour and every index `k` into the palette, nearest_16 gives an index into the
-- palette whose entry is at least as near to the colour as the entry `k`, in the squared distance
-- of the three channels.
pub nearest_16_lem :
    (color k : ℕ)
    → k < 16
    → (nearest_16 color < 16)
      × (dist color (get_or palette (nearest_16 color) 0) ≤ dist color (get_or palette k 0))
unfolding nearest_16
nearest_16_lem color k h =
    let found = nearest_of-Found color _ (nearest_from-Found color 0 0 (2 ^ 31 - 1) palette) in
    (found.0, found.1 k h)
