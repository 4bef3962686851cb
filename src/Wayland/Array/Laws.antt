-- ===== src/Wayland/Array/Laws.antt =====
-- What wl_array_add and wl_array_copy promise.
use native.Mathlib.Nat.{pow-suc, mod-eq_of_lt}
use mathlib.Core.List.{append-nil}
use k1os.Prelude.{
  Succeeds, succeeds, Succeeds-bind, Succeeds-map, ◌∷◌, Succeeds-if, ℕ, zero, suc, ◌+◌, ◌-◌, ◌*◌,
  ◌%◌, ◌^◌, ◌≤◌, ◌<◌, ◌≡◌, refl, ◌⊎◌, inl, inr, Bool, true, false, none, some, List, [], ◌++◌,
  arith, two-pow-pos, ltb, ltb→ge, ltb→lt, lt→ltb, le→ltb, if◌then◌else◌, length, length-append,
  drop, take, drop_all, length-take, dec_lt, ap, ◌∙◌,
}
use k1os.Wayland.Array.{Array, grow, grow_fuel, array_add, array_copy}

-- Room for `need` bytes, got by doubling `alloc` no further than needed.
abbrev pub Grown : ℕ → ℕ → ℕ → Type 0
Grown alloc need r = (need ≤ r) × (alloc ≤ r) × ((r ≡ alloc) ⊎ (r < 2 * need) × (alloc < need))

grow-step :
    (fuel alloc need : ℕ)
    → alloc < need
    → alloc * 2 < 2 ^ 64
    → grow (suc fuel) alloc need ≡ grow fuel (alloc * 2) need
unfolding grow
grow-step fuel alloc need h p =
    rw (lt→ltb alloc need h) (ap (λ k. grow fuel k need) (mod-eq_of_lt p))

grow_bounds :
    (fuel alloc need : ℕ)
    → 0 < alloc
    → need ≤ 2 ^ 63
    → need ≤ alloc * 2 ^ fuel
    → (r : ℕ) × (grow (suc fuel) alloc need ≡ some r) × Grown alloc need r
unfolding grow
grow_bounds zero alloc need p h k = (alloc, ground (arith, le→ltb alloc need), ground arith)
grow_bounds (suc fuel) alloc need p h k = elim (dec_lt alloc need) [
  | yes lt ↦
      let k' = rw (pow-suc 2 fuel) at k in
      let (r, run, b) = grow_bounds fuel (alloc * 2) need (omega arith) h (omega arith) in
      (r, grow-step (suc fuel) alloc need lt (omega arith) ∙ run, ground arith)
  | no ge ↦ (alloc, rw (le→ltb alloc need (omega arith)), ground arith)
]

grow_enough :
    (alloc need : ℕ)
    → 0 < alloc
    → need ≤ 2 ^ 63
    → (r : ℕ) × (grow grow_fuel alloc need ≡ some r) × Grown alloc need r
grow_enough alloc need p h = grow_bounds 64 alloc need p h (omega arith)

-- A doubling that has reached 0 stays there.
grow-zero : (fuel need : ℕ) → 0 < need → grow fuel 0 need ≡ none
unfolding grow
grow-zero zero need h = refl
grow-zero (suc fuel) need h = rw (lt→ltb 0 need h) (grow-zero fuel need h)

grow-power :
    (j fuel alloc need : ℕ)
    → alloc * 2 ^ j ≡ 2 ^ 64
    → 2 ^ 63 < need
    → grow fuel (alloc % 2 ^ 64) need ≡ none
unfolding grow
grow-power zero fuel alloc need e h =
    let all : alloc % 2 ^ 64 ≡ 0 = omega arith in rw all (grow-zero fuel need (omega arith))
grow-power (suc j) zero alloc need e h = refl
grow-power (suc j) (suc fuel) alloc need e h =
    let e' = rw (pow-suc 2 j) at e in
    let half : alloc * 2 * 2 ^ j ≡ 2 ^ 64 = omega arith in
    let pos : 0 < 2 ^ j = two-pow-pos j in
    let small : alloc * 2 ≤ 2 ^ 64 = grind arith in
    let wrap : alloc % 2 ^ 64 ≡ alloc = omega arith in
    rw (wrap, lt→ltb alloc need (omega arith)) (grow-power j fuel (alloc * 2) need half h)

-- `esize` is the size of an element.
pub record IsArray {ℓ} {A : Type ℓ} (esize : ℕ) (a : Array A) : Type 0 where
  pub sized : a.size ≡ esize * length a.items
  pub fits : a.size ≤ a.alloc

-- A request for memory, of at least so many bytes, is refused.
pub record IsRefused (can_alloc : ℕ → Bool) (need : ℕ) : Type 0 where
  pub asked : ℕ
  pub enough : need ≤ asked
  pub refused : can_alloc asked ≡ false

module _ {A : Type 0} where
  -- The outcome of wl_array_add: the elements with the new ones behind them, or no change.
  abbrev pub Added : (ℕ → Bool) → ℕ → List A → Array A → Bool × Array A → Type 0
  Added can_alloc esize fresh a (true, r) =
      IsArray esize r
      × (r.items ≡ a.items ++ fresh)
      × ((r.alloc ≡ a.alloc) ⊎ ((a.alloc < r.alloc) × (can_alloc r.alloc ≡ true)))
  Added can_alloc esize fresh a (false, r) =
      (r ≡ a)
      × (a.alloc ≤ a.size + esize * length fresh)
      × IsRefused can_alloc (a.size + esize * length fresh)

  items-empty : (esize : ℕ) (a : Array A) → 0 < esize → IsArray esize a → a.alloc ≡ 0 → a.items ≡ []
  items-empty esize a p v e = elim (dec_lt 0 (length a.items)) [
    | yes q ↦ absurd (grind arith)
    | no q ↦ grind arith
  ]

  abbrev start : Array A → ℕ
  start a = if ltb 0 a.alloc then a.alloc else 16

  add_from :
      (can_alloc : ℕ → Bool) (esize : ℕ) (fresh : List A) (a : Array A) (r : ℕ)
      → 0 < esize
      → IsArray esize a
      → a.size + esize * length fresh ≤ 2 ^ 63
      → grow grow_fuel (start a) ((a.size + esize * length fresh) % 2 ^ 64) ≡ some r
      → Grown (start a) (a.size + esize * length fresh) r
      → Succeeds
          (Added can_alloc esize fresh a)
          (array_add can_alloc (esize * length fresh) fresh a)
  unfolding array_add
  add_from can_alloc esize fresh a r p v h run b = rw run (
      Succeeds-if (ltb a.alloc r)
        (λ e.
          Succeeds-if (can_alloc r)
            (λ met. succeeds (
              record { sized = rw (kept, length-append) (omega arith); fits = omega arith },
              rw kept,
              inr (ltb→lt a.alloc r e, met),
            ))
            (λ unmet. succeeds (
              refl,
              grown (ltb→lt a.alloc r e),
              record { asked = r; enough = b.0; refused = unmet },
            )))
        (λ e. succeeds (
          record {
            sized = rw length-append (omega arith);
            fits = omega (arith, ltb→ge a.alloc r e);
          },
          refl,
          inl refl,
        )))
    where
      kept : (if ltb 0 a.alloc then a.items else []) ≡ a.items
      kept = ground (arith, items-empty esize a p v)

      grown : a.alloc < r → a.alloc ≤ a.size + esize * length fresh
      grown q = ground arith

  -- Adding to a sound array, up to 2 ^ 63 bytes in all, ends. The array then has room for its size
  -- and holds the new elements behind the old ones, in the memory that it had or in more, which was
  -- given; or a request for memory that is enough for them is refused, which only happens where the
  -- array has no room to spare, and nothing changes.
  pub array_add-Added :
      (can_alloc : ℕ → Bool) (esize : ℕ) (fresh : List A) (a : Array A)
      → 0 < esize
      → IsArray esize a
      → a.size + esize * length fresh ≤ 2 ^ 63
      → Succeeds
          (Added can_alloc esize fresh a)
          (array_add can_alloc (esize * length fresh) fresh a)
  array_add-Added can_alloc esize fresh a p v h =
      let sum : (a.size + esize * length fresh) % 2 ^ 64 ≡ a.size + esize * length fresh =
        omega arith in
      let (r, run, b) = grow_enough (start a) (a.size + esize * length fresh) (ground arith) h in
      add_from can_alloc esize fresh a r p v h (rw sum run) b

  -- The outcome of wl_array_copy, for elements of one byte.
  abbrev pub Copied : Array A → Array A → Bool × Array A → Type 0
  Copied a source (true, r) = IsArray 1 r × (r.items ≡ source.items)
  Copied a source (false, r) = r ≡ a

  -- The memcpy of wl_array_copy over an array of the source's length.
  overwritten :
      (n : ℕ) (xs ys : List A)
      → n ≡ length xs
      → length ys ≡ length xs
      → (if ltb 0 n then xs ++ drop n ys else ys) ≡ xs
  overwritten n [] [] e f = ground arith
  overwritten n [] (y ∷ ys) e f = absurd (omega arith)
  overwritten n (x ∷ xs) ys e f =
      rw (lt→ltb 0 n (omega arith), drop_all n ys (omega arith), append-nil)

  -- The end of wl_array_copy, once the array has the source's size.
  fill_copied :
      (b source : Array A)
      → IsArray 1 b
      → IsArray 1 source
      → b.size ≡ source.size
      → (if ltb 0 source.size then source.items ++ drop source.size b.items else b.items)
        ≡ source.items
  fill_copied b source v w e =
      overwritten source.size source.items b.items (omega arith) (omega arith)

  -- Copying between sound arrays of bytes, up to 2 ^ 63 of them, ends. The target then holds what
  -- the source holds and has room for its size, or it is unchanged.
  pub array_copy-Copied :
      (can_alloc : ℕ → Bool) (fresh : List A) (a source : Array A)
      → IsArray 1 a
      → IsArray 1 source
      → source.size ≤ 2 ^ 63
      → length fresh ≡ source.size - a.size
      → Succeeds (Copied a source) (array_copy can_alloc fresh a source)
  unfolding array_copy
  array_copy-Copied can_alloc fresh a source v w h f = Succeeds-bind resize finish
    where
      Sized : Bool × Array A → Type 0
      Sized (true, b) = IsArray 1 b × (b.size ≡ source.size)
      Sized (false, b) = Unit

      grown : a.size < source.size → (r : Bool × Array A) → Added can_alloc 1 fresh a r → Sized r
      grown lt (true, b) (u, i, m) = (u, omega (arith, ap length i, length-append a.items fresh))
      grown lt (false, b) u = tt

      resize : Succeeds Sized (
          if ltb a.size source.size
          then array_add can_alloc (source.size - a.size) fresh a
          else some (true, record a { size = source.size; items = take source.size a.items }))
      resize =
          Succeeds-if (ltb a.size source.size)
            (λ e.
              let lt = ltb→lt a.size source.size e in
              let one : 1 * length fresh ≡ source.size - a.size = omega (arith, f) in
              Succeeds-map
                (rw one at (array_add-Added can_alloc 1 fresh a (omega arith) v (omega arith)))
                (grown lt))
            (λ e.
              let ge = ltb→ge a.size source.size e in
              succeeds (
                record {
                  sized = omega (arith, length-take source.size a.items);
                  fits = omega arith;
                },
                refl,
              ))

      finish :
          (r : Bool × Array A)
          → Sized r
          → Succeeds (Copied a source) (
              if r.0
              then some (
                true,
                record r.1 {
                  items =
                      if ltb 0 source.size
                      then source.items ++ drop source.size r.1.items
                      else r.1.items;
                },
              )
              else some (false, a))
      finish (true, b) (u, e) =
          let same = fill_copied b source u w e in
          succeeds (record { sized = rw same (omega arith); fits = u.fits }, same)
      finish (false, b) u = succeeds refl

-- The loop that doubles the first allocation of 16 bytes does not end for a size past 2 ^ 63,
-- whatever the fuel.
pub grow-diverges : (fuel need : ℕ) → 2 ^ 63 < need → grow fuel 16 need ≡ none
grow-diverges fuel need h = grow-power 60 fuel 16 need refl h
