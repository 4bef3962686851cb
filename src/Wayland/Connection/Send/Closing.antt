-- ===== src/Wayland/Connection/Send/Closing.antt =====
-- Which descriptors close_fds of packages/wayland/build/src/connection.c closes.
use native.Mathlib.Nat.{
  mod-lt, mod-add-mod, mod-eq_of_lt, add-mod_left, mod-mod, mod-mod_of_dvd, dvd_of_mod-eq-zero,
}
use k1os.Prelude.{
  ℕ, zero, suc, ◌+◌, ◌-◌, ◌*◌, ◌/◌, ◌%◌, ◌^◌, ◌≤◌, ◌<◌, ◌≡◌, refl, sym, ap, ap₂, ◌∙◌, List, [], ◌∷◌,
  arith, ltb, leb, if◌then◌else◌, length, take, drop, get_or, dec_le, le→leb, lt→leb, ==_ne, ==_eq,
  ℕ_discrete, ◌&&◌, two-pow-pos, two-pow-add,
}
use k1os.Wayland.Word.{word_at, words}
use k1os.Wayland.Cyclic.{window, window-cong, take-window}
use k1os.Wayland.Ring.{Ring, ring_size, capacity, mask, ring_consume}
use k1os.Wayland.Ring.Contents.{IsRing, contents, ring_consume_lem, ring_size-ring_consume}
use k1os.Wayland.Connection.{close_from, ring_close_fds, close_fds}

-- A sound queue of whole descriptors.
pub record IsFds (b : Ring) : Type 0 where
  pub valid : IsRing b
  pub whole : ring_size b % 4 ≡ 0
  pub aligned : b.tail % 4 ≡ 0
  pub large : 2 ≤ b.size_bits

abbrev four : ℕ → ℕ
four n = suc (suc (suc (suc n)))

abbrev four_at : List ℕ → ℕ → List ℕ
four_at xs q = get_or xs q 0 ∷ get_or xs (q + 1) 0 ∷ get_or xs (q + 2) 0 ∷ get_or xs (q + 3) 0 ∷ []

word_at-drop :
    (xs : List ℕ) (q : ℕ) → q + 4 ≤ length xs → word_at (drop q xs) ≡ word_at (four_at xs q)
unfolding word_at
word_at-drop [] q h = absurd (omega arith)
word_at-drop (a ∷ []) zero h = absurd (omega arith)
word_at-drop (a ∷ b ∷ []) zero h = absurd (omega arith)
word_at-drop (a ∷ b ∷ c ∷ []) zero h = absurd (omega arith)
word_at-drop (a ∷ b ∷ c ∷ d ∷ xs) zero h = refl
word_at-drop (a ∷ xs) (suc q) h =
    let one : suc q + 1 ≡ suc (q + 1) = omega arith in
    let two : suc q + 2 ≡ suc (q + 2) = omega arith in
    let three : suc q + 3 ≡ suc (q + 3) = omega arith in
    rw (one, two, three) (word_at-drop xs q (omega arith))

-- A block of whole descriptors: the loop closes those of a window, in order.
module _ (xs : List ℕ) (c : ℕ) (sized : length xs ≡ c) (pos : 0 < c) (whole : c % 4 ≡ 0) where
  place :
      (p q i : ℕ) → p ≤ c → p % 4 ≡ 0 → q ≡ (if leb c p then 0 else p) → i < 4 → (p + i) % c ≡ q + i
  place p q i h a e k = elim (dec_le c p) [
    | yes w ↦
        let z : q ≡ 0 = e ∙ rw (le→leb c p w) refl in
        let t : p + i ≡ c + i = omega arith in
        ap (λ (n : ℕ). n % c) t ∙ add-mod_left c i ∙ mod-eq_of_lt (omega arith) ∙ omega arith
    | no w ↦
        let z : q ≡ p = e ∙ rw (lt→leb c p (omega arith)) refl in
        mod-eq_of_lt (omega arith) ∙ omega arith
  ]

  seen : (p q i j : ℕ) → (p + i) % c ≡ q + i → j ≡ p + i → get_or xs (j % c) 0 ≡ get_or xs (q + i) 0
  seen p q i j h e = ap (λ (n : ℕ). get_or xs (n % c) 0) e ∙ ap (λ (n : ℕ). get_or xs n 0) h

  close_from-window :
      (n p : ℕ) → p ≤ c → p % 4 ≡ 0 → close_from xs c n p ≡ words (window xs c p (n * 4))
  unfolding close_from words window
  close_from-window zero p h a = refl
  close_from-window (suc n) p h a =
      let e : suc n * 4 ≡ four (n * 4) = omega arith in
      let q : ℕ = if leb c p then 0 else p in
      let inside : q + 4 ≤ c = ground arith in
      let q_aligned : q % 4 ≡ 0 = ground arith in
      let zeroth : get_or xs (p % c) 0 ≡ get_or xs q 0 =
        seen p q 0 p (place p q 0 h a refl (omega arith)) (omega arith)
        ∙ ap (λ (k : ℕ). get_or xs k 0) (omega arith) in
      let first = seen p q 1 (p + 1) (place p q 1 h a refl (omega arith)) refl in
      let second = seen p q 2 (p + 1 + 1) (place p q 2 h a refl (omega arith)) (omega arith) in
      let third = seen p q 3 (p + 1 + 1 + 1) (place p q 3 h a refl (omega arith)) (omega arith) in
      let next : (q + 4) % c ≡ (p + 1 + 1 + 1 + 1) % c =
        ap (λ (k : ℕ). k % c) (omega (arith, place p q 3 h a refl (omega arith)))
        ∙ mod-add-mod (p + 3) c 1
        ∙ ap (λ (k : ℕ). k % c) (omega arith) in
      rw e (
        ap₂ ◌∷◌ (word_at-drop xs q (omega arith) ∙ sym (rw (zeroth, first, second, third) refl)) (
          close_from-window n (q + 4) inside (omega arith)
          ∙ ap words (window-cong xs c (q + 4) (p + 1 + 1 + 1 + 1) (n * 4) next)))

IsFds-capacity : (b : Ring) → IsFds b → capacity b % 4 ≡ 0
IsFds-capacity b v =
    let e : b.size_bits ≡ 2 + (b.size_bits - 2) = omega (arith, v.large) in
    let p : capacity b ≡ 2 ^ 2 * 2 ^ (b.size_bits - 2) =
      ap (λ (n : ℕ). 2 ^ n) e ∙ two-pow-add 2 (b.size_bits - 2) in
    omega (arith, p)

ring_close_fds-words :
    (b : Ring) (n : ℕ)
    → IsFds b
    → n * 4 ≤ ring_size b
    → ring_close_fds b n ≡ words (take (n * 4) (contents b))
unfolding ring_close_fds
ring_close_fds-words b n v h =
    let c = capacity b in
    let pos = two-pow-pos b.size_bits in
    let whole = IsFds-capacity b v in
    let r = mod-lt b.tail pos in
    close_from-window b.buf c v.valid.sized pos whole n (mask b b.tail) (omega (arith, r))
      (mod-mod_of_dvd 4 b.tail (dvd_of_mod-eq-zero 4 whole) ∙ v.aligned)
    ∙ ap words (
        window-cong b.buf c (b.tail % c) b.tail (n * 4) (mod-mod b.tail c)
        ∙ sym (take-window b.buf c b.tail (ring_size b) (n * 4) h))

-- How many descriptors are closed.
abbrev pub closing : Ring → ℕ → ℕ
closing b max = if ltb 0 max && ltb max (ring_size b / 4) then max else ring_size b / 4

-- The queue keeps what stands behind the descriptors that are closed.
pub record Closed (b : Ring) (max : ℕ) (r : Ring × List ℕ) : Type 0 where
  pub rest_lem : contents r.0 ≡ drop (closing b max * 4) (contents b)
  pub rest_valid : IsFds r.0
  pub closed_lem : r.1 ≡ words (take (closing b max * 4) (contents b))
  pub limit_lem : r.0.max_size_bits ≡ b.max_size_bits
  pub size_lem : ring_size r.0 ≡ ring_size b - closing b max * 4

pub closing_lem : (b : Ring) (max : ℕ) → ring_size b % 4 ≡ 0 → closing b max * 4 ≤ ring_size b
closing_lem b max h = ground arith

-- close_fds closes the oldest descriptors of a sound queue of whole ones, each once and in order:
-- all, or `max` of them where that is positive and fewer. They leave the queue, and the others stay.
pub close_fds_lem : (b : Ring) (max : ℕ) → IsFds b → Closed b max (close_fds b max)
unfolding close_fds
close_fds_lem b max v =
    let n = closing b max in
    let h = closing_lem b max v.whole in
    let consumed = ring_consume_lem b (n * 4) v.valid h in
    let size = ring_size-ring_consume b (n * 4) v.valid h in
    let after : Closed b max (ring_consume b (n * 4), ring_close_fds b n) = record {
      rest_lem = consumed.0;
      rest_valid = record {
        valid = consumed.1;
        whole = omega (arith, size, v.whole, h);
        aligned = unfold ring_consume in omega (arith, v.aligned);
        large = unfold ring_consume in v.large;
      };
      closed_lem = ring_close_fds-words b n v h;
      limit_lem = unfold ring_consume in refl;
      size_lem = size;
    } in
    elim (ℕ_discrete (ring_size b) 0) [
      | no ne ↦ rw (==_ne (ring_size b) 0 ne) after
      | yes e ↦
          let none_closed : n ≡ 0 = omega (arith, h) in
          rw (==_eq (ring_size b) 0 e) (record {
            rest_lem = rw none_closed refl;
            rest_valid = v;
            closed_lem = rw none_closed (unfold words in refl);
            limit_lem = refl;
            size_lem = omega (arith, h);
          })
    ]
