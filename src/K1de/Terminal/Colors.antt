-- ===== src/K1de/Terminal/Colors.antt =====
-- The colours of `Terminal::apply_sgr` of packages/k1de/src/main.rs, and the palette.
use k1os.Prelude.{
  ℕ, zero, suc, ◌+◌, ◌-◌, ◌%◌, ◌≤◌, ◌<◌, ◌≡◌, refl, ◌||◌, Bool, true, false, Option, none, some,
  List, [], ◌∷◌, arith, ◌==◌, get_elem?, if◌then◌else◌,
}
use k1os.K1de.Palette.{nearest_16, ansi256_to_rgb}
use k1os.K1de.Palette.Nearest.{nearest_16_lem}
use k1os.K1de.Terminal.{
  set_color, reset, between, Terminal, apply_sgr, sgr_from, sgr_step, extended_color,
}
use k1os.K1de.Terminal.Invariant.{IsTerminal, IsColor, both-if}

-- A sound terminal with other colours from the palette.
colors-IsTerminal :
    (t : Terminal) (fg bg : Option ℕ) (bold : Bool)
    → IsTerminal t
    → IsColor fg
    → IsColor bg
    → IsTerminal (record t { cur_fg = fg; cur_bg = bg; bold = bold })
colors-IsTerminal t fg bg bold v hf hb = record { grid = v.grid; fg = hf; bg = hb }

set_color-IsTerminal :
    (target_fg : Bool) (c : ℕ) (t : Terminal)
    → IsTerminal t
    → IsColor (some (nearest_16 c))
    → IsTerminal (set_color target_fg (nearest_16 c) t)
set_color-IsTerminal target_fg c t v h =
    both-if IsTerminal target_fg
      (colors-IsTerminal t (some (nearest_16 c)) t.cur_bg t.bold v h v.bg)
      (colors-IsTerminal t t.cur_fg (some (nearest_16 c)) t.bold v v.fg h)

nearest-IsColor : (c : ℕ) → IsColor (some (nearest_16 c))
nearest-IsColor c = (nearest_16_lem c 0 (omega arith)).0

-- What holds of each branch of a test, under the outcome of the test.
either-if {ℓ κ} :
    {A : Type ℓ} (P : A → Type κ) {x y : A} (test : Bool)
    → (test ≡ true → P x)
    → (test ≡ false → P y)
    → P (if test then x else y)
either-if P true p q = p refl
either-if P false p q = q refl

between_le : (a b p : ℕ) → between a b p ≡ true → (a ≤ p) × (p ≤ b)
between_le a b p h = ground arith

-- A round of the loop of apply_sgr gives a sound terminal.
IsRound : ℕ × Terminal → Type 0
IsRound round = IsTerminal round.1

extended_color-IsTerminal :
    (target_fg : Bool) (rest : List ℕ) (t : Terminal)
    → IsTerminal t
    → IsRound (extended_color target_fg rest t)
unfolding extended_color IsRound
extended_color-IsTerminal target_fg [] t v = v
extended_color-IsTerminal target_fg (kind ∷ rest) t v =
    both-if IsRound (kind == 5)
      (elim (get_elem? rest 0)
        as (λ o. IsTerminal (elim o [
          | none ↦ t
          | some idx ↦ set_color target_fg (nearest_16 (ansi256_to_rgb (idx % 256))) t
        ])) [ none ↦ v | some idx ↦ set_color-IsTerminal target_fg _ t v (nearest-IsColor _) ])
      (both-if IsRound (kind == 2) (set_color-IsTerminal target_fg _ t v (nearest-IsColor _)) v)

sgr_step-IsTerminal :
    (p : ℕ) (rest : List ℕ) (t : Terminal) → IsTerminal t → IsRound (sgr_step p rest t)
unfolding sgr_step IsRound
sgr_step-IsTerminal p rest t v =
    let zero_lt : 0 < 16 = omega arith in
    let fg = λ (c : ℕ) (h : c < 16). colors-IsTerminal t (some c) t.cur_bg t.bold v h v.bg in
    let bg = λ (c : ℕ) (h : c < 16). colors-IsTerminal t t.cur_fg (some c) t.bold v v.fg h in
    both-if IsRound (p == 0) (colors-IsTerminal t none none false v zero_lt zero_lt) (
      both-if IsRound (p == 1) (colors-IsTerminal t t.cur_fg t.cur_bg true v v.fg v.bg) (
        both-if IsRound (p == 22) (colors-IsTerminal t t.cur_fg t.cur_bg false v v.fg v.bg) (
          either-if IsRound (between 30 37 p)
            (λ h. fg (p - 30) (omega (arith, between_le 30 37 p h)))
            (λ _.
              both-if IsRound (p == 39) (colors-IsTerminal t none t.cur_bg t.bold v zero_lt v.bg) (
                either-if IsRound (between 40 47 p)
                  (λ h. bg (p - 40) (omega (arith, between_le 40 47 p h)))
                  (λ _.
                    both-if IsRound (p == 49)
                      (colors-IsTerminal t t.cur_fg none t.bold v v.fg zero_lt)
                      (either-if IsRound (between 90 97 p)
                        (λ h. fg (p - 90 + 8) (omega (arith, between_le 90 97 p h)))
                        (λ _.
                          either-if IsRound (between 100 107 p)
                            (λ h. bg (p - 100 + 8) (omega (arith, between_le 100 107 p h)))
                            (λ _.
                              both-if IsRound ((p == 38) || (p == 48))
                                (extended_color-IsTerminal (p == 38) rest t v) v)))))))))

sgr_from-IsTerminal :
    (skip : ℕ) (ps : List ℕ) (t : Terminal) → IsTerminal t → IsTerminal (sgr_from skip ps t)
unfolding sgr_from IsRound
sgr_from-IsTerminal skip [] t v = v
sgr_from-IsTerminal (suc skip) (p ∷ rest) t v = sgr_from-IsTerminal skip rest t v
sgr_from-IsTerminal zero (p ∷ rest) t v =
    sgr_from-IsTerminal _ rest _ (sgr_step-IsTerminal p rest t v)

pub apply_sgr-IsTerminal : (t : Terminal) → IsTerminal t → IsTerminal (apply_sgr t)
unfolding apply_sgr
apply_sgr-IsTerminal t v =
    elim t.csi_params
      as (λ ps. IsTerminal (elim ps [ [] ↦ reset t | p ∷ rest ↦ sgr_from 0 (p ∷ rest) t ])) [
        | [] ↦ colors-IsTerminal t none none false v (omega arith) (omega arith)
        | p ∷ rest ↦ sgr_from-IsTerminal 0 (p ∷ rest) t v
      ]
