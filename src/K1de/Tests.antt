-- ===== src/K1de/Tests.antt =====
-- Runs of the terminal at concrete inputs, and its theorems at inputs that meet their hypotheses.
use k1os.Prelude.{
  ℕ, ◌^◌, ◌≡◌, ◌≤◌, ◌<◌, refl, none, some, false, true, zero, suc, List, [], ◌∷◌, ◌++◌, arith,
  Succeeds, get_or,
}
use k1os.K1de.Palette.{palette, nearest_16, dist}
use k1os.K1de.Palette.Nearest.{nearest_16_lem}
use k1os.K1de.Terminal.{Terminal, Cell, plain, newline}
use k1os.K1de.Terminal.Invariant.{IsTerminal, IsCell, IsColored}
use k1os.K1de.Terminal.Input.{process_bytes}
use k1os.K1de.Terminal.Safety.{process_bytes_lem}
use k1os.K1de.Terminal.Motion.{digits, value, moved, move_lem}
use k1os.K1de.Terminal.Strings.{in_state, lacks, strings_lem}
use k1os.K1de.Terminal.Text.{LineFed, newline-LineFed, Printed, printable}
use k1os.K1de.Terminal.Print.{process_bytes-Printed}

abbrev cell : ℕ → Cell
cell ch = record { ch = ch; fg = some 2; bg = none }

abbrev screen : Terminal
screen = record {
  cols = 3;
  rows = 2;
  cells = cell 97 ∷ cell 98 ∷ cell 99 ∷ cell 100 ∷ cell 101 ∷ cell 102 ∷ [];
  cursor_row = 1;
  cursor_col = 1;
  esc_state = plain;
  dirty = false;
  csi_params = [];
  csi_cur = none;
  cur_fg = some 1;
  cur_bg = none;
  bold = true;
}

cell_colors : (ch : ℕ) → IsCell (cell ch)
cell_colors ch = (omega arith, omega arith)

screen-IsColored : IsColored screen.cells
unfolding IsColored
screen-IsColored zero = cell_colors 97
screen-IsColored (suc zero) = cell_colors 98
screen-IsColored (suc (suc zero)) = cell_colors 99
screen-IsColored (suc (suc (suc zero))) = cell_colors 100
screen-IsColored (suc (suc (suc (suc zero)))) = cell_colors 101
screen-IsColored (suc (suc (suc (suc (suc zero))))) = cell_colors 102
screen-IsColored (suc (suc (suc (suc (suc (suc i)))))) = (omega arith, omega arith)

screen-IsTerminal : IsTerminal screen
screen-IsTerminal = record {
  grid = record {
    some_cols = omega arith;
    some_rows = omega arith;
    sized = refl;
    row_lt = omega arith;
    col_le = omega arith;
    colored = screen-IsColored;
  };
  fg = omega arith;
  bg = omega arith;
}

-- Two bytes, the second of which ends the row; then one that starts a new row and scrolls.
abbrev input : List ℕ
input = 120 ∷ 121 ∷ 122 ∷ 0x1b ∷ 91 ∷ 51 ∷ 49 ∷ 109 ∷ 9 ∷ []

process_bytes_lem_example : Succeeds IsTerminal (process_bytes input screen)
process_bytes_lem_example = process_bytes_lem input screen screen-IsTerminal

newline-LineFed_example : Succeeds (LineFed screen) (newline screen)
newline-LineFed_example = newline-LineFed screen screen-IsTerminal

two_printable : printable (120 ∷ 121 ∷ []) ≡ true
unfolding printable
two_printable = refl

process_bytes-Printed_example :
    Succeeds
      (λ t. IsTerminal t × Printed (120 ∷ 121 ∷ []) screen t)
      (process_bytes (120 ∷ 121 ∷ []) screen)
process_bytes-Printed_example =
    process_bytes-Printed (120 ∷ 121 ∷ []) screen screen-IsTerminal refl two_printable (omega arith)

title_lacks : (lacks 0x07 (48 ∷ 59 ∷ []) ≡ true) × (lacks 0x1b (48 ∷ 59 ∷ []) ≡ true)
unfolding lacks
title_lacks = (refl, refl)

strings_lem_example :
    (process_bytes (0x1b ∷ 93 ∷ ((48 ∷ 59 ∷ []) ++ (0x07 ∷ []))) screen
      ≡ some (in_state plain screen))
    × (process_bytes (0x1b ∷ 93 ∷ ((48 ∷ 59 ∷ []) ++ (0x1b ∷ 92 ∷ []))) screen
        ≡ some (in_state plain screen))
    × (process_bytes (0x1b ∷ 80 ∷ ((48 ∷ 59 ∷ []) ++ (0x1b ∷ 92 ∷ []))) screen
        ≡ some (in_state plain screen))
strings_lem_example =
    strings_lem (48 ∷ 59 ∷ []) (48 ∷ 59 ∷ []) screen refl title_lacks.0 title_lacks.1 title_lacks.1

nearest_16_lem_example :
    (nearest_16 0xFE0203 < 16)
    × (dist 0xFE0203 (get_or palette (nearest_16 0xFE0203) 0) ≤ dist 0xFE0203 (get_or palette 9 0))
nearest_16_lem_example = nearest_16_lem 0xFE0203 9 (omega arith)

move_digits :
    (digits (49 ∷ []) ≡ true)
    × (digits (48 ∷ 57 ∷ []) ≡ true)
    × (value 0 (49 ∷ []) < 2 ^ 32)
    × (value 0 (48 ∷ 57 ∷ []) < 2 ^ 32)
unfolding digits value
move_digits = (refl, refl, omega arith, omega arith)

move_lem_example :
    process_bytes (0x1b ∷ 91 ∷ ((49 ∷ []) ++ (59 ∷ ((48 ∷ 57 ∷ []) ++ (72 ∷ []))))) screen
    ≡ some (moved screen (value 0 (49 ∷ [])) (value 0 (48 ∷ 57 ∷ [])))
move_lem_example =
    move_lem 49 48 [] (57 ∷ []) screen refl move_digits.0 move_digits.1 move_digits.2 move_digits.3
