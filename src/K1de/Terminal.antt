-- ===== src/K1de/Terminal.antt =====
-- `Terminal` of packages/k1de/src/main.rs: the grid of cells, its cursor and the escape sequences.
-- Sums of `usize` stay below 2 ^ 64, since `cols * rows` is the length of a vector and a parameter
-- is below 2 ^ 32. A `none` is a panic: an index or a range out of bounds, or a loop without end.

pub mod Grid
pub mod Invariant
pub mod Input
pub mod Colors
pub mod Safety
pub mod Strings
pub mod Motion
pub mod Text
pub mod Print
use k1os.Prelude.{
  ℕ, zero, suc, ◌+◌, ◌-◌, ◌*◌, ◌/◌, ◌%◌, ◌^◌, min, max, Bool, true, false, ◌&&◌, ◌||◌, not, Option,
  none, some, ◌>>=◌, List, [], ◌∷◌, ◌++◌, ltb, leb, ◌==◌, if◌then◌else◌, length, get_elem?, get_or,
  set, take, drop, replicate,
}
use k1os.K1de.Palette.{rgb, ansi256_to_rgb, nearest_16}

pub record Cell : Type 0 where
  pub ch : ℕ
  pub fg : Option ℕ
  pub bg : Option ℕ

abbrev pub blank : Cell
blank = record { ch = 32; fg = none; bg = none }

pub data EscState : Type 0 where
  plain esc csi osc osc_esc dcs dcs_esc charset : EscState

pub record Terminal : Type 0 where
  pub cols : ℕ
  pub rows : ℕ
  pub cells : List Cell
  pub cursor_row : ℕ
  pub cursor_col : ℕ
  pub esc_state : EscState
  pub dirty : Bool
  pub csi_params : List ℕ
  pub csi_cur : Option ℕ
  pub cur_fg : Option ℕ
  pub cur_bg : Option ℕ
  pub bold : Bool

unfoldable pub new : ℕ → ℕ → Terminal
new cols rows = record {
  cols = cols;
  rows = rows;
  cells = replicate (cols * rows) blank;
  cursor_row = 0;
  cursor_col = 0;
  esc_state = plain;
  dirty = true;
  csi_params = [];
  csi_cur = none;
  cur_fg = none;
  cur_bg = none;
  bold = false;
}

abbrev pub csi_param : Terminal → ℕ → ℕ → ℕ
csi_param t i default = let v = get_or t.csi_params i 0 in if v == 0 then default else v

unfoldable pub resize : ℕ → ℕ → Terminal → Terminal
resize cols rows t = if (cols == t.cols) && (rows == t.rows) then t else record t {
  cols = max cols 1;
  rows = max rows 1;
  cells = replicate (max cols 1 * max rows 1) blank;
  cursor_row = 0;
  cursor_col = 0;
  dirty = true;
}

-- `cells[lo..hi].fill(BLANK)`
unfoldable pub fill_range : ℕ → ℕ → List Cell → Option (List Cell)
fill_range lo hi cells =
    if leb lo hi && leb hi (length cells)
    then some (take lo cells ++ (replicate (hi - lo) blank ++ drop hi cells))
    else none

abbrev pub clear : ℕ → ℕ → Terminal → Option Terminal
clear lo hi t = do cells ← fill_range lo hi t.cells; some (record t { cells = cells })

-- `cells.copy_within(n.., 0)`
unfoldable pub move_up : ℕ → List Cell → Option (List Cell)
move_up n cells =
    if leb n (length cells) then some (drop n cells ++ drop (length cells - n) cells) else none

unfoldable pub newline : Terminal → Option Terminal
newline t =
    let scrolled : Option Terminal = (do
      cells ← move_up t.cols t.cells
      cells ← fill_range (length cells - t.cols) (length cells) cells
      some (record t { cursor_col = 0; cells = cells })) in
    if leb t.rows (t.cursor_row + 1)
    then scrolled
    else some (record t { cursor_col = 0; cursor_row = t.cursor_row + 1 })

unfoldable pub erase_line : ℕ → Terminal → Option Terminal
erase_line mode t =
    let row_start = t.cursor_row * t.cols in
    if mode == 0
    then clear (row_start + t.cursor_col) (row_start + t.cols) t
    else if mode == 1
    then clear row_start (row_start + min t.cursor_col (t.cols - 1) + 1) t
    else if mode == 2
    then clear row_start (row_start + t.cols) t
    else some t

unfoldable pub erase_display : ℕ → Terminal → Option Terminal
erase_display mode t =
    let start = t.cursor_row * t.cols + t.cursor_col in
    let len = length t.cells in
    if mode == 0
    then clear start len t
    else if mode == 1
    then clear 0 (min start (len - 1) + 1) t
    else if (mode == 2) || (mode == 3)
    then clear 0 len (record t { cursor_row = 0; cursor_col = 0 })
    else some t

abbrev pub set_color : Bool → ℕ → Terminal → Terminal
set_color target_fg c t =
    if target_fg then record t { cur_fg = some c } else record t { cur_bg = some c }

abbrev pub reset : Terminal → Terminal
reset t = record t { cur_fg = none; cur_bg = none; bold = false }

abbrev pub between : ℕ → ℕ → ℕ → Bool
between a b p = leb a p && leb p b

-- `38;5;N` or `38;2;R;G;B` after its first parameter: how many more parameters are used, and the
-- terminal.
unfoldable pub extended_color : Bool → List ℕ → Terminal → ℕ × Terminal
extended_color target_fg [] t = (0, t)
extended_color target_fg (kind ∷ rest) t =
    let indexed : Terminal = elim (get_elem? rest 0) [
      | none ↦ t
      | some idx ↦ set_color target_fg (nearest_16 (ansi256_to_rgb (idx % 256))) t
    ] in
    let r = get_or rest 0 0 % 256 in
    let g = get_or rest 1 0 % 256 in
    let b = get_or rest 2 0 % 256 in
    if kind == 5
    then (2, indexed)
    else if kind == 2
    then (4, set_color target_fg (nearest_16 (rgb r g b)) t)
    else (0, t)

-- One round of the loop of apply_sgr, on the parameter `p` with `rest` after it.
unfoldable pub sgr_step : ℕ → List ℕ → Terminal → ℕ × Terminal
sgr_step p rest t =
    if p == 0
    then (0, reset t)
    else if p == 1
    then (0, record t { bold = true })
    else if p == 22
    then (0, record t { bold = false })
    else if between 30 37 p
    then (0, record t { cur_fg = some (p - 30) })
    else if p == 39
    then (0, record t { cur_fg = none })
    else if between 40 47 p
    then (0, record t { cur_bg = some (p - 40) })
    else if p == 49
    then (0, record t { cur_bg = none })
    else if between 90 97 p
    then (0, record t { cur_fg = some (p - 90 + 8) })
    else if between 100 107 p
    then (0, record t { cur_bg = some (p - 100 + 8) })
    else if (p == 38) || (p == 48)
    then extended_color (p == 38) rest t
    else (0, t)

-- The loop of apply_sgr, with the number of parameters that it steps over first.
unfoldable pub sgr_from : ℕ → List ℕ → Terminal → Terminal
sgr_from skip [] t = t
sgr_from (suc skip) (p ∷ rest) t = sgr_from skip rest t
sgr_from zero (p ∷ rest) t = let (skip, t') = sgr_step p rest t in sgr_from skip rest t'

unfoldable pub apply_sgr : Terminal → Terminal
apply_sgr t = elim t.csi_params [ [] ↦ reset t | p ∷ rest ↦ sgr_from 0 (p ∷ rest) t ]

unfoldable pub apply_csi : ℕ → Terminal → Option Terminal
apply_csi final_byte t =
    let n = csi_param t 0 1 in
    if final_byte == 75
    then erase_line (csi_param t 0 0) t
    else if final_byte == 74
    then erase_display (csi_param t 0 0) t
    else if final_byte == 67
    then some (record t { cursor_col = min (t.cursor_col + n) (t.cols - 1) })
    else if final_byte == 68
    then some (record t { cursor_col = t.cursor_col - n })
    else if final_byte == 71
    then some (record t { cursor_col = min (n - 1) (t.cols - 1) })
    else if (final_byte == 72) || (final_byte == 102)
    then some (record t {
      cursor_row = min (n - 1) (t.rows - 1);
      cursor_col = min (csi_param t 1 1 - 1) (t.cols - 1);
    })
    else if final_byte == 109
    then some (apply_sgr t)
    else some t

-- `c | 0x8`, of an index into the palette.
abbrev pub bright : ℕ → ℕ
bright c = if c / 8 % 2 == 1 then c else c + 8

abbrev pub pen_fg : Terminal → Option ℕ
pen_fg t = elim t.cur_fg [ none ↦ none | some c ↦ some (if t.bold then bright c else c) ]

-- `cells[idx] = cell`, then the cursor moves on.
unfoldable pub write_cell : ℕ → Terminal → Option Terminal
write_cell ch t = do
  let idx = t.cursor_row * t.cols + t.cursor_col
  old ← get_elem? t.cells idx
  some (record t {
    cells = set t.cells idx (record { ch = ch; fg = pen_fg t; bg = t.cur_bg });
    cursor_col = t.cursor_col + 1;
  })

unfoldable pub put : ℕ → Terminal → Option Terminal
put ch t = do t' ← if leb t.cols t.cursor_col then newline t else some t; write_cell ch t'
