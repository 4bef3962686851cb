-- ===== src/K1de/Terminal/Invariant.antt =====
-- The invariant of `Terminal` of packages/k1de/src/main.rs: the size of the grid, the place of the
-- cursor, and colours within the palette.
use k1os.Prelude.{
  ℕ, ◌⊎◌, ◌==◌, ◌+◌, ◌-◌, ◌*◌, ◌≤◌, ◌<◌, ◌≡◌, refl, ◌∙◌, ◌&&◌, ◌||◌, Bool, true, false, Option,
  none, some, List, arith, ltb, leb, ◌==◌, if◌then◌else◌, length, get_or, set, replicate, max, min,
  length-replicate, get_or-replicate, get_or-set, Succeeds, succeeds, Succeeds-if, Succeeds-bind,
  dec_lt, leb→lt,
}
use k1os.K1de.Terminal.{Terminal, Cell, blank, newline, erase_line, erase_display, new, clear}
use k1os.K1de.Terminal.Grid.{row_end, Filled, fill_range-Filled, MovedUp, move_up-MovedUp}

-- The palette index of a colour; 0 for the default.
abbrev pub color_index : Option ℕ → ℕ
color_index none = 0
color_index (some c) = c

abbrev pub IsColor : Option ℕ → Type 0
IsColor c = color_index c < 16

abbrev pub IsCell : Cell → Type 0
IsCell cell = IsColor cell.fg × IsColor cell.bg

unfoldable pub IsColored : List Cell → Type 0
IsColored cells = (i : ℕ) → IsCell (get_or cells i blank)

-- What holds of both branches of a test.
pub both-if {ℓ κ} :
    {A : Type ℓ} (P : A → Type κ) {x y : A} (test : Bool) → P x → P y → P (if test then x else y)
both-if P true p q = p
both-if P false p q = q

blank-IsCell : IsCell blank
blank-IsCell = (omega arith, omega arith)

-- `cursor_col` may be one past the last column: the next character then starts a row.
pub record IsGrid (cols rows : ℕ) (cells : List Cell) (row col : ℕ) : Type 0 where
  pub some_cols : 0 < cols
  pub some_rows : 0 < rows
  pub sized : length cells ≡ cols * rows
  pub row_lt : row < rows
  pub col_le : col ≤ cols
  pub colored : IsColored cells

pub record IsTerminal (t : Terminal) : Type 0 where
  pub grid : IsGrid t.cols t.rows t.cells t.cursor_row t.cursor_col
  pub fg : IsColor t.cur_fg
  pub bg : IsColor t.cur_bg

module _ {cols rows row col : ℕ} {cells : List Cell} (g : IsGrid cols rows cells row col) where
  pub IsGrid-cursor : (row' col' : ℕ) → row' < rows → col' ≤ cols → IsGrid cols rows cells row' col'
  IsGrid-cursor row' col' hr hc = record {
    some_cols = g.some_cols;
    some_rows = g.some_rows;
    sized = g.sized;
    row_lt = hr;
    col_le = hc;
    colored = g.colored;
  }

  pub IsGrid-cells :
      {cells' : List Cell}
      → length cells' ≡ length cells
      → IsColored cells'
      → IsGrid cols rows cells' row col
  IsGrid-cells {cells'} e c = record {
    some_cols = g.some_cols;
    some_rows = g.some_rows;
    sized = e ∙ g.sized;
    row_lt = g.row_lt;
    col_le = g.col_le;
    colored = c;
  }

pub Filled-IsColored :
    {lo hi : ℕ} {before after : List Cell}
    → IsColored before
    → Filled lo hi before after
    → IsColored after
unfolding IsColored
Filled-IsColored {lo} {hi} {before} {after} c f i =
    rw (f.cell i) (both-if IsCell (leb lo i && ltb i hi) blank-IsCell (c i))

pub MovedUp-IsColored :
    {n : ℕ} {before after : List Cell} → IsColored before → MovedUp n before after → IsColored after
unfolding IsColored
MovedUp-IsColored {n} {before} {after} c m i = elim (dec_lt (i + n) (length before)) [
  | yes p ↦ rw (m.cell i p) (c (i + n))
  | no p ↦ rw (m.rest i (omega arith)) (c i)
]

replicate-IsColored : (n : ℕ) → IsColored (replicate n blank)
unfolding IsColored
replicate-IsColored n i = rw (get_or-replicate n blank i) blank-IsCell

pub set-IsColored :
    (cells : List Cell) (i : ℕ) (cell : Cell)
    → i < length cells
    → IsColored cells
    → IsCell cell
    → IsColored (set cells i cell)
unfolding IsColored
set-IsColored cells i cell h c k j =
    rw (get_or-set cells i j cell blank h) (both-if IsCell (i == j) k (c j))

-- A new terminal with at least one column and one row is sound.
pub new-IsTerminal : (cols rows : ℕ) → 0 < cols → 0 < rows → IsTerminal (new cols rows)
unfolding new
new-IsTerminal cols rows hc hr = record {
  grid = record {
    some_cols = hc;
    some_rows = hr;
    sized = length-replicate (cols * rows) blank;
    row_lt = hr;
    col_le = omega arith;
    colored = replicate-IsColored (cols * rows);
  };
  fg = omega arith;
  bg = omega arith;
}

-- What a change of the size leaves.
pub record Resized (cols rows : ℕ) (t t' : Terminal) : Type 0 where
  pub valid : IsTerminal t'
  pub cols_lem : t'.cols ≡ max cols 1
  pub rows_lem : t'.rows ≡ max rows 1
  pub same_length : length t'.cells ≡ max cols 1 * max rows 1
  pub contents_lem :
      ((cols ≡ t.cols) × (rows ≡ t.rows) × (t' ≡ t))
      ⊎ ((t'.cells ≡ replicate (max cols 1 * max rows 1) blank)
          × (t'.cursor_row ≡ 0)
          × (t'.cursor_col ≡ 0)
          × (t'.dirty ≡ true))

module _ (t : Terminal) (v : IsTerminal t) where
  pub row_ends : t.cursor_row * t.cols + t.cols ≤ length t.cells
  row_ends = omega (arith, v.grid.sized, row_end t.cursor_row t.rows t.cols v.grid.row_lt)

  -- Blank cells within the grid keep the terminal sound.
  pub clear-IsTerminal :
      (lo hi : ℕ) → lo ≤ hi → hi ≤ length t.cells → Succeeds IsTerminal (clear lo hi t)
  clear-IsTerminal lo hi h k = Succeeds-bind (fill_range-Filled lo hi t.cells h k) (λ cells f.
      succeeds (record {
        grid = IsGrid-cells v.grid f.same_length (Filled-IsColored v.grid.colored f);
        fg = v.fg;
        bg = v.bg;
      }))

  -- The cursor may be put anywhere in the grid.
  pub cursor-IsTerminal :
      (row col : ℕ)
      → row < t.rows
      → col ≤ t.cols
      → IsTerminal (record t { cursor_row = row; cursor_col = col })
  cursor-IsTerminal row col hr hc = record {
    grid = IsGrid-cursor v.grid row col hr hc;
    fg = v.fg;
    bg = v.bg;
  }

  -- A sound terminal of as many columns, at the start of a row.
  abbrev pub IsRowStart : Terminal → Type 0
  IsRowStart t' = IsTerminal t' × (t'.cursor_col ≡ 0) × (t'.cols ≡ t.cols)

  pub newline-IsRowStart : Succeeds IsRowStart (newline t)
  unfolding newline
  newline-IsRowStart =
      let start = IsGrid-cursor v.grid t.cursor_row 0 v.grid.row_lt (omega arith) in
      Succeeds-if (leb t.rows (t.cursor_row + 1))
        (λ _. Succeeds-bind (move_up-MovedUp t.cols t.cells (omega (arith, row_ends))) (λ cells m.
          Succeeds-bind
            (fill_range-Filled (length cells - t.cols) (length cells) cells (omega arith)
              (omega arith))
            (λ cells' f.
              let colored = Filled-IsColored (MovedUp-IsColored v.grid.colored m) f in
              let grid = IsGrid-cells start (f.same_length ∙ m.same_length) colored in
              succeeds (record { grid = grid; fg = v.fg; bg = v.bg }, refl, refl))))
        (λ h.
          succeeds
            (cursor-IsTerminal (t.cursor_row + 1) 0 (leb→lt _ _ h) (omega arith), refl, refl))

  pub erase_line-IsTerminal : (mode : ℕ) → Succeeds IsTerminal (erase_line mode t)
  unfolding erase_line
  erase_line-IsTerminal mode =
      let start = t.cursor_row * t.cols in
      Succeeds-if (mode == 0)
        (λ _.
          clear-IsTerminal (start + t.cursor_col) (start + t.cols) (omega (arith, v.grid.col_le))
            row_ends)
        (λ _.
          Succeeds-if (mode == 1)
            (λ _.
              clear-IsTerminal start (start + min t.cursor_col (t.cols - 1) + 1) (omega arith)
                (omega (arith, row_ends, v.grid.some_cols)))
            (λ _.
              Succeeds-if (mode == 2)
                (λ _. clear-IsTerminal start (start + t.cols) (omega arith) row_ends)
                (λ _. succeeds v)))

pub erase_display-IsTerminal :
    (mode : ℕ) (t : Terminal) → IsTerminal t → Succeeds IsTerminal (erase_display mode t)
unfolding erase_display
erase_display-IsTerminal mode t v =
    let start = t.cursor_row * t.cols + t.cursor_col in
    let len = length t.cells in
    let ends = row_ends t v in
    Succeeds-if (mode == 0)
      (λ _. clear-IsTerminal t v start len (omega (arith, ends, v.grid.col_le)) (omega arith))
      (λ _.
        Succeeds-if (mode == 1)
          (λ _.
            clear-IsTerminal t v 0 (min start (len - 1) + 1) (omega arith)
              (omega (arith, ends, v.grid.some_cols)))
          (λ _.
            Succeeds-if ((mode == 2) || (mode == 3))
              (λ _.
                clear-IsTerminal (record t { cursor_row = 0; cursor_col = 0 })
                  (cursor-IsTerminal t v 0 0 v.grid.some_rows (omega arith)) 0 len (omega arith)
                  (omega arith))
              (λ _. succeeds v)))
