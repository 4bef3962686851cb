-- ===== src/K1de/Terminal/Text.antt =====
-- What printable bytes and line feeds do to the cells of packages/k1de/src/main.rs.
use k1os.Prelude.{
  ℕ, suc, ◌+◌, ◌-◌, ◌*◌, ◌≤◌, ◌<◌, ◌≡◌, refl, sym, ap, ap₂, ◌∙◌, ◌&&◌, Bool, true, Option, List, [],
  ◌∷◌, arith, ltb, leb, ◌==◌, if◌then◌else◌, length, get_or, min, Succeeds, succeeds, Succeeds-if,
  Succeeds-bind, get_elem?-eq-get_or, get_or-set, length-set, le→leb, lt→leb, lt→ltb, le→ltb,
  leb→le, leb→lt, dec_lt, ℕ_discrete, ==_ne, ==_eq,
}
use k1os.K1de.Terminal.{Terminal, Cell, blank, newline, write_cell, pen_fg, between}
use k1os.K1de.Terminal.Grid.{fill_range-Filled, move_up-MovedUp}
use k1os.K1de.Terminal.Invariant.{IsTerminal, row_ends}

-- What a line feed leaves: the rows are one further up where the cursor was in the last one.
pub record LineFed (t t' : Terminal) : Type 0 where
  pub cols : t'.cols ≡ t.cols
  pub rows : t'.rows ≡ t.rows
  pub same_length : length t'.cells ≡ length t.cells
  pub col : t'.cursor_col ≡ 0
  pub row : t'.cursor_row ≡ min (t.cursor_row + 1) (t.rows - 1)
  pub cell :
      (k : ℕ)
      → k < length t.cells
      → get_or t'.cells k blank ≡ (
          if ltb (t.cursor_row + 1) t.rows
          then get_or t.cells k blank
          else if ltb (k + t.cols) (length t.cells)
          then get_or t.cells (k + t.cols) blank
          else blank)

-- A line feed in a sound terminal puts the cursor at the start of the next row; in the last row it
-- moves all rows up by one instead, and the last row is then blank. The size of the grid stays.
pub newline-LineFed : (t : Terminal) → IsTerminal t → Succeeds (LineFed t) (newline t)
unfolding newline
newline-LineFed t v =
    Succeeds-if (leb t.rows (t.cursor_row + 1))
      (λ last.
        Succeeds-bind (move_up-MovedUp t.cols t.cells (omega (arith, row_ends t v))) (λ cells m.
          Succeeds-bind
            (fill_range-Filled (length cells - t.cols) (length cells) cells (omega arith)
              (omega arith))
            (λ cells' f. succeeds (record {
              cols = refl;
              rows = refl;
              same_length = f.same_length ∙ m.same_length;
              col = refl;
              row = omega (arith, leb→le _ _ last, v.grid.row_lt);
              cell = λ k h. ground (arith, f.cell k, m.cell k, m.same_length, last);
            }))))
      (λ more. succeeds (record {
        cols = refl;
        rows = refl;
        same_length = refl;
        col = refl;
        row = omega (arith, leb→lt _ _ more);
        cell = λ k h. ground (arith, more);
      }))

-- The bytes are printable.
unfoldable pub printable : List ℕ → Bool
printable [] = true
printable (b ∷ bytes) = between 0x20 0x7e b && printable bytes

-- The cell `k` after `bytes` are printed from `start` on, where `old` was.
unfoldable pub shown : ℕ → List ℕ → Option ℕ → Option ℕ → Cell → ℕ → Cell
shown start bytes fg bg old k =
    if leb start k && ltb k (start + length bytes)
    then record { ch = get_or bytes (k - start) 0; fg = fg; bg = bg }
    else old

abbrev pub cursor_cell : Terminal → ℕ
cursor_cell t = t.cursor_row * t.cols + t.cursor_col

-- What printed bytes leave: their cells in the colours of the terminal from the cursor on, all other
-- cells as before, and the cursor behind them.
pub record Printed (bytes : List ℕ) (t t' : Terminal) : Type 0 where
  pub row : t'.cursor_row ≡ t.cursor_row
  pub col : t'.cursor_col ≡ t.cursor_col + length bytes
  pub cols : t'.cols ≡ t.cols
  pub fg : pen_fg t' ≡ pen_fg t
  pub bg : t'.cur_bg ≡ t.cur_bg
  pub state : t'.esc_state ≡ t.esc_state
  pub cell :
      (k : ℕ)
      → k < length t.cells
      → get_or t'.cells k blank
        ≡ shown (cursor_cell t) bytes (pen_fg t) t.cur_bg (get_or t.cells k blank) k
  pub same_length : length t'.cells ≡ length t.cells

module _ (start : ℕ) (bytes : List ℕ) (fg bg : Option ℕ) (old : Cell) (k : ℕ) where
  shown_in :
      (c : ℕ)
      → start ≤ k
      → k < start + length bytes
      → get_or bytes (k - start) 0 ≡ c
      → shown start bytes fg bg old k ≡ record { ch = c; fg = fg; bg = bg }
  unfolding shown
  shown_in c h l e =
      rw (le→leb start k h, lt→ltb k (start + length bytes) l)
        (ap (λ ch. record { ch = ch; fg = fg; bg = bg }) e)

  shown_before : k < start → shown start bytes fg bg old k ≡ old
  unfolding shown
  shown_before h = rw (lt→leb start k h) refl

  shown_behind : start + length bytes ≤ k → shown start bytes fg bg old k ≡ old
  unfolding shown
  shown_behind h = rw (le→leb start k (omega arith), le→ltb k (start + length bytes) h) refl

module _ (start b : ℕ) (fg bg : Option ℕ) (old : Cell) (k : ℕ) where
  abbrev single : Cell
  single = shown start (b ∷ []) fg bg old k

  get_or-later :
      (bytes : List ℕ)
      → start < k
      → get_or (b ∷ bytes) (k - start) 0 ≡ get_or bytes (k - (start + 1)) 0
  get_or-later bytes h =
      let e : k - start ≡ suc (k - (start + 1)) = omega arith in ap (λ i. get_or (b ∷ bytes) i 0) e

  get_or-here : (bytes : List ℕ) → k ≡ start → get_or (b ∷ bytes) (k - start) 0 ≡ b
  get_or-here bytes h = let e : k - start ≡ 0 = omega arith in ap (λ i. get_or (b ∷ bytes) i 0) e

  shown-one : (if start == k then record { ch = b; fg = fg; bg = bg } else old) ≡ single
  shown-one = elim (ℕ_discrete start k) [
    | yes e ↦ rw (==_eq start k e) (
        sym (
          shown_in start (b ∷ []) fg bg old k b (omega arith) (omega arith)
            (get_or-here [] (sym e))))
    | no n ↦ rw (==_ne start k n) (elim (dec_lt k start) [
      | yes h ↦ sym (shown_before start (b ∷ []) fg bg old k h)
      | no h ↦ sym (shown_behind start (b ∷ []) fg bg old k (omega arith))
    ])
  ]

  shown-cons :
      (bytes : List ℕ)
      → shown (start + 1) bytes fg bg single k ≡ shown start (b ∷ bytes) fg bg old k
  shown-cons bytes = elim (dec_lt k start) [
    | yes h ↦
        shown_before (start + 1) bytes fg bg single k (omega arith)
        ∙ shown_before start (b ∷ []) fg bg old k h
        ∙ sym (shown_before start (b ∷ bytes) fg bg old k h)
    | no h ↦ elim (ℕ_discrete k start) [
      | yes e ↦
          shown_before (start + 1) bytes fg bg single k (omega arith)
          ∙ shown_in start (b ∷ []) fg bg old k b (omega arith) (omega arith) (get_or-here [] e)
          ∙ sym (
              shown_in start (b ∷ bytes) fg bg old k b (omega arith) (omega arith)
                (get_or-here bytes e))
      | no n ↦ elim (dec_lt k (start + 1 + length bytes)) [
        | yes l ↦
            shown_in (start + 1) bytes fg bg single k _ (omega arith) l refl
            ∙ sym (
                shown_in start (b ∷ bytes) fg bg old k _ (omega arith) (omega arith)
                  (get_or-later bytes (omega arith)))
        | no l ↦
            shown_behind (start + 1) bytes fg bg single k (omega arith)
            ∙ shown_behind start (b ∷ []) fg bg old k (omega arith)
            ∙ sym (shown_behind start (b ∷ bytes) fg bg old k (omega arith))
      ]
    ]
  ]

pub shown-nil :
    (start : ℕ) (fg bg : Option ℕ) (old : Cell) (k : ℕ) → old ≡ shown start [] fg bg old k
shown-nil start fg bg old k = elim (dec_lt k start) [
  | yes h ↦ sym (shown_before start [] fg bg old k h)
  | no h ↦ sym (shown_behind start [] fg bg old k (omega arith))
]

pub Printed-cons :
    (b : ℕ) (bytes : List ℕ) (t t' t'' : Terminal)
    → Printed (b ∷ []) t t'
    → Printed bytes t' t''
    → Printed (b ∷ bytes) t t''
Printed-cons b bytes t t' t'' p q = record {
  row = q.row ∙ p.row;
  col = omega (arith, q.col, p.col);
  cols = q.cols ∙ p.cols;
  fg = q.fg ∙ p.fg;
  bg = q.bg ∙ p.bg;
  state = q.state ∙ p.state;
  cell = λ k h.
      let next : cursor_cell t' ≡ cursor_cell t + 1 = omega (arith, ap₂ ◌*◌ p.row p.cols, p.col) in
      q.cell k (omega (arith, p.same_length))
      ∙ ap (λ s. shown s bytes (pen_fg t') t'.cur_bg (get_or t'.cells k blank) k) next
      ∙ ap (λ c. shown (cursor_cell t + 1) bytes c t'.cur_bg (get_or t'.cells k blank) k) p.fg
      ∙ ap (λ c. shown (cursor_cell t + 1) bytes (pen_fg t) c (get_or t'.cells k blank) k) p.bg
      ∙ ap (λ old. shown (cursor_cell t + 1) bytes (pen_fg t) t.cur_bg old k) (p.cell k h)
      ∙ shown-cons (cursor_cell t) b (pen_fg t) t.cur_bg (get_or t.cells k blank) k bytes;
  same_length = q.same_length ∙ p.same_length;
}

pub write_cell-Printed :
    (b : ℕ) (t : Terminal)
    → IsTerminal t
    → t.cursor_col < t.cols
    → Succeeds (Printed (b ∷ []) t) (write_cell b t)
unfolding write_cell
write_cell-Printed b t v h =
    let inside : cursor_cell t < length t.cells = omega (arith, row_ends t v) in
    let cell : Cell = record { ch = b; fg = pen_fg t; bg = t.cur_bg } in
    rw (get_elem?-eq-get_or t.cells (cursor_cell t) blank inside) (
      succeeds (record {
        row = refl;
        col = refl;
        cols = refl;
        fg = refl;
        bg = refl;
        state = refl;
        cell = λ k l.
            get_or-set t.cells (cursor_cell t) k cell blank inside
            ∙ shown-one (cursor_cell t) b (pen_fg t) t.cur_bg (get_or t.cells k blank) k;
        same_length = length-set t.cells (cursor_cell t) cell;
      }))
