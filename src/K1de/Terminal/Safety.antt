-- ===== src/K1de/Terminal/Safety.antt =====
-- The bounds of the grid in `Terminal::process_byte` of packages/k1de/src/main.rs.
use k1os.Prelude.{
  ℕ, zero, suc, ◌+◌, ◌-◌, ◌*◌, ◌/◌, ◌≤◌, ◌<◌, ◌≡◌, refl, ◌&&◌, ◌||◌, Bool, true, false, Option,
  none, some, List, [], ◌∷◌, arith, ltb, ◌==◌, length, min, length-set, Succeeds, succeeds,
  Succeeds-if, Succeeds-bind, Succeeds-map, get_elem?-eq-get_or, lt→leb, le→leb, dec_lt,
  if◌then◌else◌,
}
use k1os.K1de.Terminal.{
  between, Terminal, EscState, plain, esc, csi, osc, osc_esc, dcs, dcs_esc, charset, Cell, blank,
  csi_param, put, write_cell, pen_fg, bright, apply_csi,
}
use k1os.K1de.Terminal.Colors.{apply_sgr-IsTerminal}
use k1os.K1de.Terminal.Grid.{row_end}
use k1os.K1de.Terminal.Invariant.{
  IsTerminal, IsColor, IsGrid-cells, IsGrid-cursor, set-IsColored, both-if, cursor-IsTerminal,
  newline-IsRowStart, erase_line-IsTerminal, erase_display-IsTerminal,
}
use k1os.K1de.Terminal.Input.{
  process_byte, process_bytes, process_in, process_plain, process_esc, process_csi, put_tab,
  finished,
}

-- The state of the parser is free.
parsing-IsTerminal :
    (t : Terminal) (s : EscState) (dirty : Bool) (params : List ℕ) (cur : Option ℕ)
    → IsTerminal t
    → IsTerminal (record t { esc_state = s; dirty = dirty; csi_params = params; csi_cur = cur })
parsing-IsTerminal t s dirty params cur v = record { grid = v.grid; fg = v.fg; bg = v.bg }

pub apply_csi-IsTerminal :
    (b : ℕ) (t : Terminal) → IsTerminal t → Succeeds IsTerminal (apply_csi b t)
unfolding apply_csi
apply_csi-IsTerminal b t v =
    let at = cursor-IsTerminal t v in
    let n = csi_param t 0 1 in
    let row = v.grid.row_lt in
    let col = v.grid.col_le in
    Succeeds-if (b == 75) (λ _. erase_line-IsTerminal t v (csi_param t 0 0))
      (λ _.
        Succeeds-if (b == 74) (λ _. erase_display-IsTerminal (csi_param t 0 0) t v)
          (λ _.
            Succeeds-if (b == 67)
              (λ _.
                succeeds (at t.cursor_row (min (t.cursor_col + n) (t.cols - 1)) row (omega arith)))
              (λ _.
                Succeeds-if (b == 68)
                  (λ _. succeeds (at t.cursor_row (t.cursor_col - n) row (omega arith)))
                  (λ _.
                    Succeeds-if (b == 71)
                      (λ _. succeeds (at t.cursor_row (min (n - 1) (t.cols - 1)) row (omega arith)))
                      (λ _.
                        Succeeds-if ((b == 72) || (b == 102))
                          (λ _. succeeds (
                            at (min (n - 1) (t.rows - 1)) (min (csi_param t 1 1 - 1) (t.cols - 1))
                              (omega (arith, v.grid.some_rows)) (omega arith)))
                          (λ _.
                            Succeeds-if (b == 109) (λ _. succeeds (apply_sgr-IsTerminal t v))
                              (λ _. succeeds v)))))))

-- A bright colour of the palette.
bright_lt : (c : ℕ) → c < 16 → bright c < 16
bright_lt c h = ground arith

pen-IsColor :
    (fg : Option ℕ) (bold : Bool)
    → IsColor fg
    → IsColor (elim fg [ none ↦ none | some c ↦ some (if bold then bright c else c) ])
pen-IsColor none bold h = h
pen-IsColor (some c) true h = bright_lt c h
pen-IsColor (some c) false h = h

pen_fg-IsColor : (t : Terminal) → IsTerminal t → IsColor (pen_fg t)
pen_fg-IsColor t v = pen-IsColor t.cur_fg t.bold v.fg

-- A sound terminal of as many columns, with the cursor at `col`.
IsAt : ℕ → Terminal → Terminal → Type 0
IsAt col t t' = IsTerminal t' × (t'.cursor_col ≡ col) × (t'.cols ≡ t.cols)

module _ (ch : ℕ) (t : Terminal) (v : IsTerminal t) where
  write_cell-IsAt : t.cursor_col < t.cols → Succeeds (IsAt (t.cursor_col + 1) t) (write_cell ch t)
  unfolding write_cell IsAt
  write_cell-IsAt h =
      let idx = t.cursor_row * t.cols + t.cursor_col in
      let inside : idx < length t.cells =
        omega (arith, v.grid.sized, row_end t.cursor_row t.rows t.cols v.grid.row_lt) in
      let cell : Cell = record { ch = ch; fg = pen_fg t; bg = t.cur_bg } in
      let moved =
        IsGrid-cursor v.grid t.cursor_row (t.cursor_col + 1) v.grid.row_lt (omega arith) in
      let colored =
        set-IsColored t.cells idx cell inside v.grid.colored (pen_fg-IsColor t v, v.bg) in
      let grid = IsGrid-cells moved (length-set t.cells idx cell) colored in
      rw (get_elem?-eq-get_or t.cells idx blank inside)
        (succeeds (record { grid = grid; fg = v.fg; bg = v.bg }, refl, refl))

  -- Within a row, a character takes one column.
  put-IsAt : t.cursor_col < t.cols → Succeeds (IsAt (t.cursor_col + 1) t) (put ch t)
  unfolding put
  put-IsAt h = rw (lt→leb t.cols t.cursor_col h) (write_cell-IsAt h)

put-IsTerminal : (ch : ℕ) (t : Terminal) → IsTerminal t → Succeeds IsTerminal (put ch t)
unfolding put IsAt
put-IsTerminal ch t v = elim (dec_lt t.cursor_col t.cols) [
  | yes h ↦ Succeeds-map (put-IsAt ch t v h) (λ t' p. p.0)
  | no h ↦ rw (le→leb t.cols t.cursor_col (omega arith)) (
      Succeeds-bind (newline-IsRowStart t v) (λ t' p.
        Succeeds-map (write_cell-IsAt ch t' p.0 (omega (arith, p.1, p.2, v.grid.some_cols)))
          (λ t'' q. q.0)))
]

both_lt : (a b c : ℕ) → (ltb a b && ltb a c) ≡ true → (a < b) × (a < c)
both_lt a b c h = ground arith

at_least : (a b c : ℕ) → b ≤ a → (ltb a b && ltb a c) ≡ false
at_least a b c h = ground arith

-- The loop of a tab has enough rounds where they reach its column.
put_tab-IsTerminal :
    (rounds next : ℕ) (t : Terminal)
    → IsTerminal t
    → next ≤ t.cursor_col + rounds
    → Succeeds IsTerminal (put_tab rounds next t)
unfolding put_tab IsAt
put_tab-IsTerminal zero next t v h =
    rw (at_least t.cursor_col next t.cols (omega arith)) (succeeds v)
put_tab-IsTerminal (suc left) next t v h =
    Succeeds-if (ltb t.cursor_col next && ltb t.cursor_col t.cols)
      (λ e.
        let inside = both_lt t.cursor_col next t.cols e in
        Succeeds-bind (put-IsAt 32 t v inside.1)
          (λ t' p. put_tab-IsTerminal left next t' p.0 (omega (arith, p.1))))
      (λ _. succeeds v)

next_tab : (c : ℕ) → (c / 8 + 1) * 8 ≤ c + 8
next_tab c = omega arith

process_plain-IsTerminal :
    (b : ℕ) (t : Terminal) → IsTerminal t → Succeeds IsTerminal (process_plain b t)
unfolding process_plain
process_plain-IsTerminal b t v =
    let at = cursor-IsTerminal t v t.cursor_row in
    Succeeds-if (b == 10) (λ _. Succeeds-map (newline-IsRowStart t v) (λ t' p. p.0))
      (λ _.
        Succeeds-if (b == 13) (λ _. succeeds (at 0 v.grid.row_lt (omega arith)))
          (λ _.
            Succeeds-if (b == 9) (λ _. put_tab-IsTerminal 8 _ t v (next_tab t.cursor_col))
              (λ _.
                Succeeds-if ((b == 0x08) || (b == 0x7f))
                  (λ _.
                    succeeds (at (t.cursor_col - 1) v.grid.row_lt (omega (arith, v.grid.col_le))))
                  (λ _.
                    Succeeds-if (b == 0x1b)
                      (λ _. succeeds (parsing-IsTerminal t esc t.dirty t.csi_params t.csi_cur v))
                      (λ _.
                        Succeeds-if (between 0x20 0x7e b) (λ _. put-IsTerminal b t v)
                          (λ _. succeeds v))))))

process_esc-IsTerminal : (b : ℕ) (t : Terminal) → IsTerminal t → IsTerminal (process_esc b t)
unfolding process_esc
process_esc-IsTerminal b t v =
    let in_state = λ (s : EscState). parsing-IsTerminal t s t.dirty t.csi_params t.csi_cur v in
    both-if IsTerminal (b == 91) (parsing-IsTerminal t csi t.dirty [] none v) (
      both-if IsTerminal (b == 93) (in_state osc) (
        both-if IsTerminal (b == 80) (in_state dcs)
          (both-if IsTerminal (between 40 43 b) (in_state charset) (in_state plain))))

process_csi-IsTerminal :
    (b : ℕ) (t : Terminal) → IsTerminal t → Succeeds IsTerminal (process_csi b t)
unfolding process_csi
process_csi-IsTerminal b t v =
    Succeeds-if (between 48 57 b)
      (λ _. succeeds (parsing-IsTerminal t t.esc_state t.dirty t.csi_params _ v))
      (λ _.
        Succeeds-if (b == 59) (λ _. succeeds (parsing-IsTerminal t t.esc_state t.dirty _ none v))
          (λ _.
            Succeeds-if (between 0x40 0x7e b)
              (λ _.
                Succeeds-bind
                  (apply_csi-IsTerminal b _
                    (parsing-IsTerminal t t.esc_state t.dirty (finished t) none v))
                  (λ t' v'.
                    succeeds (parsing-IsTerminal t' plain t'.dirty t'.csi_params t'.csi_cur v')))
              (λ _. succeeds v)))

process_in-IsTerminal :
    (s : EscState) (b : ℕ) (t : Terminal) → IsTerminal t → Succeeds IsTerminal (process_in s b t)
unfolding process_in
process_in-IsTerminal plain b t v = process_plain-IsTerminal b t v
process_in-IsTerminal esc b t v = succeeds (process_esc-IsTerminal b t v)
process_in-IsTerminal csi b t v = process_csi-IsTerminal b t v
process_in-IsTerminal osc b t v = succeeds (parsing-IsTerminal t _ t.dirty t.csi_params t.csi_cur v)
process_in-IsTerminal osc_esc b t v =
    succeeds (parsing-IsTerminal t _ t.dirty t.csi_params t.csi_cur v)
process_in-IsTerminal dcs b t v = succeeds (parsing-IsTerminal t _ t.dirty t.csi_params t.csi_cur v)
process_in-IsTerminal dcs_esc b t v =
    succeeds (parsing-IsTerminal t _ t.dirty t.csi_params t.csi_cur v)
process_in-IsTerminal charset b t v =
    succeeds (parsing-IsTerminal t _ t.dirty t.csi_params t.csi_cur v)

-- One byte, whatever it is and in whatever state of the escape sequences, does not panic in a
-- sound terminal: no index or range is out of bounds and the loops end. The terminal stays sound:
-- the grid has its cells, the cursor is in it, and all colours are in the palette.
pub process_byte_lem :
    (b : ℕ) (t : Terminal) → IsTerminal t → Succeeds IsTerminal (process_byte b t)
unfolding process_byte
process_byte_lem b t v =
    process_in-IsTerminal t.esc_state b _
      (parsing-IsTerminal t t.esc_state true t.csi_params t.csi_cur v)

-- A sound terminal takes in every sequence of bytes without a panic, by an index or a range out of
-- bounds, and stays sound: it has at least one column and one row and as many cells as both say,
-- the cursor is in a row and at most one past its last column, and all colours are in the palette.
pub process_bytes_lem :
    (bytes : List ℕ) (t : Terminal) → IsTerminal t → Succeeds IsTerminal (process_bytes bytes t)
unfolding process_bytes
process_bytes_lem [] t v = succeeds v
process_bytes_lem (b ∷ bytes) t v = Succeeds-bind (process_byte_lem b t v) (process_bytes_lem bytes)
