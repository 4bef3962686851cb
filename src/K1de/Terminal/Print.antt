-- ===== src/K1de/Terminal/Print.antt =====
-- A run of printable bytes in `Terminal::process_byte` of packages/k1de/src/main.rs.
use k1os.Prelude.{
  ℕ, ◌+◌, ◌≤◌, ◌<◌, ◌≡◌, refl, sym, ap, subst, ◌∙◌, Bool, true, Option, List, [], ◌∷◌, arith,
  length, get_or, Succeeds, succeeds, Succeeds-bind, Succeeds-map, lt→leb, ==_ne,
}
use k1os.K1de.Terminal.{Terminal, blank, plain, put, write_cell, pen_fg, between}
use k1os.K1de.Terminal.Invariant.{IsTerminal}
use k1os.K1de.Terminal.Input.{process_byte, process_bytes, process_in, process_plain}
use k1os.K1de.Terminal.Safety.{process_byte_lem}
use k1os.K1de.Terminal.Text.{
  printable, Printed, Printed-cons, write_cell-Printed, shown-nil, cursor_cell,
}

Succeeds-and {ℓ κ} :
    {T : Type ℓ} {P Q : T → Type κ} {step : Option T}
    → Succeeds P step
    → Succeeds Q step
    → Succeeds (λ v. P v × Q v) step
Succeeds-and (succeeds p) (succeeds q) = succeeds (p, q)

Printed-dirty :
    (bytes : List ℕ) (dirty : Bool) (t t' : Terminal)
    → Printed bytes (record t { dirty = dirty }) t'
    → Printed bytes t t'
Printed-dirty bytes dirty t t' p = record {
  row = p.row;
  col = p.col;
  cols = p.cols;
  fg = p.fg;
  bg = p.bg;
  state = p.state;
  cell = p.cell;
  same_length = p.same_length;
}

-- A printable byte is none of the control characters.
process_plain-put :
    (b : ℕ) (t : Terminal)
    → between 0x20 0x7e b ≡ true
    → t.cursor_col < t.cols
    → process_plain b t ≡ write_cell b t
unfolding process_plain put
process_plain-put b t h l =
    let low : 0x20 ≤ b = ground arith in
    let high : b ≤ 0x7e = ground arith in
    rw
      (
        ==_ne b 10 (omega arith),
        ==_ne b 13 (omega arith),
        ==_ne b 9 (omega arith),
        ==_ne b 0x08 (omega arith),
        ==_ne b 0x7f (omega arith),
        ==_ne b 0x1b (omega arith),
        h,
        lt→leb t.cols t.cursor_col l,
      )
      refl

process_byte-Printed :
    (b : ℕ) (t : Terminal)
    → IsTerminal t
    → t.esc_state ≡ plain
    → between 0x20 0x7e b ≡ true
    → t.cursor_col < t.cols
    → Succeeds (Printed (b ∷ []) t) (process_byte b t)
unfolding process_byte process_in
process_byte-Printed b t v s h l =
    let dirtied = record t { dirty = true } in
    let v' : IsTerminal dirtied = record { grid = v.grid; fg = v.fg; bg = v.bg } in
    let runs : process_byte b t ≡ write_cell b dirtied =
      ap (λ state. process_in state b dirtied) s ∙ process_plain-put b dirtied h l in
    subst (Succeeds (Printed (b ∷ []) t)) (sym runs)
      (Succeeds-map (write_cell-Printed b dirtied v' l) (Printed-dirty (b ∷ []) true t))

-- Printable bytes that fit into the rest of the row, in a sound terminal that reads plain text, are
-- shown one by one from the cursor on in the present colours; no other cell changes, the cursor is
-- behind the last one, and the terminal stays sound and reads plain text.
pub process_bytes-Printed :
    (bytes : List ℕ) (t : Terminal)
    → IsTerminal t
    → t.esc_state ≡ plain
    → printable bytes ≡ true
    → t.cursor_col + length bytes ≤ t.cols
    → Succeeds (λ t'. IsTerminal t' × Printed bytes t t') (process_bytes bytes t)
unfolding process_bytes printable
process_bytes-Printed [] t v s p h = succeeds (
  v,
  record {
    row = refl;
    col = omega arith;
    cols = refl;
    fg = refl;
    bg = refl;
    state = refl;
    cell = λ k l. shown-nil (cursor_cell t) (pen_fg t) t.cur_bg (get_or t.cells k blank) k;
    same_length = refl;
  },
)
process_bytes-Printed (b ∷ bytes) t v s p h =
    let one : between 0x20 0x7e b ≡ true = ground arith in
    let others : printable bytes ≡ true = ground arith in
    Succeeds-bind
      (Succeeds-and (process_byte_lem b t v) (process_byte-Printed b t v s one (omega arith)))
      (λ t' r.
        Succeeds-map
          (process_bytes-Printed bytes t' r.0 (r.1.state ∙ s) others
            (omega (arith, r.1.col, r.1.cols)))
          (λ t'' q. (q.0, Printed-cons b bytes t t' t'' r.1 q.1)))
