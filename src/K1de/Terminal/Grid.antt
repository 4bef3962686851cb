-- ===== src/K1de/Terminal/Grid.antt =====
-- The laws of the operations on the cells of packages/k1de/src/main.rs: copies and fills.
use native.Mathlib.Nat.{mul-le-mul_right, mul_comm}
use k1os.Prelude.{
  ℕ, ◌+◌, ◌-◌, ◌*◌, ◌≤◌, ◌<◌, ◌≡◌, ◌∙◌, ◌&&◌, List, ◌++◌, arith, ltb, leb, if◌then◌else◌, length,
  get_or, take, drop, replicate, length-append, length-take, length-drop, length-replicate,
  get_or-append, get_or-take, get_or-append_left, get_or-drop, get_or-replicate, le→leb, lt→leb,
  Succeeds, succeeds, dec_lt,
}
use k1os.K1de.Terminal.{Cell, blank, fill_range, move_up}

-- A row ends within the grid.
pub row_end : (row rows cols : ℕ) → row < rows → row * cols + cols ≤ cols * rows
row_end row rows cols h = omega (arith, mul-le-mul_right cols h, mul_comm cols rows)

-- The cells from `lo` up to `hi` are blank, and the others as before.
pub record Filled (lo hi : ℕ) (before after : List Cell) : Type 0 where
  pub same_length : length after ≡ length before
  pub cell :
      (i : ℕ)
      → get_or after i blank ≡ (if leb lo i && ltb i hi then blank else get_or before i blank)

module _ (lo hi : ℕ) (cells : List Cell) (ordered : lo ≤ hi) (inside : hi ≤ length cells) where
  abbrev filling : List Cell
  filling = replicate (hi - lo) blank ++ drop hi cells

  length-filling : length filling ≡ length cells - lo
  length-filling = omega (
    arith,
    length-append (replicate (hi - lo) blank) (drop hi cells),
    length-replicate (hi - lo) blank,
    length-drop hi cells,
  )

  filling-cell :
      (j : ℕ)
      → get_or filling j blank
        ≡ (if ltb j (hi - lo) then blank else get_or cells (hi + (j - (hi - lo))) blank)
  filling-cell j = ground (
    arith,
    get_or-append (replicate (hi - lo) blank) (drop hi cells) j blank,
    length-replicate (hi - lo) blank,
    get_or-replicate (hi - lo) blank j,
    get_or-drop hi cells (j - (hi - lo)) blank,
  )

  length-front : length (take lo cells) ≡ lo
  length-front = omega (arith, length-take lo cells)

  filled-cell :
      (i : ℕ)
      → get_or (take lo cells ++ filling) i blank
        ≡ (if leb lo i && ltb i hi then blank else get_or cells i blank)
  filled-cell i =
      let split = get_or-append (take lo cells) filling i blank in
      elim (dec_lt i lo) [
        | yes p ↦ rw (lt→leb lo i p) (
            get_or-append_left (take lo cells) filling i blank (omega (arith, length-front))
            ∙ get_or-take lo cells i blank p)
        | no p ↦
            let e : hi + (i - lo - (hi - lo))
                ≡ (if ltb i hi then hi + (i - lo - (hi - lo)) else i) =
              ground arith in
            rw (le→leb lo i (omega arith))
              (ground (arith, split, length-front, filling-cell (i - lo), e))
      ]

  pub fill_range-Filled : Succeeds (Filled lo hi cells) (fill_range lo hi cells)
  unfolding fill_range
  fill_range-Filled =
      rw (le→leb lo hi ordered, le→leb hi (length cells) inside)
        (succeeds (record {
          same_length =
              omega (arith, length-append (take lo cells) filling, length-front, length-filling);
          cell = filled-cell;
        }))

-- Each cell comes from `n` places on, where there is one.
pub record MovedUp (n : ℕ) (before after : List Cell) : Type 0 where
  pub same_length : length after ≡ length before
  pub cell : (i : ℕ) → i + n < length before → get_or after i blank ≡ get_or before (i + n) blank
  pub rest : (i : ℕ) → length before ≤ i + n → get_or after i blank ≡ get_or before i blank

pub move_up-MovedUp :
    (n : ℕ) (cells : List Cell) → n ≤ length cells → Succeeds (MovedUp n cells) (move_up n cells)
unfolding move_up
move_up-MovedUp n cells h =
    let len = length cells in
    let front = length-drop n cells in
    let split = λ (i : ℕ). get_or-append (drop n cells) (drop (len - n) cells) i blank in
    rw (le→leb n len h) (
      succeeds (record {
        same_length = omega (
          arith,
          length-append (drop n cells) (drop (len - n) cells),
          front,
          length-drop (len - n) cells,
        );
        cell = λ i p.
            let e : n + i ≡ i + n = omega arith in
            ground (arith, split i, front, get_or-drop n cells i blank, e);
        rest = λ i p.
            let e : len - n + (i - (len - n)) ≡ i = omega arith in
            ground (arith, split i, front, get_or-drop (len - n) cells (i - (len - n)) blank, e);
      }))
