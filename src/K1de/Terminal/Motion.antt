-- ===== src/K1de/Terminal/Motion.antt =====
-- The sequence that moves the cursor in packages/k1de/src/main.rs: ESC [ row ; column H.
use native.Mathlib.Nat.{mod-eq_of_lt}
use k1os.Prelude.{
  ℕ, ◌+◌, ◌-◌, ◌*◌, ◌^◌, ◌≤◌, ◌<◌, ◌≡◌, refl, ap, ap₂, ◌∙◌, ◌&&◌, Bool, true, Option, none, some,
  ◌>>=◌, List, [], ◌∷◌, ◌++◌, arith, ◌==◌, if◌then◌else◌, min,
}
use k1os.K1de.Terminal.{Terminal, plain, csi, between, apply_csi}
use k1os.K1de.Terminal.Input.{
  process_byte, process_bytes, process_in, process_plain, process_esc, process_csi, or_else,
}

-- Decimal digits, the bytes from `0` to `9`.
unfoldable pub digits : List ℕ → Bool
digits [] = true
digits (b ∷ bytes) = between 48 57 b && digits bytes

-- The number that is read where the digits `bytes` follow those of `n`.
unfoldable pub value : ℕ → List ℕ → ℕ
value n [] = n
value n (b ∷ bytes) = value (n * 10 + (b - 48)) bytes

le-value : (n : ℕ) (bytes : List ℕ) → n ≤ value n bytes
unfolding value
le-value n [] = omega arith
le-value n (b ∷ bytes) = omega (arith, le-value (n * 10 + (b - 48)) bytes)

-- In the parameters of a sequence: those that are complete, and the one under way.
abbrev in_csi : Terminal → List ℕ → Option ℕ → Terminal
in_csi t params cur = record t { esc_state = csi; dirty = true; csi_params = params; csi_cur = cur }

module _ (t : Terminal) (params rest : List ℕ) where
  digit_step :
      (cur : Option ℕ) (b : ℕ)
      → between 48 57 b ≡ true
      → or_else 0 cur * 10 + (b - 48) < 2 ^ 32
      → process_byte b (in_csi t params cur)
        ≡ some (in_csi t params (some (or_else 0 cur * 10 + (b - 48))))
  unfolding process_byte process_in process_csi
  digit_step cur b h l = rw h (ap (λ n. some (in_csi t params (some n))) (mod-eq_of_lt l))

  number :
      (cur : Option ℕ) (b : ℕ) (bytes : List ℕ)
      → digits (b ∷ bytes) ≡ true
      → value (or_else 0 cur) (b ∷ bytes) < 2 ^ 32
      → process_bytes ((b ∷ bytes) ++ rest) (in_csi t params cur)
        ≡ process_bytes rest (in_csi t params (some (value (or_else 0 cur) (b ∷ bytes))))
  unfolding digits value process_bytes
  number cur b [] h l =
      let one : between 48 57 b ≡ true = ground arith in
      ap (λ step. step >>= process_bytes rest) (digit_step cur b one l)
  number cur b (b' ∷ bytes) h l =
      let n = or_else 0 cur * 10 + (b - 48) in
      let one : between 48 57 b ≡ true = ground arith in
      let others : (between 48 57 b' && digits bytes) ≡ true = ground arith in
      let small : n < 2 ^ 32 = omega (arith, le-value n (b' ∷ bytes)) in
      ap (λ step. step >>= process_bytes ((b' ∷ bytes) ++ rest)) (digit_step cur b one small)
      ∙ number (some n) b' bytes others l

-- Parameters are counted from 1, and 0 is taken as 1.
param_sub : (v : ℕ) → (if v == 0 then 1 else v) - 1 ≡ v - 1
param_sub v = ground arith

abbrev pub moved : Terminal → ℕ → ℕ → Terminal
moved t row col = record t {
  esc_state = plain;
  dirty = true;
  csi_params = row ∷ col ∷ [];
  csi_cur = none;
  cursor_row = min (row - 1) (t.rows - 1);
  cursor_col = min (col - 1) (t.cols - 1);
}

apply_csi-moved :
    (t : Terminal) (row col : ℕ)
    → process_byte 72 (in_csi t (row ∷ []) (some col)) ≡ some (moved t row col)
unfolding process_byte process_in process_csi apply_csi
apply_csi-moved t row col =
    ap₂
      (λ y x. some (record (moved t row col) {
        cursor_row = min y (t.rows - 1);
        cursor_col = min x (t.cols - 1);
      }))
      (param_sub row) (param_sub col)

-- The begin of a sequence, the end of a parameter and the final byte.
enter :
    (t : Terminal) (rest : List ℕ)
    → t.esc_state ≡ plain
    → process_bytes (0x1b ∷ 91 ∷ rest) t ≡ process_bytes rest (in_csi t [] none)
unfolding process_bytes process_byte process_in process_plain process_esc
enter t rest s = rw s refl

separate :
    (t : Terminal) (row : ℕ) (rest : List ℕ)
    → process_bytes (59 ∷ rest) (in_csi t [] (some row))
      ≡ process_bytes rest (in_csi t (row ∷ []) none)
unfolding process_bytes process_byte process_in process_csi
separate t row rest = refl

finish :
    (t : Terminal) (row col : ℕ)
    → process_bytes (72 ∷ []) (in_csi t (row ∷ []) (some col)) ≡ some (moved t row col)
unfolding process_bytes
finish t row col = ap (λ step. step >>= process_bytes []) (apply_csi-moved t row col)

-- Where ESC [ row ; column H is read in plain text, with the row and the column in decimal digits and
-- below 2 ^ 32, the cursor goes to that row and column, counted from 1 and at most the last ones;
-- the cells and the colours stay, and the terminal reads plain text again.
pub move_lem :
    (r c : ℕ) (rs cs : List ℕ) (t : Terminal)
    → t.esc_state ≡ plain
    → digits (r ∷ rs) ≡ true
    → digits (c ∷ cs) ≡ true
    → value 0 (r ∷ rs) < 2 ^ 32
    → value 0 (c ∷ cs) < 2 ^ 32
    → process_bytes (0x1b ∷ 91 ∷ ((r ∷ rs) ++ (59 ∷ ((c ∷ cs) ++ (72 ∷ []))))) t
      ≡ some (moved t (value 0 (r ∷ rs)) (value 0 (c ∷ cs)))
move_lem r c rs cs t s hr hc lr lc =
    let row = value 0 (r ∷ rs) in
    let col = value 0 (c ∷ cs) in
    enter t ((r ∷ rs) ++ (59 ∷ ((c ∷ cs) ++ (72 ∷ [])))) s
    ∙ number t [] (59 ∷ ((c ∷ cs) ++ (72 ∷ []))) none r rs hr lr
    ∙ separate t row ((c ∷ cs) ++ (72 ∷ []))
    ∙ number t (row ∷ []) (72 ∷ []) none c cs hc lc
    ∙ finish t row col
