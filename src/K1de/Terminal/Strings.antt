-- ===== src/K1de/Terminal/Strings.antt =====
-- The strings that `Terminal::process_byte` of packages/k1de/src/main.rs swallows: OSC and DCS.
use k1os.Prelude.{
  ℕ, ◌≡◌, refl, ◌&&◌, not, Bool, true, false, some, List, [], ◌∷◌, ◌++◌, arith, ◌==◌,
}
use k1os.K1de.Terminal.{Terminal, EscState, plain, osc, dcs}
use k1os.K1de.Terminal.Input.{
  process_byte, process_bytes, process_in, process_plain, process_esc, next_state,
}

-- The byte `a` is not in the list.
unfoldable pub lacks : ℕ → List ℕ → Bool
lacks a [] = true
lacks a (b ∷ bytes) = not (b == a) && lacks a bytes

-- The terminal in a state of the parser, after some byte.
abbrev pub in_state : EscState → Terminal → Terminal
in_state s t = record t { esc_state = s; dirty = true }

module _ (t : Terminal) where
  osc_body :
      (body rest : List ℕ)
      → lacks 0x07 body ≡ true
      → lacks 0x1b body ≡ true
      → process_bytes (body ++ rest) (in_state osc t) ≡ process_bytes rest (in_state osc t)
  unfolding lacks process_bytes process_byte process_in next_state
  osc_body [] rest h k = refl
  osc_body (b ∷ body) rest h k =
      let no_bel : (b == 0x07) ≡ false = ground arith in
      let no_esc : (b == 0x1b) ≡ false = ground arith in
      rw (no_bel, no_esc) (osc_body body rest (ground (arith, h)) (ground (arith, k)))

  dcs_body :
      (body rest : List ℕ)
      → lacks 0x1b body ≡ true
      → process_bytes (body ++ rest) (in_state dcs t) ≡ process_bytes rest (in_state dcs t)
  unfolding lacks process_bytes process_byte process_in next_state
  dcs_body [] rest k = refl
  dcs_body (b ∷ body) rest k =
      let no_esc : (b == 0x1b) ≡ false = ground arith in
      rw no_esc (dcs_body body rest (ground (arith, k)))

-- A terminal that reads plain text takes in an OSC string, from ESC ] to a BEL or ESC \ with
-- neither BEL nor ESC in between, and a DCS string, from ESC P to ESC \ with no ESC in between,
-- with no change but that the screen is drawn again: the cells, the cursor and the colours stay and
-- it reads plain text.
pub strings_lem :
    (osc_bytes dcs_bytes : List ℕ) (t : Terminal)
    → t.esc_state ≡ plain
    → lacks 0x07 osc_bytes ≡ true
    → lacks 0x1b osc_bytes ≡ true
    → lacks 0x1b dcs_bytes ≡ true
    → (process_bytes (0x1b ∷ 93 ∷ (osc_bytes ++ (0x07 ∷ []))) t ≡ some (in_state plain t))
      × (process_bytes (0x1b ∷ 93 ∷ (osc_bytes ++ (0x1b ∷ 92 ∷ []))) t ≡ some (in_state plain t))
      × (process_bytes (0x1b ∷ 80 ∷ (dcs_bytes ++ (0x1b ∷ 92 ∷ []))) t ≡ some (in_state plain t))
unfolding process_bytes process_byte process_in process_plain process_esc next_state
strings_lem osc_bytes dcs_bytes t s h k l = rw s (
  osc_body t osc_bytes (0x07 ∷ []) h k,
  osc_body t osc_bytes (0x1b ∷ 92 ∷ []) h k,
  dcs_body t dcs_bytes (0x1b ∷ 92 ∷ []) l,
)
