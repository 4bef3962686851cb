-- ===== src/K1de/Terminal/Input.antt =====
-- `Terminal::process_byte` of packages/k1de/src/main.rs: what each byte from the shell does, in each
-- state of the escape sequences.
use k1os.Prelude.{
  ℕ, zero, suc, ◌+◌, ◌-◌, ◌*◌, ◌/◌, ◌%◌, ◌^◌, true, ◌&&◌, ◌||◌, Option, none, some, ◌>>=◌, List, [],
  ◌∷◌, ◌++◌, ltb, ◌==◌, if◌then◌else◌,
}
use k1os.K1de.Terminal.{
  Terminal, EscState, plain, esc, csi, osc, osc_esc, dcs, dcs_esc, charset, newline, put, apply_csi,
  between,
}

-- The loop of a tab: spaces up to the column `next` or the end of the row, in `rounds` rounds.
unfoldable pub put_tab : ℕ → ℕ → Terminal → Option Terminal
put_tab zero next t = if ltb t.cursor_col next && ltb t.cursor_col t.cols then none else some t
put_tab (suc left) next t =
    if ltb t.cursor_col next && ltb t.cursor_col t.cols
    then put 32 t >>= put_tab left next
    else some t

unfoldable pub process_plain : ℕ → Terminal → Option Terminal
process_plain b t =
    if b == 10
    then newline t
    else if b == 13
    then some (record t { cursor_col = 0 })
    else if b == 9
    then put_tab 8 ((t.cursor_col / 8 + 1) * 8) t
    else if (b == 0x08) || (b == 0x7f)
    then some (record t { cursor_col = t.cursor_col - 1 })
    else if b == 0x1b
    then some (record t { esc_state = esc })
    else if between 0x20 0x7e b
    then put b t
    else some t

unfoldable pub process_esc : ℕ → Terminal → Terminal
process_esc b t =
    if b == 91
    then record t { csi_params = []; csi_cur = none; esc_state = csi }
    else if b == 93
    then record t { esc_state = osc }
    else if b == 80
    then record t { esc_state = dcs }
    else if between 40 43 b
    then record t { esc_state = charset }
    else record t { esc_state = plain }

-- `unwrap_or`
abbrev pub or_else : ℕ → Option ℕ → ℕ
or_else default none = default
or_else default (some v) = v

-- The parameters at the final byte, the one under way with them.
abbrev pub finished : Terminal → List ℕ
finished t = elim t.csi_cur [ none ↦ t.csi_params | some v ↦ t.csi_params ++ (v ∷ []) ]

-- The number of a parameter is a `u32`, which the release build lets wrap round.
unfoldable pub process_csi : ℕ → Terminal → Option Terminal
process_csi b t =
    let final : Option Terminal = (do
      t' ← apply_csi b (record t { csi_params = finished t; csi_cur = none })
      some (record t' { esc_state = plain })) in
    if between 48 57 b
    then some (record t { csi_cur = some ((or_else 0 t.csi_cur * 10 + (b - 48)) % 2 ^ 32) })
    else if b == 59
    then some (record t { csi_params = t.csi_params ++ (or_else 0 t.csi_cur ∷ []); csi_cur = none })
    else if between 0x40 0x7e b
    then final
    else some t

-- The state after a byte of a string that the terminal swallows, or of a charset.
unfoldable pub next_state : EscState → ℕ → EscState
next_state osc b = if b == 0x07 then plain else if b == 0x1b then osc_esc else osc
next_state osc_esc b = if b == 92 then plain else osc
next_state dcs b = if b == 0x1b then dcs_esc else dcs
next_state dcs_esc b = if b == 92 then plain else dcs
next_state charset b = plain
next_state plain b = plain
next_state esc b = esc
next_state csi b = csi

-- The match on the state.
unfoldable pub process_in : EscState → ℕ → Terminal → Option Terminal
process_in plain b t = process_plain b t
process_in esc b t = some (process_esc b t)
process_in csi b t = process_csi b t
process_in osc b t = some (record t { esc_state = next_state osc b })
process_in osc_esc b t = some (record t { esc_state = next_state osc_esc b })
process_in dcs b t = some (record t { esc_state = next_state dcs b })
process_in dcs_esc b t = some (record t { esc_state = next_state dcs_esc b })
process_in charset b t = some (record t { esc_state = next_state charset b })

unfoldable pub process_byte : ℕ → Terminal → Option Terminal
process_byte b t = process_in t.esc_state b (record t { dirty = true })

-- The loop of main over the bytes that were read.
unfoldable pub process_bytes : List ℕ → Terminal → Option Terminal
process_bytes [] t = some t
process_bytes (b ∷ rest) t = process_byte b t >>= process_bytes rest
