-- ===== src/K1de/Palette.antt =====
-- The colours of packages/k1de/src/main.rs: the palette, and the reduction to its 16 entries.

pub mod Nearest
use k1os.Prelude.{ℕ, ◌+◌, ◌-◌, ◌*◌, ◌/◌, ◌%◌, ◌^◌, List, [], ◌∷◌, ltb, leb, if◌then◌else◌, get_or}

abbrev pub palette : List ℕ
palette =
    0x000000 ∷ 0xAA0000 ∷ 0x00AA00 ∷ 0xAA5500 ∷ 0x0000AA ∷ 0xAA00AA ∷ 0x00AAAA ∷ 0xAAAAAA ∷ 0x555555
    ∷ 0xFF5555 ∷ 0x55FF55 ∷ 0xFFFF55 ∷ 0x5555FF ∷ 0xFF55FF ∷ 0x55FFFF ∷ 0xFFFFFF ∷ []

-- The bytes at bits 16, 8 and 0.
abbrev pub red : ℕ → ℕ
red color = color / 2 ^ 16 % 256

abbrev pub green : ℕ → ℕ
green color = color / 2 ^ 8 % 256

abbrev pub blue : ℕ → ℕ
blue color = color % 256

-- Of three bytes.
unfoldable pub rgb : ℕ → ℕ → ℕ → ℕ
rgb r g b = r * 2 ^ 16 + g * 2 ^ 8 + b

abbrev levels : List ℕ
levels = 0 ∷ 95 ∷ 135 ∷ 175 ∷ 215 ∷ 255 ∷ []

-- Of a byte.
unfoldable pub ansi256_to_rgb : ℕ → ℕ
ansi256_to_rgb idx =
    let i = idx - 16 in
    let v = 8 + (idx - 232) * 10 in
    if leb idx 15
    then get_or palette idx 0
    else if leb idx 231
    then rgb (get_or levels (i / 36 % 6) 0) (get_or levels (i / 6 % 6) 0) (get_or levels (i % 6) 0)
    else rgb v v v

-- The square of the difference of two bytes, of either sign.
abbrev pub squared : ℕ → ℕ → ℕ
squared a b = (a - b + (b - a)) * (a - b + (b - a))

unfoldable pub dist : ℕ → ℕ → ℕ
dist color p =
    squared (red color) (red p) + squared (green color) (green p) + squared (blue color) (blue p)

-- The loop of nearest_16 over the entries `i` and on.
unfoldable pub nearest_from : ℕ → ℕ → List ℕ → ℕ → ℕ → ℕ
nearest_from color i [] best best_dist = best
nearest_from color i (p ∷ rest) best best_dist =
    let closer = nearest_from color (i + 1) rest i (dist color p) in
    let other = nearest_from color (i + 1) rest best best_dist in
    if ltb (dist color p) best_dist then closer else other

-- `i32::MAX` is where the search starts.
unfoldable pub nearest_16 : ℕ → ℕ
nearest_16 color = nearest_from color 0 palette 0 (2 ^ 31 - 1)
