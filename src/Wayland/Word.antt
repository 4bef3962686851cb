-- ===== src/Wayland/Word.antt =====
-- uint32_t words in memory, as the bytes of a little-endian machine, and div_roundup of
-- packages/wayland/build/src/connection.c.
use k1os.Prelude.{
  ℕ, Bool, leb, ◌-◌, if◌then◌else◌, ◌+◌, ◌*◌, ◌/◌, ◌%◌, ◌^◌, ◌≤◌, ◌<◌, ◌≡◌, refl, ap, List, [], ◌∷◌,
  ◌++◌, arith, length, drop,
}

-- What an int of 32 bits keeps of a number: its bits as a word. One of 2 ^ 31 or more is negative.
abbrev pub int_word : ℕ → ℕ
int_word n = n % 2 ^ 32

abbrev pub is_negative : ℕ → Bool
is_negative w = leb (2 ^ 31) w

-- The int of such a word as a size_t.
abbrev pub size_of_int : ℕ → ℕ
size_of_int w = if is_negative w then w + (2 ^ 64 - 2 ^ 32) else w

unfoldable pub word_bytes : ℕ → List ℕ
word_bytes w = w % 256 ∷ w / 256 % 256 ∷ w / 65536 % 256 ∷ w / 16777216 % 256 ∷ []

-- `*p`, where at least four bytes are left.
unfoldable pub word_at : List ℕ → ℕ
word_at (a ∷ b ∷ c ∷ d ∷ rest) = a + b * 256 + c * 65536 + d * 16777216
word_at _ = 0

-- The descriptors that bytes stand for, four each.
unfoldable pub words : List ℕ → List ℕ
words (a ∷ b ∷ c ∷ d ∷ rest) = word_at (a ∷ b ∷ c ∷ d ∷ []) ∷ words rest
words _ = []

-- `(uint32_t) (((uint64_t) n + (a - 1)) / a)` with 4 for `a`.
unfoldable pub div_roundup : ℕ → ℕ
div_roundup n = (n + 3) / 4

pub word_at-word_bytes : (w : ℕ) (rest : List ℕ) → w < 2 ^ 32 → word_at (word_bytes w ++ rest) ≡ w
unfolding word_at word_bytes
word_at-word_bytes w rest h = omega arith

pub word_at-word_bytes_nil : (w : ℕ) → w < 2 ^ 32 → word_at (word_bytes w) ≡ w
unfolding word_at word_bytes
word_at-word_bytes_nil w h = omega arith

pub length-word_bytes : (w : ℕ) → length (word_bytes w) ≡ 4
unfolding word_bytes
length-word_bytes w = refl

pub drop-word_bytes : (w : ℕ) (rest : List ℕ) → drop 4 (word_bytes w ++ rest) ≡ rest
unfolding word_bytes
drop-word_bytes w rest = refl

pub div_roundup_bounds : (n : ℕ) → (n ≤ 4 * div_roundup n) × (4 * div_roundup n ≤ n + 3)
unfolding div_roundup
div_roundup_bounds n = omega arith

pub words-append : (xs ys : List ℕ) → length xs % 4 ≡ 0 → words (xs ++ ys) ≡ words xs ++ words ys
unfolding words
words-append [] ys h = refl
words-append (a ∷ []) ys h = absurd (omega arith)
words-append (a ∷ b ∷ []) ys h = absurd (omega arith)
words-append (a ∷ b ∷ c ∷ []) ys h = absurd (omega arith)
words-append (a ∷ b ∷ c ∷ d ∷ xs) ys h =
    ap (◌∷◌ (word_at (a ∷ b ∷ c ∷ d ∷ []))) (words-append xs ys (omega arith))

pub words_nil : words [] ≡ []
unfolding words
words_nil = refl
