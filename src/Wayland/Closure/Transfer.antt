-- ===== src/Wayland/Closure/Transfer.antt =====
-- One argument from the sender of a message to its receiver: what serialize_closure writes and what
-- wl_connection_demarshal makes of it.
use k1os.Prelude.{
  ℕ, ◌+◌, ◌-◌, ◌*◌, ◌/◌, ◌%◌, ◌^◌, ◌≤◌, ◌<◌, ◌≡◌, refl, ap, ap₂, ◌∙◌, Bool, true, false, not, ◌&&◌,
  some, List, [], ◌∷◌, ◌++◌, arith, ltb, ◌==◌, length, take, drop, get_or, length-append,
  length-take, length-drop, take_all, take-append, drop-append, le→ltb, ==_eq, ==_ne, Bool-cases,
  inl, inr, get_or-append_end,
}
use mathlib.Core.List.{append_assoc}
use k1os.Wayland.Word.{
  word_bytes, word_at, div_roundup, word_at-word_bytes, length-word_bytes, drop-word_bytes,
  div_roundup_bounds,
}
use k1os.Wayland.Closure.{text, bytes}
use k1os.Wayland.Closure.Serialize.{
  Written, wrote, overflow, and_then, put_word, put_bytes, put_block,
}
use k1os.Wayland.Closure.Demarshal.{Reader, read, c_string, read_string, read_array, too_short}

pub put_word-wrote :
    (w : ℕ) (left out left' : List ℕ)
    → put_word w left ≡ wrote out left'
    → (out ≡ word_bytes w) × (left' ≡ drop 4 left) × (4 ≤ length left)
unfolding put_word
put_word-wrote w left out left' h = elim (Bool-cases (ltb (length left) 4)) [
  | inl e ↦ ground (arith, e)
  | inr e ↦ ground (arith, e)
]

put_bytes-wrote :
    (src : List ℕ) (size : ℕ) (left out left' : List ℕ)
    → put_bytes src size left ≡ wrote out left'
    → (out ≡ take size src ++ take (4 * div_roundup size - size) (drop size left))
      × (left' ≡ drop (4 * div_roundup size) left)
      × (4 * div_roundup size ≤ length left)
unfolding put_bytes
put_bytes-wrote src size left out left' h =
    elim (Bool-cases (ltb (length left) (4 * div_roundup size))) [
      | inl e ↦ ground (arith, e)
      | inr e ↦ ground (arith, e)
    ]

-- Both parts of two writes that succeed.
record Both (first : Written) (next : List ℕ → Written) (out left : List ℕ) : Type 0 where
  out_first : List ℕ
  left_first : List ℕ
  out_next : List ℕ
  is_first : first ≡ wrote out_first left_first
  is_next : next left_first ≡ wrote out_next left
  joined : out ≡ out_first ++ out_next

and_then-wrote :
    (first : Written) (next : List ℕ → Written) (out left : List ℕ)
    → and_then first next ≡ wrote out left
    → Both first next out left
and_then-wrote overflow next out left h = absurd (not_wrote h)
  where
    not_wrote : overflow ≡ wrote out left → ⊥
    not_wrote e = cc
and_then-wrote (wrote o l) next out left h = by_next (next l) refl h
  where
    by_next :
        (w : Written)
        → next l ≡ w
        → (elim w [ overflow ↦ overflow | wrote out' left' ↦ wrote (o ++ out') left' ])
          ≡ wrote out left
        → Both (wrote o l) next out left
    by_next overflow e k = cc
    by_next (wrote o' l') e k = record {
      out_first = o;
      left_first = l;
      out_next = o';
      is_first = refl;
      is_next = e ∙ ap (wrote o') (cc);
      joined = cc;
    }

-- The bytes behind a block, up to the next word.
pub record IsPad (n : ℕ) (pad : List ℕ) : Type 0 where
  pub sized : n + length pad ≡ 4 * div_roundup n

-- A block with its length in front and the bytes behind it.
pub record IsBlock (src left out left' : List ℕ) : Type 0 where
  pub pad : List ℕ
  pub is_out : out ≡ word_bytes (length src) ++ (src ++ pad)
  pub is_pad : IsPad (length src) pad
  pub fits : length out + length left' ≡ length left

pub put_block-wrote :
    (src left out left' : List ℕ)
    → length src < 2 ^ 32
    → put_block src left ≡ wrote out left'
    → IsBlock src left out left'
unfolding put_block
put_block-wrote src left out left' small h =
    let n = length src in
    let same : n % 2 ^ 32 ≡ n = omega arith in
    let b = and_then-wrote (put_word n left) (put_bytes src n) out left' (rw same at h) in
    let w = put_word-wrote n left b.out_first b.left_first b.is_first in
    let c = put_bytes-wrote src n b.left_first b.out_next left' b.is_next in
    let pad = take (4 * div_roundup n - n) (drop n b.left_first) in
    let whole = take_all n src refl in
    let left_size : length b.left_first ≡ length left - 4 = ap length w.1 ∙ length-drop 4 left in
    let bounds = div_roundup_bounds n in
    let sized : n + length pad ≡ 4 * div_roundup n = omega (
      arith,
      length-take (4 * div_roundup n - n) (drop n b.left_first),
      length-drop n b.left_first,
      c.2,
      bounds,
    ) in
    let is_out : out ≡ word_bytes n ++ (src ++ pad) =
      b.joined ∙ ap₂ ◌++◌ w.0 (c.0 ∙ ap (λ (xs : List ℕ). xs ++ pad) whole) in
    record {
      pad = pad;
      is_out = is_out;
      is_pad = record { sized = sized };
      fits = omega (
        arith,
        ap length is_out,
        length-append (word_bytes n) (src ++ pad),
        length-append src pad,
        length-word_bytes n,
        sized,
        c.2,
        left_size,
        w.2,
        ap length c.1,
        length-drop (4 * div_roundup n) b.left_first,
      );
    }

-- No byte is NUL.
unfoldable pub no_nul : List ℕ → Bool
no_nul [] = true
no_nul (c ∷ s) = not (c == 0) && no_nul s

c_string-append : (s rest : List ℕ) → no_nul s ≡ true → c_string (s ++ (0 ∷ rest)) ≡ s
unfolding no_nul c_string
c_string-append [] rest h = refl
c_string-append (c ∷ s) rest h =
    let nonzero : (c == 0) ≡ false = ground arith in
    let others : no_nul s ≡ true = ground arith in
    rw nonzero (ap (◌∷◌ c) (c_string-append s rest others))

-- A reader at a block that put_block has written.
module _ (src pad rest : List ℕ) (r : Reader) (p : IsPad (length src) pad)
    (at : r.rest ≡ word_bytes (length src) ++ ((src ++ pad) ++ rest))
    (small : length r.rest < 2 ^ 32) where
  abbrev body : List ℕ
  body = (src ++ pad) ++ rest

  length-body : length body ≡ 4 * div_roundup (length src) + length rest
  length-body = omega (arith, length-append (src ++ pad) rest, length-append src pad, p.sized)

  body_lt : 4 + length body < 2 ^ 32
  body_lt = omega (
    arith,
    ap length at,
    length-append (word_bytes (length src)) body,
    length-word_bytes (length src),
    small,
  )

  src_lt : length src < 2 ^ 32
  src_lt = omega (arith, body_lt, length-body, div_roundup_bounds (length src))

  read_length : word_at r.rest ≡ length src
  read_length = ap word_at at ∙ word_at-word_bytes (length src) body src_lt

  skip_length : drop 4 r.rest ≡ body
  skip_length = ap (drop 4) at ∙ drop-word_bytes (length src) body

  not_too_short : too_short body (div_roundup (length src)) ≡ false
  not_too_short =
      le→ltb (length body / 4 % 2 ^ 32) (div_roundup (length src))
        (omega (arith, length-body, body_lt))

  drop-body : drop (4 * div_roundup (length src)) body ≡ rest
  drop-body =
      drop-append (4 * div_roundup (length src)) (src ++ pad) rest
        (omega (arith, length-append src pad, p.sized))

  take-body : take (length src) body ≡ src
  take-body = rw (append_assoc src pad rest) (take-append (length src) src (pad ++ rest) refl)

  pub read_array-block : read_array r ≡ read (bytes (some src)) (record r { rest = rest })
  unfolding read_array
  read_array-block =
      rw (read_length, skip_length, not_too_short)
        (ap₂ (λ b left. read (bytes (some b)) (record r { rest = left })) take-body drop-body)

  module _ (s : List ℕ) (e : src ≡ s ++ (0 ∷ [])) where
    length-src : length src ≡ length s + 1
    length-src = ap length e ∙ length-append s (0 ∷ [])

    at_nul : body ≡ s ++ (0 ∷ (pad ++ rest))
    at_nul =
        append_assoc src pad rest
        ∙ ap (λ (xs : List ℕ). xs ++ (pad ++ rest)) e
        ∙ append_assoc s (0 ∷ []) (pad ++ rest)

    terminated : get_or body (length src - 1) 1 ≡ 0
    terminated =
        ap (λ (xs : List ℕ). get_or xs (length src - 1) 1) at_nul
        ∙ get_or-append_end s (0 ∷ (pad ++ rest)) (length src - 1) 1 (omega (arith, length-src))

    pub read_string-block :
        (nullable : Bool)
        → no_nul s ≡ true
        → read_string nullable r ≡ read (text (some s)) (record r { rest = rest })
    unfolding read_string
    read_string-block nullable h =
        let nonempty : (length src == 0) ≡ false =
          ==_ne (length src) 0 (omega (arith, length-src)) in
        let ends : (get_or body (length src - 1) 1 == 0) ≡ true = ==_eq _ 0 terminated in
        rw (read_length, skip_length, nonempty, not_too_short, ends)
          (ap₂ (λ b left. read (text (some b)) (record r { rest = left }))
            (ap c_string at_nul ∙ c_string-append s (pad ++ rest) h) drop-body)
