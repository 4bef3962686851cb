-- ===== src/Wayland/Closure/OneArgument.antt =====
-- Each argument of a message, by its type, from serialize_closure to wl_connection_demarshal.
use k1os.Prelude.{
  ℕ, ◌+◌, ◌%◌, ◌^◌, ◌<◌, ◌≡◌, refl, sym, ap, subst, ◌∙◌, Bool, true, false, none, some, List, [],
  ◌∷◌, ◌++◌, arith, ltb, length, length-append, length-drop,
}
use mathlib.Core.List.{append_assoc}
use k1os.Wayland.Word.{word_bytes, word_at, length-word_bytes, div_roundup_bounds}
use k1os.Wayland.Ring.{Ring, ring_consume}
use k1os.Wayland.Ring.Contents.{IsRing, contents}
use k1os.Wayland.IdMap.{IdMap}
use k1os.Wayland.Signature.{ArgType, int, uint, fixed, string, object, new_id, array, fd}
use k1os.Wayland.Closure.{Argument, number, text, reference, name, bytes, descriptor, Object}
use k1os.Wayland.Closure.Serialize.{wrote, put_word, put_block, put_argument}
use k1os.Wayland.Closure.Demarshal.{
  Reader, read, read_string, read_fd, read_type, read_argument, takes_word, skip_word,
}
use k1os.Wayland.Closure.Transfer.{
  put_word-wrote, put_block-wrote, IsBlock, IsPad, read_array-block, read_string-block,
}
use k1os.Wayland.Closure.RoundTrip.{
  IsWord, Fits, received, id_at, fd_bytes, reader, detail, fds_after, Reserves, read_word,
  numeral_read, read_object-word, read_new_id-word, not_empty, next_fd, has_word,
}

-- What is written is a word.
from_word :
    (w : ℕ) (left out left' : List ℕ) (P : List ℕ → Type 0)
    → some (put_word w left) ≡ some (wrote out left')
    → P (word_bytes w)
    → P out
from_word w left out left' P h p =
    let e : put_word w left ≡ wrote out left' = cc in
    subst P (sym (put_word-wrote w left out left' e).0) p

block_lem :
    (src out left left' : List ℕ)
    → IsWord (length src)
    → some (put_block src left) ≡ some (wrote out left')
    → IsBlock src left out left'
block_lem src out left left' h e =
    let e' : put_block src left ≡ wrote out left' = cc in put_block-wrote src left out left' h e'

-- What is written and what is left make up the buffer, and whole words are written.
abbrev pub IsPart : List ℕ → List ℕ → List ℕ → Type 0
IsPart out left left' = (length out + length left' ≡ length left) × (length out % 4 ≡ 0)

word_fits :
    (w : ℕ) (left out left' : List ℕ)
    → some (put_word w left) ≡ some (wrote out left')
    → IsPart out left left'
word_fits w left out left' h =
    let e : put_word w left ≡ wrote out left' = cc in
    let p = put_word-wrote w left out left' e in
    omega (arith, ap length p.0, length-word_bytes w, ap length p.1, length-drop 4 left, p.2)

block_fits :
    (src out left left' : List ℕ)
    → IsWord (length src)
    → some (put_block src left) ≡ some (wrote out left')
    → IsPart out left left'
block_fits src out left left' h e =
    let b = block_lem src out left left' h e in
    (
      b.fits,
      omega (
        arith,
        ap length b.is_out,
        length-append (word_bytes (length src)) (src ++ b.pad),
        length-append src b.pad,
        length-word_bytes (length src),
        b.is_pad.sized,
      ),
    )

pub put_argument-IsPart :
    (memory : ℕ → Object) (t : ArgType) (nullable : Bool) (a : Argument) (left out left' : List ℕ)
    → Fits memory t nullable a
    → put_argument memory t a left ≡ some (wrote out left')
    → IsPart out left left'
unfolding put_argument
put_argument-IsPart memory int nullable (number w) left out left' h e = word_fits w left out left' e
put_argument-IsPart memory uint nullable (number w) left out left' h e =
    word_fits w left out left' e
put_argument-IsPart memory fixed nullable (number w) left out left' h e =
    word_fits w left out left' e
put_argument-IsPart memory string nullable (text none) left out left' h e =
    word_fits 0 left out left' e
put_argument-IsPart memory string nullable (text (some s)) left out left' h e =
    block_fits (s ++ 0 ∷ []) out left left' (omega (arith, length-append s (0 ∷ []), h.0)) e
put_argument-IsPart memory object nullable (reference p) left out left' h e =
    word_fits (id_at memory p) left out left' e
put_argument-IsPart memory new_id nullable (name n) left out left' h e =
    word_fits n left out left' e
put_argument-IsPart memory array nullable (bytes none) left out left' h e =
    word_fits 0 left out left' e
put_argument-IsPart memory array nullable (bytes (some b)) left out left' h e =
    block_fits b out left left' h e
put_argument-IsPart memory fd nullable (descriptor h) left out left' w e =
    let nothing : [] ≡ out = cc in
    let same : left ≡ left' = cc in omega (arith, ap length nothing, ap length same)
put_argument-IsPart memory t nullable a left out left' h e = absurd h

module _ (can_alloc : ℕ → Bool) (fresh : ℕ) (memory : ℕ → Object) (rest : List ℕ) (f : Ring)
    (m : IdMap) where
  -- The argument `a` is read where `out` stands.
  abbrev Reads : ArgType → Bool → Argument → IdMap → List ℕ → Type 0
  Reads t nullable a m' out =
      read_argument can_alloc fresh (detail t nullable) (reader (out ++ rest) f m)
      ≡ some (read (received memory a) (reader rest (fds_after t f) m'))

  number_lem :
      (t : ArgType) (nullable : Bool) (w : ℕ)
      → IsWord w
      → takes_word t ≡ true
      → ((r : Reader)
          → read_type can_alloc fresh t nullable r
            ≡ some (read (number (word_at r.rest)) (skip_word r)))
      → read_argument can_alloc fresh (detail t nullable) (reader (word_bytes w ++ rest) f m)
        ≡ some (read (number w) (reader rest f m))
  number_lem t nullable w h takes k =
      read_word can_alloc fresh w rest f m h t nullable _ takes
        (k _ ∙ numeral_read can_alloc fresh w rest f m h)

  opens :
      (t : ArgType) (nullable : Bool) (r : Reader) (w : ℕ) (tail : List ℕ)
      → takes_word t ≡ true
      → r.rest ≡ word_bytes w ++ tail
      → read_argument can_alloc fresh (detail t nullable) r ≡ read_type can_alloc fresh t nullable r
  unfolding read_argument
  opens t nullable r w tail takes at =
      let room : ltb (length r.rest) 4 ≡ false =
        ap (λ (xs : List ℕ). ltb (length xs) 4) at ∙ has_word w tail in
      rw (takes, room) refl

  -- Where a block is written, a reader of it gives what the type makes of the block.
  module _ (t : ArgType) (takes : takes_word t ≡ true) (nullable : Bool) (a : Argument)
      (src out left left' : List ℕ) (h : IsWord (length src))
      (e : some (put_block src left) ≡ some (wrote out left'))
      (small : length (out ++ rest) < 2 ^ 32) where
    from_block :
        ((pad : List ℕ) (r : Reader)
          → IsPad (length src) pad
          → r.rest ≡ word_bytes (length src) ++ ((src ++ pad) ++ rest)
          → length r.rest < 2 ^ 32
          → read_type can_alloc fresh t nullable r ≡ some (read a (record r { rest = rest })))
        → read_argument can_alloc fresh (detail t nullable) (reader (out ++ rest) f m)
          ≡ some (read a (reader rest f m))
    from_block k =
        let b = block_lem src out left left' h e in
        let r = reader (out ++ rest) f m in
        let at : r.rest ≡ word_bytes (length src) ++ ((src ++ b.pad) ++ rest) =
          ap (λ (o : List ℕ). o ++ rest) b.is_out
          ∙ append_assoc (word_bytes (length src)) (src ++ b.pad) rest in
        opens t nullable r (length src) ((src ++ b.pad) ++ rest) takes at
        ∙ k b.pad r b.is_pad at small

  text_lem :
      (nullable : Bool) (s out left left' : List ℕ)
      → Fits memory string nullable (text (some s))
      → some (put_block (s ++ 0 ∷ []) left) ≡ some (wrote out left')
      → length (out ++ rest) < 2 ^ 32
      → Reads string nullable (text (some s)) m out
  unfolding read_type received
  text_lem nullable s out left left' (h, k) e small =
      let src = s ++ (0 ∷ []) in
      let sized : IsWord (length src) = omega (arith, length-append s (0 ∷ []), h) in
      from_block string refl nullable (text (some s)) src out left left' sized e small
        (λ pad r p at l. ap some (read_string-block src pad rest r p at l s refl nullable k))

  bytes_lem :
      (nullable : Bool) (b out left left' : List ℕ)
      → IsWord (length b)
      → some (put_block b left) ≡ some (wrote out left')
      → length (out ++ rest) < 2 ^ 32
      → Reads array nullable (bytes (some b)) m out
  unfolding read_type received
  bytes_lem nullable b out left left' h e small =
      from_block array refl nullable (bytes (some b)) b out left left' h e small
        (λ pad r p at l. ap some (read_array-block b pad rest r p at l))

  -- A length of 0: no string, or an array with no bytes.
  no_text_lem : Reads string true (text none) m (word_bytes 0)
  unfolding read_type received read_string word_bytes word_at
  no_text_lem = opens string true (reader (word_bytes 0 ++ rest) f m) 0 rest refl refl

  no_bytes_lem :
      (nullable : Bool)
      → length (word_bytes 0 ++ rest) < 2 ^ 32
      → Reads array nullable (bytes none) m (word_bytes 0)
  unfolding read_type received
  no_bytes_lem nullable small =
      opens array nullable (reader (word_bytes 0 ++ rest) f m) 0 rest refl refl
      ∙ ap some (
          read_array-block [] [] rest (reader (word_bytes 0 ++ rest) f m)
            (record { sized = omega (arith, div_roundup_bounds 0) }) refl small)

  fd_lem :
      (nullable : Bool) (h : ℕ) (more : List ℕ)
      → IsRing f
      → IsWord h
      → contents f ≡ word_bytes h ++ more
      → Reads fd nullable (descriptor h) m []
  unfolding read_argument read_type received read_fd
  fd_lem nullable h more v w held = rw (not_empty h more f v w held) (
      ap (λ n. some (read (descriptor n) (reader rest (ring_consume f 4) m)))
        (next_fd h more f v w held))

  -- The argument is read as the sender had it, with an id for a pointer.
  pub argument_lem :
      (t : ArgType) (nullable : Bool) (a : Argument) (out left left' more : List ℕ) (m' : IdMap)
      → put_argument memory t a left ≡ some (wrote out left')
      → Fits memory t nullable a
      → Reserves can_alloc fresh t a m m'
      → IsRing f
      → contents f ≡ fd_bytes t a ++ more
      → length (out ++ rest) < 2 ^ 32
      → Reads t nullable a m' out
  unfolding put_argument received read_type
  argument_lem int nullable (number w) out left left' more m' e h same v held small =
      subst (λ x. Reads int nullable (number w) x out) (sym same)
        (from_word w left out left' (Reads int nullable (number w) m) e
          (number_lem int nullable w h refl (λ r. refl)))
  argument_lem uint nullable (number w) out left left' more m' e h same v held small =
      subst (λ x. Reads uint nullable (number w) x out) (sym same)
        (from_word w left out left' (Reads uint nullable (number w) m) e
          (number_lem uint nullable w h refl (λ r. refl)))
  argument_lem fixed nullable (number w) out left left' more m' e h same v held small =
      subst (λ x. Reads fixed nullable (number w) x out) (sym same)
        (from_word w left out left' (Reads fixed nullable (number w) m) e
          (number_lem fixed nullable w h refl (λ r. refl)))
  argument_lem string nullable (text none) out left left' more m' e h same v held small =
      subst (λ x. Reads string nullable (text none) x out) (sym same)
        (subst (λ b. Reads string b (text none) m out) (sym h)
          (from_word 0 left out left' (Reads string true (text none) m) e no_text_lem))
  argument_lem string nullable (text (some s)) out left left' more m' e h same v held small =
      subst (λ x. Reads string nullable (text (some s)) x out) (sym same)
        (text_lem nullable s out left left' h e small)
  argument_lem object nullable (reference p) out left left' more m' e (h, k) same v held small =
      subst (λ x. Reads object nullable (reference p) x out) (sym same)
        (from_word (id_at memory p) left out left' (Reads object nullable (reference p) m) e (
          read_word can_alloc fresh (id_at memory p) rest f m h object nullable _ refl
            (ap some (read_object-word can_alloc fresh (id_at memory p) rest f m h nullable k))))
  argument_lem new_id nullable (name n) out left left' more m' e (h, k) reserved v held small =
      from_word n left out left' (Reads new_id nullable (name n) m') e (
        read_word can_alloc fresh n rest f m h new_id nullable _ refl
          (read_new_id-word can_alloc fresh n rest f m h m' k reserved))
  argument_lem array nullable (bytes none) out left left' more m' e h same v held small =
      subst (λ x. Reads array nullable (bytes none) x out) (sym same)
        (from_word 0 left out left'
          (λ o. length (o ++ rest) < 2 ^ 32 → Reads array nullable (bytes none) m o) e
          (no_bytes_lem nullable) small)
  argument_lem array nullable (bytes (some b)) out left left' more m' e h same v held small =
      subst (λ x. Reads array nullable (bytes (some b)) x out) (sym same)
        (bytes_lem nullable b out left left' h e small)
  argument_lem fd nullable (descriptor h) out left left' more m' e w same v held small =
      let nothing : [] ≡ out = cc in
      subst (λ x. Reads fd nullable (descriptor h) x out) (sym same)
        (subst (Reads fd nullable (descriptor h) m) nothing (fd_lem nullable h more v w held))
  argument_lem t nullable a out left left' more m' e h same v held small = absurd h
