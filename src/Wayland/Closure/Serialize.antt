-- ===== src/Wayland/Closure/Serialize.antt =====
-- buffer_size_for_closure and serialize_closure of packages/wayland/build/src/connection.c: a
-- closure as the bytes of a message.
use k1os.Prelude.{
  ℕ, ◌+◌, ◌-◌, ◌*◌, ◌%◌, ◌^◌, Option, none, some, List, [], ◌∷◌, ◌++◌, ltb, ◌==◌, if◌then◌else◌,
  length, take, drop, ◌>>=◌,
}
use k1os.Wayland.Word.{word_bytes, div_roundup}
use k1os.Wayland.Signature.{
  ArgType, int, uint, fixed, string, object, new_id, array, fd, ArgumentDetails,
}
use k1os.Wayland.Closure.{
  Argument, number, text, reference, name, bytes, Closure, Object, details_of,
}

-- A block of `n` bytes behind its length, in words.
abbrev pub block_words : ℕ → ℕ
block_words n = 1 + div_roundup (n % 2 ^ 32)

-- The words that an argument adds to buffer_size.
unfoldable pub argument_words : ArgType → Argument → ℕ
argument_words fd a = 0
argument_words string (text (some s)) = block_words (length s + 1)
argument_words array (bytes (some b)) = block_words (length b)
argument_words t a = 1

unfoldable pub words_from : ℕ → List ArgumentDetails → List Argument → ℕ
words_from buffer_size [] args = buffer_size
words_from buffer_size (d ∷ ds) [] = buffer_size
words_from buffer_size (d ∷ ds) (a ∷ args) =
    let words : ℕ = elim d.type [ some t ↦ argument_words t a | none ↦ 0 ] in
    words_from ((buffer_size + words) % 2 ^ 32) ds args

unfoldable pub buffer_size_for_closure : Closure → ℕ
buffer_size_for_closure c = (words_from 0 (details_of c.message) c.args + 2) % 2 ^ 32

-- What is written at `p`, and the bytes from the new `p` to `end`.
pub data Written : Type 0 where
  wrote : List ℕ → List ℕ → Written
  overflow : Written

abbrev pub and_then : Written → (List ℕ → Written) → Written
and_then overflow f = overflow
and_then (wrote out left) f = elim (f left) [
  | overflow ↦ overflow
  | wrote out' left' ↦ wrote (out ++ out') left'
]

-- `if (p + 1 > end) goto overflow; *p++ = w;`
unfoldable pub put_word : ℕ → List ℕ → Written
put_word w left = if ltb (length left) 4 then overflow else wrote (word_bytes w) (drop 4 left)

-- `if (p + n > end) goto overflow; memcpy(p, src, size); p += n;` with `n` the words of `size`. The
-- bytes behind the copied ones stay.
unfoldable pub put_bytes : List ℕ → ℕ → List ℕ → Written
put_bytes src size left =
    let room = 4 * div_roundup size in
    if ltb (length left) room
    then overflow
    else wrote (take size src ++ take (room - size) (drop size left)) (drop room left)

-- The length of a block, and its bytes.
unfoldable pub put_block : List ℕ → List ℕ → Written
put_block src left =
    let size = length src % 2 ^ 32 in and_then (put_word size left) (put_bytes src size)

-- The size and the buffer, or ERANGE.
pub data Serialized : Type 0 where
  serialized : ℕ → List ℕ → Serialized
  erange : Serialized

-- `size << 16 | (closure->opcode & 0x0000ffff)`
unfoldable pub size_and_opcode : ℕ → ℕ → ℕ
size_and_opcode size opcode = size * 2 ^ 16 % 2 ^ 32 + opcode % 2 ^ 16

-- The size and the buffer: the two words in front are written last.
unfoldable pub with_header : Closure → Written → Serialized
with_header c overflow = erange
with_header c (wrote out left) =
    let size = (8 + length out) % 2 ^ 32 in
    serialized size
      (word_bytes c.sender_id ++ (word_bytes (size_and_opcode size c.opcode) ++ (out ++ left)))

-- A result of `none` is a read of a member of the union that is not in use.
module _ (memory : ℕ → Object) where
  unfoldable pub put_argument : ArgType → Argument → List ℕ → Option Written
  put_argument int (number w) left = some (put_word w left)
  put_argument uint (number w) left = some (put_word w left)
  put_argument fixed (number w) left = some (put_word w left)
  put_argument object (reference p) left =
      some (put_word (if p == 0 then 0 else (memory p).id) left)
  put_argument new_id (name n) left = some (put_word n left)
  put_argument string (text none) left = some (put_word 0 left)
  put_argument string (text (some s)) left = some (put_block (s ++ 0 ∷ []) left)
  put_argument array (bytes none) left = some (put_word 0 left)
  put_argument array (bytes (some b)) left = some (put_block b left)
  put_argument fd a left = some (wrote [] left)
  put_argument t a left = none

  -- The loop over the arguments.
  unfoldable pub put_arguments : List ArgumentDetails → List Argument → List ℕ → Option Written
  put_arguments [] args left = some (wrote [] left)
  put_arguments (d ∷ ds) [] left = none
  put_arguments (d ∷ ds) (a ∷ args) left =
      let one : Option Written = elim d.type [ some t ↦ put_argument t a left | none ↦ none ] in
      one >>= λ w. elim w [
        | overflow ↦ some overflow
        | wrote out left' ↦ put_arguments ds args left' >>= λ w'. elim w' [
          | overflow ↦ some overflow
          | wrote out' left'' ↦ some (wrote (out ++ out') left'')
        ]
      ]

  unfoldable pub serialize_closure : Closure → List ℕ → Option Serialized
  serialize_closure c buffer =
      let finish : Option Serialized =
        (put_arguments (details_of c.message) c.args (drop 8 buffer) >>= λ w.
        some (with_header c w)) in
      if ltb (length buffer) 8 then some erange else finish
