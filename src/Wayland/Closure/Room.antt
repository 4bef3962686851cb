-- ===== src/Wayland/Closure/Room.antt =====
-- The size that buffer_size_for_closure of packages/wayland/build/src/connection.c reserves, against
-- what serialize_closure writes.
use k1os.Prelude.{
  ℕ, ◌+◌, ◌-◌, ◌*◌, ◌%◌, ◌^◌, ◌≤◌, ◌<◌, ◌≡◌, refl, ◌∙◌, Bool, Option, none, some, ◌>>=◌, List, [],
  ◌∷◌, ◌++◌, arith, length, take, drop, length-append, length-drop, length-take, le→ltb, Succeeds,
  succeeds, Succeeds-bind,
}
use k1os.Wayland.Word.{length-word_bytes, div_roundup, div_roundup_bounds}
use k1os.Wayland.Signature.{
  ArgType, int, uint, fixed, string, object, new_id, array, fd, ArgumentDetails,
}
use k1os.Wayland.Closure.{
  Argument, number, text, reference, name, bytes, descriptor, Object, Closure, details_of,
}
use k1os.Wayland.Closure.Serialize.{
  Written, wrote, overflow, put_word, put_bytes, put_block, put_argument, put_arguments, Serialized,
  serialized, erange, size_and_opcode, serialize_closure, with_header, argument_words, block_words,
  words_from, buffer_size_for_closure, and_then,
}
use k1os.Wayland.Closure.RoundTrip.{Fits}
use k1os.Wayland.Closure.Header.{length-message_bytes}

-- The write succeeds with `n` words.
abbrev Took : ℕ → List ℕ → Written → Type 0
Took n left overflow = ⊥
Took n left (wrote out left') = (length out ≡ 4 * n) × (length left' + 4 * n ≡ length left)

put_word-Took : (w : ℕ) (left : List ℕ) → 4 ≤ length left → Took 1 left (put_word w left)
unfolding put_word
put_word-Took w left h =
    rw (le→ltb (length left) 4 h) (length-word_bytes w, omega (arith, length-drop 4 left))

put_bytes-Took :
    (src : List ℕ) (size : ℕ) (left : List ℕ)
    → size ≡ length src
    → 4 * div_roundup size ≤ length left
    → Took (div_roundup size) left (put_bytes src size left)
unfolding put_bytes
put_bytes-Took src size left e h =
    let room = 4 * div_roundup size in
    rw (le→ltb (length left) room h) (
      omega (
        arith,
        e,
        length-append (take size src) (take (room - size) (drop size left)),
        length-take size src,
        length-take (room - size) (drop size left),
        length-drop size left,
        div_roundup_bounds size,
      ),
      omega (arith, length-drop room left),
    )

and_then-Took :
    (n k : ℕ) (left : List ℕ) (w : Written) (next : List ℕ → Written)
    → Took n left w
    → ((left' : List ℕ) → length left' + 4 * n ≡ length left → Took k left' (next left'))
    → Took (n + k) left (and_then w next)
and_then-Took n k left overflow next h f = absurd h
and_then-Took n k left (wrote out left') next h f = joined (next left') (f left' h.1)
  where
    joined :
        (v : Written)
        → Took k left' v
        → Took
            (n + k)
            left
            (elim v [ overflow ↦ overflow | wrote out' left'' ↦ wrote (out ++ out') left'' ])
    joined overflow t = absurd t
    joined (wrote out' left'') t =
        (omega (arith, length-append out out', h, t), omega (arith, h, t))

put_block-Took :
    (src left : List ℕ)
    → length src < 2 ^ 32
    → 4 * block_words (length src) ≤ length left
    → Took (block_words (length src)) left (put_block src left)
unfolding put_block
put_block-Took src left small h =
    let size = length src % 2 ^ 32 in
    let same : size ≡ length src = omega arith in
    and_then-Took 1 (div_roundup size) left (put_word size left) (put_bytes src size)
      (put_word-Took size left (omega arith))
      λ left' e. put_bytes-Took src size left' same (omega arith)

module _ (memory : ℕ → Object) where
  abbrev pub FitsDetail : Option ArgType → Bool → Argument → Type 0
  FitsDetail none nullable a = ⊥
  FitsDetail (some t) nullable a = Fits memory t nullable a

  -- Arguments that a message can carry, for the types of a message.
  abbrev pub AllFit : List ArgumentDetails → List Argument → Type 0
  AllFit [] args = Unit
  AllFit (d ∷ ds) [] = ⊥
  AllFit (d ∷ ds) (a ∷ args) = FitsDetail d.type d.nullable a × AllFit ds args

  put_argument-Took :
      (t : ArgType) (nullable : Bool) (a : Argument) (left : List ℕ)
      → Fits memory t nullable a
      → 4 * argument_words t a ≤ length left
      → Succeeds (Took (argument_words t a) left) (put_argument memory t a left)
  unfolding put_argument argument_words
  put_argument-Took int nullable (number w) left h r = succeeds (put_word-Took w left r)
  put_argument-Took uint nullable (number w) left h r = succeeds (put_word-Took w left r)
  put_argument-Took fixed nullable (number w) left h r = succeeds (put_word-Took w left r)
  put_argument-Took string nullable (text none) left h r = succeeds (put_word-Took 0 left r)
  put_argument-Took string nullable (text (some s)) left h r =
      let e = length-append s (0 ∷ []) in
      succeeds (rw e at (put_block-Took (s ++ 0 ∷ []) left (omega (arith, e, h.0)) (rw e r)))
  put_argument-Took object nullable (reference p) left h r = succeeds (put_word-Took _ left r)
  put_argument-Took new_id nullable (name n) left h r = succeeds (put_word-Took n left r)
  put_argument-Took array nullable (bytes none) left h r = succeeds (put_word-Took 0 left r)
  put_argument-Took array nullable (bytes (some b)) left h r = succeeds (put_block-Took b left h r)
  put_argument-Took fd nullable (descriptor h) left w r = succeeds (refl, omega arith)
  put_argument-Took t nullable a left h r = absurd h

-- The words of the arguments, with no bound on their number.
unfoldable pub words_of : List ArgumentDetails → List Argument → ℕ
words_of [] args = 0
words_of (d ∷ ds) [] = 0
words_of (d ∷ ds) (a ∷ args) =
    let words : ℕ = elim d.type [ some t ↦ argument_words t a | none ↦ 0 ] in
    words + words_of ds args

words_from-words_of :
    (n : ℕ) (ds : List ArgumentDetails) (args : List Argument)
    → n < 2 ^ 32
    → words_from n ds args ≡ (n + words_of ds args) % 2 ^ 32
unfolding words_from words_of
words_from-words_of n [] args h = omega arith
words_from-words_of n (d ∷ ds) [] h = omega arith
words_from-words_of n (d ∷ ds) (a ∷ args) h =
    let words : ℕ = elim d.type [ some t ↦ argument_words t a | none ↦ 0 ] in
    words_from-words_of ((n + words) % 2 ^ 32) ds args (omega arith) ∙ omega arith

-- The message fills the whole buffer.
abbrev pub Filled : List ℕ → Serialized → Type 0
Filled buffer erange = ⊥
Filled buffer (serialized size buf) = (size ≡ length buffer) × (length buf ≡ length buffer)

module _ (memory : ℕ → Object) where
  and_rest :
      (n k : ℕ) (left : List ℕ) (w : Written) (rest : List ℕ → Option Written)
      → Took n left w
      → 4 * (n + k) ≤ length left
      → ((left' : List ℕ) → 4 * k ≤ length left' → Succeeds (Took k left') (rest left'))
      → Succeeds (Took (n + k) left) (elim w [
        | overflow ↦ some overflow
        | wrote out left' ↦ rest left' >>= λ w'. elim w' [
          | overflow ↦ some overflow
          | wrote out' left'' ↦ some (wrote (out ++ out') left'')
        ]
      ])
  and_rest n k left overflow rest h r f = absurd h
  and_rest n k left (wrote out left') rest h r f = Succeeds-bind (f left' (omega arith)) joined
    where
      joined :
          (v : Written)
          → Took k left' v
          → Succeeds (Took (n + k) left) (elim v [
            | overflow ↦ some overflow
            | wrote out' left'' ↦ some (wrote (out ++ out') left'')
          ])
      joined overflow t = absurd t
      joined (wrote out' left'') t =
          succeeds (omega (arith, length-append out out', h, t), omega (arith, h, t))

  FitsDetail-some :
      (type : Option ArgType) (nullable : Bool) (a : Argument)
      → FitsDetail memory type nullable a
      → (t : ArgType) × (type ≡ some t) × Fits memory t nullable a
  FitsDetail-some none nullable a h = absurd h
  FitsDetail-some (some t) nullable a h = (t, refl, h)

  put_arguments-Took :
      (ds : List ArgumentDetails) (args : List Argument) (left : List ℕ)
      → AllFit memory ds args
      → 4 * words_of ds args ≤ length left
      → Succeeds (Took (words_of ds args) left) (put_arguments memory ds args left)
  unfolding put_arguments words_of
  put_arguments-Took [] args left h r = succeeds (refl, omega arith)
  put_arguments-Took (d ∷ ds) [] left h r = absurd h
  put_arguments-Took (d ∷ ds) (a ∷ args) left h r =
      let (t, e, fits) = FitsDetail-some d.type d.nullable a h.0 in
      let words : ℕ = elim d.type [ some t ↦ argument_words t a | none ↦ 0 ] in
      let same : words ≡ argument_words t a = rw e refl in
      rw e (
        Succeeds-bind (put_argument-Took memory t d.nullable a left fits (omega (arith, same, r)))
          λ w took.
            and_rest (argument_words t a) (words_of ds args) left w (put_arguments memory ds args)
              took (omega (arith, same, r)) λ left' r'. put_arguments-Took ds args left' h.1 r')

  -- Arguments that fit their types, of fewer than 2 ^ 32 bytes in all with the two words in front,
  -- are written into a buffer of the size that buffer_size_for_closure gives: there is no overflow,
  -- and the message takes up the whole buffer.
  pub serialize_closure-Filled :
      (c : Closure) (buffer : List ℕ)
      → AllFit memory (details_of c.message) c.args
      → 4 * (words_of (details_of c.message) c.args + 2) < 2 ^ 32
      → length buffer ≡ 4 * buffer_size_for_closure c
      → Succeeds (Filled buffer) (serialize_closure memory c buffer)
  unfolding serialize_closure buffer_size_for_closure with_header
  serialize_closure-Filled c buffer fit small sized =
      let words = words_of (details_of c.message) c.args in
      let e = words_from-words_of 0 (details_of c.message) c.args (omega arith) in
      let size : length buffer ≡ 4 * (words + 2) = omega (arith, sized, e) in
      rw (le→ltb (length buffer) 8 (omega (arith, size))) (
        Succeeds-bind
          (put_arguments-Took (details_of c.message) c.args (drop 8 buffer) fit
            (omega (arith, size, length-drop 8 buffer)))
          λ w took. succeeds (filled w took size))
    where
      filled :
          (w : Written)
          → Took (words_of (details_of c.message) c.args) (drop 8 buffer) w
          → length buffer ≡ 4 * (words_of (details_of c.message) c.args + 2)
          → Filled buffer (with_header c w)
      filled overflow took size = absurd took
      filled (wrote out left) took size =
          let second = size_and_opcode ((8 + length out) % 2 ^ 32) c.opcode in
          (
            omega (arith, took, size),
            omega (
              arith,
              took,
              size,
              length-message_bytes c.sender_id second (out ++ left),
              length-append out left,
              length-drop 8 buffer,
            ),
          )
