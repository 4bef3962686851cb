-- ===== src/Wayland/Closure/Header.antt =====
-- The two words in front of a message, and what serialize_closure of
-- packages/wayland/build/src/connection.c comes to where it succeeds.
use k1os.Prelude.{
  ℕ, ◌+◌, ◌%◌, ◌^◌, ◌≤◌, ◌≡◌, refl, sym, Option, none, some, ◌>>=◌, List, ◌++◌, arith, length, drop,
  length-append, lt→ltb, le→ltb, dec_lt,
}
use k1os.Wayland.Word.{word_bytes, length-word_bytes}
use k1os.Wayland.Closure.{Object, Closure, details_of}
use k1os.Wayland.Closure.Serialize.{
  Written, wrote, overflow, put_arguments, serialized, erange, serialize_closure, size_and_opcode,
  with_header,
}

-- The two words in front of the arguments, and these.
abbrev pub message_bytes : ℕ → ℕ → List ℕ → List ℕ
message_bytes sender second out = word_bytes sender ++ (word_bytes second ++ out)

pub length-message_bytes :
    (sender second : ℕ) (out : List ℕ) → length (message_bytes sender second out) ≡ 8 + length out
length-message_bytes sender second out = omega (
  arith,
  length-append (word_bytes sender) (word_bytes second ++ out),
  length-append (word_bytes second) out,
  length-word_bytes sender,
  length-word_bytes second,
)

pub drop-message_bytes :
    (sender second : ℕ) (out : List ℕ) → drop 8 (message_bytes sender second out) ≡ out
unfolding word_bytes
drop-message_bytes sender second out = refl

module _ (memory : ℕ → Object) where
  -- What serialize_closure comes to, where it succeeds.
  pub record Sent (c : Closure) (buffer : List ℕ) (size : ℕ) (buf : List ℕ) : Type 0 where
    pub out : List ℕ
    pub left : List ℕ
    pub is_out :
        put_arguments memory (details_of c.message) c.args (drop 8 buffer) ≡ some (wrote out left)
    pub room : 8 ≤ length buffer
    pub is_size : size ≡ (8 + length out) % 2 ^ 32
    pub is_buf :
        buf
        ≡ word_bytes c.sender_id ++ (word_bytes (size_and_opcode size c.opcode) ++ (out ++ left))

  with_header-Sent :
      (c : Closure) (buffer : List ℕ) (size : ℕ) (buf : List ℕ) (w : Option Written)
      → 8 ≤ length buffer
      → put_arguments memory (details_of c.message) c.args (drop 8 buffer) ≡ w
      → (w >>= λ w'. some (with_header c w')) ≡ some (serialized size buf)
      → Sent c buffer size buf
  unfolding with_header
  with_header-Sent c buffer size buf none r e h = cc
  with_header-Sent c buffer size buf (some overflow) r e h = cc
  with_header-Sent c buffer size buf (some (wrote out left)) r e h =
      let is_size : (8 + length out) % 2 ^ 32 ≡ size = cc in
      let is_buf : word_bytes c.sender_id
            ++ (word_bytes (size_and_opcode ((8 + length out) % 2 ^ 32) c.opcode) ++ (out ++ left))
          ≡ buf =
        cc in
      record {
        out = out;
        left = left;
        is_out = e;
        room = r;
        is_size = sym is_size;
        is_buf = rw is_size at (sym is_buf);
      }

  pub serialize_closure-Sent :
      (c : Closure) (buffer : List ℕ) (size : ℕ) (buf : List ℕ)
      → serialize_closure memory c buffer ≡ some (serialized size buf)
      → Sent c buffer size buf
  unfolding serialize_closure
  serialize_closure-Sent c buffer size buf h =
      let body = put_arguments memory (details_of c.message) c.args (drop 8 buffer) in
      elim (dec_lt (length buffer) 8) [
        | yes p ↦ absurd (not_erange (rw (lt→ltb (length buffer) 8 p) at h))
        | no p ↦
            with_header-Sent c buffer size buf body (omega arith) refl
              (rw (le→ltb (length buffer) 8 (omega arith)) at h)
      ]
    where
      not_erange : some erange ≡ some (serialized size buf) → ⊥
      not_erange e = cc
