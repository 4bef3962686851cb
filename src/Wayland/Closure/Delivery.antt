-- ===== src/Wayland/Closure/Delivery.antt =====
-- A message in the queue of its receiver: what wl_connection_demarshal of
-- packages/wayland/build/src/connection.c makes of what serialize_closure has written.
use k1os.Prelude.{
  lt→leb, ℕ, ◌+◌, ◌*◌, ◌/◌, ◌%◌, ◌^◌, ◌≤◌, ◌<◌, ◌≡◌, refl, sym, ap, ◌∙◌, Bool, true, none, some,
  List, [], ◌++◌, arith, length, take, drop, map, length-append, le→ltb, take-append, take_all,
  drop-append, length-drop, ==_ne, ◌≢◌, Succeeds, succeeds, Succeeds-bind,
}
use mathlib.Core.List.{append_assoc, append-nil}
use k1os.Wayland.Word.{int_word, word_bytes, word_at, word_at-word_bytes, drop-word_bytes}
use k1os.Wayland.Ring.{Ring, ring_copy, ring_consume, ring_size}
use k1os.Wayland.Ring.Contents.{IsRing, contents, length-contents, ring_copy_lem, ring_consume_lem}
use k1os.Wayland.IdMap.{IdMap}
use k1os.Wayland.Signature.{arg_count_for_signature, message_count_arrays}
use k1os.Wayland.Closure.{
  Object, Closure, Message, details_of, max_args, closure_init, made, closure_size, wl_array_size,
  clear_fds, zeroed,
}
use k1os.Wayland.Closure.Serialize.{serialized, serialize_closure, size_and_opcode}
use k1os.Wayland.Closure.Demarshal.{Demarshalled, demarshal, read_arguments}
use k1os.Wayland.Closure.RoundTrip.{received, reader, IsWord}
use k1os.Wayland.Closure.Messages.{Sendable, Received, arguments-Received, put_arguments-IsPart}
use k1os.Wayland.Closure.Header.{
  Sent, serialize_closure-Sent, message_bytes, length-message_bytes, drop-message_bytes,
}

-- The closure of the receiver, before its arguments are read.
abbrev empty_closure : Message → Closure
empty_closure message = record {
  message = message;
  count = arg_count_for_signature message.signature;
  opcode = 0;
  sender_id = 0;
  args = clear_fds (details_of message) (zeroed (details_of message));
}

-- The closure that the receiver has for the closure `c` of the sender.
abbrev pub delivered : (ℕ → Object) → Closure → Closure
delivered memory c = record {
  message = c.message;
  count = arg_count_for_signature c.message.signature;
  opcode = c.opcode;
  sender_id = c.sender_id;
  args = map (received memory) c.args;
}

-- The receiver has the sender's closure, and the queues and the map are as the message leaves them.
pub record Delivered (memory : ℕ → Object) (c : Closure) (later more : List ℕ) (m' : IdMap)
    (d : Demarshalled) : Type 0 where
  pub result_lem : d.result ≡ some (delivered memory c)
  pub no_error : d.error ≡ none
  pub none_closed : d.closed ≡ []
  pub input_lem : contents d.input ≡ later
  pub input_valid : IsRing d.input
  pub fds_lem : contents d.fds_in ≡ more
  pub fds_valid : IsRing d.fds_in
  pub objects_lem : d.objects ≡ m'

word_at-second :
    (sender second : ℕ) (out : List ℕ)
    → IsWord second
    → word_at (drop 4 (message_bytes sender second out)) ≡ second
word_at-second sender second out h =
    ap word_at (drop-word_bytes sender (word_bytes second ++ out)) ∙ word_at-word_bytes second out h

module _ (memory : ℕ → Object) (c : Closure) (buffer : List ℕ) (size : ℕ) (buf : List ℕ)
    (s : Sent memory c buffer size buf) (small : length buffer < 2 ^ 32)
    (whole : length s.out % 4 ≡ 0) (fits : 8 + length s.out ≤ length buffer) where
  abbrev second : ℕ
  second = size_and_opcode size c.opcode

  abbrev sent : List ℕ
  sent = message_bytes c.sender_id second s.out

  size_lem : size ≡ 8 + length s.out
  size_lem = omega (arith, s.is_size)

  take-size : take size buf ≡ sent
  take-size =
      ap (take size) (
        s.is_buf
        ∙ ap (λ (xs : List ℕ). word_bytes c.sender_id ++ xs)
            (sym (append_assoc (word_bytes second) s.out s.left))
        ∙ sym (append_assoc (word_bytes c.sender_id) (word_bytes second ++ s.out) s.left))
      ∙ take-append size sent s.left (length-message_bytes c.sender_id second s.out ∙ sym size_lem)

  all_words : 4 * (size / 4) ≡ size
  all_words = omega (arith, size_lem)

  arguments_at : drop 8 (take (4 * (size / 4)) sent) ≡ s.out
  arguments_at =
      ap (λ (n : ℕ). drop 8 (take n sent)) all_words
      ∙ ap (drop 8)
          (take_all size sent (length-message_bytes c.sender_id second s.out ∙ sym size_lem))
      ∙ drop-message_bytes c.sender_id second s.out

  opcode_lem : c.opcode < 2 ^ 16 → second % 2 ^ 16 ≡ c.opcode
  unfolding size_and_opcode
  opcode_lem h = omega arith

  second_lt : c.opcode < 2 ^ 16 → IsWord second
  unfolding size_and_opcode
  second_lt h = omega arith

closure_init-made :
    (can_alloc : ℕ → Bool) (message : Message) (size : ℕ)
    → arg_count_for_signature message.signature ≤ max_args
    → size ≢ 0
    → closure_size + (size + message_count_arrays message.signature * wl_array_size) < 2 ^ 31
    → can_alloc (closure_size + (size + message_count_arrays message.signature * wl_array_size))
      ≡ true
    → closure_init can_alloc message size none ≡ made (empty_closure message)
unfolding closure_init
closure_init-made can_alloc message size few some_bytes little memory =
    let n = closure_size + (size + message_count_arrays message.signature * wl_array_size) in
    let word : int_word n ≡ n = omega (arith, little) in
    rw
      (
        ==_ne size 0 some_bytes,
        word,
        lt→leb (2 ^ 31) n little,
        le→ltb max_args _ few,
        memory,
        le→ltb n n (omega arith),
      )
      refl

module _ (can_alloc : ℕ → Bool) (fresh : ℕ) (memory : ℕ → Object) where
  -- The receiver's steps, from what each of them comes to.
  demarshal-Delivered :
      (c : Closure) (size : ℕ) (input fds_in : Ring) (out later more : List ℕ) (m m' : IdMap)
      → 8 ≤ size
      → closure_init can_alloc c.message size none ≡ made (empty_closure c.message)
      → drop 8 (take (4 * (size / 4)) (ring_copy input size)) ≡ out
      → word_at (ring_copy input size) ≡ c.sender_id
      → word_at (drop 4 (ring_copy input size)) % 2 ^ 16 ≡ c.opcode
      → (contents (ring_consume input size) ≡ later) × IsRing (ring_consume input size)
      → Succeeds
          (Received can_alloc fresh memory c.args [] more m')
          (read_arguments can_alloc fresh (details_of c.message) (reader out fds_in m))
      → Succeeds
          (Delivered memory c later more m')
          (demarshal can_alloc fresh input fds_in size m c.message)
  unfolding demarshal
  demarshal-Delivered c size input fds_in out later more m m' long init at sender opcode left r =
      rw (le→ltb size 8 long, init, at)
        (Succeeds-bind r λ q h. succeeds (record {
          result_lem = rw (h.no_error, sender, opcode, h.args_lem) refl;
          no_error = h.no_error;
          none_closed = rw h.no_error refl;
          input_lem = left.0;
          input_valid = left.1;
          fds_lem = h.fds;
          fds_valid = h.valid;
          objects_lem = h.objects_lem;
        }))

  -- What serialize_closure writes, at the head of the receiver's queue and with the descriptors at
  -- the head of theirs, becomes the same closure again: the same sender, opcode and arguments, with
  -- an id for a pointer and an empty array for none. The receiver is left with what stood behind
  -- the message in both queues, no descriptor is closed, and its map has reserved the new ids. This
  -- holds for at most 20 arguments that fit their types and whose new ids the map accepts, a sender
  -- below 2 ^ 32, an opcode below 2 ^ 16, a buffer below 2 ^ 32 bytes, and memory for the closure, which
  -- takes fewer than 2 ^ 31 bytes.
  pub demarshal-serialize_closure :
      (c : Closure) (buffer : List ℕ) (size : ℕ) (buf fds later more : List ℕ) (m m' : IdMap)
      (input fds_in : Ring)
      → arg_count_for_signature c.message.signature ≤ max_args
      → IsWord c.sender_id
      → c.opcode < 2 ^ 16
      → length buffer < 2 ^ 32
      → closure_size + (size + message_count_arrays c.message.signature * wl_array_size) < 2 ^ 31
      → can_alloc (closure_size + (size + message_count_arrays c.message.signature * wl_array_size))
        ≡ true
      → Sendable can_alloc fresh memory (details_of c.message) c.args fds m m'
      → serialize_closure memory c buffer ≡ some (serialized size buf)
      → IsRing input
      → contents input ≡ take size buf ++ later
      → IsRing fds_in
      → contents fds_in ≡ fds ++ more
      → Succeeds
          (Delivered memory c later more m')
          (demarshal can_alloc fresh input fds_in size m c.message)
  demarshal-serialize_closure c buffer size buf fds later more m m' input fds_in few sender opcode
        small little alloc sendable written input_valid held fds_valid fds_held =
      let s = serialize_closure-Sent memory c buffer size buf written in
      let part =
        put_arguments-IsPart can_alloc fresh memory (drop 8 buffer) s.out s.left sendable
          s.is_out in
      let fits : 8 + length s.out ≤ length buffer =
        omega (arith, part, length-drop 8 buffer, s.room) in
      let size_is = size_lem memory c buffer size buf s small part.1 fits in
      let second = size_and_opcode size c.opcode in
      let sent = message_bytes c.sender_id second s.out in
      let sent_is = take-size memory c buffer size buf s small part.1 fits in
      let held' : contents input ≡ sent ++ later =
        held ∙ ap (λ (xs : List ℕ). xs ++ later) sent_is in
      let sent_length : length sent ≡ size =
        length-message_bytes c.sender_id second s.out ∙ sym size_is in
      let enough : size ≤ ring_size input =
        omega
          (arith, ap length held', length-append sent later, sent_length, length-contents input) in
      let copied : ring_copy input size ≡ sent =
        ring_copy_lem input size input_valid enough
        ∙ ap (take size) held'
        ∙ take-append size sent later sent_length in
      let consumed = ring_consume_lem input size input_valid enough in
      let all : s.out ++ [] ≡ s.out = append-nil s.out in
      demarshal-Delivered c size input fds_in s.out later more m m' (omega (arith, size_is))
        (closure_init-made can_alloc c.message size few (omega (arith, size_is)) little alloc)
        (ap (λ (xs : List ℕ). drop 8 (take (4 * (size / 4)) xs)) copied
          ∙ arguments_at memory c buffer size buf s small part.1 fits)
        (ap word_at copied ∙ word_at-word_bytes c.sender_id _ sender)
        (ap (λ (xs : List ℕ). word_at (drop 4 xs) % 2 ^ 16) copied
          ∙ ap (λ (n : ℕ). n % 2 ^ 16)
              (word_at-second c.sender_id second s.out
                (second_lt memory c buffer size buf s small part.1 fits opcode))
          ∙ opcode_lem memory c buffer size buf s small part.1 fits opcode)
        (consumed.0 ∙ ap (drop size) held' ∙ drop-append size sent later sent_length, consumed.1)
        (rw all at (
          arguments-Received can_alloc fresh memory (drop 8 buffer) s.out s.left [] more fds_in
            sendable s.is_out fds_valid fds_held (omega (arith, ap length all, fits, small))))
