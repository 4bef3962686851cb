-- ===== src/Wayland/Closure/Tests.antt =====
-- Messages at concrete inputs, and the theorems on them at inputs that meet their hypotheses.
use k1os.Prelude.{
  ℕ, ◌≡◌, ◌↔◌, refl, Bool, true, false, none, some, List, [], ◌∷◌, ◌++◌, arith, Succeeds, replicate,
}
use k1os.Wayland.Cyclic.{window}
use k1os.Wayland.Ring.{Ring, ring_size}
use k1os.Wayland.Ring.Contents.{IsRing}
use k1os.Wayland.IdMap.{IdMap, server, map_init}
use k1os.Wayland.Word.{word_bytes, div_roundup}
use k1os.Wayland.Signature.{
  uint, string, arg_count_for_signature, message_count_arrays, arguments, arg_type,
  get_next_argument, next_from,
}
use k1os.Wayland.Closure.{number, text, name, reference, Object, Closure, details_of}
use k1os.Wayland.Closure.Lookup.{lookup_objects}
use k1os.Wayland.Closure.Lookup.Laws.{Resolved, lookup_objects_iff}
use k1os.Wayland.Closure.Serialize.{
  serialize_closure, serialized, put_arguments, put_argument, put_word, put_block, put_bytes,
  with_header, size_and_opcode, buffer_size_for_closure, words_from, argument_words,
}
use k1os.Wayland.Closure.Room.{words_of, Filled, serialize_closure-Filled}
use k1os.Wayland.Closure.Demarshal.{demarshal}
use k1os.Wayland.Closure.Transfer.{no_nul}
use k1os.Wayland.Closure.Messages.{end, argument}
use k1os.Wayland.Closure.Delivery.{Delivered, demarshal-serialize_closure}
use k1os.Wayland.Connection.{Connection}
use k1os.Wayland.Connection.Send.Flushing.{IsSender}
use k1os.Wayland.Closure.Sending.{closure_send}
use k1os.Wayland.Closure.Sending.Laws.{Messaged, closure_send-Messaged}

abbrev plenty : ℕ → Bool
plenty n = true

abbrev memory : ℕ → Object
memory p = record { id = p; interface = [] }

-- The signature "us": a number and a string.
abbrev greeting : Closure
greeting = record {
  message = record { signature = 117 ∷ 115 ∷ []; types = none ∷ none ∷ [] };
  count = 2;
  opcode = 3;
  sender_id = 5;
  args = number 7 ∷ text (some (104 ∷ 105 ∷ [])) ∷ [];
}

abbrev greeting_bytes : List ℕ
greeting_bytes =
    5 ∷ 0 ∷ 0 ∷ 0 ∷ 3 ∷ 0 ∷ 20 ∷ 0 ∷ 7 ∷ 0 ∷ 0 ∷ 0 ∷ 3 ∷ 0 ∷ 0 ∷ 0 ∷ 104 ∷ 105 ∷ 0 ∷ 0 ∷ []

serialized_greeting :
    serialize_closure memory greeting (replicate 20 0) ≡ some (serialized 20 greeting_bytes)
unfolding serialize_closure put_arguments arguments arg_count_for_signature arg_type
    get_next_argument next_from put_argument put_word put_block put_bytes div_roundup with_header
    word_bytes size_and_opcode
serialized_greeting = refl

-- 32 bytes, of which 20 are the message and one is behind it.
abbrev input : Ring
input = record {
  buf = greeting_bytes ++ 9 ∷ replicate 11 0;
  head = 21;
  tail = 0;
  size_bits = 5;
  max_size_bits = 0;
}

abbrev no_fds : Ring
no_fds = record { buf = 0 ∷ []; head = 0; tail = 0; size_bits = 0; max_size_bits = 0 }

abbrev objects : IdMap
objects = map_init server

input-IsRing : IsRing input
unfolding ring_size
input-IsRing = omega arith

no_fds-IsRing : IsRing no_fds
unfolding ring_size
no_fds-IsRing = omega arith

demarshal-serialize_closure_example :
    Succeeds
      (Delivered memory greeting (9 ∷ []) [] objects)
      (demarshal plenty 0 input no_fds 20 objects greeting.message)
unfolding ring_size window arguments arg_count_for_signature arg_type no_nul get_next_argument
    next_from message_count_arrays
demarshal-serialize_closure_example =
    demarshal-serialize_closure plenty 0 memory greeting (replicate 20 0) 20 greeting_bytes []
      (9 ∷ []) [] objects objects input no_fds (omega arith) (omega arith) (omega arith)
      (omega arith) (omega arith) refl
      (argument uint _ (number 7) (omega arith) refl
        (argument string _ (text (some (104 ∷ 105 ∷ []))) (omega arith, refl) refl end))
      serialized_greeting input-IsRing refl no_fds-IsRing refl

serialize_closure-Filled_example :
    Succeeds (Filled (replicate 20 0)) (serialize_closure memory greeting (replicate 20 0))
unfolding arguments arg_count_for_signature arg_type no_nul get_next_argument next_from
    buffer_size_for_closure words_from argument_words div_roundup words_of
serialize_closure-Filled_example =
    serialize_closure-Filled memory greeting (replicate 20 0)
      (omega arith, ((omega arith, refl), tt)) (omega arith) refl

-- An argument of type `o` with the id 0, where nothing is stored.
abbrev pointing : Closure
pointing = record {
  message = record { signature = 63 ∷ 111 ∷ []; types = some (119 ∷ []) ∷ [] };
  count = 1;
  opcode = 0;
  sender_id = 5;
  args = name 0 ∷ [];
}

lookup_objects_iff_example :
    (lookup_objects memory objects pointing
      ≡ some (record { done = true; args = reference 0 ∷ [] }))
    ↔ Resolved memory objects pointing.message.types 0
        (details_of pointing.message)
        pointing.args
        (reference 0 ∷ [])
lookup_objects_iff_example = lookup_objects_iff memory objects pointing (reference 0 ∷ [])

abbrev outgoing : Connection
outgoing = record {
  input = input;
  out = input;
  fds_in = no_fds;
  fds_out = record { buf = replicate 8 0; head = 4; tail = 4; size_bits = 3; max_size_bits = 12 };
  socket = 3;
  want_flush = false;
}

outgoing-IsSender : IsSender outgoing
unfolding ring_size
outgoing-IsSender = omega arith

closure_send-Messaged_example :
    Succeeds
      (Messaged memory plenty greeting outgoing)
      (closure_send memory plenty (λ (n : ℕ). replicate n 0) greeting outgoing [])
unfolding arguments arg_count_for_signature arg_type no_nul get_next_argument next_from
    buffer_size_for_closure words_from argument_words div_roundup words_of ring_size
closure_send-Messaged_example =
    closure_send-Messaged memory plenty greeting outgoing [] (refl, (refl, tt))
      (omega arith, ((omega arith, refl), tt)) (omega arith) refl outgoing-IsSender (omega arith) tt
