-- ===== src/Wayland/Connection/Receive.antt =====
-- wl_connection_read and decode_cmsg of packages/wayland/build/src/connection.c. The answers of recvmsg are
-- a list, one for each call.
pub mod Scatter
pub mod Decoding
pub mod Filling
pub mod Gathering
pub mod Reading
use k1os.Prelude.{
  ℕ, suc, ◌+◌, ◌-◌, ◌%◌, ◌^◌, Bool, true, false, not, ◌&&◌, ◌||◌, List, [], ◌∷◌, ◌++◌, ltb, ◌==◌,
  if◌then◌else◌, length, take, drop,
}
use k1os.Wayland.Array.{size_mod}
use k1os.Wayland.Word.{words, int_word, is_negative}
use k1os.Wayland.Block.{blit}
use k1os.Wayland.IdMap.{Errno, e2big, enomem, eagain, eintr, eoverflow}
use k1os.Wayland.Ring.{
  Ring, Ensured, ready, too_big, no_memory, ring_size, ring_put, ring_put_iov, ring_ensure_space,
  ring_is_max_size_reached,
}
use k1os.Wayland.Connection.{Connection}

-- A control message: the bytes of the descriptors that it passes, or one of another kind.
pub data Control : Type 0 where
  rights : List ℕ → Control
  unrelated : Control

-- An answer of recvmsg: the bytes and the control messages, the end of the stream, or the error.
pub data Answer : Type 0 where
  received : List ℕ → List Control → Answer
  end_of_file : Answer
  not_received : Errno → Answer

-- What a vectored read leaves in the block: the bytes fill the parts in order.
unfoldable pub scatter : List ℕ → List (ℕ × ℕ) → List ℕ → List ℕ
scatter buf [] bytes = buf
scatter buf ((offset, len) ∷ parts) bytes =
    scatter (blit buf offset (take len bytes)) parts (drop len bytes)

pub record Decoded : Type 0 where
  pub fds_in : Ring
  pub overflow : Bool
  pub closed : List ℕ

-- How a read ends: with the return value as a word, with the error, or in a call with no answer.
pub data Outcome : Type 0 where
  got : ℕ → Outcome
  error : Errno → Outcome
  blocked : Outcome

pub record Read : Type 0 where
  pub connection : Connection
  pub outcome : Outcome
  pub closed : List ℕ
  pub answers : List Answer

abbrev pub give : Connection → Outcome → List Answer → Read
give c o answers = record { connection = c; outcome = o; closed = []; answers = answers }

-- What is closed before the rest of a read.
abbrev pub after_closing : List ℕ → Read → Read
after_closing closed r = record r { closed = closed ++ r.closed }

-- The start of a round of wl_connection_read: the connection to read into, or how the read ends.
pub data Prepared : Type 0 where
  reads : Connection → Prepared
  ends : Outcome → Prepared

-- The bytes in the block, which count only once `head` is moved.
abbrev pub filled : Connection → List ℕ → Connection
filled c bytes = record c {
  input = record (c.input) { buf = scatter c.input.buf (ring_put_iov c.input) bytes };
}

abbrev pub advanced : Connection → ℕ → Connection
advanced c len = record c { input = record (c.input) { head = (c.input.head + len) % size_mod } }

-- `int data_size`, as a word.
abbrev pub data_size : Connection → ℕ
data_size c = int_word (ring_size c.input)

module _ (can_alloc : ℕ → Bool) where
  -- One round of the loop of decode_cmsg. A queue that has grown stays so where the descriptors are
  -- closed.
  unfoldable pub take_rights : List ℕ → Ring → Bool → Decoded
  take_rights bytes fds overflow = elim (ring_ensure_space can_alloc fds (length bytes)) [
    | ready b ↦ elim overflow [
      | true ↦ record { fds_in = b; overflow = true; closed = words bytes }
      | false ↦ record { fds_in = ring_put b bytes; overflow = false; closed = [] }
    ]
    | too_big ↦ record { fds_in = fds; overflow = true; closed = words bytes }
    | no_memory ↦ record { fds_in = fds; overflow = true; closed = words bytes }
  ]

  unfoldable pub decode_cmsg : List Control → Ring → Bool → Decoded
  decode_cmsg [] fds overflow = record { fds_in = fds; overflow = overflow; closed = [] }
  decode_cmsg (unrelated ∷ msgs) fds overflow = decode_cmsg msgs fds overflow
  decode_cmsg (rights bytes ∷ msgs) fds overflow =
      let d = take_rights bytes fds overflow in
      let rest = decode_cmsg msgs d.fds_in d.overflow in
      record rest { closed = d.closed ++ rest.closed }

  unfoldable pub prepare : Connection → Prepared
  prepare c =
      let ensured : Prepared = elim (ring_ensure_space can_alloc c.input 1) [
        | ready b ↦ reads (record c { input = b })
        | too_big ↦ ends (error e2big)
        | no_memory ↦ ends (error enomem)
      ] in
      if ring_is_max_size_reached c.input then ends (got (data_size c)) else ensured

  -- The calls of recvmsg, from a round on whose start is done.
  unfoldable pub read_from : List Answer → Connection → Read
  read_from [] c = give c blocked []
  read_from (not_received eintr ∷ answers) c = read_from answers c
  read_from (end_of_file ∷ answers) c = give c (got (data_size c)) answers
  read_from (not_received eagain ∷ answers) c =
      if ltb 0 (data_size c) && not (is_negative (data_size c))
      then give c (got (data_size c)) answers
      else give c (error eagain) answers
  read_from (not_received e ∷ answers) c = give c (error e) answers
  read_from (received bytes msgs ∷ answers) c =
      let d = decode_cmsg msgs c.fds_in false in
      let c' = record (filled c bytes) { fds_in = d.fds_in } in
      let c'' = advanced c' (length bytes) in
      let later : Read = elim (prepare c'') [
        | reads c''' ↦ read_from answers c'''
        | ends o ↦ give c'' o answers
      ] in
      after_closing d.closed (if d.overflow then give c' (error eoverflow) answers else later)

  unfoldable pub connection_read : Connection → List Answer → Read
  connection_read c answers = elim (prepare c) [
    | reads c' ↦ read_from answers c'
    | ends o ↦ give c o answers
  ]
