-- ===== src/Wayland/Connection.antt =====
-- struct wl_connection of packages/wayland/build/src/connection.c: the queues of bytes and of
-- descriptors, and what goes through the socket.
pub mod Send
pub mod Receive
mod Tests
use mathlib.Core.List.{flatten}
use k1os.Prelude.{
  ℕ, zero, suc, ◌+◌, ◌-◌, ◌*◌, ◌/◌, ◌%◌, Bool, true, false, not, ◌&&◌, Option, none, some, List, [],
  ◌∷◌, ◌++◌, ltb, leb, ◌==◌, if◌then◌else◌, length, take, drop,
}
use k1os.Wayland.Array.{size_mod}
use k1os.Wayland.Word.{word_at, word_bytes}
use k1os.Wayland.Block.{slice}
use k1os.Wayland.IdMap.{Errno, e2big, enomem, eagain, eintr, eoverflow, Status, ok, failed}
use k1os.Wayland.Ring.{
  Ring, Ensured, ready, too_big, no_memory, ring_size, capacity, mask, ring_put, ring_copy,
  ring_consume, ring_get_iov, ring_ensure_space, get_max_size_bits_for_size,
}

-- `input` and `out` are the fields `in` and `out`.
pub record Connection : Type 0 where
  pub input : Ring
  pub out : Ring
  pub fds_in : Ring
  pub fds_out : Ring
  pub socket : ℕ
  pub want_flush : Bool

abbrev pub max_fds_out : ℕ
max_fds_out = 28

-- CMSG_LEN, on a machine of 64 bits.
abbrev pub cmsg_len : ℕ → ℕ
cmsg_len n = 16 + n

abbrev pub clen_max : ℕ
clen_max = cmsg_len (max_fds_out * 4)

abbrev pub buffer_default_max_size : ℕ
buffer_default_max_size = 4096

-- The loop of ring_buffer_close_fds: the descriptors that it closes, from the offset `p` on.
unfoldable pub close_from : List ℕ → ℕ → ℕ → ℕ → List ℕ
close_from buf size zero p = []
close_from buf size (suc n) p =
    let q = if leb size p then 0 else p in word_at (drop q buf) ∷ close_from buf size n (q + 4)

unfoldable pub ring_close_fds : Ring → ℕ → List ℕ
ring_close_fds b count = close_from b.buf (capacity b) count (mask b b.tail)

-- The queue and the descriptors that are closed. A `max` of 0 stands for one that is not positive.
unfoldable pub close_fds : Ring → ℕ → Ring × List ℕ
close_fds b max =
    let all = ring_size b / 4 in
    let count = if ltb 0 max && ltb max all then max else all in
    if ring_size b == 0 then (b, []) else (ring_consume b (count * 4), ring_close_fds b count)

unfoldable pub connection_close_fds_in : Connection → ℕ → Connection × List ℕ
connection_close_fds_in c max =
    let (fds_in, closed) = close_fds c.fds_in max in (record c { fds_in = fds_in }, closed)

-- A queue with no block yet, as zalloc leaves it.
abbrev pub no_ring : Ring
no_ring = record { buf = []; head = 0; tail = 0; size_bits = 0; max_size_bits = 0 }

-- The descriptors that are closed, those of `fds_out` first, and the socket.
unfoldable pub connection_destroy : Connection → List ℕ × ℕ
connection_destroy c = ((close_fds c.fds_out 0).1 ++ (close_fds c.fds_in 0).1, c.socket)

abbrev pub or_keep : Ring → Ensured → Ring
or_keep b (ready b') = b'
or_keep b too_big = b
or_keep b no_memory = b

module _ (can_alloc : ℕ → Bool) where
  -- The new limit, and a block for what is held. A failure is not reported.
  unfoldable pub limit_ring : ℕ → Ring → Ring
  limit_ring bits b =
      let b' = record b { max_size_bits = bits } in or_keep b' (ring_ensure_space can_alloc b' 0)

  unfoldable pub connection_set_max_buffer_size : Connection → ℕ → Connection
  connection_set_max_buffer_size c max_buffer_size =
      let bits = get_max_size_bits_for_size max_buffer_size in
      record c {
        fds_in = limit_ring bits c.fds_in;
        fds_out = limit_ring bits c.fds_out;
        input = limit_ring bits c.input;
        out = limit_ring bits c.out;
      }

  -- sizeof (struct wl_connection)
  abbrev pub connection_size : ℕ
  connection_size = 168

  unfoldable pub connection_create : ℕ → ℕ → Option Connection
  connection_create socket max_buffer_size =
      let empty : Connection = record {
        input = no_ring;
        out = no_ring;
        fds_in = no_ring;
        fds_out = no_ring;
        socket = 0;
        want_flush = false;
      } in
      let c = connection_set_max_buffer_size empty max_buffer_size in
      if can_alloc connection_size then some (record c { socket = socket }) else none

unfoldable pub connection_pending_input : Connection → ℕ
connection_pending_input c = ring_size c.input

unfoldable pub connection_copy : Connection → ℕ → List ℕ
connection_copy c size = ring_copy c.input size

unfoldable pub connection_consume : Connection → ℕ → Connection
connection_consume c size = record c { input = ring_consume c.input size }

unfoldable pub connection_get_fd : Connection → ℕ
connection_get_fd c = c.socket
